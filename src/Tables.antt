-- ===== src/Tables.antt =====
-- app/services/table_evidence.py: `TableParser`, which turns the HTML of a recognised table into
-- cells and a grid. The events are those that Python's `html.parser` makes of the text. A set of
-- slots is a list; `row` counts the rows begun, one more than `self.row`.
pub mod Parse
pub mod Readers
use pdf_engine_toolbox.Base.{
  ℕ, zero, suc, ◌+◌, ◌-◌, ◌*◌, max, Bool, true, false, not, ◌&&◌, ◌||◌, Option, none, some, List,
  [], ◌∷◌, ◌++◌, ltb, leb, ◌==◌, if◌then◌else◌, length, any, is_empty,
}
use pdf_engine_toolbox.Base.Int.{ℤ, pos, negsuc}
use pdf_engine_toolbox.Errors.{Text}

abbrev pub max_cells : ℕ
max_cells = 20000

abbrev pub max_span : ℕ
max_span = 256

-- `TableStructureError`, with its messages.
pub data TableStructureError : Type 0 where
  unclosed invalid_order invalid_span span_limit overlapping : TableStructureError
  mismatched_closing invalid_row_closing row_span_limit grid_limit : TableStructureError
  unresolved_page invalid_dimensions invalid_cell_span : TableStructureError
  overlapping_cells invalid_geometry : TableStructureError

pub data Parsed (A : Type 0) : Type 0 where
  raised : TableStructureError → Parsed A
  parsed : A → Parsed A

pub data Tag : Type 0 where
  tr td th br : Tag
  other_tag : Text → Tag

-- An attribute is absent, or present without or with a value.
pub record Attributes : Type 0 where
  pub rowspan : Option (Option Text)
  pub colspan : Option (Option Text)

pub data Event : Type 0 where
  starttag : Tag → Attributes → Event
  endtag : Tag → Event
  data_event : Text → Event

-- Where a cell stands.
pub record Placement : Type 0 where
  pub row_index : ℕ
  pub column_index : ℕ
  pub row_span : ℕ
  pub column_span : ℕ
  pub is_header : Bool

pub record Cell : Type 0 where
  pub placement : Placement
  pub raw_text : Text
  pub text : Text

abbrev pub Slot : Type 0
Slot = ℕ × ℕ

pub record TableParser : Type 0 where
  pub cells : List Cell
  pub occupied : List Slot
  pub row : ℕ
  pub col : ℕ
  pub current : Option Placement
  pub parts : List Text
  pub row_open : Bool
  pub cell_tag : Option Tag

abbrev pub new_parser : TableParser
new_parser = record {
  cells = [];
  occupied = [];
  row = 0;
  col = 0;
  current = none;
  parts = [];
  row_open = false;
  cell_tag = none;
}

abbrev pub is_cell : Tag → Bool
is_cell td = true
is_cell th = true
is_cell _ = false

abbrev pub is_th : Tag → Bool
is_th th = true
is_th _ = false

-- `tag != self.cell_tag`, of the tags of cells
abbrev pub closes : Tag → Option Tag → Bool
closes td (some td) = true
closes th (some th) = true
closes _ _ = false

abbrev pub same_slot : Slot → Slot → Bool
same_slot a b = (a.0 == b.0) && (a.1 == b.1)

abbrev pub is_occupied : List Slot → Slot → Bool
is_occupied occupied s = any (same_slot s) occupied

-- `str.split` splits at these code points.
abbrev pub is_space : ℕ → Bool
is_space c =
    (leb 9 c && leb c 13)
    || (leb 28 c && leb c 32)
    || (c == 133)
    || (c == 160)
    || (c == 5760)
    || (leb 8192 c && leb c 8202)
    || (c == 8232)
    || (c == 8233)
    || (c == 8239)
    || (c == 8287)
    || (c == 12288)

-- `" ".join(raw.split())`; `started` says whether a word was written, `gap` whether space followed it.
abbrev pub squeeze : Bool → Bool → Text → Text
squeeze started gap [] = []
squeeze started gap (c ∷ t) =
    let rest = squeeze (started || not (is_space c)) (is_space c) t in
    if is_space c then rest else if started && gap then 32 ∷ c ∷ rest else c ∷ rest

abbrev pub join : List Text → Text
join [] = []
join (t ∷ ts) = t ++ join ts

-- `while (self.row, self.col) in self.occupied: self.col += 1`, on fuel.
unfoldable pub free_column : ℕ → List Slot → ℕ → ℕ → ℕ
free_column zero occupied r c = c
free_column (suc fuel) occupied r c =
    let next = free_column fuel occupied r (suc c) in
    if is_occupied occupied (r, c) then next else c

abbrev pub row_slots : ℕ → ℕ → ℕ → List Slot
row_slots r c zero = []
row_slots r c (suc n) = (r, c) ∷ row_slots r (suc c) n

abbrev pub slots : ℕ → ℕ → ℕ → ℕ → List Slot
slots r c zero cs = []
slots r c (suc rs) cs = row_slots r c cs ++ slots (suc r) c rs cs

abbrev pub slots_of : Placement → List Slot
slots_of p = slots p.row_index p.column_index p.row_span p.column_span
