-- ===== src/Tables/Parse.antt =====
-- The handlers of `TableParser`, its `result`, and `parse_table` (app/services/table_evidence.py).
pub mod Cover
pub mod Handlers
pub mod Grid
pub mod Result
pub mod Columns
use pdf_engine_toolbox.Base.{
  ℕ, zero, suc, ◌+◌, ◌-◌, ◌*◌, max, Bool, true, false, not, ◌&&◌, ◌||◌, Option, none, some, List,
  [], ◌∷◌, ◌++◌, ltb, leb, if◌then◌else◌, length, any, is_empty, is_some,
}
use pdf_engine_toolbox.Base.Int.{ℤ, pos, negsuc}
use pdf_engine_toolbox.Errors.{Text}
use pdf_engine_toolbox.Tables.{
  max_cells, max_span, TableStructureError, unclosed, invalid_order, invalid_span, span_limit,
  overlapping, mismatched_closing, invalid_row_closing, row_span_limit, grid_limit, Parsed, raised,
  parsed, Tag, tr, td, th, br, other_tag, Attributes, Event, starttag, endtag, data_event,
  Placement, Cell, Slot, TableParser, new_parser, is_th, closes, is_occupied, squeeze, join,
  free_column, slots,
}

-- `int(attributes.get(key, "1"))` and its range.
abbrev pub read_span : (Text → Option ℤ) → Option (Option Text) → Parsed ℕ
read_span parse_int none = parsed 1
read_span parse_int (some none) = raised invalid_span
read_span parse_int (some (some t)) = elim (parse_int t) [
  | none ↦ raised invalid_span
  | some (negsuc n) ↦ raised span_limit
  | some (pos n) ↦ if leb 1 n && leb n max_span then parsed n else raised span_limit
]

-- A cell takes the slots from column `c` of the open row.
unfoldable pub place : Tag → ℕ → ℕ → ℕ → TableParser → TableParser
place tag rs cs c p = record p {
  occupied = p.occupied ++ slots (p.row - 1) c rs cs;
  current = some (record {
    row_index = p.row - 1;
    column_index = c;
    row_span = rs;
    column_span = cs;
    is_header = is_th tag;
  });
  parts = [];
  cell_tag = some tag;
  col = c + cs;
}

-- Its slots must be free and the table not too large.
abbrev pub refuses : List Slot → List Slot → Bool
refuses occupied new =
    any (is_occupied occupied) new || ltb max_cells (length occupied + length new)

-- A cell whose spans are read.
unfoldable pub open_cell : Tag → ℕ → ℕ → TableParser → Parsed TableParser
unfolding free_column place
open_cell tag rs cs p =
    let c = free_column (length p.occupied) p.occupied (p.row - 1) p.col in
    if refuses p.occupied (slots (p.row - 1) c rs cs)
    then raised overlapping
    else parsed (place tag rs cs c p)

unfoldable pub start_row : TableParser → Parsed TableParser
start_row p =
    if is_some p.current || p.row_open
    then raised unclosed
    else parsed (record p { row = suc p.row; col = 0; row_open = true })

unfoldable pub start_cell : (Text → Option ℤ) → Tag → Attributes → TableParser → Parsed TableParser
unfolding open_cell
start_cell parse_int tag a p =
    if not p.row_open || is_some p.current
    then raised invalid_order
    else elim (read_span parse_int a.rowspan) [
      | raised e ↦ raised e
      | parsed rs ↦ elim (read_span parse_int a.colspan) [
        | raised e ↦ raised e
        | parsed cs ↦ open_cell tag rs cs p
      ]
    ]

abbrev pub add_part : Text → TableParser → TableParser
add_part t p = if is_some p.current then record p { parts = p.parts ++ t ∷ [] } else p

unfoldable pub handle_starttag :
    (Text → Option ℤ) → Tag → Attributes → TableParser → Parsed TableParser
unfolding start_row start_cell
handle_starttag parse_int tr a p = start_row p
handle_starttag parse_int td a p = start_cell parse_int td a p
handle_starttag parse_int th a p = start_cell parse_int th a p
handle_starttag parse_int br a p = parsed (add_part (10 ∷ []) p)
handle_starttag parse_int (other_tag t) a p = parsed p

abbrev pub cell_of : Placement → List Text → Cell
cell_of q parts = record {
  placement = q;
  raw_text = join parts;
  text = squeeze false false (join parts);
}

unfoldable pub end_cell : Tag → TableParser → Parsed TableParser
end_cell tag p = elim (p.current) [
  | none ↦ raised mismatched_closing
  | some q ↦
      if closes tag p.cell_tag
      then parsed
          (record p { cells = p.cells ++ cell_of q p.parts ∷ []; current = none; cell_tag = none })
      else raised mismatched_closing
]

unfoldable pub end_row : TableParser → Parsed TableParser
end_row p =
    if not p.row_open || is_some p.current
    then raised invalid_row_closing
    else parsed (record p { row_open = false })

unfoldable pub handle_endtag : Tag → TableParser → Parsed TableParser
unfolding end_cell end_row
handle_endtag td p = end_cell td p
handle_endtag th p = end_cell th p
handle_endtag tr p = end_row p
handle_endtag br p = parsed p
handle_endtag (other_tag t) p = parsed p

unfoldable pub handle : (Text → Option ℤ) → Event → TableParser → Parsed TableParser
unfolding handle_starttag handle_endtag
handle parse_int (starttag t a) p = handle_starttag parse_int t a p
handle parse_int (endtag t) p = handle_endtag t p
handle parse_int (data_event t) p = parsed (add_part t p)

unfoldable pub feed : (Text → Option ℤ) → List Event → TableParser → Parsed TableParser
unfolding handle
feed parse_int [] p = parsed p
feed parse_int (e ∷ es) p = elim (handle parse_int e p) [
  | raised x ↦ raised x
  | parsed q ↦ feed parse_int es q
]

-- `max(r for r, _ in self.occupied) + 1`, and the same of the columns.
abbrev pub height_of : List Slot → ℕ
height_of [] = 0
height_of (s ∷ ss) = max (suc s.0) (height_of ss)

abbrev pub width_of : List Slot → ℕ
width_of [] = 0
width_of (s ∷ ss) = max (suc s.1) (width_of ss)

abbrev pub repeat {ℓ} : {A : Type ℓ} → ℕ → A → List A
repeat zero x = []
repeat (suc n) x = x ∷ repeat n x

abbrev pub set_at {ℓ} : {A : Type ℓ} → ℕ → (A → A) → List A → List A
set_at i f [] = []
set_at zero f (x ∷ xs) = f x ∷ xs
set_at (suc i) f (x ∷ xs) = x ∷ set_at i f xs

-- `rows[cell["row_index"]][cell["column_index"]] = cell["text"]` for every cell
abbrev pub fill : List Cell → List (List Text) → List (List Text)
fill [] rows = rows
fill (c ∷ cs) rows =
    fill cs (set_at c.placement.row_index (set_at c.placement.column_index (λ t. c.text)) rows)

unfoldable pub result : TableParser → Parsed (List (List Text) × List Cell)
result p =
    let height = height_of p.occupied in
    let width = width_of p.occupied in
    if is_some p.current || p.row_open
    then raised unclosed
    else if is_empty p.occupied
    then parsed ([], [])
    else if ltb p.row height
    then raised row_span_limit
    else if ltb max_cells (height * width)
    then raised grid_limit
    else parsed (fill p.cells (repeat height (repeat width [])), p.cells)

unfoldable pub parse_table : (Text → Option ℤ) → List Event → Parsed (List (List Text) × List Cell)
unfolding feed result
parse_table parse_int es = elim (feed parse_int es new_parser) [
  | raised e ↦ raised e
  | parsed p ↦ result p
]
