-- ===== src/Tables/Readers/Docling.antt =====
-- app/services/table_docling.py: `map_document` and `read_page_result`, on what Docling returns.
use pdf_engine_toolbox.Base.{
  ℕ, zero, suc, ◌-◌, ◌*◌, Bool, true, false, ◌&&◌, Option, none, some, List, [], ◌∷◌, ◌++◌, ltb,
  leb, any, if◌then◌else◌,
}
use pdf_engine_toolbox.Base.Int.{ℤ, pos}
use pdf_engine_toolbox.Errors.{Text, codes}
use pdf_engine_toolbox.Tables.{
  max_cells, unresolved_page, invalid_dimensions, invalid_cell_span, overlapping_cells,
  invalid_geometry, Parsed, raised, parsed, Cell, Placement, Slot, is_occupied, slots_of, squeeze,
}
use pdf_engine_toolbox.Tables.Parse.{repeat, set_at}
use pdf_engine_toolbox.Tables.Readers.{
  Measures, Attempt, returned, out_of_memory, excepted, docling_tableformer, complete, unsupported,
  failed, F, Frame, pdf_bbox, TableCell, Table, lacks_geometry, PageResult, page_result,
}
use pdf_engine_toolbox.Redact.Words.{n}

-- The placement of a cell whose spans stay in the table.
unfoldable pub placed : ℕ → ℕ → Bool → ℤ → ℤ → ℤ → ℤ → Option Placement
placed num_rows num_cols header (pos r) (pos c) (pos rs) (pos cs) =
    if ltb r num_rows
      && ltb c num_cols
      && leb 1 rs
      && leb rs (num_rows - r)
      && leb 1 cs
      && leb cs (num_cols - c)
    then some (record {
      row_index = r;
      column_index = c;
      row_span = rs;
      column_span = cs;
      is_header = header;
    })
    else none
placed num_rows num_cols header _ _ _ _ = none

module _ (ms : Measures) where
  -- A cell as Docling gives it; the box is that of the top left origin.
  pub record DoclingCell : Type 0 where
    pub start_row_offset_idx : ℤ
    pub start_col_offset_idx : ℤ
    pub row_span : ℤ
    pub col_span : ℤ
    pub text : Text
    pub column_header : Bool
    pub box : Option (List (F ms))

  -- The width and height of the page it names, if the document has it, and the table's box.
  pub record Provenance : Type 0 where
    pub page_size : Option (F ms × F ms)
    pub box : List (F ms)

  pub record DoclingTable : Type 0 where
    pub prov : List Provenance
    pub num_rows : ℤ
    pub num_cols : ℤ
    pub table_cells : List DoclingCell

  pub record Mapped : Type 0 where
    pub rows : List (List Text)
    pub cells : List (TableCell ms)
    pub occupied : List Slot

  abbrev pub page_frame : F ms × F ms → Frame ms
  page_frame size = record {
    left = n ms.floats 0;
    top = n ms.floats 0;
    scale_x = n ms.floats 1;
    scale_y = n ms.floats 1;
    page_width = size.0;
    page_height = size.1;
  }

  abbrev pub cell_at : DoclingCell → Placement → Cell
  cell_at c p = record { placement = p; raw_text = c.text; text = squeeze false false c.text }

  abbrev pub add_cell : F ms × F ms → DoclingCell → Placement → Mapped → Mapped
  add_cell size c p m = record {
    rows = set_at p.row_index (set_at p.column_index (λ t. squeeze false false c.text)) m.rows;
    cells =
        m.cells ++ record { cell = cell_at c p; bbox = pdf_bbox ms (page_frame size) c.box } ∷ [];
    occupied = m.occupied ++ slots_of p;
  }

  abbrev pub map_cell : ℕ → ℕ → F ms × F ms → Mapped → DoclingCell → Parsed Mapped
  map_cell num_rows num_cols size m c =
      elim (placed num_rows num_cols c.column_header c.start_row_offset_idx c.start_col_offset_idx
        c.row_span c.col_span) [
          | none ↦ raised invalid_cell_span
          | some p ↦
              if any (is_occupied m.occupied) (slots_of p)
              then raised overlapping_cells
              else parsed (add_cell size c p m)
        ]

  unfoldable pub map_cells : ℕ → ℕ → F ms × F ms → Mapped → List DoclingCell → Parsed Mapped
  unfolding placed
  map_cells num_rows num_cols size m [] = parsed m
  map_cells num_rows num_cols size m (c ∷ cs) = elim (map_cell num_rows num_cols size m c) [
    | raised e ↦ raised e
    | parsed m' ↦ map_cells num_rows num_cols size m' cs
  ]

  abbrev pub finish_table : ℕ → ℕ → F ms × F ms → List (F ms) → Mapped → Parsed (Table ms)
  finish_table num_rows num_cols size box m = elim (pdf_bbox ms (page_frame size) (some box)) [
    | none ↦ raised invalid_geometry
    | some b ↦ parsed (record {
      bbox = some b;
      rows = m.rows;
      cells = m.cells;
      row_count = num_rows;
      col_count = num_cols;
      geometry_unavailable = lacks_geometry ms m.cells;
    })
  ]

  abbrev pub blank : ℕ → ℕ → Mapped
  blank num_rows num_cols = record {
    rows = repeat num_rows (repeat num_cols []);
    cells = [];
    occupied = [];
  }

  abbrev pub map_grid : ℕ → ℕ → F ms × F ms → List (F ms) → List DoclingCell → Parsed (Table ms)
  map_grid num_rows num_cols size box cells =
      elim (map_cells num_rows num_cols size (blank num_rows num_cols) cells) [
        | raised e ↦ raised e
        | parsed m ↦ finish_table num_rows num_cols size box m
      ]

  -- `num_rows <= 0 or num_cols <= 0 or num_rows * num_cols > MAX_CELLS`
  abbrev pub map_sized : ℤ → ℤ → F ms × F ms → List (F ms) → List DoclingCell → Parsed (Table ms)
  map_sized (pos (suc r)) (pos (suc c)) size box cells =
      if ltb max_cells (suc r * suc c)
      then raised invalid_dimensions
      else map_grid (suc r) (suc c) size box cells
  map_sized _ _ size box cells = raised invalid_dimensions

  abbrev pub map_placed : DoclingTable → Option (F ms × F ms) → List (F ms) → Parsed (Table ms)
  map_placed t none box = raised unresolved_page
  map_placed t (some size) box = map_sized t.num_rows t.num_cols size box t.table_cells

  abbrev pub map_item : DoclingTable → List Provenance → Parsed (Table ms)
  map_item t (v ∷ []) = map_placed t v.page_size v.box
  map_item t _ = raised unresolved_page

  -- What an item comes to, before the later ones: under `strict` an error is raised, else counted.
  abbrev pub add_mapped :
      Parsed (Table ms) → Parsed (List (Table ms) × ℕ) → Bool → Parsed (List (Table ms) × ℕ)
  add_mapped (parsed t) (parsed (tables, k)) strict = parsed (t ∷ tables, k)
  add_mapped (parsed t) (raised e) strict = raised e
  add_mapped (raised e) (parsed (tables, k)) false = parsed (tables, suc k)
  add_mapped (raised e) (raised e') false = raised e'
  add_mapped (raised e) rest true = raised e

  -- The tables, and the number of those unresolved.
  unfoldable pub map_document : Bool → List DoclingTable → Parsed (List (Table ms) × ℕ)
  unfolding map_cells
  map_document strict [] = parsed ([], 0)
  map_document strict (t ∷ ts) = add_mapped (map_item t t.prov) (map_document strict ts) strict

  abbrev pub mapped_result : ℕ → List (Table ms) → ℕ → PageResult ms
  mapped_result i tables (suc k) =
      page_result ms i docling_tableformer unsupported tables
        (some (codes "fallback_invalid_table_structure"))
  mapped_result i [] zero =
      page_result ms i docling_tableformer unsupported []
        (some (codes "fallback_no_table_structure"))
  mapped_result i (t ∷ ts) zero = page_result ms i docling_tableformer complete (t ∷ ts) none

  abbrev pub fallback_failed : ℕ → Text → PageResult ms
  fallback_failed i reason = page_result ms i docling_tableformer failed [] (some reason)

  abbrev pub mapped_outcome : ℕ → Parsed (List (Table ms) × ℕ) → Attempt (PageResult ms)
  mapped_outcome i (raised e) = returned (fallback_failed i (codes "fallback_failed"))
  mapped_outcome i (parsed (tables, k)) = returned (mapped_result i tables k)

  -- `read_page_result`; the conversion comes to its tables, or to none if its status is no success.
  unfoldable pub docling_page_result :
      ℕ → Attempt (Option (List DoclingTable)) → Attempt (PageResult ms)
  unfolding map_document
  docling_page_result i out_of_memory = out_of_memory
  docling_page_result i excepted = returned (fallback_failed i (codes "fallback_failed"))
  docling_page_result i (returned none) =
      returned (fallback_failed i (codes "fallback_conversion_incomplete"))
  docling_page_result i (returned (some ts)) = mapped_outcome i (map_document false ts)
