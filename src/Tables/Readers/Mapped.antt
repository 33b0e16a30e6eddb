-- ===== src/Tables/Readers/Mapped.antt =====
-- Every table that `map_document` returns is a grid of its cells (app/services/table_docling.py).
use mathlib.Core.List.{map-append, append_assoc}
use pdf_engine_toolbox.Base.{
  ℕ, zero, suc, ◌+◌, ◌*◌, ◌≤◌, ◌<◌, ◌≡◌, refl, ap, sym, subst, ◌∙◌, inl, inr, Bool, false, Option,
  none, some, List, [], ◌∷◌, ◌++◌, arith, map, any, All, Bool-cases, if◌then◌else◌,
}
use pdf_engine_toolbox.Base.Int.{ℤ, pos}
use pdf_engine_toolbox.Errors.{Text}
use pdf_engine_toolbox.Tables.{
  max_cells, invalid_cell_span, overlapping_cells, invalid_geometry, Parsed, raised, parsed, Cell,
  Placement, Slot, is_occupied, slots_of, slots, row_slots,
}
use pdf_engine_toolbox.Tables.Parse.{repeat, set_at, fill}
use pdf_engine_toolbox.Tables.Parse.Cover.{
  Distinct, cover, Spans, Distinct-append, Distinct-slots, append_nil,
}
use pdf_engine_toolbox.Tables.Parse.Result.{Inside, IsTable, cells-IsTable}
use pdf_engine_toolbox.Tables.Readers.{Measures, F, TableCell, Table, lacks_geometry}
use pdf_engine_toolbox.Redact.Words.{Rect}
use pdf_engine_toolbox.Tables.Readers.Docling.{
  placed, DoclingCell, Mapped, cell_at, add_cell, map_cell, map_cells, finish_table, blank,
  map_grid,
}

Inside-append :
    (h v : ℕ) (ss ts : List Slot) → Inside h v ss → Inside h v ts → Inside h v (ss ++ ts)
Inside-append h v [] ts a b = b
Inside-append h v (s ∷ ss) ts a b = (a.0, Inside-append h v ss ts a.1 b)

row_slots-Inside : (h v r c n : ℕ) → r < h → c + n ≤ v → Inside h v (row_slots r c n)
row_slots-Inside h v r c zero a b = tt
row_slots-Inside h v r c (suc n) a b =
    ((a, omega arith), row_slots-Inside h v r (suc c) n a (omega arith))

rectangle-Inside : (h v r c rs cs : ℕ) → r + rs ≤ h → c + cs ≤ v → Inside h v (slots r c rs cs)
rectangle-Inside h v r c zero cs a b = tt
rectangle-Inside h v r c (suc rs) cs a b =
    Inside-append h v (row_slots r c cs) (slots (suc r) c rs cs)
      (row_slots-Inside h v r c cs (omega arith) b)
      (rectangle-Inside h v (suc r) c rs cs (omega arith) b)

cover-append : (cs ds : List Cell) → cover (cs ++ ds) ≡ cover cs ++ cover ds
cover-append [] ds = refl
cover-append (c ∷ cs) ds =
    ap (λ ss. slots_of c.placement ++ ss) (cover-append cs ds)
    ∙ sym (append_assoc (slots_of c.placement) (cover cs) (cover ds))

fill-snoc :
    (cs : List Cell) (c : Cell) (rows : List (List Text))
    → fill (cs ++ c ∷ []) rows
      ≡ set_at c.placement.row_index (set_at c.placement.column_index (λ t. c.text)) (fill cs rows)
fill-snoc [] c rows = refl
fill-snoc (d ∷ cs) c rows = fill-snoc cs c _

Spans-append :
    (cs : List Cell) (c : Cell)
    → All (λ d. Spans d.placement) cs
    → Spans c.placement
    → All (λ d. Spans d.placement) (cs ++ c ∷ [])
Spans-append [] c a b = (b, tt)
Spans-append (d ∷ cs) c a b = (a.0, Spans-append cs c a.1 b)

-- A placement stays in the table, with spans of at least one.
Fits : ℕ → ℕ → Placement → Type 0
Fits h v p = Spans p × (p.row_index + p.row_span ≤ h) × (p.column_index + p.column_span ≤ v)

placed-Fits :
    (h v : ℕ) (header : Bool) (r c rs cs : ℤ) (p : Placement)
    → placed h v header r c rs cs ≡ some p
    → Fits h v p
unfolding placed Fits
placed-Fits h v header (pos r) (pos c) (pos rs) (pos cs) p e = ground arith
placed-Fits h v header _ _ _ _ p e = ground arith

module _ (ms : Measures) where
  abbrev pub cells_of : List (TableCell ms) → List Cell
  cells_of = map (λ c. c.cell)

  -- The occupied slots are those of the cells, each once and in the grid, which shows their texts.
  record Good (h v : ℕ) (m : Mapped ms) : Type 0 where
    covered : m.occupied ≡ cover (cells_of m.cells)
    distinct : Distinct m.occupied
    spans : All (λ c. Spans c.placement) (cells_of m.cells)
    inside : Inside h v m.occupied
    filled : m.rows ≡ fill (cells_of m.cells) (repeat h (repeat v []))

  add_cell-Good :
      (h v : ℕ) (size : F ms × F ms) (c : DoclingCell ms) (p : Placement) (m : Mapped ms)
      → Fits h v p
      → any (is_occupied m.occupied) (slots_of p) ≡ false
      → Good h v m
      → Good h v (add_cell ms size c p m)
  unfolding Fits
  add_cell-Good h v size c p m f free g =
      let new = cell_at ms c p in
      let one_more : cells_of (add_cell ms size c p m).cells ≡ cells_of m.cells ++ new ∷ [] =
        map-append (λ d. d.cell) m.cells _ in
      record {
        covered = rw one_more (
            rw (cover-append (cells_of m.cells) (new ∷ [])) (
              ap (λ ss. ss ++ slots_of p) g.covered
              ∙ ap (λ ss. cover (cells_of m.cells) ++ ss) (sym (append_nil (slots_of p)))));
        distinct =
            Distinct-append m.occupied (slots_of p) g.distinct
              (Distinct-slots p.row_index p.column_index p.row_span p.column_span) free;
        spans = rw one_more (Spans-append (cells_of m.cells) new g.spans f.0);
        inside =
            Inside-append h v m.occupied (slots_of p) g.inside
              (rectangle-Inside h v p.row_index p.column_index p.row_span p.column_span f.1 f.2);
        filled = rw one_more (
            ap (λ rows. set_at p.row_index (set_at p.column_index (λ t. new.text)) rows) g.filled
            ∙ sym (fill-snoc (cells_of m.cells) new (repeat h (repeat v []))));
      }

  map_cell-Good :
      (h v : ℕ) (size : F ms × F ms) (c : DoclingCell ms) (m m' : Mapped ms)
      → map_cell ms h v size m c ≡ parsed m'
      → Good h v m
      → Good h v m'
  map_cell-Good h v size c m m' e g =
      on_placed
        (placed h v c.column_header c.start_row_offset_idx c.start_col_offset_idx c.row_span
          c.col_span)
        refl e
    where
      on_placed :
          (o : Option Placement)
          → placed h v c.column_header c.start_row_offset_idx c.start_col_offset_idx c.row_span
              c.col_span
            ≡ o
          → elim o [
            | none ↦ raised invalid_cell_span
            | some p ↦
                if any (is_occupied m.occupied) (slots_of p)
                then raised overlapping_cells
                else parsed (add_cell ms size c p m)
          ]
            ≡ parsed m'
          → Good h v m'
      on_placed none q r = absurd (ground arith)
      on_placed (some p) q r = elim (Bool-cases (any (is_occupied m.occupied) (slots_of p))) [
        | inl taken ↦ absurd (ground arith)
        | inr free ↦
            let same : add_cell ms size c p m ≡ m' = ground arith in
            subst (λ x. Good h v x) same
              (add_cell-Good h v size c p m (placed-Fits h v c.column_header _ _ _ _ p q) free g)
      ]

  map_cells-Good :
      (h v : ℕ) (size : F ms × F ms) (cs : List (DoclingCell ms)) (m m' : Mapped ms)
      → map_cells ms h v size m cs ≡ parsed m'
      → Good h v m
      → Good h v m'
  unfolding map_cells
  map_cells-Good h v size [] m m' e g =
      let same : m ≡ m' = ground arith in subst (λ x. Good h v x) same g
  map_cells-Good h v size (c ∷ cs) m m' e g =
      on_cell (map_cell ms h v size m c) refl e (map_cells-Good h v size cs)
    where
      on_cell :
          (o : Parsed (Mapped ms))
          → map_cell ms h v size m c ≡ o
          → elim o [ raised x ↦ raised x | parsed n ↦ map_cells ms h v size n cs ] ≡ parsed m'
          → ((n k : Mapped ms) → map_cells ms h v size n cs ≡ parsed k → Good h v n → Good h v k)
          → Good h v m'
      on_cell (raised x) q r ih = absurd (ground arith)
      on_cell (parsed n) q r ih = ih n m' r (map_cell-Good h v size c m n q g)

  -- The rows of a table are a grid of its cells.
  abbrev pub IsGrid : Table ms → Type 0
  IsGrid t = IsTable t.rows (cells_of t.cells)

  Good-IsTable :
      (h v : ℕ) (m : Mapped ms) → h * v ≤ max_cells → Good h v m → IsTable m.rows (cells_of m.cells)
  Good-IsTable h v m small g = rw (g.filled) (
      cells-IsTable h v (cells_of m.cells) (subst Distinct g.covered g.distinct) g.spans
        (subst (λ ss. Inside h v ss) g.covered g.inside) small)

  pub map_grid-IsGrid :
      (h v : ℕ) (size : F ms × F ms) (box : List (F ms)) (cs : List (DoclingCell ms)) (t : Table ms)
      → h * v ≤ max_cells
      → map_grid ms h v size box cs ≡ parsed t
      → IsGrid t
  map_grid-IsGrid h v size box cs t small e =
      on_cells (map_cells ms h v size (blank ms h v) cs) refl e
    where
      on_box :
          (m : Mapped ms)
          → Good h v m
          → (b : Option (Rect ms.floats))
          → elim b [
            | none ↦ raised invalid_geometry
            | some c ↦ parsed (record {
              bbox = some c;
              rows = m.rows;
              cells = m.cells;
              row_count = h;
              col_count = v;
              geometry_unavailable = lacks_geometry ms m.cells;
            })
          ]
            ≡ parsed t
          → IsGrid t
      on_box m g none r = absurd (ground arith)
      on_box m g (some c) r =
          let same_rows : m.rows ≡ t.rows = ground arith in
          let same_cells : m.cells ≡ t.cells = ground arith in
          rw (← same_rows, ← same_cells) (Good-IsTable h v m small g)

      on_cells :
          (o : Parsed (Mapped ms))
          → map_cells ms h v size (blank ms h v) cs ≡ o
          → elim o [ raised x ↦ raised x | parsed m ↦ finish_table ms h v size box m ] ≡ parsed t
          → IsGrid t
      on_cells (raised x) q r = absurd (ground arith)
      on_cells (parsed m) q r =
          on_box m
            (map_cells-Good h v size cs (blank ms h v) m q
              (record { covered = refl; distinct = tt; spans = tt; inside = tt; filled = refl }))
            _ r
