-- ===== src/Tables/Parse/Result.antt =====
-- What `parse_table` returns (app/services/table_evidence.py).
use pdf_engine_toolbox.Base.{
  ℕ, ◌*◌, ◌≡◌, ◌≤◌, ◌<◌, ◌⊎◌, inl, inr, refl, sym, ◌∙◌, subst, true, false, Option, none, some,
  List, [], ◌∷◌, ◌++◌, arith, length, is_some, Bool-cases, All,
}
use pdf_engine_toolbox.Base.Int.{ℤ}
use pdf_engine_toolbox.Errors.{Text}
use pdf_engine_toolbox.Tables.{
  max_cells, Parsed, raised, parsed, Event, Cell, Slot, TableParser, same_slot, is_occupied,
  slots_of, new_parser,
}
use pdf_engine_toolbox.Tables.Parse.{
  feed, result, parse_table, height_of, width_of, repeat, set_at, fill,
}
use pdf_engine_toolbox.Tables.Parse.Cover.{
  Distinct, cover, Spans, current_slots, WellFormed, append_nil, is_occupied-append,
  is_occupied-slots,
}
use pdf_engine_toolbox.Tables.Parse.Handlers.{feed-WellFormed, new_parser-WellFormed}
use pdf_engine_toolbox.Tables.Parse.Grid.{
  entry, Rect, anchors, length-repeat, repeat-Rect, fill-Rect, length-fill, entry-set_at,
  entry-repeat,
}

abbrev anchor : Cell → Slot
anchor c = (c.placement.row_index, c.placement.column_index)

anchor-slots_of :
    (c : Cell) → Spans c.placement → is_occupied (slots_of c.placement) (anchor c) ≡ true
anchor-slots_of c h =
    is_occupied-slots c.placement.row_index c.placement.column_index c.placement.row_span
      c.placement.column_span c.placement.row_index c.placement.column_index
    ∙ ground (arith, h)

Distinct-split :
    (ss ts : List Slot) (s : Slot)
    → Distinct (ss ++ ts)
    → is_occupied ss s ≡ true
    → is_occupied ts s ≡ false
Distinct-split [] ts s d h = absurd (ground arith)
Distinct-split (x ∷ ss) ts s d h = elim (Bool-cases (same_slot s x)) [
  | inl same ↦
      let e : s ≡ x = ground arith in
      subst (λ y. is_occupied ts y ≡ false) (sym e) (ground (arith, is_occupied-append ss ts x))
  | inr other ↦ Distinct-split ss ts s d.1 (ground arith)
]

Distinct-tail : (ss ts : List Slot) → Distinct (ss ++ ts) → Distinct ts
Distinct-tail [] ts d = d
Distinct-tail (s ∷ ss) ts d = Distinct-tail ss ts d.1

uncovered-anchors :
    (s : Slot) (cs : List Cell)
    → All (λ c. Spans c.placement) cs
    → is_occupied (cover cs) s ≡ false
    → anchors s cs ≡ false
uncovered-anchors s [] a h = refl
uncovered-anchors s (c ∷ cs) a h = ground (
  arith,
  is_occupied-append (slots_of c.placement) (cover cs) s,
  is_occupied-slots c.placement.row_index c.placement.column_index c.placement.row_span
      c.placement.column_span s.0 s.1,
  uncovered-anchors s cs a.1,
  a.0,
)

entry-fill :
    (i j : ℕ) (cs : List Cell) (rows : List (List Text))
    → anchors (i, j) cs ≡ false
    → entry (fill cs rows) i j ≡ entry rows i j
entry-fill i j [] rows h = refl
entry-fill i j (c ∷ cs) rows h =
    let r = c.placement.row_index in
    let k = c.placement.column_index in
    entry-fill i j cs (set_at r (set_at k (λ t. c.text)) rows) (ground arith)
    ∙ entry-set_at r k i j c.text rows
    ∙ ground arith

-- Every cell's text stands at its first slot.
abbrev pub Shown : List (List Text) → List Cell → Type 0
Shown rows cs =
    All (λ c. entry rows c.placement.row_index c.placement.column_index ≡ some c.text) cs

-- There is an entry at the first slot of every cell.
abbrev Roomy : List (List Text) → List Cell → Type 0
Roomy rows cs =
    All (λ c. is_some (entry rows c.placement.row_index c.placement.column_index) ≡ true) cs

set_at-Roomy :
    (r k : ℕ) (t : Text) (rows : List (List Text)) (cs : List Cell)
    → Roomy rows cs
    → Roomy (set_at r (set_at k (λ u. t)) rows) cs
set_at-Roomy r k t rows [] a = tt
set_at-Roomy r k t rows (c ∷ cs) a = (
  ground (arith, entry-set_at r k c.placement.row_index c.placement.column_index t rows, a.0),
  set_at-Roomy r k t rows cs a.1,
)

fill-Shown :
    (cs : List Cell) (rows : List (List Text))
    → Distinct (cover cs)
    → All (λ c. Spans c.placement) cs
    → Roomy rows cs
    → Shown (fill cs rows) cs
fill-Shown [] rows d a m = tt
fill-Shown (c ∷ cs) rows d a m =
    let r = c.placement.row_index in
    let k = c.placement.column_index in
    let alone =
      uncovered-anchors (anchor c) cs a.1
        (Distinct-split (slots_of c.placement) (cover cs) (anchor c) d (anchor-slots_of c a.0)) in
    let next = set_at r (set_at k (λ t. c.text)) rows in
    (
      entry-fill r k cs next alone ∙ entry-set_at r k r k c.text rows ∙ ground (arith, m.0),
      fill-Shown cs next (Distinct-tail (slots_of c.placement) (cover cs) d) a.1
          (set_at-Roomy r k c.text rows cs m.1),
    )

-- Every slot lies in a grid of this height and width.
abbrev pub Inside : ℕ → ℕ → List Slot → Type 0
Inside h w ss = All (λ s. (s.0 < h) × (s.1 < w)) ss

slots-Inside : (h w : ℕ) (ss : List Slot) → height_of ss ≤ h → width_of ss ≤ w → Inside h w ss
slots-Inside h w [] a b = tt
slots-Inside h w (s ∷ ss) a b =
    ((omega arith, omega arith), slots-Inside h w ss (omega arith) (omega arith))

Inside-occupied :
    (h w : ℕ) (ss : List Slot) (s : Slot)
    → Inside h w ss
    → is_occupied ss s ≡ true
    → (s.0 < h) × (s.1 < w)
Inside-occupied h w [] s a e = absurd (ground arith)
Inside-occupied h w (t ∷ ss) s a e = elim (Bool-cases (same_slot s t)) [
  | inl same ↦ (ground (arith, a.0), ground (arith, a.0))
  | inr other ↦ Inside-occupied h w ss s a.1 (ground arith)
]

blank-Roomy :
    (h w : ℕ) (cs : List Cell)
    → All (λ c. Spans c.placement) cs
    → Inside h w (cover cs)
    → Roomy (repeat h (repeat w [])) cs
blank-Roomy h w [] a n = tt
blank-Roomy h w (c ∷ cs) a n =
    let here = Inside-head h w (slots_of c.placement) (cover cs) n in
    let spot =
      Inside-occupied h w (slots_of c.placement) (anchor c) here.0 (anchor-slots_of c a.0) in
    (
      entry-repeat h w c.placement.row_index c.placement.column_index spot.0 spot.1,
      blank-Roomy h w cs a.1 here.1,
    )
  where
    Inside-head :
        (h w : ℕ) (ss ts : List Slot) → Inside h w (ss ++ ts) → Inside h w ss × Inside h w ts
    Inside-head h w [] ts n = (tt, n)
    Inside-head h w (s ∷ ss) ts n = let r = Inside-head h w ss ts n.1 in ((n.0, r.0), r.1)

-- A grid of the cells.
pub record IsTable (rows : List (List Text)) (cells : List Cell) : Type 0 where
  pub width : ℕ
  pub rect : Rect width rows
  pub bounded : length rows * width ≤ max_cells
  pub inside : Inside (length rows) width (cover cells)
  pub distinct : Distinct (cover cells)
  pub shown : Shown rows cells

-- A blank grid filled with cells that lie in it and share no slot.
pub cells-IsTable :
    (h v : ℕ) (cs : List Cell)
    → Distinct (cover cs)
    → All (λ c. Spans c.placement) cs
    → Inside h v (cover cs)
    → h * v ≤ max_cells
    → IsTable (fill cs (repeat h (repeat v []))) cs
cells-IsTable h v cs apart spans inside small =
    let blank = repeat h (repeat v []) in
    let tall : length (fill cs blank) ≡ h = length-fill cs blank ∙ length-repeat h (repeat v []) in
    record {
      width = v;
      rect = fill-Rect v cs blank (repeat-Rect h v);
      bounded = rw tall small;
      inside = rw tall inside;
      distinct = apart;
      shown = fill-Shown cs blank apart spans (blank-Roomy h v cs spans inside);
    }

fill-IsTable :
    (p : TableParser)
    → WellFormed p
    → p.current ≡ none
    → height_of p.occupied * width_of p.occupied ≤ max_cells
    → IsTable
        (fill p.cells (repeat (height_of p.occupied) (repeat (width_of p.occupied) [])))
        p.cells
fill-IsTable p w none_open small =
    let h = height_of p.occupied in
    let v = width_of p.occupied in
    let taken : p.occupied ≡ cover p.cells =
      subst (λ o. p.occupied ≡ cover p.cells ++ current_slots o) none_open w.covered
      ∙ append_nil (cover p.cells) in
    cells-IsTable h v p.cells (subst Distinct taken w.distinct) w.spans
      (subst (λ ss. Inside h v ss) taken (slots-Inside h v p.occupied (omega arith) (omega arith)))
      small

-- The two ways in which a result is returned.
result-parsed :
    (p : TableParser) (rows : List (List Text)) (cells : List Cell)
    → result p ≡ parsed (rows, cells)
    → (p.current ≡ none)
      × (((rows ≡ []) × (cells ≡ []))
          ⊎ ((height_of p.occupied * width_of p.occupied ≤ max_cells)
              × (rows
                  ≡ fill p.cells (repeat (height_of p.occupied) (repeat (width_of p.occupied) [])))
              × (cells ≡ p.cells)))
unfolding result
result-parsed p rows cells e = ground arith

result-IsTable :
    (p : TableParser) (rows : List (List Text)) (cells : List Cell)
    → WellFormed p
    → result p ≡ parsed (rows, cells)
    → IsTable rows cells
result-IsTable p rows cells w e =
    let (closed, ways) = result-parsed p rows cells e in
    elim ways [
      | inl (no_rows, no_cells) ↦
          let empty : IsTable [] [] = record {
            width = 0;
            rect = tt;
            bounded = omega arith;
            inside = tt;
            distinct = tt;
            shown = tt;
          } in
          rw (no_rows, no_cells) empty
      | inr (small, filled, all) ↦ rw (filled, all) (fill-IsTable p w closed small)
    ]

-- If the parser accepts the events of a table, the grid it returns is rectangular with at most
-- 20000 entries, every slot of every cell lies in the grid, no slot belongs to two cells, and each
-- cell's text is the entry at its own row and column.
pub parse_table-IsTable :
    (parse_int : Text → Option ℤ) (es : List Event) (rows : List (List Text)) (cells : List Cell)
    → parse_table parse_int es ≡ parsed (rows, cells)
    → IsTable rows cells
unfolding parse_table
parse_table-IsTable parse_int es rows cells e =
    go (feed parse_int es new_parser) e
      (λ q h. feed-WellFormed parse_int es new_parser q h new_parser-WellFormed)
  where
    go :
        (x : Parsed TableParser)
        → elim x [ raised y ↦ raised y | parsed p ↦ result p ] ≡ parsed (rows, cells)
        → ((q : TableParser) → x ≡ parsed q → WellFormed q)
        → IsTable rows cells
    go (raised y) h f = absurd (ground arith)
    go (parsed p) h f = result-IsTable p rows cells (f p refl) h
