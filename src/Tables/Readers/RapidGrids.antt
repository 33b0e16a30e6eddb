-- ===== src/Tables/Readers/RapidGrids.antt =====
-- Every table that `read_tables` resolves is a grid of its cells (app/services/table_ocr.py).
use mathlib.Core.List.{append-nil}
use pdf_engine_toolbox.Base.{
  ℕ, suc, ◌-◌, ◌≤◌, ◌≡◌, refl, ap, sym, subst, ◌∙◌, inl, inr, not, ◌||◌, Option, none, some, List,
  [], ◌∷◌, ◌++◌, ◌==◌, arith, length, map, is_empty, All, Bool-cases,
}
use pdf_engine_toolbox.Errors.{Text}
use pdf_engine_toolbox.Tables.{Cell, Parsed, raised, parsed}
use pdf_engine_toolbox.Tables.Parse.{parse_table, repeat}
use pdf_engine_toolbox.Tables.Parse.Grid.{Rect}
use pdf_engine_toolbox.Tables.Parse.Result.{IsTable, parse_table-IsTable}
use pdf_engine_toolbox.Tables.Readers.{
  Measures, Attempt, returned, out_of_memory, excepted, Bbox, TableCell,
}
use pdf_engine_toolbox.Tables.Readers.Mapped.{cells_of, IsGrid}
use pdf_engine_toolbox.Tables.Readers.Rapid.{
  pad_row, longest, pad_rows, Region, Structure, Matching, Recognition, RegionOutcome, resolved,
  unresolved, failed_region, escaped, memory, inside_from, mispredicts, assigned, bounds_from,
  locate, build_table, read_matched, match_cells, read_predicted, read_structure, read_region,
}
use pdf_engine_toolbox.Tables.Readers.RapidPage.{TableReadResult, add_region, read_tables}

repeat_none : (x : Text) (n w : ℕ) → n ≡ w → repeat (w - n) x ≡ []
repeat_none x n w e = let none_left : w - n ≡ 0 = omega arith in rw none_left

pad_row_full : (w : ℕ) (row : List Text) → length row ≡ w → pad_row w row ≡ row
pad_row_full w row e = ap (λ r. row ++ r) (repeat_none [] (length row) w e) ∙ append-nil row

pad_row_all : (w : ℕ) (rows : List (List Text)) → Rect w rows → map (pad_row w) rows ≡ rows
pad_row_all w [] r = refl
pad_row_all w (row ∷ rows) r = rw (pad_row_full w row r.0, pad_row_all w rows r.1)

longest-Rect : (w : ℕ) (rows : List (List Text)) → Rect w rows → longest rows ≤ w
longest-Rect w [] r = omega arith
longest-Rect w (row ∷ rows) r = omega (arith, longest-Rect w rows r.1, r.0)

-- The rows of a rectangle are as long as the longest.
pad_rows-Rect : (w : ℕ) (rows : List (List Text)) → Rect w rows → pad_rows rows ≡ rows
pad_rows-Rect w [] r = refl
pad_rows-Rect w (row ∷ rows) r =
    let same : longest (row ∷ rows) ≡ w = omega (arith, longest-Rect w rows r.1, r.0) in
    ap (λ n. map (pad_row n) (row ∷ rows)) same ∙ pad_row_all w (row ∷ rows) r

module _ (ms : Measures) where
  -- A region that is resolved is resolved to a grid.
  abbrev pub Resolves : RegionOutcome ms → Type 0
  Resolves (resolved t) = IsGrid ms t
  Resolves _ = Unit {0}

  -- What a list of regions comes to holds grids.
  abbrev pub AreGrids : Attempt (TableReadResult ms) → Type 0
  AreGrids (returned k) = All (IsGrid ms) k.tables
  AreGrids _ = Unit {0}

  add_region-AreGrids :
      (o : RegionOutcome ms) (a : Attempt (TableReadResult ms))
      → Resolves o
      → AreGrids a
      → AreGrids (add_region ms o a)
  add_region-AreGrids memory a h g = tt
  add_region-AreGrids escaped a h g = tt
  add_region-AreGrids (resolved t) (returned k) h g = (h, g)
  add_region-AreGrids (resolved t) out_of_memory h g = tt
  add_region-AreGrids (resolved t) excepted h g = tt
  add_region-AreGrids unresolved (returned k) h g = g
  add_region-AreGrids unresolved out_of_memory h g = tt
  add_region-AreGrids unresolved excepted h g = tt
  add_region-AreGrids failed_region (returned k) h g = g
  add_region-AreGrids failed_region out_of_memory h g = tt
  add_region-AreGrids failed_region excepted h g = tt

  module _ (rec : Recognition ms) where
    locate-cells :
        (i : ℕ) (m : Matching ms) (cs : List Cell) (ds : List (TableCell ms))
        → locate ms rec i m cs ≡ some ds
        → cells_of ms ds ≡ cs
    locate-cells i m [] ds e = let same : [] ≡ ds = ground arith in rw (← same)
    locate-cells i m (c ∷ cs) ds e =
        on_boxes (assigned ms rec m (m.assignment i)) (locate ms rec (suc i) m cs)
          (locate-cells (suc i) m cs) e
      where
        on_boxes :
            (bs : Option (List (Option (Bbox ms)))) (rest : Option (List (TableCell ms)))
            → ((es : List (TableCell ms)) → rest ≡ some es → cells_of ms es ≡ cs)
            → elim bs [
              | none ↦ none
              | some boxes ↦ elim rest [
                | none ↦ none
                | some es ↦ some (record { cell = c; bbox = bounds_from ms rec boxes } ∷ es)
              ]
            ]
              ≡ some ds
            → cells_of ms ds ≡ c ∷ cs
        on_boxes none rest ih r = absurd (ground arith)
        on_boxes (some boxes) none ih r = absurd (ground arith)
        on_boxes (some boxes) (some es) ih r =
            let same : record { cell = c; bbox = bounds_from ms rec boxes } ∷ es ≡ ds =
              ground arith in
            rw (← same) (ap (λ l. c ∷ l) (ih es refl))

    build_table-Resolves :
        (r : Region ms) (rows : List (List Text)) (cs : List Cell)
        (o : Option (List (TableCell ms)))
        → IsTable rows cs
        → ((ds : List (TableCell ms)) → o ≡ some ds → cells_of ms ds ≡ cs)
        → Resolves (build_table ms rec r rows o)
    build_table-Resolves r rows cs none t h = tt
    build_table-Resolves r rows cs (some ds) t h =
        rw (h ds refl) (subst (λ l. IsTable l cs) (sym (pad_rows-Rect t.width rows t.rect)) t)

    read_matched-Resolves :
        (r : Region ms) (physical : List Cell) (m : Matching ms)
        (p : Parsed (List (List Text) × List Cell))
        → ((rows : List (List Text)) (cs : List Cell) → p ≡ parsed (rows, cs) → IsTable rows cs)
        → Resolves (read_matched ms rec r physical m p)
    read_matched-Resolves r physical m (raised e) h = tt
    read_matched-Resolves r physical m (parsed (rows, cs)) h =
        elim (Bool-cases (is_empty rows || not (length cs == length physical))) [
          | inl refused ↦ rw refused tt
          | inr kept ↦ rw kept (
              build_table-Resolves r rows cs (locate ms rec 0 m cs) (h rows cs refl)
                (locate-cells 0 m cs))
        ]

    match_cells-Resolves :
        (r : Region ms) (physical : List Cell) (a : Attempt (Matching ms))
        → Resolves (match_cells ms rec r physical a)
    match_cells-Resolves r physical out_of_memory = tt
    match_cells-Resolves r physical excepted = tt
    match_cells-Resolves r physical (returned m) =
        read_matched-Resolves r physical m (parse_table rec.parse_int m.events)
          (parse_table-IsTable rec.parse_int m.events)

    read_predicted-Resolves :
        (r : Region ms) (inside : List ℕ) (s : Structure ms)
        (p : Parsed (List (List Text) × List Cell))
        → Resolves (read_predicted ms rec r inside s p)
    read_predicted-Resolves r inside s (raised e) = tt
    read_predicted-Resolves r inside s (parsed (rows, physical)) =
        elim (Bool-cases (mispredicts ms rec r physical s.predicted)) [
          | inl refused ↦ rw refused tt
          | inr kept ↦ rw kept (match_cells-Resolves r physical (rec.matching r inside))
        ]

    read_structure-Resolves :
        (r : Region ms) (inside : List ℕ) (a : Attempt (Structure ms))
        → Resolves (read_structure ms rec r inside a)
    read_structure-Resolves r inside out_of_memory = tt
    read_structure-Resolves r inside excepted = tt
    read_structure-Resolves r inside (returned s) =
        read_predicted-Resolves r inside s (parse_table rec.parse_int s.events)

    read_region-Resolves : (r : Region ms) → Resolves (read_region ms rec r)
    unfolding read_region
    read_region-Resolves r = elim (Bool-cases (is_empty (inside_from ms 0 r rec.lines))) [
      | inl alone ↦ rw alone tt
      | inr lines ↦ rw lines (
          read_structure-Resolves r (inside_from ms 0 r rec.lines)
            (rec.structure r (inside_from ms 0 r rec.lines)))
    ]

    pub read_tables-AreGrids : (rs : List (Region ms)) → AreGrids (read_tables ms rec rs)
    unfolding read_tables
    read_tables-AreGrids [] = tt
    read_tables-AreGrids (r ∷ rs) =
        add_region-AreGrids (read_region ms rec r) (read_tables ms rec rs) (read_region-Resolves r)
          (read_tables-AreGrids rs)
