-- ===== src/Tables/Readers/MappedTables.antt =====
-- `map_document` as a whole (app/services/table_docling.py): the tables it returns, and those it counts.
use pdf_engine_toolbox.Base.{
  ℕ, suc, ◌+◌, ◌*◌, ◌≡◌, refl, inl, inr, Bool, true, false, Option, none, some, List, [], ◌∷◌,
  arith, ltb, length, All, Bool-cases, if◌then◌else◌,
}
use pdf_engine_toolbox.Base.Int.{ℤ, pos}
use pdf_engine_toolbox.Tables.{max_cells, invalid_dimensions, Parsed, raised, parsed}
use pdf_engine_toolbox.Tables.Readers.{Measures, F, Table}
use pdf_engine_toolbox.Tables.Readers.Docling.{
  DoclingCell, DoclingTable, Provenance, map_sized, map_placed, map_item, add_mapped, map_document,
}
use pdf_engine_toolbox.Tables.Readers.Mapped.{IsGrid, map_grid-IsGrid}

module _ (ms : Measures) where
  map_sized-IsGrid :
      (r c : ℤ) (size : F ms × F ms) (box : List (F ms)) (cs : List (DoclingCell ms)) (t : Table ms)
      → map_sized ms r c size box cs ≡ parsed t
      → IsGrid ms t
  map_sized-IsGrid (pos (suc r)) (pos (suc c)) size box cs t e =
      elim (Bool-cases (ltb max_cells (suc r * suc c))) [
        | inl big ↦ let failed : raised invalid_dimensions ≡ parsed t = rw big at e in cc
        | inr small ↦
            map_grid-IsGrid ms (suc r) (suc c) size box cs t (ground arith) (rw small at e)
      ]
  map_sized-IsGrid _ _ size box cs t e = cc

  map_item-IsGrid :
      (t : DoclingTable ms) (vs : List (Provenance ms)) (table : Table ms)
      → map_item ms t vs ≡ parsed table
      → IsGrid ms table
  map_item-IsGrid t [] table e = cc
  map_item-IsGrid t (v ∷ []) table e = on_size v.page_size e
    where
      on_size :
          (o : Option (F ms × F ms)) → map_placed ms t o v.box ≡ parsed table → IsGrid ms table
      on_size none r = cc
      on_size (some size) r =
          map_sized-IsGrid t.num_rows t.num_cols size v.box t.table_cells table r
  map_item-IsGrid t (v ∷ w ∷ vs) table e = cc

  -- What is said of the tables and the count that come of a document.
  abbrev pub AreMapped : Bool → List (DoclingTable ms) → List (Table ms) → ℕ → Type 0
  AreMapped strict ts tables k =
      All (IsGrid ms) tables × (length tables + k ≡ length ts) × ((if strict then k else 0) ≡ 0)

  -- If Docling's document is mapped, then every table that comes of it is a grid of its cells:
  -- rectangular with at most 20000 entries, no slot in two cells, every cell's text at its own row and
  -- column. Each table of the document is among them or is counted as unresolved, and none is
  -- unresolved under `strict`.
  pub map_document-AreMapped :
      (strict : Bool) (ts : List (DoclingTable ms)) (tables : List (Table ms)) (k : ℕ)
      → map_document ms strict ts ≡ parsed (tables, k)
      → AreMapped strict ts tables k
  unfolding map_document
  map_document-AreMapped strict [] tables k e =
      let no_tables : [] ≡ tables = ground arith in
      let none_counted : 0 ≡ k = ground arith in
      rw (← no_tables, ← none_counted) (tt, omega arith, ground arith)
  map_document-AreMapped strict (t ∷ ts) tables k e =
      on_item (map_item ms t t.prov) (map_document ms strict ts) strict
        (map_document-AreMapped strict ts) refl e
    where
      on_item :
          (o : Parsed (Table ms)) (rest : Parsed (List (Table ms) × ℕ)) (strict : Bool)
          → ((us : List (Table ms)) (j : ℕ) → rest ≡ parsed (us, j) → AreMapped strict ts us j)
          → map_item ms t t.prov ≡ o
          → add_mapped ms o rest strict ≡ parsed (tables, k)
          → AreMapped strict (t ∷ ts) tables k
      on_item (raised x) (raised y) true ih q r = absurd (ground arith)
      on_item (raised x) (parsed us) true ih q r = absurd (ground arith)
      on_item (raised x) (raised y) false ih q r = absurd (ground arith)
      on_item (raised x) (parsed (us, j)) false ih q r =
          let same : us ≡ tables = ground arith in
          let counted : suc j ≡ k = ground arith in
          let (grids, total, _) = ih us j refl in rw (← same, ← counted) (grids, omega arith, refl)
      on_item (parsed table) (raised y) strict ih q r = absurd (ground arith)
      on_item (parsed table) (parsed (us, j)) strict ih q r =
          let same : table ∷ us ≡ tables = ground arith in
          let counted : j ≡ k = ground arith in
          let (grids, total, strictly) = ih us j refl in
          rw (← same, ← counted) ((map_item-IsGrid t t.prov table q, grids), omega arith, strictly)
