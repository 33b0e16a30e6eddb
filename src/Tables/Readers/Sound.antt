-- ===== src/Tables/Readers/Sound.antt =====
-- What the result of a table page says of itself (app/services/table_pipeline.py).
use pdf_engine_toolbox.Base.{
  ℕ, zero, suc, ◌≡◌, refl, ◌⊎◌, inl, inr, Bool, true, false, not, ◌&&◌, Option, none, some, List,
  [], ◌∷◌, is_empty, is_some, All, Bool-cases,
}
use pdf_engine_toolbox.Errors.{Text}
use pdf_engine_toolbox.Tables.{Parsed, raised as refused, parsed}
use pdf_engine_toolbox.Tables.Readers.{
  Measures, Attempt, returned, out_of_memory, excepted, Source, native_pdf, rapidtable,
  docling_tableformer, table_queue, PageStatus, complete, empty, unsupported, failed, Table,
  PageResult, page_result,
}
use pdf_engine_toolbox.Tables.Readers.Docling.{
  DoclingTable, map_document, mapped_result, mapped_outcome, docling_page_result,
}
use pdf_engine_toolbox.Tables.Readers.Mapped.{IsGrid}
use pdf_engine_toolbox.Tables.Readers.MappedTables.{map_document-AreMapped}
use pdf_engine_toolbox.Tables.Readers.Rapid.{Region, Recognition}
use pdf_engine_toolbox.Tables.Readers.RapidPage.{
  TableReadResult, RenderedPage, ReadPage, page_read, read_tables, accounted, read_outcome,
  with_engines, rapid_page_result,
}
use pdf_engine_toolbox.Tables.Readers.RapidGrids.{AreGrids, read_tables-AreGrids}
use pdf_engine_toolbox.Tables.Readers.Pipeline.{
  Strategy, auto, pymupdf, image, is_partial, NativePage, native_outcome, native_result,
}

abbrev pub is_complete : PageStatus → Bool
is_complete complete = true
is_complete empty = false
is_complete unsupported = false
is_complete failed = false

abbrev pub is_blank : PageStatus → Bool
is_blank complete = false
is_blank empty = true
is_blank unsupported = false
is_blank failed = false

abbrev pub is_docling : Source → Bool
is_docling docling_tableformer = true
is_docling native_pdf = false
is_docling rapidtable = false
is_docling table_queue = false

abbrev pub is_native : Source → Bool
is_native native_pdf = true
is_native docling_tableformer = false
is_native rapidtable = false
is_native table_queue = false

abbrev pub is_image : Strategy → Bool
is_image image = true
is_image auto = false
is_image pymupdf = false

module _ (ms : Measures) where
  -- A complete page has tables, an empty one has none, any other gives a reason; and tables that do
  -- not come from PyMuPDF are grids of their cells.
  pub record IsAccounted (r : PageResult ms) : Type 0 where
    pub complete_tables : (is_complete r.status && is_empty r.tables) ≡ false
    pub empty_tables : (is_blank r.status && not (is_empty r.tables)) ≡ false
    pub partial_reason : (is_partial r.status && not (is_some r.reason)) ≡ false
    pub grids : (is_native r.source ≡ true) ⊎ All (IsGrid ms) r.tables

  partial-IsAccounted :
      (i : ℕ) (s : Source) (st : PageStatus) (ts : List (Table ms)) (reason : Text)
      → is_partial st ≡ true
      → (is_native s ≡ true) ⊎ All (IsGrid ms) ts
      → IsAccounted (page_result ms i s st ts (some reason))
  partial-IsAccounted i s complete ts reason p g = cc
  partial-IsAccounted i s empty ts reason p g = cc
  partial-IsAccounted i s unsupported ts reason p g = record {
    complete_tables = refl;
    empty_tables = refl;
    partial_reason = refl;
    grids = g;
  }
  partial-IsAccounted i s failed ts reason p g = record {
    complete_tables = refl;
    empty_tables = refl;
    partial_reason = refl;
    grids = g;
  }

  native_outcome-IsAccounted :
      (i : ℕ) (ts : List (Table ms)) (blank : Bool) → IsAccounted (native_outcome ms i ts blank)
  native_outcome-IsAccounted i (t ∷ ts) blank = record {
    complete_tables = refl;
    empty_tables = refl;
    partial_reason = refl;
    grids = inl refl;
  }
  native_outcome-IsAccounted i [] true = record {
    complete_tables = refl;
    empty_tables = refl;
    partial_reason = refl;
    grids = inl refl;
  }
  native_outcome-IsAccounted i [] false =
      partial-IsAccounted i native_pdf unsupported [] _ refl (inl refl)

  -- What the native reading may settle under a strategy.
  abbrev pub Settles : Strategy → Attempt (Option (PageResult ms)) → Type 0
  Settles s (returned (some r)) = IsAccounted r × (r.source ≡ native_pdf) × (is_image s ≡ false)
  Settles s _ = Unit {0}

  native_outcome-source :
      (i : ℕ) (ts : List (Table ms)) (blank : Bool)
      → (native_outcome ms i ts blank).source ≡ native_pdf
  native_outcome-source i (t ∷ ts) blank = refl
  native_outcome-source i [] true = refl
  native_outcome-source i [] false = refl

  pub native_result-Settles :
      (i : ℕ) (s : Strategy) (a : Attempt (NativePage ms)) → Settles s (native_result ms i s a)
  unfolding native_result
  native_result-Settles i image a = tt
  native_result-Settles i auto excepted = tt
  native_result-Settles i auto out_of_memory = tt
  native_result-Settles i auto (returned p) =
      elim (Bool-cases (p.accepted && not (is_empty p.tables))) [
        | inl good ↦ rw good (
          native_outcome-IsAccounted i p.tables p.blank,
          native_outcome-source i p.tables p.blank,
          refl,
        )
        | inr poor ↦ rw poor tt
      ]
  native_result-Settles i pymupdf (returned p) = (
    native_outcome-IsAccounted i p.tables p.blank,
    native_outcome-source i p.tables p.blank,
    refl,
  )
  native_result-Settles i pymupdf out_of_memory = tt
  native_result-Settles i pymupdf excepted =
      (partial-IsAccounted i native_pdf failed [] _ refl (inl refl), refl, refl)

  -- The same of what RapidTable comes to.
  abbrev pub Reads : ReadPage ms → Type 0
  Reads (page_read r) = IsAccounted r × (r.source ≡ rapidtable)
  Reads _ = Unit {0}

  accounted-Reads :
      (i : ℕ) (ts : List (Table ms)) (k m : ℕ) → All (IsGrid ms) ts → Reads (accounted ms i ts k m)
  accounted-Reads i ts k (suc m) g =
      (partial-IsAccounted i rapidtable failed ts _ refl (inr g), refl)
  accounted-Reads i ts (suc k) zero g =
      (partial-IsAccounted i rapidtable unsupported ts _ refl (inr g), refl)
  accounted-Reads i [] zero zero g =
      (partial-IsAccounted i rapidtable unsupported [] _ refl (inr g), refl)
  accounted-Reads i (t ∷ ts) zero zero g = (
    record { complete_tables = refl; empty_tables = refl; partial_reason = refl; grids = inr g },
    refl,
  )

  read_outcome-Reads :
      (i : ℕ) (a : Attempt (TableReadResult ms)) → AreGrids ms a → Reads (read_outcome ms i a)
  read_outcome-Reads i out_of_memory g = tt
  read_outcome-Reads i excepted g =
      (partial-IsAccounted i rapidtable failed [] _ refl (inr tt), refl)
  read_outcome-Reads i (returned k) g =
      accounted-Reads i k.tables k.unresolved_regions k.failed_regions g

  with_engines-Reads :
      (i : ℕ) (rs : List (Region ms)) (a : Attempt (Attempt (Recognition ms)))
      → Reads (with_engines ms i rs a)
  with_engines-Reads i rs out_of_memory = tt
  with_engines-Reads i rs excepted = tt
  with_engines-Reads i rs (returned out_of_memory) = tt
  with_engines-Reads i rs (returned excepted) = read_outcome-Reads i excepted tt
  with_engines-Reads i rs (returned (returned rec)) =
      read_outcome-Reads i (read_tables ms rec rs) (read_tables-AreGrids ms rec rs)

  pub rapid_page_result-Reads : (i : ℕ) (p : RenderedPage ms) → Reads (rapid_page_result ms i p)
  unfolding rapid_page_result
  rapid_page_result-Reads i p = elim (Bool-cases p.white) [
    | inl white ↦ rw white (
      record { complete_tables = refl; empty_tables = refl; partial_reason = refl; grids = inr tt },
      refl,
    )
    | inr printed ↦ elim (Bool-cases (is_empty p.regions)) [
      | inl bare ↦
          rw (printed, bare) (partial-IsAccounted i rapidtable unsupported [] _ refl (inr tt), refl)
      | inr ruled ↦ rw (printed, ruled) (with_engines-Reads i p.regions p.engines)
    ]
  ]

  -- The same of Docling.
  abbrev pub Converts : Attempt (PageResult ms) → Type 0
  Converts (returned r) = IsAccounted r
  Converts _ = Unit {0}

  mapped_result-IsAccounted :
      (i : ℕ) (ts : List (Table ms)) (k : ℕ)
      → All (IsGrid ms) ts
      → IsAccounted (mapped_result ms i ts k)
  mapped_result-IsAccounted i ts (suc k) g =
      partial-IsAccounted i docling_tableformer unsupported ts _ refl (inr g)
  mapped_result-IsAccounted i [] zero g =
      partial-IsAccounted i docling_tableformer unsupported [] _ refl (inr tt)
  mapped_result-IsAccounted i (t ∷ ts) zero g = record {
    complete_tables = refl;
    empty_tables = refl;
    partial_reason = refl;
    grids = inr g;
  }

  mapped_outcome-Converts :
      (i : ℕ) (o : Parsed (List (Table ms) × ℕ))
      → ((ts : List (Table ms)) (k : ℕ) → o ≡ parsed (ts, k) → All (IsGrid ms) ts)
      → Converts (mapped_outcome ms i o)
  mapped_outcome-Converts i (refused e) h =
      partial-IsAccounted i docling_tableformer failed [] _ refl (inr tt)
  mapped_outcome-Converts i (parsed (ts, k)) h = mapped_result-IsAccounted i ts k (h ts k refl)

  pub docling_page_result-Converts :
      (i : ℕ) (a : Attempt (Option (List (DoclingTable ms))))
      → Converts (docling_page_result ms i a)
  unfolding docling_page_result
  docling_page_result-Converts i out_of_memory = tt
  docling_page_result-Converts i excepted =
      partial-IsAccounted i docling_tableformer failed [] _ refl (inr tt)
  docling_page_result-Converts i (returned none) =
      partial-IsAccounted i docling_tableformer failed [] _ refl (inr tt)
  docling_page_result-Converts i (returned (some ts)) =
      mapped_outcome-Converts i (map_document ms false ts)
        (λ tables k e. (map_document-AreMapped ms false ts tables k e).0)
