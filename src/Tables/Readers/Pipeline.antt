-- ===== src/Tables/Readers/Pipeline.antt =====
-- app/services/table_pipeline.py: `read_page`, which chooses between PyMuPDF's tables, RapidTable and
-- Docling.
use pdf_engine_toolbox.Base.{
  ℕ, Bool, true, false, not, ◌&&◌, ◌||◌, Option, none, some, List, [], ◌∷◌, is_empty, or_else,
  if◌then◌else◌, String,
}
use pdf_engine_toolbox.Errors.{codes, PdfEngineError}
use pdf_engine_toolbox.Pdf.{Outcome, done, raised, uncaught, ◌>>=◌}
use pdf_engine_toolbox.Tables.Readers.{
  Measures, Attempt, returned, out_of_memory, excepted, native_pdf, PageStatus, complete, empty,
  unsupported, failed, Table, PageResult, page_result,
}
use pdf_engine_toolbox.Tables.Readers.Docling.{DoclingTable, docling_page_result}
use pdf_engine_toolbox.Tables.Readers.RapidPage.{
  RenderedPage, ReadPage, page_read, configuration_error, no_memory, rapid_page_result,
}

-- The strategies that the code tells apart; any other text reads the page image.
pub data Strategy : Type 0 where
  auto pymupdf image : Strategy

abbrev pub is_auto : Strategy → Bool
is_auto auto = true
is_auto pymupdf = false
is_auto image = false

abbrev pub table_error : String → String → ℕ → PdfEngineError
table_error code message status = record {
  code = codes code;
  message = codes message;
  status_code = status;
}

abbrev pub unsupported_language : PdfEngineError
unsupported_language =
    table_error "UNSUPPORTED_LANGUAGE" "Table recognition on page images supports only language=en"
      422

-- `result["status"] in ("unsupported", "failed")`
abbrev pub is_partial : PageStatus → Bool
is_partial complete = false
is_partial empty = false
is_partial unsupported = true
is_partial failed = true

module _ (ms : Measures) where
  -- What PyMuPDF says of the page: whether its text layer is good, its tables, and whether it has no
  -- text, image or drawing.
  pub record NativePage : Type 0 where
    pub accepted : Bool
    pub tables : List (Table ms)
    pub blank : Bool

  -- A page, and what each reader would give for it; `allowed` is the answer to the claim of a fallback.
  pub record TablePage : Type 0 where
    pub native : Attempt NativePage
    pub rendered : RenderedPage ms
    pub conversion : Attempt (Option (List (DoclingTable ms)))
    pub allowed : Bool

  abbrev pub native_outcome : ℕ → List (Table ms) → Bool → PageResult ms
  native_outcome i (t ∷ ts) blank = page_result ms i native_pdf complete (t ∷ ts) none
  native_outcome i [] true = page_result ms i native_pdf empty [] (some (codes "blank_page"))
  native_outcome i [] false =
      page_result ms i native_pdf unsupported [] (some (codes "native_table_not_resolved"))

  -- What the native reading settles, if anything; `none` inside is no result yet.
  unfoldable pub native_result :
      ℕ → Strategy → Attempt NativePage → Attempt (Option (PageResult ms))
  native_result i image native = returned none
  native_result i auto (returned p) =
      if p.accepted && not (is_empty p.tables)
      then returned (some (native_outcome i p.tables p.blank))
      else returned none
  native_result i pymupdf (returned p) = returned (some (native_outcome i p.tables p.blank))
  native_result i auto excepted = returned none
  native_result i pymupdf excepted = returned (
      some (page_result ms i native_pdf failed [] (some (codes "native_table_recognition_failed"))))
  native_result i auto out_of_memory = out_of_memory
  native_result i pymupdf out_of_memory = out_of_memory

  abbrev pub from_rapid : ReadPage ms → Outcome (PageResult ms)
  from_rapid (page_read r) = done r
  from_rapid configuration_error = uncaught
  from_rapid no_memory = uncaught

  abbrev pub first_result :
      ℕ → Bool → TablePage → Attempt (Option (PageResult ms)) → Outcome (PageResult ms)
  first_result i english p out_of_memory = uncaught
  first_result i english p excepted = uncaught
  first_result i english p (returned (some r)) = done r
  first_result i english p (returned none) =
      if english
      then from_rapid (rapid_page_result ms i p.rendered)
      else raised unsupported_language

  -- The fallback's result, or what is kept of the first one.
  abbrev pub prefer : PageResult ms → PageResult ms → PageResult ms
  prefer first alternative =
      if not (is_partial alternative.status) || is_empty first.tables
      then record alternative { fallback_from = some first.source }
      else record first {
        status = unsupported;
        reason = or_else alternative.reason (some (codes "fallback_unresolved"));
      }

  abbrev pub after_fallback : PageResult ms → Attempt (PageResult ms) → Outcome (PageResult ms)
  after_fallback first out_of_memory = uncaught
  after_fallback first excepted = uncaught
  after_fallback first (returned alternative) = done (prefer first alternative)

  -- `docling` is whether the settings name the fallback.
  unfoldable pub fall_back :
      ℕ → Strategy → Bool → TablePage → PageResult ms → Outcome (PageResult ms)
  unfolding docling_page_result
  fall_back i strategy docling p first =
      if is_auto strategy && is_partial first.status && docling
      then if p.allowed
        then after_fallback first (docling_page_result ms i p.conversion)
        else done
            (record first { status = unsupported; reason = some (codes "fallback_page_limit") })
      else done first

  unfoldable pub read_page : ℕ → Strategy → Bool → Bool → TablePage → Outcome (PageResult ms)
  unfolding native_result rapid_page_result fall_back
  read_page i strategy english docling p =
      first_result i english p (native_result i strategy p.native) >>= λ first.
      fall_back i strategy docling p first
