-- ===== src/Tables/Readers/Service.antt =====
-- The table request of app/services/pdf_service.py: `extract_tables_result` and `extract_tables`. The
-- queue that reads the pages is a parameter, by its answer.
pub mod Targets
pub mod Whole
use pdf_engine_toolbox.Base.{
  ℕ, suc, Bool, true, false, Option, none, some, List, [], ◌∷◌, ◌++◌, ◌==◌, length, any, map,
  if◌then◌else◌,
}
use pdf_engine_toolbox.Base.Int.{ℤ, pos, negsuc, pos_part}
use pdf_engine_toolbox.Errors.{Text, codes, PdfEngineError}
use pdf_engine_toolbox.Pdf.{
  Outcome, done, raised, uncaught, ◌>>=◌, ◌>>◌, Fitz, open_pdf, range_from, validate_pages,
}
use pdf_engine_toolbox.Tables.Readers.{
  Measures, Source, table_queue, PageStatus, failed, Table, PageResult, page_result,
}
use pdf_engine_toolbox.Tables.Readers.Pipeline.{table_error, is_partial}

abbrev pub request_timeout : PdfEngineError
request_timeout =
    table_error "TABLE_REQUEST_TIMEOUT" "Table preparation timed out. Retry selected pages." 504

abbrev pub extraction_incomplete : PdfEngineError
extraction_incomplete =
    table_error "TABLE_EXTRACTION_INCOMPLETE" "Some pages require table review" 422

abbrev pub same_page : ℤ → ℤ → Bool
same_page (pos m) (pos n) = m == n
same_page (pos m) (negsuc n) = false
same_page (negsuc m) (pos n) = false
same_page (negsuc m) (negsuc n) = m == n

-- `list(dict.fromkeys(pages))`: the first of each page number.
abbrev pub distinct_from : List ℤ → List ℤ → List ℤ
distinct_from seen [] = []
distinct_from seen (p ∷ ps) =
    let rest = distinct_from seen ps in
    let later = distinct_from (p ∷ seen) ps in if any (same_page p) seen then rest else p ∷ later

module _ (ms : Measures) where
  -- A table with its page and its place on it.
  pub record PageTable : Type 0 where
    pub table : Table ms
    pub page_index : ℕ
    pub table_index : ℕ

  -- The result of a page with the number of its tables for the tables.
  pub record PageOutcome : Type 0 where
    pub page_index : ℕ
    pub status : PageStatus
    pub reason : Option Text
    pub source : Source
    pub fallback_from : Option Source
    pub table_count : ℕ

  pub record TablesResult : Type 0 where
    pub tables : List PageTable
    pub total_count : ℕ
    pub pages : List PageOutcome
    pub source_sha256 : Text
    pub partial : Bool

  -- `enumerate(page_tables)`
  abbrev pub numbered : ℕ → ℕ → List (Table ms) → List PageTable
  numbered p i [] = []
  numbered p i (t ∷ ts) =
      record { table = t; page_index = p; table_index = i } ∷ numbered p (suc i) ts

  abbrev pub outcome_of : PageResult ms → PageOutcome
  outcome_of r = record {
    page_index = r.page_index;
    status = r.status;
    reason = r.reason;
    source = r.source;
    fallback_from = r.fallback_from;
    table_count = length r.tables;
  }

  -- `zip(targets, results, strict=True)`; the targets are distinct, so that each keeps its own result.
  abbrev pub by_page : List ℕ → List (PageResult ms) → Outcome (List (ℕ × PageResult ms))
  by_page [] [] = done []
  by_page [] (r ∷ rs) = uncaught
  by_page (p ∷ ps) [] = uncaught
  by_page (p ∷ ps) (r ∷ rs) = by_page ps rs >>= λ rest. done ((p, r) ∷ rest)

  abbrev pub all_tables : List (ℕ × PageResult ms) → List PageTable
  all_tables [] = []
  all_tables ((p, r) ∷ rest) = numbered p 0 r.tables ++ all_tables rest

  abbrev pub all_outcomes : List (ℕ × PageResult ms) → List PageOutcome
  all_outcomes [] = []
  all_outcomes ((p, r) ∷ rest) = outcome_of r ∷ all_outcomes rest

  abbrev pub combined : Text → List (ℕ × PageResult ms) → TablesResult
  combined hash rs = record {
    tables = all_tables rs;
    total_count = length (all_tables rs);
    pages = all_outcomes rs;
    source_sha256 = hash;
    partial = any (λ o. is_partial o.status) (all_outcomes rs);
  }

  abbrev pub timed_out : ℕ → PageResult ms
  timed_out p = page_result ms p table_queue failed [] (some (codes "table_request_timeout"))

  -- The queue is not asked where there is nothing to read, or no time for it.
  abbrev pub queue_results :
      (List ℕ → Outcome (List (PageResult ms))) → Bool → List ℕ → Outcome (List (PageResult ms))
  queue_results run_pages time_left [] = done []
  queue_results run_pages false (p ∷ ps) = done (map timed_out (p ∷ ps))
  queue_results run_pages true (p ∷ ps) = run_pages (p ∷ ps)

  module _ (fz : Fitz) (show : ℤ → Text) (sha256 : Text → Text)
      (run_pages : List ℕ → Outcome (List (PageResult ms))) where
    abbrev pub targets_of : fz.Doc → Option (List ℤ) → List ℤ
    targets_of doc none = map pos (range_from 0 (length (fz.pages doc)))
    targets_of doc (some ps) = distinct_from [] ps

    abbrev pub read_targets : Bool → List ℕ → Text → Outcome TablesResult
    read_targets time_left targets hash = queue_results run_pages time_left targets >>= λ rs.
        by_page targets rs >>= λ pairs. done (combined hash pairs)

    -- `prepared` is whether the lock of PyMuPDF is got before the deadline, `time_left` whether there is
    -- time after it.
    unfoldable pub extract_tables_result :
        Text → Option (List ℤ) → Bool → Bool → Outcome TablesResult
    unfolding validate_pages
    extract_tables_result pdf_bytes pages prepared time_left = do
      (if prepared then done tt else raised request_timeout)
      doc ← open_pdf fz pdf_bytes
      validate_pages show (length (fz.pages doc)) (targets_of doc pages)
      read_targets time_left (map pos_part (targets_of doc pages)) (sha256 pdf_bytes)

    unfoldable pub extract_tables : Text → Option (List ℤ) → Bool → Bool → Outcome (List PageTable)
    unfolding extract_tables_result
    extract_tables pdf_bytes pages prepared time_left =
        extract_tables_result pdf_bytes pages prepared time_left >>= λ r.
        if r.partial then raised extraction_incomplete else done r.tables
