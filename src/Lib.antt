-- ===== src/Lib.antt =====
-- The core of the PDF engine: a service that runs OCR and other PDF work for signed HTTP requests.
--
-- A request is authenticated (Auth), and long work goes to the OCR queue (Queue), whose persistent
-- jobs live in a ledger (Ledger) so that they outlast a restart. The text of recognised tables
-- becomes a grid (Tables), which the readers of table pages give with its place on the page
-- (Tables.Readers), and a source document comes from an approved URL (Download). The pages, the
-- protection and the contents of a document are read and changed (Pdf). Results of
-- other expensive operations are kept on disk (Cache), other long work as tasks in memory (Tasks).
-- Errors carry a code, a message and an HTTP status (Errors).
--
-- Files and the code they are about:
--   Base            shared names, tests on numbers, lists, dictionaries, integers
--   Errors          app/utils/errors.py; a text is its list of code points
--   Auth            app/auth/hmac_auth.py: `verify_hmac` is the dependency of that name, `claim_nonce`
--                   is `_claim_sensitive_nonce`; Replay is about one check, Once about a run of them
--   Queue           app/services/ocr_queue.py, class `OcrQueue` and `_Job`:
--     State           the fields of the queue and of a job
--     Next            `_next_unit_locked`; its parts `make_room`, `admit` and `dispatch`
--     Work            the critical sections of `_run_and_record`, `_finish`, `_fail_job`, `_run_sync`,
--                     `submit_ocr` and `shutdown`
--     Run             those sections in any order, as a relation on systems
--     Admission       `submit_ocr`: the limit on unfinished jobs
--     Status          `status`, `_eta_locked`, `_retry_after_locked`
--   Ledger          app/services/ocr_queue.py, class `_Store`: one function for each SQL statement;
--                   Rows is about page rows, Pages about the results of pages, Sweep about `sweep`,
--                   Ids about job ids, Cached about the lookup of a finished result
--   Tables          app/services/table_evidence.py: `TableParser` and `parse_table`
--     Readers         `pdf_bbox`; Docling is app/services/table_docling.py, Rapid and RapidPage
--                     app/services/table_ocr.py, and Pipeline `read_page` of
--                     app/services/table_pipeline.py, which chooses between them; Mapped,
--                     MappedTables, RapidGrids, Sound and Answers are about their results. Service is
--                     `extract_tables_result` and `extract_tables` of app/services/pdf_service.py,
--                     with Targets about its pages and Whole about its list
--   Download        app/services/download_service.py: Policy is what the URL, the host and the address
--                   must be, Fetch is `download_pdf`
--   Cache           app/services/cache_service.py: entries of two files, and pruning by age
--   Tasks           app/services/task_service.py: the tasks kept in memory; Kept is about one call,
--                   Lifetime about a task among others
--   Pdf             app/services/pdf_service.py, on PyMuPDF as the record `Fitz` with its laws:
--     Pages           `rotate_pages`, `split_pages`, `merge_pdfs`, `reorder_pages`, `delete_pages`;
--                     Deleted, Reordered and Merged are about the pages of their results
--     Access          `get_info`, `authorize_and_unlock_pdf` and `add_bookmarks`; Authority is about
--                     unlocking, Outline about bookmarks
--     Classify        `classify_document` but for the tax year; Shadowed is about its keywords
--     Orientation     `detect_page_orientations`, and `decide` of app/services/page_orientation.py
--   Regex           what the code uses of Python's `re`: patterns as data and a matcher that tries the
--                   ways of a pattern in the order in which `re` does
--   Redact          app/services/identifier_redaction.py: the patterns; Confusions is
--                   `normalize_confusions`, Matches is `_matches` and `suspect_runs`, Words has the
--                   reading lines and Words.Find `find_identifiers`, Flow is `_scan` and
--                   `redact_identifiers`; Shapes, Visible, Shown and Boxed are about what is found
--   Tests           runs on small inputs, and every theorem at one
--
-- Jobs are objects that several lists share: the model has a heap of jobs, and the lists hold
-- references. Each `with self._lock` block is one function from queue to queue, and a run interleaves
-- them freely. Ids, times and sizes are natural numbers. The average time of a page is a float in the
-- code and stays abstract, with the update and the wait computed from it as parameters.
--
-- Recursion and fuel: the admission loop runs on the number of waiting jobs, since each round takes one
-- out; the scan of the active jobs runs on their number, as `range(count)` does; the search for a
-- free column runs on the number of occupied slots, since each step passes one; the rounds of
-- `normalize_confusions` run on the number of tokens, since each but the last sets one more.
--
-- Parameters: SHA-256, HMAC, JSON, the cipher of page results, `int` of a text, the text of an
-- exception, the float arithmetic of waits, the page reader and the assembler (by what they came to), `html.parser` (by its events), and what
-- the download takes of `urllib`, `ipaddress`, DNS and the HTTP client. For the redaction: the Unicode
-- tables of characters, float arithmetic, what PyMuPDF says of a page and removes from a file, and the
-- words that the OCR reads. For the tables: what Docling, RapidTable, the OCR engine and OpenCV give
-- for a page, each with its failures, and float arithmetic. For documents: PyMuPDF's calls, whose laws
-- say that an inserted page is appended, a page in range can be deleted, a document with pages is
-- saved and read back, and contents set on a document are those of the saved file; `str.upper`; the
-- verdicts of the queue on the pages that it is asked to orient.
--
-- Not modelled: the sealing of input and result files, file permissions and path checks, SQLite and
-- threads themselves, HTTP routing, the tax year of a classification, the drawing, rendering and image work that mostly calls
-- PyMuPDF and OpenCV, the loading of engines, and the services that mostly call Ghostscript,
-- LibreOffice or RapidOCR.
pub mod Base
pub mod Queue
pub mod Errors
pub mod Auth
pub mod Ledger
pub mod Tables
pub mod Download
pub mod Cache
pub mod Tasks
pub mod Pdf
pub mod Regex
pub mod Redact
pub mod Tests
