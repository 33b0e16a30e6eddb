-- ===== src/Tests/Readers.antt =====
-- A ruled page that RapidTable cannot read and Docling reads, and a page that lies on its side.
use pdf_engine_toolbox.Base.{
  ℕ, if◌then◌else◌, ◌==◌, ◌+◌, ◌-◌, ◌*◌, ◌/◌, ◌≡◌, refl, true, false, Option, none, some, List, [],
  ◌∷◌, ltb, leb, map,
}
use pdf_engine_toolbox.Base.Int.{ℤ, pos}
use pdf_engine_toolbox.Errors.{Text, codes}
use pdf_engine_toolbox.Pdf.{done, ◌>>=◌, Outcome, open_pdf}
use pdf_engine_toolbox.Pdf.Orientation.{Verdict, Orientations, decide, detect_page_orientations}
use pdf_engine_toolbox.Pdf.Orientation.Verdicts.{Reported, detect_page_orientations-IsReport}
use pdf_engine_toolbox.Tables.{Parsed, raised, parsed}
use pdf_engine_toolbox.Tables.Readers.{
  Measures, returned, excepted, Table, pdf_bbox, docling_tableformer, rapidtable, complete,
  PageResult, Source, PageStatus,
}
use pdf_engine_toolbox.Tables.Readers.Docling.{DoclingCell, DoclingTable, map_document}
use pdf_engine_toolbox.Tables.Readers.MappedTables.{AreMapped, map_document-AreMapped}
use pdf_engine_toolbox.Tables.Readers.Pipeline.{auto, TablePage, read_page}
use pdf_engine_toolbox.Tables.Readers.Service.{PageTable, extract_tables}
use pdf_engine_toolbox.Tables.Readers.Service.Whole.{Whole, extract_tables-Whole}
use pdf_engine_toolbox.Tables.Readers.Answers.{Answers, read_page-Answers}
use pdf_engine_toolbox.Redact.Words.{Floats}
use pdf_engine_toolbox.Tests.Redaction.{whole}
use pdf_engine_toolbox.Tests.Documents.{flat, no_digits, three_pages, opened_three}

abbrev points : Measures
points = record { floats = whole; isfinite = λ x. true; round2 = λ x. x; round4 = λ x. x }

abbrev docling_cell : ℕ → ℕ → ℕ → Text → DoclingCell points
docling_cell row column span t = record {
  start_row_offset_idx = pos row;
  start_col_offset_idx = pos column;
  row_span = pos 1;
  col_span = pos span;
  text = t;
  column_header = false;
  box = some (10 ∷ 20 ∷ 30 ∷ 40 ∷ []);
}

-- Two rows of two columns, the first one cell wide; its page is 600 by 800 points.
abbrev docling_table : List (DoclingCell points) → DoclingTable points
docling_table cells = record {
  prov = record { page_size = some (600, 800); box = 10 ∷ 10 ∷ 500 ∷ 100 ∷ [] } ∷ [];
  num_rows = pos 2;
  num_cols = pos 2;
  table_cells = cells;
}

abbrev good_table : DoclingTable points
good_table = docling_table (
    docling_cell 0 0 2 (codes "Wages")
    ∷ docling_cell 1 0 1 (codes "1")
    ∷ docling_cell 1 1 1 (codes "2")
    ∷ [])

-- Its two cells overlap.
abbrev bad_table : DoclingTable points
bad_table = docling_table (docling_cell 0 0 2 (codes "Wages") ∷ docling_cell 0 1 1 (codes "1") ∷ [])

abbrev rows_of : Parsed (List (Table points) × ℕ) → Option (List (List (List Text)) × ℕ)
rows_of (raised e) = none
rows_of (parsed (tables, k)) = some (map (λ t. t.rows) tables, k)

mapped_rows :
    rows_of (map_document points false (good_table ∷ bad_table ∷ []))
    ≡ some (((codes "Wages" ∷ [] ∷ []) ∷ (codes "1" ∷ codes "2" ∷ []) ∷ []) ∷ [], 1)
unfolding map_document pdf_bbox
mapped_rows = refl

abbrev mapped_tables : Parsed (List (Table points) × ℕ) → List (Table points) × ℕ
mapped_tables (raised e) = ([], 0)
mapped_tables (parsed found) = found

abbrev found_two : List (Table points) × ℕ
unfolding map_document pdf_bbox
found_two = mapped_tables (map_document points false (good_table ∷ bad_table ∷ []))

mapped_two : map_document points false (good_table ∷ bad_table ∷ []) ≡ parsed found_two
unfolding map_document pdf_bbox
mapped_two = refl

map_document-AreMapped_example :
    AreMapped points false (good_table ∷ bad_table ∷ []) found_two.0 found_two.1
map_document-AreMapped_example =
    map_document-AreMapped points false (good_table ∷ bad_table ∷ []) found_two.0 found_two.1
      mapped_two

abbrev ruled_page : TablePage points
ruled_page = record {
  native = excepted;
  rendered = record {
    white = false;
    regions = record { left = 0; top = 0; right = 100; bottom = 100 } ∷ [];
    engines = returned excepted;
  };
  conversion = returned (some (good_table ∷ []));
  allowed = true;
}

abbrev source_of : Outcome (PageResult points) → Option (Source × PageStatus × Option Source)
source_of (done r) = some (r.source, r.status, r.fallback_from)
source_of _ = none

answered :
    source_of (read_page points 4 auto true true ruled_page)
    ≡ some (docling_tableformer, complete, some rapidtable)
unfolding read_page
answered = refl

read_page-Answers_example :
    Answers points auto true true (read_page points 4 auto true true ruled_page)
read_page-Answers_example = read_page-Answers points 4 auto true true ruled_page

-- Hundredths, above 1000 below zero.
abbrev hundredths : Floats
hundredths = record {
  F = ℕ;
  ratio = λ a b. 100000 + 100 * a / b;
  add = λ x y. x + y - 100000;
  sub = λ x y. x + 100000 - y;
  mul = λ x y. (x - 100000) * (y - 100000) / 100 + 100000;
  div = λ x y. (x - 100000) * 100 / (y - 100000) + 100000;
  rounded = λ x. x;
  lt = ltb;
  le = leb;
}

abbrev shares : Measures
shares = record { floats = hundredths; isfinite = λ x. true; round2 = λ x. x; round4 = λ x. x }

-- Three of the four decisive lines read better upside down, on a page on its side.
abbrev lines : List (ℕ × ℕ)
lines =
    (100010, 100090)
    ∷ (100010, 100080)
    ∷ (100090, 100030)
    ∷ (100045, 100050)
    ∷ (100020, 100070)
    ∷ []

upside_down : decide shares lines 100080 true ≡ record { rotation = 270; confidence = 100060 }
unfolding decide
upside_down = refl

abbrev judged : List ℕ → Outcome (List (Verdict shares))
judged pages = done (map (λ p. decide shares lines 100080 true) pages)

abbrev report_three : Orientations shares
report_three = record {
  pages = record { page = 2; rotation = 270; detected_orientation = 90; confidence = 100060 } ∷ [];
  checked_page_count = 1;
  skipped_page_count = 0;
}

detected :
    detect_page_orientations shares flat no_digits
      (λ p. [])
      judged
      three_pages
      (some (pos 2 ∷ []))
      true
      100050
    ≡ done report_three
unfolding detect_page_orientations open_pdf decide
detected = refl

-- Page 1 has the text of a page that is no scan.
abbrev short_text : ℕ → Text
short_text p = if p == 810 then codes "This page has a text layer" else codes "Scan"

abbrev report_all : Orientations shares
report_all = record {
  pages =
      record { page = 0; rotation = 270; detected_orientation = 90; confidence = 100060 }
      ∷ record { page = 2; rotation = 270; detected_orientation = 90; confidence = 100060 }
      ∷ [];
  checked_page_count = 2;
  skipped_page_count = 1;
}

detected_all :
    detect_page_orientations shares flat no_digits short_text judged three_pages none true 100050
    ≡ done report_all
unfolding detect_page_orientations open_pdf decide
detected_all = refl

detect_page_orientations-IsReport_example :
    Reported shares 100050 flat no_digits short_text judged three_pages none true report_all
detect_page_orientations-IsReport_example =
    detect_page_orientations-IsReport shares 100050 flat no_digits short_text judged three_pages
      none true three_pages report_all opened_three detected_all

abbrev hashed : Text → Text
hashed t = codes "e3b0"

-- The queue reads the pages one after another.
abbrev queue_of : List ℕ → Outcome (List (PageResult points))
queue_of [] = done []
queue_of (p ∷ ps) =
    read_page points p auto true true ruled_page >>= λ r. queue_of ps >>= λ rs. done (r ∷ rs)

abbrev read_tables_of : Outcome (List (PageTable points)) → List (PageTable points)
read_tables_of (done found) = found
read_tables_of _ = []

abbrev listed_for : Option (List ℤ) → List (PageTable points)
unfolding extract_tables open_pdf read_page pdf_bbox
listed_for asked =
    read_tables_of
      (extract_tables points flat no_digits hashed queue_of three_pages asked true true)

-- Page 2 is listed twice, and answered once.
two_tables :
    map {B = ℕ × ℕ}
      (λ t. (t.page_index, t.table_index))
      (listed_for (some (pos 2 ∷ pos 0 ∷ pos 2 ∷ [])))
    ≡ (2, 0) ∷ (0, 0) ∷ []
unfolding extract_tables open_pdf read_page pdf_bbox
two_tables = refl

-- By default every page is read.
three_tables :
    map {B = ℕ × ℕ} (λ t. (t.page_index, t.table_index)) (listed_for none)
    ≡ (0, 0) ∷ (1, 0) ∷ (2, 0) ∷ []
unfolding extract_tables open_pdf read_page pdf_bbox
three_tables = refl

listed :
    extract_tables points flat no_digits hashed queue_of three_pages none true true
    ≡ done (listed_for none)
unfolding extract_tables open_pdf read_page pdf_bbox
listed = refl

extract_tables-Whole_example :
    Whole points flat no_digits hashed queue_of three_pages none (listed_for none)
extract_tables-Whole_example =
    extract_tables-Whole points flat no_digits hashed queue_of three_pages none true true
      three_pages (listed_for none) opened_three listed
