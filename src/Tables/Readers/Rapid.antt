-- ===== src/Tables/Readers/Rapid.antt =====
-- app/services/table_ocr.py: what `read_tables` makes of one region. What OpenCV, the OCR engine and
-- RapidTable give for a page and for a region of it are parameters.
use pdf_engine_toolbox.Base.{
  ℕ, zero, suc, ◌-◌, max, Bool, not, ◌&&◌, ◌||◌, Option, none, some, List, [], ◌∷◌, ◌++◌, ◌==◌,
  length, map, any, is_empty, is_some, if◌then◌else◌,
}
use pdf_engine_toolbox.Base.Int.{ℤ}
use pdf_engine_toolbox.Errors.{Text}
use pdf_engine_toolbox.Tables.{Event, Cell, Parsed, raised, parsed}
use pdf_engine_toolbox.Tables.Parse.{parse_table, repeat}
use pdf_engine_toolbox.Tables.Readers.{
  Measures, Attempt, returned, out_of_memory, excepted, F, Bbox, le, least, greatest, Frame,
  pdf_bbox, TableCell, Table, lacks_geometry,
}
use pdf_engine_toolbox.Redact.Words.{n}

abbrev pub get_elem? {ℓ} : {A : Type ℓ} → List A → ℕ → Option A
get_elem? [] i = none
get_elem? (x ∷ xs) zero = some x
get_elem? (x ∷ xs) (suc i) = get_elem? xs i

-- `row + [""] * (width - len(row))`, with the longest row for the width.
abbrev pub pad_row : ℕ → List Text → List Text
pad_row width row = row ++ repeat (width - length row) []

abbrev pub longest : List (List Text) → ℕ
longest [] = 0
longest (row ∷ rows) = max (length row) (longest rows)

abbrev pub pad_rows : List (List Text) → List (List Text)
pad_rows rows = map (pad_row (longest rows)) rows

module _ (ms : Measures) where
  -- A ruled region in pixels, which OpenCV finds on the page.
  pub record Region : Type 0 where
    pub left : ℕ
    pub top : ℕ
    pub right : ℕ
    pub bottom : ℕ

  -- The text lines of a page: the four corners of each as eight numbers, and its centre.
  pub record TextLine : Type 0 where
    pub corners : List (F ms)
    pub center_x : F ms
    pub center_y : F ms

  -- RapidTable's structure of a region: the events of its HTML, and the predicted boxes of its cells.
  pub record Structure : Type 0 where
    pub events : List Event
    pub predicted : List (Option (List (F ms)))

  -- What the matcher gives: for each cell the readings it takes, the page lines of the readings that it
  -- kept, and the events of the HTML with their texts.
  pub record Matching : Type 0 where
    pub assignment : ℕ → List ℕ
    pub source_indices : List ℕ
    pub events : List Event

  -- The page, and what the engines give for a region with the lines inside it.
  pub record Recognition : Type 0 where
    pub page_width : F ms
    pub page_height : F ms
    pub scale_x : F ms
    pub scale_y : F ms
    pub lines : List TextLine
    pub parse_int : Text → Option ℤ
    pub structure : Region → List ℕ → Attempt Structure
    pub matching : Region → List ℕ → Attempt Matching

  -- What a region comes to; `escaped` is an exception that `read_tables` does not catch.
  pub data RegionOutcome : Type 0 where
    resolved : Table ms → RegionOutcome
    unresolved failed_region escaped memory : RegionOutcome

  abbrev pub px : ℕ → F ms
  px k = n ms.floats k

  abbrev pub is_inside : Region → TextLine → Bool
  is_inside r l =
      le ms (px r.left) l.center_x
      && le ms l.center_x (px r.right)
      && le ms (px r.top) l.center_y
      && le ms l.center_y (px r.bottom)

  abbrev pub inside_from : ℕ → Region → List TextLine → List ℕ
  inside_from i r [] = []
  inside_from i r (l ∷ ls) =
      let rest = inside_from (suc i) r ls in if is_inside r l then i ∷ rest else rest

  module _ (rec : Recognition) where
    abbrev pub frame_at : F ms → F ms → Frame ms
    frame_at left top = record {
      left = left;
      top = top;
      scale_x = rec.scale_x;
      scale_y = rec.scale_y;
      page_width = rec.page_width;
      page_height = rec.page_height;
    }

    -- Whether the predicted boxes do not account for the cells of the structure.
    abbrev pub mispredicts : Region → List Cell → List (Option (List (F ms))) → Bool
    mispredicts r physical predicted =
        is_empty physical
        || not (length predicted == length physical)
        || any (λ b. not (is_some (pdf_bbox ms (frame_at (px r.left) (px r.top)) b))) predicted

    -- The box in points of the line that reading `i` stands for; `none` where there is no such line.
    abbrev pub line_box : Matching → ℕ → Option (Option (Bbox ms))
    line_box m i = elim (get_elem? m.source_indices i) [
      | none ↦ none
      | some j ↦ elim (get_elem? rec.lines j) [
        | none ↦ none
        | some l ↦ some (pdf_bbox ms (frame_at (px 0) (px 0)) (some l.corners))
      ]
    ]

    -- `[pdf_bbox(…) for i in assignment.get(cell_index, [])]`
    abbrev pub assigned : Matching → List ℕ → Option (List (Option (Bbox ms)))
    assigned m [] = some []
    assigned m (i ∷ is) = elim (line_box m i) [
      | none ↦ none
      | some b ↦ elim (assigned m is) [ none ↦ none | some bs ↦ some (b ∷ bs) ]
    ]

    -- The boxes, if none of them is missing.
    abbrev pub all_boxes : List (Option (Bbox ms)) → Option (List (Bbox ms))
    all_boxes [] = some []
    all_boxes (none ∷ bs) = none
    all_boxes (some b ∷ bs) = elim (all_boxes bs) [ none ↦ none | some cs ↦ some (b ∷ cs) ]

    abbrev pub hull : List (Bbox ms) → Option (Bbox ms)
    hull [] = none
    hull (b ∷ bs) = some (record {
      x0 = least ms b.x0 (map (λ c. c.x0) bs);
      y0 = least ms b.y0 (map (λ c. c.y0) bs);
      x1 = greatest ms b.x1 (map (λ c. c.x1) bs);
      y1 = greatest ms b.y1 (map (λ c. c.y1) bs);
    })

    abbrev pub bounds_from : List (Option (Bbox ms)) → Option (Bbox ms)
    bounds_from boxes = elim (all_boxes boxes) [ none ↦ none | some bs ↦ hull bs ]

    -- The cells with the boxes of their own lines; `none` where a reading has no line.
    abbrev pub locate : ℕ → Matching → List Cell → Option (List (TableCell ms))
    locate i m [] = some []
    locate i m (c ∷ cs) = elim (assigned m (m.assignment i)) [
      | none ↦ none
      | some boxes ↦ elim (locate (suc i) m cs) [
        | none ↦ none
        | some ds ↦ some (record { cell = c; bbox = bounds_from boxes } ∷ ds)
      ]
    ]

    abbrev pub region_box : Region → Bbox ms
    region_box r = record {
      x0 = ms.round2 (ms.floats.mul (px r.left) rec.scale_x);
      y0 = ms.round2 (ms.floats.mul (px r.top) rec.scale_y);
      x1 = ms.round2 (ms.floats.mul (px r.right) rec.scale_x);
      y1 = ms.round2 (ms.floats.mul (px r.bottom) rec.scale_y);
    }

    abbrev pub build_table :
        Region → List (List Text) → Option (List (TableCell ms)) → RegionOutcome
    build_table r rows none = escaped
    build_table r rows (some cells) = resolved (record {
      bbox = some (region_box r);
      rows = pad_rows rows;
      cells = cells;
      row_count = length rows;
      col_count = longest rows;
      geometry_unavailable = lacks_geometry ms cells;
    })

    abbrev pub read_matched :
        Region → List Cell → Matching → Parsed (List (List Text) × List Cell) → RegionOutcome
    read_matched r physical m (raised e) = unresolved
    read_matched r physical m (parsed (rows, cells)) =
        if is_empty rows || not (length cells == length physical)
        then unresolved
        else build_table r rows (locate 0 m cells)

    abbrev pub match_cells : Region → List Cell → Attempt Matching → RegionOutcome
    match_cells r physical out_of_memory = memory
    match_cells r physical excepted = failed_region
    match_cells r physical (returned m) =
        read_matched r physical m (parse_table rec.parse_int m.events)

    abbrev pub read_predicted :
        Region → List ℕ → Structure → Parsed (List (List Text) × List Cell) → RegionOutcome
    read_predicted r inside s (raised e) = unresolved
    read_predicted r inside s (parsed (rows, physical)) =
        if mispredicts r physical s.predicted
        then unresolved
        else match_cells r physical (rec.matching r inside)

    abbrev pub read_structure : Region → List ℕ → Attempt Structure → RegionOutcome
    read_structure r inside out_of_memory = memory
    read_structure r inside excepted = failed_region
    read_structure r inside (returned s) =
        read_predicted r inside s (parse_table rec.parse_int s.events)

    unfoldable pub read_region : Region → RegionOutcome
    unfolding parse_table pdf_bbox
    read_region r =
        let inside = inside_from 0 r rec.lines in
        if is_empty inside then unresolved else read_structure r inside (rec.structure r inside)
