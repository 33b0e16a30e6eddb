-- ===== src/Pdf/Orientation.antt =====
-- Which way up a page is: `decide` of app/services/page_orientation.py, and
-- `detect_page_orientations` of app/services/pdf_service.py. The queue that reads the pages is a
-- parameter, by its verdicts.
pub mod Verdicts
use pdf_engine_toolbox.Base.{
  ℕ, zero, suc, ◌+◌, ◌-◌, ◌%◌, Bool, true, false, not, ◌&&◌, ◌||◌, Option, none, some, List, [],
  ◌∷◌, ltb, leb, ◌==◌, length, is_empty, keep_if, map, if◌then◌else◌,
}
use pdf_engine_toolbox.Base.Int.{ℤ, pos_part}
use pdf_engine_toolbox.Errors.{Text}
use pdf_engine_toolbox.Download.Policy.{strip}
use pdf_engine_toolbox.Redact.Words.{n}
use pdf_engine_toolbox.Tables.Readers.{Measures, F, lt, le}
use pdf_engine_toolbox.Pdf.{
  Outcome, done, raised, uncaught, ◌>>=◌, ◌>>◌, Fitz, open_pdf, validate_pages, get_elem?,
  range_from,
}

module _ (ms : Measures) where
  -- `DECISIVE_MARGIN` is 0.15 and `CREDIBLE_SCORE` 0.5.
  abbrev pub zero_F : F ms
  zero_F = n ms.floats 0

  abbrev pub minus : F ms → F ms → F ms
  minus = ms.floats.sub

  -- `abs(x)` and `max(x, y)`
  abbrev pub magnitude : F ms → F ms
  magnitude x = if lt ms x zero_F then minus zero_F x else x

  abbrev pub larger : F ms → F ms → F ms
  larger x y = if lt ms x y then y else x

  abbrev pub is_decisive : F ms × F ms → Bool
  is_decisive (a, b) =
      le ms (ms.floats.ratio 15 100) (magnitude (minus a b))
      && le ms (ms.floats.ratio 1 2) (larger a b)

  abbrev pub margins : List (F ms × F ms) → List (F ms)
  margins [] = []
  margins ((a, b) ∷ ps) =
      let rest = margins ps in if is_decisive (a, b) then minus a b ∷ rest else rest

  -- `sum(…)`, from left to right.
  abbrev pub sum_from : F ms → List (F ms) → F ms
  sum_from acc [] = acc
  sum_from acc (x ∷ xs) = sum_from (ms.floats.add acc x) xs

  abbrev pub up_votes : List (F ms) → F ms
  up_votes vs = sum_from zero_F (keep_if (λ m. lt ms zero_F m) vs)

  abbrev pub down_votes : List (F ms) → F ms
  down_votes vs = minus zero_F (sum_from zero_F (keep_if (λ m. lt ms m zero_F) vs))

  abbrev pub rotation_for : Bool → Bool → ℕ
  rotation_for true flip = if flip then 270 else 90
  rotation_for false flip = if flip then 180 else 0

  pub record Verdict : Type 0 where
    pub rotation : ℕ
    pub confidence : F ms

  abbrev pub judge : F ms → Bool → F ms → F ms → Verdict
  judge axis_share sideways up down = record {
    rotation = rotation_for sideways (lt ms up down);
    confidence =
        ms.round4
          (ms.floats.mul axis_share (ms.floats.div (larger up down) (ms.floats.add up down)));
  }

  -- `MIN_DECISIVE` is 3.
  unfoldable pub decide : List (F ms × F ms) → F ms → Bool → Verdict
  decide pairs axis_share sideways =
      if ltb (length (margins pairs)) 3
      then record { rotation = 0; confidence = zero_F }
      else judge axis_share sideways (up_votes (margins pairs)) (down_votes (margins pairs))

  pub record Rotation : Type 0 where
    pub page : ℕ
    pub rotation : ℕ
    pub detected_orientation : ℕ
    pub confidence : F ms

  pub record Orientations : Type 0 where
    pub pages : List Rotation
    pub checked_page_count : ℕ
    pub skipped_page_count : ℕ

  -- `correction not in (90, 180, 270) or confidence < min_confidence`
  abbrev pub is_ignored : F ms → Verdict → Bool
  is_ignored min_confidence v =
      not (v.rotation == 90 || v.rotation == 180 || v.rotation == 270)
      || lt ms v.confidence min_confidence

  -- `zip(candidate_pages, judged, strict=True)`
  unfoldable pub rotations : F ms → List ℕ → List Verdict → Outcome (List Rotation)
  rotations min_confidence [] [] = done []
  rotations min_confidence [] (v ∷ vs) = uncaught
  rotations min_confidence (p ∷ ps) [] = uncaught
  rotations min_confidence (p ∷ ps) (v ∷ vs) = rotations min_confidence ps vs >>= λ rest. done (
      if is_ignored min_confidence v
      then rest
      else record {
        page = p;
        rotation = v.rotation;
        detected_orientation = (360 - v.rotation) % 360;
        confidence = v.confidence;
      }
        ∷ rest)

  module _ (fz : Fitz) (show : ℤ → Text) (get_text : fz.Page → Text) where
    -- A page with at least 20 characters of text is not judged if only scans are.
    abbrev pub is_candidate : Bool → List fz.Page → ℕ → Bool
    is_candidate scanned_only pages i = elim (get_elem? pages i) [
      | none ↦ true
      | some p ↦ not (scanned_only && leb 20 (length (strip (get_text p))))
    ]

    abbrev pub targets_of : ℕ → Option (List ℤ) → List ℕ
    targets_of total none = range_from 0 total
    targets_of total (some ps) = map pos_part ps

    abbrev pub check_targets : ℕ → Option (List ℤ) → Outcome (Unit {0})
    check_targets total none = done tt
    check_targets total (some ps) = validate_pages show total ps

    abbrev pub report : F ms → ℕ → List ℕ → Outcome (List Verdict) → Outcome Orientations
    report min_confidence total [] judged =
        done (record { pages = []; checked_page_count = 0; skipped_page_count = total })
    report min_confidence total (c ∷ cs) judged = judged >>= λ vs.
        rotations min_confidence (c ∷ cs) vs >>= λ found. done (record {
          pages = found;
          checked_page_count = length (c ∷ cs);
          skipped_page_count = total - length (c ∷ cs);
        })

    -- `run_pages` reads pages of the file on the queue.
    unfoldable pub detect_page_orientations :
        (List ℕ → Outcome (List Verdict))
        → Text
        → Option (List ℤ)
        → Bool
        → F ms
        → Outcome Orientations
    unfolding rotations validate_pages
    detect_page_orientations run_pages pdf_bytes pages scanned_only min_confidence = do
      doc ← open_pdf fz pdf_bytes
      check_targets (length (fz.pages doc)) pages
      let targets = targets_of (length (fz.pages doc)) pages
      let candidates = keep_if (is_candidate scanned_only (fz.pages doc)) targets
      report min_confidence (length targets) candidates (run_pages candidates)
