-- ===== src/Pdf/Orientation/Verdicts.antt =====
-- What the orientation report says of the pages it names.
use pdf_engine_toolbox.Base.{
  zero, suc, none, some, map, Option-cases, ℕ, ◌+◌, ◌-◌, ◌%◌, ◌≤◌, ◌≡◌, refl, sym, subst, ◌⊎◌, inl,
  inr, Bool, true, false, not, ◌||◌, Option, List, [], ◌∷◌, arith, ◌==◌, length, keep_if,
  Bool-cases,
}
use pdf_engine_toolbox.Base.Int.{ℤ, pos}
use pdf_engine_toolbox.Download.Policy.{strip}
use pdf_engine_toolbox.Errors.{Text}
use pdf_engine_toolbox.Tables.Readers.{Measures, F, lt}
use pdf_engine_toolbox.Pdf.{
  Outcome, done, >>=-eq-done, Fitz, open_pdf, get_elem?, range_from, in_range-pos,
  validate_pages-IsInRange,
}
use pdf_engine_toolbox.Pdf.Orientation.{
  Verdict, Rotation, Orientations, is_ignored, rotations, is_candidate, targets_of, check_targets,
  report, detect_page_orientations,
}

quarter_turn :
    (c : Bool) (k : ℕ)
    → not (k == 90 || k == 180 || k == 270) || c ≡ false
    → ((k ≡ 90) ⊎ (k ≡ 180) ⊎ (k ≡ 270)) × ((360 - k) % 360 + k ≡ 360) × (c ≡ false)
quarter_turn c k e = elim (Bool-cases (k == 90)) [
  | inl a ↦ let is_90 : k ≡ 90 = ground arith in (inl is_90, rw is_90 refl, ground arith)
  | inr not_90 ↦ elim (Bool-cases (k == 180)) [
    | inl a ↦
        let is_180 : k ≡ 180 = ground arith in (inr (inl is_180), rw is_180 refl, ground arith)
    | inr not_180 ↦ elim (Bool-cases (k == 270)) [
      | inl a ↦
          let is_270 : k ≡ 270 = ground arith in (inr (inr is_270), rw is_270 refl, ground arith)
      | inr not_270 ↦ ground arith
    ]
  ]
]

length-keep_if {ℓ} : {A : Type ℓ} (p : A → Bool) (xs : List A) → length (keep_if p xs) ≤ length xs
length-keep_if p [] = omega arith
length-keep_if p (x ∷ xs) = ground (arith, length-keep_if p xs)

module _ (ms : Measures) (min_confidence : F ms) where
  -- A turn by a quarter, a half or three quarters, with enough confidence.
  abbrev pub IsTurn : Verdict ms → Type 0
  IsTurn v =
      ((v.rotation ≡ 90) ⊎ (v.rotation ≡ 180) ⊎ (v.rotation ≡ 270))
      × (lt ms v.confidence min_confidence ≡ false)

  -- The correction of a page by its verdict, with the orientation that it undoes.
  abbrev pub IsCorrection : ℕ → Verdict ms → Rotation ms → Type 0
  IsCorrection p v r =
      (r.page ≡ p)
      × (r.rotation ≡ v.rotation)
      × (r.detected_orientation + r.rotation ≡ 360)
      × (r.confidence ≡ v.confidence)

  -- The corrections of these pages by their verdicts, in order: one where the verdict is such a turn.
  abbrev pub AreCorrections : List ℕ → List (Verdict ms) → List (Rotation ms) → Type 0
  AreCorrections [] [] rs = rs ≡ []
  AreCorrections (p ∷ ps) (v ∷ vs) rs =
      ((¬ IsTurn v) × AreCorrections ps vs rs)
      ⊎ (IsTurn v
          × (r : Rotation ms) × (rest : List (Rotation ms)) × (rs ≡ r ∷ rest)
          × IsCorrection p v r
          × AreCorrections ps vs rest)
  AreCorrections _ _ rs = ⊥

  ignored-IsTurn : (v : Verdict ms) → is_ignored ms min_confidence v ≡ true → ¬ IsTurn v
  ignored-IsTurn v e (inl quarter, sure) = ground arith
  ignored-IsTurn v e (inr (inl half), sure) = ground arith
  ignored-IsTurn v e (inr (inr back), sure) = ground arith

  rotations-AreCorrections :
      (ps : List ℕ) (vs : List (Verdict ms)) (rs : List (Rotation ms))
      → rotations ms min_confidence ps vs ≡ done rs
      → AreCorrections ps vs rs
  unfolding rotations
  rotations-AreCorrections [] [] rs e = ground arith
  rotations-AreCorrections [] (v ∷ vs) rs e = cc
  rotations-AreCorrections (p ∷ ps) [] rs e = cc
  rotations-AreCorrections (p ∷ ps) (v ∷ vs) rs e =
      let (rest, later, last) = >>=-eq-done (rotations ms min_confidence ps vs) _ e in
      let others = rotations-AreCorrections ps vs rest later in
      elim (Bool-cases (is_ignored ms min_confidence v)) [
        | inl ignored ↦
            let same : rest ≡ rs = ground arith in
            inl (ignored-IsTurn v ignored, subst (AreCorrections ps vs) same others)
        | inr kept ↦
            let (turn, undone, confident) =
              quarter_turn (lt ms v.confidence min_confidence) v.rotation kept in
            let made : Rotation ms = record {
              page = p;
              rotation = v.rotation;
              detected_orientation = (360 - v.rotation) % 360;
              confidence = v.confidence;
            } in
            let same : made ∷ rest ≡ rs = ground arith in
            inr ((turn, confident), made, rest, sym same, (refl, refl, undone, refl), others)
      ]

  -- What is reported of the candidates: nothing where there are none, and otherwise the corrections by the
  -- verdicts of the queue; and the counts.
  abbrev pub IsReport :
      (List ℕ → Outcome (List (Verdict ms))) → List ℕ → List ℕ → Orientations ms → Type 0
  IsReport run_pages targets candidates r =
      (((candidates ≡ []) × (r.pages ≡ []))
        ⊎ ((vs : List (Verdict ms)) × (run_pages candidates ≡ done vs)
            × AreCorrections candidates vs r.pages))
      × (r.checked_page_count ≡ length candidates)
      × (r.checked_page_count + r.skipped_page_count ≡ length targets)

  module _ (fz : Fitz) (show : ℤ → Text) (get_text : fz.Page → Text) where
    report-IsReport :
        (run_pages : List ℕ → Outcome (List (Verdict ms))) (targets candidates : List ℕ)
        (r : Orientations ms)
        → length candidates ≤ length targets
        → report ms fz show get_text min_confidence
            (length targets)
            candidates
            (run_pages candidates)
          ≡ done r
        → IsReport run_pages targets candidates r
    report-IsReport run_pages targets [] r h e =
        let same : record {
          pages = [];
          checked_page_count = 0;
          skipped_page_count = length targets;
        }
            ≡ r =
          ground arith in
        subst (λ x. IsReport run_pages targets [] x) same (inl (refl, refl), refl, omega arith)
    report-IsReport run_pages targets (c ∷ cs) r h e =
        let (vs, read, next) = >>=-eq-done (run_pages (c ∷ cs)) _ e in
        let (found, turns, last) = >>=-eq-done (rotations ms min_confidence (c ∷ cs) vs) _ next in
        let same : record {
          pages = found;
          checked_page_count = length (c ∷ cs);
          skipped_page_count = length targets - length (c ∷ cs);
        }
            ≡ r =
          ground arith in
        subst (λ x. IsReport run_pages targets (c ∷ cs) x) same
          (inr (vs, read, rotations-AreCorrections (c ∷ cs) vs found turns), refl, omega arith)

    -- The pages that were asked for, by their numbers from 0: these, or all of the document in order.
    abbrev pub Counts : ℕ → List ℕ → Type 0
    Counts k [] = Unit {0}
    Counts k (p ∷ ps) = (p ≡ k) × Counts (suc k) ps

    abbrev pub AreTargets : fz.Doc → Option (List ℤ) → List ℕ → Type 0
    AreTargets doc none targets = (length targets ≡ length (fz.pages doc)) × Counts 0 targets
    AreTargets doc (some ps) targets = map pos targets ≡ ps

    -- A page is left out: only scans are wanted, and its text has 20 characters or more.
    abbrev pub HasText : fz.Doc → Bool → ℕ → Type 0
    HasText doc scanned_only i =
        (scanned_only ≡ true)
        × (p : fz.Page) × (get_elem? (fz.pages doc) i ≡ some p)
        × (20 ≤ length (strip (get_text p)))

    -- The candidates are the targets that are not left out, in their order.
    abbrev pub AreCandidates : fz.Doc → Bool → List ℕ → List ℕ → Type 0
    AreCandidates doc scanned_only [] candidates = candidates ≡ []
    AreCandidates doc scanned_only (i ∷ is) candidates =
        (HasText doc scanned_only i × AreCandidates doc scanned_only is candidates)
        ⊎ ((¬ HasText doc scanned_only i)
            × (rest : List ℕ) × (candidates ≡ i ∷ rest)
            × AreCandidates doc scanned_only is rest)

    abbrev pub Reported :
        (List ℕ → Outcome (List (Verdict ms)))
        → fz.Doc
        → Option (List ℤ)
        → Bool
        → Orientations ms
        → Type 0
    Reported run_pages doc pages scanned_only r =
        (targets : List ℕ) × (candidates : List ℕ) × AreTargets doc pages targets
        × AreCandidates doc scanned_only targets candidates
        × IsReport run_pages targets candidates r

    range_from-Counts : (k n : ℕ) → (length (range_from k n) ≡ n) × Counts k (range_from k n)
    range_from-Counts k zero = (refl, tt)
    range_from-Counts k (suc n) =
        let (counted, from) = range_from-Counts (suc k) n in (ground (arith, counted), (refl, from))

    check_targets-AreTargets :
        (doc : fz.Doc) (pages : Option (List ℤ))
        → check_targets ms fz show get_text (length (fz.pages doc)) pages ≡ done tt
        → AreTargets doc pages (targets_of ms fz show get_text (length (fz.pages doc)) pages)
    check_targets-AreTargets doc none e = range_from-Counts 0 (length (fz.pages doc))
    check_targets-AreTargets doc (some ps) e =
        in_range-pos (length (fz.pages doc)) ps
          (validate_pages-IsInRange show (length (fz.pages doc)) ps e)

    is_candidate-HasText :
        (doc : fz.Doc) (scanned_only : Bool) (i : ℕ)
        → is_candidate ms fz show get_text scanned_only (fz.pages doc) i ≡ false
        → HasText doc scanned_only i
    is_candidate-HasText doc scanned_only i e = elim (Option-cases (get_elem? (fz.pages doc) i)) [
      | inl missing ↦ absurd (ground (arith, missing))
      | inr (p, there) ↦ (ground (arith, there), p, there, ground (arith, there))
    ]

    is_candidate-not :
        (doc : fz.Doc) (scanned_only : Bool) (i : ℕ)
        → is_candidate ms fz show get_text scanned_only (fz.pages doc) i ≡ true
        → ¬ HasText doc scanned_only i
    is_candidate-not doc scanned_only i e (wanted, p, there, long) = ground (arith, there)

    keep_if-AreCandidates :
        (doc : fz.Doc) (scanned_only : Bool) (is : List ℕ)
        → AreCandidates doc scanned_only is
            (keep_if (is_candidate ms fz show get_text scanned_only (fz.pages doc)) is)
    keep_if-AreCandidates doc scanned_only [] = refl
    keep_if-AreCandidates doc scanned_only (i ∷ is) =
        elim (Bool-cases (is_candidate ms fz show get_text scanned_only (fz.pages doc) i)) [
          | inl kept ↦ rw kept (
              inr (
                is_candidate-not doc scanned_only i kept,
                _,
                refl,
                keep_if-AreCandidates doc scanned_only is,
              ))
          | inr left ↦ rw left (
              inl (
                is_candidate-HasText doc scanned_only i left,
                keep_if-AreCandidates doc scanned_only is,
              ))
        ]

    -- Where the file opens and the report returns: the candidates are the pages that were asked for, which
    -- are all pages by default, without those that have 20 characters of text or more if only scans are
    -- wanted; the report has a correction for exactly those candidates whose verdict from the queue is a
    -- turn of 90, 180 or 270 degrees of at least the wanted confidence, in their order, each with that turn,
    -- its confidence and the orientation that makes a full circle with it; and the checked pages are as
    -- many as the candidates, and with the skipped ones as many as the pages that were asked for.
    pub detect_page_orientations-IsReport :
        (run_pages : List ℕ → Outcome (List (Verdict ms))) (pdf_bytes : Text)
        (pages : Option (List ℤ)) (scanned_only : Bool) (doc : fz.Doc) (r : Orientations ms)
        → open_pdf fz pdf_bytes ≡ done doc
        → detect_page_orientations ms fz show get_text run_pages pdf_bytes pages scanned_only
            min_confidence
          ≡ done r
        → Reported run_pages doc pages scanned_only r
    unfolding detect_page_orientations
    detect_page_orientations-IsReport run_pages pdf_bytes pages scanned_only doc r opened_doc e =
        let (d, opened, checks) = >>=-eq-done (open_pdf fz pdf_bytes) _ e in
        let same : d ≡ doc = ground arith in
        let (valid, checked, reported) =
          >>=-eq-done (check_targets ms fz show get_text (length (fz.pages d)) pages) _ checks in
        subst (λ x. Reported run_pages x pages scanned_only r) same
          (
            targets_of ms fz show get_text (length (fz.pages d)) pages,
            keep_if (is_candidate ms fz show get_text scanned_only (fz.pages d))
                (targets_of ms fz show get_text (length (fz.pages d)) pages),
            check_targets-AreTargets d pages checked,
            keep_if-AreCandidates d scanned_only
                (targets_of ms fz show get_text (length (fz.pages d)) pages),
            report-IsReport run_pages (targets_of ms fz show get_text (length (fz.pages d)) pages) _
                r (length-keep_if (is_candidate ms fz show get_text scanned_only (fz.pages d)) _)
                reported,
          )
