-- ===== src/Redact/Flow.antt =====
-- `_scan` and `redact_identifiers` (app/services/identifier_redaction.py): find, black out, and search
-- the result again.
pub mod Clean
pub mod Clear
use pdf_engine_toolbox.Base.{
  ℕ, zero, suc, ◌+◌, ◌-◌, ◌*◌, Bool, true, false, not, ◌&&◌, ◌||◌, Option, none, some, List, [],
  ◌∷◌, ◌++◌, leb, ltb, ◌==◌, if◌then◌else◌, length, any, is_empty, is_some, keep_if, reverse, Dict,
}
use pdf_engine_toolbox.Errors.{Text, codes, text_eq}
use pdf_engine_toolbox.Regex.{Chars}
use pdf_engine_toolbox.Redact.{IdentifierKind, ssn, ein, tin}
use pdf_engine_toolbox.Redact.Matches.{suspect_runs}
use pdf_engine_toolbox.Redact.Words.{Floats, Rect, Word, Found, Fitz, n}
use pdf_engine_toolbox.Redact.Words.Find.{search_groups, find_identifiers, grow}

-- Why a redaction is refused: `RedactionIncompleteError`, of the OCR or of the two checks, or another
-- exception.
pub data Refusal : Type 0 where
  ocr_refused : Text → Refusal
  misread : List ℕ → Refusal
  still_readable : ℕ → List ℕ → Refusal
  broken : Refusal

pub data Checked (A : Type 0) : Type 0 where
  passed : A → Checked A
  incomplete : Refusal → Checked A

abbrev pub same_kind : IdentifierKind → IdentifierKind → Bool
same_kind ssn ssn = true
same_kind ein ein = true
same_kind tin tin = true
same_kind _ _ = false

abbrev pub same_flag : Bool → Bool → Bool
same_flag true b = b
same_flag false b = not b

-- `sorted` of a set.
abbrev pub insert_page : ℕ → List ℕ → List ℕ
insert_page i [] = i ∷ []
insert_page i (j ∷ js) =
    if ltb i j then i ∷ j ∷ js else if i == j then j ∷ js else j ∷ insert_page i js

abbrev pub sorted_pages : List ℕ → List ℕ
sorted_pages [] = []
sorted_pages (i ∷ is) = insert_page i (sorted_pages is)

module _ (ch : Chars) (fl : Floats) {Page : Type 0} (fitz : Fitz fl Page) where
  -- What is taken of PyMuPDF and of the file types: reading a file, converting an image, the words and
  -- the text of a page, the page's area and the parts of it that its images cover, whether boxes
  -- intersect, and the file in which everything under the boxes is removed.
  pub record Documents : Type 0 where
    pub open_pdf : Text → Option (List Page)
    pub convert : Text → Text → Option Text
    pub words : Page → List (Word fl)
    pub get_text : Page → Text
    pub area : Page → fl.F
    pub image_areas : Page → List fl.F
    pub intersects : Rect fl → Rect fl → Bool
    pub burn : Text → List (ℕ × Rect fl) → Text

  -- `OcrWords`: the words of the pages asked for, or a refusal.
  abbrev pub OcrWords : Type 0
  OcrWords = Text → List ℕ → Checked (Dict (List (Word fl)))

  pub record Redaction : Type 0 where
    pub pdf_bytes : Text
    pub redactions : List (Found fl)
    pub ocr_pages : List ℕ

  module _ (docs : Documents) where
    abbrev pub drop_space : Text → Text
    drop_space [] = []
    drop_space (c ∷ t) = if ch.space c then drop_space t else c ∷ t

    -- The number of tokens of `text.split()` and their total length; `inside` says whether a token is
    -- being read.
    abbrev pub token_sizes : Bool → Text → ℕ × ℕ
    token_sizes inside [] = (0, 0)
    token_sizes inside (c ∷ t) =
        let rest = token_sizes (not (ch.space c)) t in
        if ch.space c then rest else ((if inside then rest.0 else suc rest.0), suc rest.1)

    -- `_MIN_TEXT_CHARS` is 50 and `_MIN_AVG_TOKEN_LEN` 3.
    abbrev pub has_usable_text_layer : Page → Bool
    has_usable_text_layer p =
        let text = reverse (drop_space (reverse (drop_space (docs.get_text p)))) in
        let sizes = token_sizes false text in
        not (ltb (length text) 50) && not (sizes.0 == 0) && leb (sizes.0 * 3) sizes.1

    abbrev pub sum_areas : fl.F → List fl.F → fl.F
    sum_areas acc [] = acc
    sum_areas acc (a ∷ rest) = sum_areas (fl.add acc a) rest

    abbrev pub is_zero : fl.F → Bool
    is_zero x = fl.le x (n fl 0) && fl.le (n fl 0) x

    unfoldable pub needs_ocr : Page → Bool
    needs_ocr p =
        if not (has_usable_text_layer p)
        then true
        else if is_zero (docs.area p)
        then false
        else fl.le (fl.ratio 1 2) (fl.div (sum_areas (n fl 0) (docs.image_areas p)) (docs.area p))

    unfoldable pub ocr_pages_from : ℕ → List Page → List ℕ
    unfolding needs_ocr
    ocr_pages_from i [] = []
    ocr_pages_from i (p ∷ ps) =
        let rest = ocr_pages_from (suc i) ps in if needs_ocr p then i ∷ rest else rest

    unfoldable pub found_in_layers : ℕ → List Page → List (Found fl)
    unfolding find_identifiers
    found_in_layers i [] = []
    found_in_layers i (p ∷ ps) =
        find_identifiers ch fl fitz i (docs.words p) false (some p) ++ found_in_layers (suc i) ps

    abbrev pub is_twin : Found fl → Found fl → Bool
    is_twin hit f =
        (f.page == hit.page)
        && same_kind f.kind hit.kind
        && text_eq f.last4 hit.last4
        && same_flag f.from_ocr hit.from_ocr
        && any (λ a. any (docs.intersects a) hit.rects) f.rects

    -- A hit that overlaps one of the same identifier is added to it.
    unfoldable pub add_hit : Found fl → List (Found fl) → List (Found fl)
    add_hit hit [] = hit ∷ []
    add_hit hit (f ∷ fs) =
        if is_twin hit f then record f { rects = f.rects ++ hit.rects } ∷ fs else f ∷ add_hit hit fs

    abbrev pub add_hits : List (Found fl) → List (Found fl) → List (Found fl)
    add_hits [] found = found
    add_hits (h ∷ hs) found = add_hits hs (add_hit h found)

    -- `" ".join(w.text for w in group)`
    abbrev pub joined_text : List (Word fl) → Text
    joined_text [] = []
    joined_text (w ∷ []) = w.text
    joined_text (w ∷ v ∷ vs) = w.text ++ (32 ∷ joined_text (v ∷ vs))

    abbrev pub is_suspect_page : List (Word fl) → Bool
    is_suspect_page ws =
        any (λ g. not (is_empty (suspect_runs ch (joined_text g))))
          (search_groups ch fl fitz ws true)

    abbrev pub suspect_pages : Dict (List (Word fl)) → List ℕ
    suspect_pages [] = []
    suspect_pages ((i, ws) ∷ d) =
        let rest = suspect_pages d in if is_suspect_page ws then i ∷ rest else rest

    abbrev pub page_at : ℕ → List Page → Option Page
    page_at i [] = none
    page_at zero (p ∷ ps) = some p
    page_at (suc i) (p ∷ ps) = page_at i ps

    abbrev pub scan_ocr : List Page → Dict (List (Word fl)) → List (Found fl) → List (Found fl)
    scan_ocr pages [] found = found
    scan_ocr pages ((i, ws) ∷ d) found =
        scan_ocr pages d (add_hits (find_identifiers ch fl fitz i ws true (page_at i pages)) found)

    -- `_scan`
    unfoldable pub scan_document : OcrWords → Text → List Page → Checked (List (Found fl) × List ℕ)
    unfolding found_in_layers ocr_pages_from add_hit find_identifiers
    scan_document ocr pdf pages =
        let asked = ocr_pages_from 0 pages in
        let found = found_in_layers 0 pages in
        if is_empty asked then passed (found, []) else elim (ocr pdf asked) [
          | incomplete r ↦ incomplete r
          | passed d ↦
              if any (λ e. not (is_some (page_at e.0 pages))) d
              then incomplete broken
              else if is_empty (suspect_pages d)
              then passed (scan_ocr pages d found, asked)
              else incomplete (misread (sorted_pages (suspect_pages d)))
        ]

    -- `rect + (0, -2, 0, 2)` for every box.
    abbrev pub boxes_of : ℕ → List (Rect fl) → List (ℕ × Rect fl)
    boxes_of i [] = []
    boxes_of i (r ∷ rs) = (i, grow ch fl fitz r (n fl 0) (n fl 2) (n fl 0) (n fl 2)) ∷ boxes_of i rs

    abbrev pub boxes : List (Found fl) → List (ℕ × Rect fl)
    boxes [] = []
    boxes (f ∷ fs) = boxes_of f.page f.rects ++ boxes fs

    abbrev pub found_in_ocr : Dict (List (Word fl)) → List (Found fl)
    found_in_ocr [] = []
    found_in_ocr ((i, ws) ∷ d) = find_identifiers ch fl fitz i ws true none ++ found_in_ocr d

    -- What the second search finds.
    unfoldable pub remaining : OcrWords → Text → List ℕ → Checked (List (Found fl))
    unfolding found_in_layers find_identifiers
    remaining ocr redacted asked = elim (docs.open_pdf redacted) [
      | none ↦ incomplete broken
      | some pages ↦
          if is_empty asked then passed (found_in_layers 0 pages) else elim (ocr redacted asked) [
            | incomplete r ↦ incomplete r
            | passed d ↦ passed (found_in_layers 0 pages ++ found_in_ocr d)
          ]
    ]

    abbrev pub pages_of : List (Found fl) → List ℕ
    pages_of [] = []
    pages_of (f ∷ fs) = f.page ∷ pages_of fs

    unfoldable pub verify_clean : Redaction → Checked (List (Found fl)) → Checked Redaction
    verify_clean r (incomplete e) = incomplete e
    verify_clean r (passed []) = passed r
    verify_clean r (passed (f ∷ fs)) =
        incomplete (still_readable (length (f ∷ fs)) (sorted_pages (pages_of (f ∷ fs))))

    -- Everything after the first search.
    unfoldable pub finish_redaction :
        OcrWords → Text → Checked (List (Found fl) × List ℕ) → Checked Redaction
    unfolding remaining verify_clean
    finish_redaction ocr pdf (incomplete e) = incomplete e
    finish_redaction ocr pdf (passed (found, asked)) =
        let redacted = docs.burn pdf (boxes found) in
        verify_clean (record { pdf_bytes = redacted; redactions = found; ocr_pages = asked })
          (remaining ocr redacted asked)

    unfoldable pub redact_pdf : OcrWords → Text → List Page → Checked Redaction
    unfolding scan_document finish_redaction
    redact_pdf ocr pdf pages = finish_redaction ocr pdf (scan_document ocr pdf pages)

    -- `_as_pdf`
    abbrev pub as_pdf : Text → Text → Option Text
    as_pdf bytes media_type =
        if text_eq media_type (codes "application/pdf")
        then some bytes
        else docs.convert bytes media_type

    unfoldable pub redact_identifiers : OcrWords → Text → Text → Checked Redaction
    unfolding redact_pdf
    redact_identifiers ocr bytes media_type = elim (as_pdf bytes media_type) [
      | none ↦ incomplete broken
      | some pdf ↦ elim (docs.open_pdf pdf) [
        | none ↦ incomplete broken
        | some pages ↦ redact_pdf ocr pdf pages
      ]
    ]
