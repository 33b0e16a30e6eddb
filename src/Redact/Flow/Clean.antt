-- ===== src/Redact/Flow/Clean.antt =====
-- A redaction that is returned has been searched again (app/services/identifier_redaction.py).
use pdf_engine_toolbox.Base.{
  ℕ, suc, ◌*◌, ◌<◌, ◌≡◌, ◌≢◌, ◌⊎◌, ltb, leb, ◌==◌, inl, inr, refl, sym, subst, true, false, none,
  some, List, [], ◌∷◌, ◌++◌, All, Dict, arith, Option-cases, Bool-cases, length, reverse,
}
use pdf_engine_toolbox.Errors.{Text, codes, text_eq, text_eq_refl, text_eq→eq}
use pdf_engine_toolbox.Regex.{Chars}
use pdf_engine_toolbox.Redact.Words.{Floats, Word, Found, Fitz, n}
use pdf_engine_toolbox.Redact.Words.Find.{find_identifiers}
use pdf_engine_toolbox.Redact.Flow.{
  Checked, passed, incomplete, Documents, OcrWords, Redaction, drop_space, token_sizes, sum_areas,
  is_zero, needs_ocr, ocr_pages_from, found_in_layers, found_in_ocr, scan_document, remaining,
  verify_clean, boxes, finish_redaction, redact_pdf, as_pdf, redact_identifiers,
}

pub append-empty : {A : Type 0} (xs ys : List A) → xs ++ ys ≡ [] → (xs ≡ []) × (ys ≡ [])
append-empty [] ys e = (refl, e)
append-empty (x ∷ xs) ys e = absurd (ground arith)

module _ (ch : Chars) (fl : Floats) {Page : Type 0} (fitz : Fitz fl Page)
    (docs : Documents ch fl fitz) where
  -- The search of the text layers finds nothing on any page.
  abbrev pub LayersClean : ℕ → List Page → Type 0
  LayersClean i [] = Unit
  LayersClean i (p ∷ ps) =
      (find_identifiers ch fl fitz i (docs.words p) false (some p) ≡ []) × LayersClean (suc i) ps

  -- The search of what the OCR reads finds nothing on any page.
  abbrev pub OcrClean : Dict (List (Word fl)) → Type 0
  OcrClean d = All (λ e. find_identifiers ch fl fitz e.0 e.1 true none ≡ []) d

  -- The OCR is asked for these pages of the file and finds nothing; with no page, it is not asked.
  pub data OcrPassed (ocr : OcrWords ch fl fitz) (file : Text) : List ℕ → Type 0 where
    not_asked : OcrPassed ocr file []
    asked :
        (pages : List ℕ) (d : Dict (List (Word fl)))
        → ocr file pages ≡ passed d
        → OcrClean d
        → OcrPassed ocr file pages

  -- A page needs OCR: its text has fewer than 50 characters, no token, or tokens of fewer than three
  -- characters on average; or its images cover half of it or more.
  abbrev pub page_text : Page → Text
  page_text p =
      reverse (drop_space ch fl fitz docs (reverse (drop_space ch fl fitz docs (docs.get_text p))))

  abbrev pub tokens : Page → ℕ × ℕ
  tokens p = token_sizes ch fl fitz docs false (page_text p)

  abbrev pub NeedsOcr : Page → Type 0
  NeedsOcr p =
      (length (page_text p) < 50)
      ⊎ ((tokens p).0 ≡ 0)
      ⊎ ((tokens p).1 < 3 * (tokens p).0)
      ⊎ ((is_zero ch fl fitz docs (docs.area p) ≡ false)
          × (fl.le (fl.ratio 1 2)
                (fl.div (sum_areas ch fl fitz docs (n fl 0) (docs.image_areas p)) (docs.area p))
              ≡ true))

  -- Of these pages, the first one being page `i`, the numbers are those of the pages that need OCR.
  abbrev pub AreNeedy : ℕ → List Page → List ℕ → Type 0
  AreNeedy i [] is = is ≡ []
  AreNeedy i (p ∷ ps) is =
      (NeedsOcr p × (rest : List ℕ) × (is ≡ i ∷ rest) × AreNeedy (suc i) ps rest)
      ⊎ ((¬ NeedsOcr p) × AreNeedy (suc i) ps is)

  -- The PDF of a file that came in: the file itself, or what its media type is converted from.
  abbrev pub IsPdfOf : Text → Text → Text → Type 0
  IsPdfOf bytes media_type pdf =
      ((media_type ≡ codes "application/pdf") × (pdf ≡ bytes))
      ⊎ ((media_type ≢ codes "application/pdf") × (docs.convert bytes media_type ≡ some pdf))

  -- What a returned redaction was checked for; `before` are the pages of the file that came in.
  pub record Cleaned (ocr : OcrWords ch fl fitz) (before : List Page) (r : Redaction ch fl fitz)
      : Type 0 where
    pub pages : List Page
    pub opened : docs.open_pdf r.pdf_bytes ≡ some pages
    pub layers : LayersClean 0 pages
    pub asked_for : AreNeedy 0 before r.ocr_pages
    pub ocr_clean : OcrPassed ocr r.pdf_bytes r.ocr_pages

  layers_clean :
      (i : ℕ) (ps : List Page) → found_in_layers ch fl fitz docs i ps ≡ [] → LayersClean i ps
  unfolding found_in_layers
  layers_clean i [] e = tt
  layers_clean i (p ∷ ps) e =
      let parts =
        append-empty (find_identifiers ch fl fitz i (docs.words p) false (some p))
          (found_in_layers ch fl fitz docs (suc i) ps) e in
      (parts.0, layers_clean (suc i) ps parts.1)

  OcrClean-of : (d : Dict (List (Word fl))) → found_in_ocr ch fl fitz docs d ≡ [] → OcrClean d
  OcrClean-of [] e = tt
  OcrClean-of (x ∷ d) e =
      let parts =
        append-empty (find_identifiers ch fl fitz x.0 x.1 true none)
          (found_in_ocr ch fl fitz docs d) e in
      (parts.0, OcrClean-of d parts.1)

  passed-same : {A : Type 0} (x y : A) → passed x ≡ passed y → x ≡ y
  passed-same x y e = cc e

  remaining_clean :
      (ocr : OcrWords ch fl fitz) (file : Text) (pages : List Page) (asked_pages : List ℕ)
      → docs.open_pdf file ≡ some pages
      → remaining ch fl fitz docs ocr file asked_pages ≡ passed []
      → LayersClean 0 pages × OcrPassed ocr file asked_pages
  unfolding remaining
  remaining_clean ocr file pages [] o e =
      let none_left : found_in_layers ch fl fitz docs 0 pages ≡ [] = ground (arith, o) in
      (layers_clean 0 pages none_left, not_asked)
  remaining_clean ocr file pages (i ∷ rest) o e = go (ocr file (i ∷ rest)) refl
    where
      go :
          (x : Checked (Dict (List (Word fl))))
          → ocr file (i ∷ rest) ≡ x
          → LayersClean 0 pages × OcrPassed ocr file (i ∷ rest)
      go (incomplete z) s = absurd (ground (arith, o, s))
      go (passed d) s =
          let none_left : found_in_layers ch fl fitz docs 0 pages ++ found_in_ocr ch fl fitz docs d
              ≡ [] =
            ground (arith, o, s) in
          let parts =
            append-empty (found_in_layers ch fl fitz docs 0 pages) (found_in_ocr ch fl fitz docs d)
              none_left in
          (layers_clean 0 pages parts.0, asked (i ∷ rest) d s (OcrClean-of d parts.1))

  remaining_opens :
      (ocr : OcrWords ch fl fitz) (file : Text) (asked_pages : List ℕ) (left : List (Found fl))
      → remaining ch fl fitz docs ocr file asked_pages ≡ passed left
      → (pages : List Page) × (docs.open_pdf file ≡ some pages)
  unfolding remaining
  remaining_opens ocr file asked_pages left e = elim (Option-cases (docs.open_pdf file)) [
    | inl closed ↦ absurd (ground arith)
    | inr (pages, opened) ↦ (pages, opened)
  ]

  needs_ocr-NeedsOcr : (p : Page) → needs_ocr ch fl fitz docs p ≡ true → NeedsOcr p
  unfolding needs_ocr
  needs_ocr-NeedsOcr p e = elim (Bool-cases (ltb (length (page_text p)) 50)) [
    | inl short ↦ inl (ground arith)
    | inr long ↦ elim (Bool-cases ((tokens p).0 == 0)) [
      | inl empty ↦ inr (inl (ground arith))
      | inr some_token ↦ elim (Bool-cases (leb ((tokens p).0 * 3) (tokens p).1)) [
        | inr scattered ↦ inr (inr (inl (ground arith)))
        | inl words ↦ elim (Bool-cases (is_zero ch fl fitz docs (docs.area p))) [
          | inl no_area ↦ absurd (ground arith)
          | inr area ↦ inr (inr (inr (area, ground arith)))
        ]
      ]
    ]
  ]

  needs_ocr-not : (p : Page) → needs_ocr ch fl fitz docs p ≡ false → ¬ NeedsOcr p
  unfolding needs_ocr
  needs_ocr-not p e (inl short) = ground arith
  needs_ocr-not p e (inr (inl empty)) = ground arith
  needs_ocr-not p e (inr (inr (inl scattered))) = ground arith
  needs_ocr-not p e (inr (inr (inr (area, covered)))) = ground arith

  ocr_pages_from-AreNeedy :
      (i : ℕ) (ps : List Page) → AreNeedy i ps (ocr_pages_from ch fl fitz docs i ps)
  unfolding ocr_pages_from
  ocr_pages_from-AreNeedy i [] = refl
  ocr_pages_from-AreNeedy i (p ∷ ps) = elim (Bool-cases (needs_ocr ch fl fitz docs p)) [
    | inl needy ↦ rw needy (
        inl (
          needs_ocr-NeedsOcr p needy,
          ocr_pages_from ch fl fitz docs (suc i) ps,
          refl,
          ocr_pages_from-AreNeedy (suc i) ps,
        ))
    | inr plain ↦ rw plain (inr (needs_ocr-not p plain, ocr_pages_from-AreNeedy (suc i) ps))
  ]

  scan_document_asks :
      (ocr : OcrWords ch fl fitz) (pdf : Text) (pages : List Page) (found : List (Found fl))
      (asked_pages : List ℕ)
      → scan_document ch fl fitz docs ocr pdf pages ≡ passed (found, asked_pages)
      → asked_pages ≡ ocr_pages_from ch fl fitz docs 0 pages
  unfolding scan_document
  scan_document_asks ocr pdf pages found asked_pages e = ground arith

  verify_clean-same :
      (r s : Redaction ch fl fitz) (x : Checked (List (Found fl)))
      → verify_clean ch fl fitz docs r x ≡ passed s
      → (r ≡ s) × (x ≡ passed [])
  unfolding verify_clean
  verify_clean-same r s (incomplete z) e = absurd (ground arith)
  verify_clean-same r s (passed []) e = (cc e, refl)
  verify_clean-same r s (passed (f ∷ fs)) e = absurd (ground arith)

  redact_pdf-Cleaned :
      (ocr : OcrWords ch fl fitz) (pdf : Text) (pages : List Page) (r : Redaction ch fl fitz)
      → redact_pdf ch fl fitz docs ocr pdf pages ≡ passed r
      → Cleaned ocr pages r
  unfolding redact_pdf finish_redaction
  redact_pdf-Cleaned ocr pdf pages r e = go (scan_document ch fl fitz docs ocr pdf pages) refl e
    where
      go :
          (x : Checked (List (Found fl) × List ℕ))
          → scan_document ch fl fitz docs ocr pdf pages ≡ x
          → finish_redaction ch fl fitz docs ocr pdf x ≡ passed r
          → Cleaned ocr pages r
      go (incomplete z) s k = absurd (ground arith)
      go (passed (found, asked_pages)) s k =
          let redacted = docs.burn pdf (boxes ch fl fitz docs found) in
          let made : Redaction ch fl fitz = record {
            pdf_bytes = redacted;
            redactions = found;
            ocr_pages = asked_pages;
          } in
          let same =
            verify_clean-same made r (remaining ch fl fitz docs ocr redacted asked_pages) k in
          let file = remaining_opens ocr redacted asked_pages [] same.1 in
          let clean = remaining_clean ocr redacted file.0 asked_pages file.1 same.1 in
          subst (Cleaned ocr pages) same.0 (record {
            pages = file.0;
            opened = file.1;
            layers = clean.0;
            asked_for =
                subst (AreNeedy 0 pages)
                  (sym (scan_document_asks ocr pdf pages found asked_pages s))
                  (ocr_pages_from-AreNeedy 0 pages);
            ocr_clean = clean.1;
          })

  as_pdf-IsPdfOf :
      (bytes media_type pdf : Text)
      → as_pdf ch fl fitz docs bytes media_type ≡ some pdf
      → IsPdfOf bytes media_type pdf
  as_pdf-IsPdfOf bytes media_type pdf e =
      elim (Bool-cases (text_eq media_type (codes "application/pdf"))) [
        | inl is_pdf ↦
            let same : bytes ≡ pdf = ground arith in inl (text_eq→eq media_type _ is_pdf, sym same)
        | inr other ↦ inr (
          λ same.
              let found : text_eq media_type (codes "application/pdf") ≡ true =
                rw same (text_eq_refl (codes "application/pdf")) in
              ground arith,
          ground arith,
        )
      ]

  -- If a redaction is returned, then the file that came in, converted if it is no PDF, opens; the new
  -- file opens, and the search of its text layers finds nothing; the pages named for OCR are exactly
  -- those of the file that came in that have too little text (fewer than 50 characters, no token, or
  -- tokens of fewer than three characters on average) or that images cover by half; and if there are
  -- any, their OCR in the new file was read and the search finds nothing there.
  pub redact_identifiers-Cleaned :
      (ocr : OcrWords ch fl fitz) (bytes media_type : Text) (r : Redaction ch fl fitz)
      → redact_identifiers ch fl fitz docs ocr bytes media_type ≡ passed r
      → (pdf : Text) × (before : List Page) × IsPdfOf bytes media_type pdf
        × (docs.open_pdf pdf ≡ some before)
        × Cleaned ocr before r
  unfolding redact_identifiers
  redact_identifiers-Cleaned ocr bytes media_type r e =
      elim (Option-cases (as_pdf ch fl fitz docs bytes media_type)) [
        | inl unread ↦ absurd (ground arith)
        | inr (pdf, converted) ↦ elim (Option-cases (docs.open_pdf pdf)) [
          | inl closed ↦ absurd (ground (arith, converted))
          | inr (pages, opened) ↦ (
            pdf,
            pages,
            as_pdf-IsPdfOf bytes media_type pdf converted,
            opened,
            redact_pdf-Cleaned ocr pdf pages r (ground (arith, converted, opened)),
          )
        ]
      ]
