-- ===== src/Pdf.antt =====
-- What app/services/pdf_service.py takes of PyMuPDF, and `_open_pdf` and `_validate_pages`, with which
-- every operation of the service begins. A document is what PyMuPDF says of it: the list of its pages.
pub mod Pages
pub mod Access
pub mod Classify
pub mod Orientation
use pdf_engine_toolbox.Base.{
  ℕ, zero, suc, ◌<◌, ◌≤◌, Bool, true, false, Option, none, some, List, [], ◌∷◌, ◌++◌, ◌≡◌, refl,
  map, sym, ap, ◌∙◌, leb, length, All, if◌then◌else◌, arith,
}
use pdf_engine_toolbox.Base.Int.{ℤ, pos, negsuc, pos_part}
use pdf_engine_toolbox.Errors.{Text, codes, PdfEngineError, pdf_corrupt, page_out_of_range}

-- What a call comes to: a value, an exception of the engine, or another one.
pub data Outcome {ℓ} (A : Type ℓ) : Type ℓ where
  done : A → Outcome A
  raised : PdfEngineError → Outcome A
  uncaught : Outcome A

infixl 5 ◌>>=◌ ◌>>◌
abbrev pub ◌>>=◌ {ℓ κ} : {A : Type ℓ} {B : Type κ} → Outcome A → (A → Outcome B) → Outcome B
done a >>= f = f a
raised e >>= f = raised e
uncaught >>= f = uncaught

abbrev pub ◌>>◌ {ℓ} : {B : Type ℓ} → Outcome (Unit {0}) → Outcome B → Outcome B
m >> k = m >>= λ _. k

-- A chain that comes to a value came to one at its first step.
pub >>=-eq-done {ℓ κ} :
    {A : Type ℓ} {B : Type κ} (m : Outcome A) (f : A → Outcome B) {b : B}
    → (m >>= f) ≡ done b
    → (a : A) × (m ≡ done a) × (f a ≡ done b)
>>=-eq-done (done a) f e = (a, refl, e)
>>=-eq-done (raised r) f e = cc
>>=-eq-done uncaught f e = cc

-- A call of a library that returns or raises.
abbrev pub or_uncaught {ℓ} : {A : Type ℓ} → Option A → Outcome A
or_uncaught none = uncaught
or_uncaught (some a) = done a

abbrev pub Outcome_map {ℓ κ} : {A : Type ℓ} {B : Type κ} → (A → B) → Outcome A → Outcome B
Outcome_map f o = o >>= λ a. done (f a)

module _ {ℓ} {A : Type ℓ} where
  abbrev pub get_elem? : List A → ℕ → Option A
  get_elem? [] i = none
  get_elem? (x ∷ xs) zero = some x
  get_elem? (x ∷ xs) (suc i) = get_elem? xs i

  -- The element at a position changed, and the list without it.
  abbrev pub modify : List A → ℕ → (A → A) → List A
  modify [] i f = []
  modify (x ∷ xs) zero f = f x ∷ xs
  modify (x ∷ xs) (suc i) f = x ∷ modify xs i f

  abbrev pub erase_idx : List A → ℕ → List A
  erase_idx [] i = []
  erase_idx (x ∷ xs) zero = xs
  erase_idx (x ∷ xs) (suc i) = x ∷ erase_idx xs i

pub get_elem?-ne-none {ℓ} :
    {A : Type ℓ} (xs : List A) (i : ℕ) → i < length xs → (x : A) × (get_elem? xs i ≡ some x)
get_elem?-ne-none [] i h = elim h [ ]
get_elem?-ne-none (x ∷ xs) zero h = (x, refl)
get_elem?-ne-none (x ∷ xs) (suc i) h = get_elem?-ne-none xs i (omega arith)

pub get_elem?-outside {ℓ} :
    {A : Type ℓ} (xs : List A) (i : ℕ) → length xs ≤ i → get_elem? xs i ≡ none
get_elem?-outside [] i h = refl
get_elem?-outside (x ∷ xs) zero h = elim h [ ]
get_elem?-outside (x ∷ xs) (suc i) h = get_elem?-outside xs i (omega arith)

-- `range(start, start + n)`
abbrev pub range_from : ℕ → ℕ → List ℕ
range_from start zero = []
range_from start (suc n) = start ∷ range_from (suc start) n

-- What `fitz.open(stream=…)` comes to: a document, or the text of an exception.
pub data Opened (D : Type 0) : Type 0 where
  opened : D → Opened D
  cannot : Text → Opened D

-- The part of PyMuPDF that the page operations call. `insert_page dst src i` is
-- `dst.insert_pdf(src, from_page=i, to_page=i)`; `delete_page` and `tobytes` may raise.
pub record Fitz : Type 1 where
  pub Doc : Type 0
  pub Page : Type 0
  pub open_stream : Text → Opened Doc
  pub is_pdf : Doc → Bool
  pub convert_to_pdf : Doc → Opened Doc
  pub new : Doc
  pub pages : Doc → List Page
  pub rotation : Page → ℕ
  pub turned : Page → ℤ → Page
  pub insert_page : Doc → Doc → ℕ → Doc
  pub insert_pdf : Doc → Doc → Doc
  pub delete_page : Doc → ℕ → Option Doc
  pub set_rotation : Doc → ℕ → ℤ → Doc
  pub tobytes : Doc → Option Text

module _ (fz : Fitz) where
  open fz use {
    Doc, Page, open_stream, is_pdf, convert_to_pdf, new, pages, turned, insert_page, insert_pdf,
    delete_page, set_rotation, tobytes,
  }

  -- What PyMuPDF documents of these calls: an inserted page is appended, a rotation is set on one page,
  -- a page in range can be deleted, and a document with pages can be saved and read back.
  pub record Documented : Type 0 where
    pub pages-new : pages new ≡ []
    pub pages-insert_page :
        (dst src : Doc) (i : ℕ) (p : Page)
        → get_elem? (pages src) i ≡ some p
        → pages (insert_page dst src i) ≡ pages dst ++ p ∷ []
    pub pages-insert_pdf : (dst src : Doc) → pages (insert_pdf dst src) ≡ pages dst ++ pages src
    pub pages-set_rotation :
        (d : Doc) (i : ℕ) (r : ℤ)
        → pages (set_rotation d i r) ≡ modify (pages d) i (λ p. turned p r)
    pub pages-delete_page :
        (d : Doc) (i : ℕ)
        → i < length (pages d)
        → (d' : Doc) × (delete_page d i ≡ some d') × (pages d' ≡ erase_idx (pages d) i)
    pub delete_page-none : (d : Doc) (i : ℕ) → length (pages d) ≤ i → delete_page d i ≡ none
    pub saved :
        (d : Doc)
        → 0 < length (pages d)
        → (out : Text) × (d' : Doc) × (tobytes d ≡ some out)
          × (open_stream out ≡ opened d')
          × (is_pdf d' ≡ true)
          × (pages d' ≡ pages d)
    pub tobytes-none : (d : Doc) → pages d ≡ [] → tobytes d ≡ none

  abbrev converted : Opened Doc → Outcome Doc
  converted (opened d) = done d
  converted (cannot e) = raised (pdf_corrupt (codes "Cannot convert document to PDF: " ++ e))

  abbrev read_as_pdf : Opened Doc → Outcome Doc
  read_as_pdf (cannot e) = raised (pdf_corrupt (codes "Cannot open PDF: " ++ e))
  read_as_pdf (opened d) = if is_pdf d then done d else converted (convert_to_pdf d)

  -- `_open_pdf`
  unfoldable pub open_pdf : Text → Outcome Doc
  open_pdf pdf_bytes = read_as_pdf (open_stream pdf_bytes)

  -- The file opens as a document of these pages.
  abbrev pub Holds : Text → List Page → Type 0
  Holds out ps = (d : Doc) × (open_pdf out ≡ done d) × (pages d ≡ ps)

-- `p < 0 or p >= total`
abbrev pub is_outside : ℕ → ℤ → Bool
is_outside total (pos n) = leb total n
is_outside total (negsuc n) = true

-- `_validate_pages`; `show` prints an integer in decimal.
unfoldable pub validate_pages : (ℤ → Text) → ℕ → List ℤ → Outcome (Unit {0})
validate_pages show total [] = done tt
validate_pages show total (p ∷ ps) =
    let rest = validate_pages show total ps in
    if is_outside total p then raised (page_out_of_range show p total) else rest

abbrev pub IsInRange : ℕ → ℤ → Type 0
IsInRange total p = is_outside total p ≡ false

pub validate_pages-done :
    (show : ℤ → Text) (total : ℕ) (ps : List ℤ)
    → All (IsInRange total) ps
    → validate_pages show total ps ≡ done tt
unfolding validate_pages
validate_pages-done show total [] h = refl
validate_pages-done show total (p ∷ ps) h = rw h.0 (validate_pages-done show total ps h.1)

pub validate_pages-IsInRange :
    (show : ℤ → Text) (total : ℕ) (ps : List ℤ)
    → validate_pages show total ps ≡ done tt
    → All (IsInRange total) ps
unfolding validate_pages
validate_pages-IsInRange show total [] e = tt
validate_pages-IsInRange show total (p ∷ ps) e =
    ground (arith, validate_pages-IsInRange show total ps)

-- Pages in range are natural numbers.
pub in_range-pos :
    (total : ℕ) (ps : List ℤ) → All (IsInRange total) ps → map pos (map pos_part ps) ≡ ps
in_range-pos total [] h = refl
in_range-pos total (pos n ∷ ps) h = rw (in_range-pos total ps h.1) refl
in_range-pos total (negsuc n ∷ ps) h = cc (h.0)

module _ (fz : Fitz) (laws : Documented fz) where
  -- A document with pages is saved to a file that holds them.
  pub saved-Holds :
      (d : fz.Doc)
      → 0 < length (fz.pages d)
      → (out : Text) × (fz.tobytes d ≡ some out) × Holds fz out (fz.pages d)
  unfolding open_pdf
  saved-Holds d h =
      let (out, d', written, read, pdf, same) = laws.saved d h in
      (out, written, (d', rw (read, pdf), same))

  pub written-Holds :
      (d : fz.Doc) (ps : List fz.Page) (out : Text)
      → fz.pages d ≡ ps
      → fz.tobytes d ≡ some out
      → Holds fz out ps
  written-Holds d [] out e written =
      let failed : none ≡ some out = rw (laws.tobytes-none d e) at written in cc
  written-Holds d (p ∷ ps) out e written =
      let (out', written', held) = saved-Holds d (rw e (omega arith)) in
      let same_file : out' ≡ out = cc in rw (same_file, e) at held

  -- What a saved document reads back as.
  pub saved-pages :
      (d d' : fz.Doc) (out : Text)
      → 0 < length (fz.pages d)
      → fz.tobytes d ≡ some out
      → open_pdf fz out ≡ done d'
      → fz.pages d' ≡ fz.pages d
  saved-pages d d' out h written read =
      let (out', written', (d'', read', same)) = saved-Holds d h in
      let same_file : out' ≡ out = cc in
      let same_doc : done d'' ≡ done d' = sym read' ∙ rw same_file read in
      ground (arith, ap (Outcome_map fz.pages) same_doc)
