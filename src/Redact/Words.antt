-- ===== src/Redact/Words.antt =====
-- The words of a page, their lines, and the boxes of the identifiers in them
-- (app/services/identifier_redaction.py).
pub mod Find
use pdf_engine_toolbox.Base.{
  ℕ, zero, suc, ◌+◌, ◌-◌, ◌*◌, Bool, true, false, not, ◌&&◌, ◌||◌, Option, none, some, List, [],
  ◌∷◌, ◌++◌, leb, ltb, ◌==◌, if◌then◌else◌, length, any, is_empty, max, min, keep_if, head?,
  reverse,
}
use pdf_engine_toolbox.Errors.{Text}
use pdf_engine_toolbox.Redact.{IdentifierKind}

-- Floating-point numbers: `ratio n d` is the literal `n / d`, `rounded` is `round(x, 0)`.
pub record Floats : Type 1 where
  pub F : Type 0
  pub ratio : ℕ → ℕ → F
  pub add : F → F → F
  pub sub : F → F → F
  pub mul : F → F → F
  pub div : F → F → F
  pub rounded : F → F
  pub lt : F → F → Bool
  pub le : F → F → Bool

module _ (fl : Floats) where
  -- `fitz.Rect`
  pub record Rect : Type 0 where
    pub x0 : fl.F
    pub y0 : fl.F
    pub x1 : fl.F
    pub y1 : fl.F

  -- `is_line` is `kind == "line"`.
  pub record Word : Type 0 where
    pub text : Text
    pub rect : Rect
    pub is_line : Bool

  pub record Found : Type 0 where
    pub page : ℕ
    pub kind : IdentifierKind
    pub last4 : Text
    pub from_ocr : Bool
    pub rects : List Rect

  -- A gray picture of a clip of the page: its columns of samples from left to right.
  abbrev pub Pixmap : Type 0
  Pixmap = List (List ℕ)

  -- What is taken of PyMuPDF: `Rect.width` and `Rect.height`, and of a page the search for a text in a
  -- clip, and a picture of a clip at four times the size.
  pub record Fitz (Page : Type 0) : Type 0 where
    pub width : Rect → fl.F
    pub height : Rect → fl.F
    pub search_for : Page → Text → Rect → List Rect
    pub get_pixmap : Page → Rect → Pixmap

  abbrev pub n : ℕ → fl.F
  n k = fl.ratio k 1

  -- `(round(w.rect.y0, 0), w.rect.x0)` of the first is less.
  abbrev pub reads_before : Word → Word → Bool
  reads_before v w =
      let a = fl.rounded v.rect.y0 in
      let b = fl.rounded w.rect.y0 in fl.lt a b || (not (fl.lt b a) && fl.lt v.rect.x0 w.rect.x0)

  abbrev pub is_left_of : Word → Word → Bool
  is_left_of v w = fl.lt v.rect.x0 w.rect.x0

  -- `sorted`, which is stable.
  abbrev pub insert_word : (Word → Word → Bool) → Word → List Word → List Word
  insert_word less w [] = w ∷ []
  insert_word less w (v ∷ vs) = if less v w then v ∷ insert_word less w vs else w ∷ v ∷ vs

  abbrev pub sort_words : (Word → Word → Bool) → List Word → List Word
  sort_words less [] = []
  sort_words less (w ∷ ws) = insert_word less w (sort_words less ws)

  -- `ref.y0 - 1 <= mid <= ref.y1 + 1`, of the first word of a line
  abbrev pub on_line : Word → List Word → Bool
  on_line w [] = false
  on_line w (v ∷ vs) =
      let mid = fl.div (fl.add w.rect.y0 w.rect.y1) (n 2) in
      fl.le (fl.sub v.rect.y0 (n 1)) mid && fl.le mid (fl.add v.rect.y1 (n 1))

  abbrev pub add_to_lines : Word → List (List Word) → List (List Word)
  add_to_lines w [] = (w ∷ []) ∷ []
  add_to_lines w (l ∷ ls) = if on_line w l then (l ++ w ∷ []) ∷ ls else l ∷ add_to_lines w ls

  abbrev pub fill_lines : List Word → List (List Word) → List (List Word)
  fill_lines [] ls = ls
  fill_lines (w ∷ ws) ls = fill_lines ws (add_to_lines w ls)

  abbrev pub sort_lines : List (List Word) → List (List Word)
  sort_lines [] = []
  sort_lines (l ∷ ls) = sort_words is_left_of l ∷ sort_lines ls

  -- `_lines`
  unfoldable pub reading_lines : List Word → List (List Word)
  reading_lines ws = sort_lines (fill_lines (sort_words reads_before ws) [])

  -- A word with its place in the text of its line.
  pub record Span : Type 0 where
    pub start : ℕ
    pub stop : ℕ
    pub word : Word

  -- The text of a line and the spans of its words, from what was read before.
  abbrev pub add_words : Text → List Span → List Word → Text × List Span
  add_words text spans [] = (text, spans)
  add_words text spans (w ∷ ws) =
      let lead = if is_empty text then text else text ++ 32 ∷ [] in
      add_words (lead ++ w.text)
        (spans ++ record { start = length lead; stop = length lead + length w.text; word = w } ∷ [])
        ws

  unfoldable pub line_text : List Word → Text × List Span
  line_text ws = add_words [] [] ws

  abbrev pub singletons : List Word → List (List Word)
  singletons [] = []
  singletons (w ∷ ws) = (w ∷ []) ∷ singletons ws

  -- The glyphs of a picture: the first and the end column of each run of columns with ink.
  abbrev pub has_ink : List ℕ → Bool
  has_ink column = any (λ s. ltb s 128) column

  abbrev pub glyph_runs : ℕ → Option ℕ → List (List ℕ) → List (ℕ × ℕ)
  glyph_runs x none [] = []
  glyph_runs x (some start) [] = (start, x) ∷ []
  glyph_runs x none (c ∷ cs) = glyph_runs (suc x) (if has_ink c then some x else none) cs
  glyph_runs x (some start) (c ∷ cs) =
      let rest = glyph_runs (suc x) (if has_ink c then some start else none) cs in
      if has_ink c then rest else (start, x) ∷ rest
