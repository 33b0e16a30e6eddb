-- ===== src/Pdf/Pages.antt =====
-- The page operations of app/services/pdf_service.py: `rotate_pages`, `split_pages`, `merge_pdfs`,
-- `reorder_pages` and `delete_pages`.
pub mod Deleted
pub mod Reordered
pub mod Merged
use pdf_engine_toolbox.Base.{
  ℕ, zero, suc, ◌+◌, ◌-◌, ◌%◌, Bool, true, false, Option, none, some, List, [], ◌∷◌, ◌++◌, leb, ltb,
  ◌==◌, length, map, is_empty, if◌then◌else◌, Dict, lookup,
}
use pdf_engine_toolbox.Base.Int.{ℤ, pos, negsuc, pos_part}
use pdf_engine_toolbox.Errors.{Text, codes, text_eq, pdf_corrupt, page_out_of_range}
use pdf_engine_toolbox.Pdf.{
  Outcome, done, raised, ◌>>=◌, ◌>>◌, or_uncaught, get_elem?, range_from, Fitz, open_pdf,
  validate_pages,
}

-- `(current + degrees) % 360`, which is not negative in Python.
unfoldable pub turn : ℕ → ℤ → ℕ
turn current (pos n) = (current + n) % 360
turn current (negsuc n) = (current + (360 - suc n % 360)) % 360

-- `if degrees:`
abbrev pub is_zero : ℤ → Bool
is_zero (pos zero) = true
is_zero (pos (suc n)) = false
is_zero (negsuc n) = false

-- `range(start, end + 1)`
abbrev pub span : ℕ → ℕ → List ℕ
span start end = range_from start (suc end - start)

-- `sorted(pages)`
abbrev pub insert_sorted : ℕ → List ℕ → List ℕ
insert_sorted x [] = x ∷ []
insert_sorted x (y ∷ ys) = if ltb y x then y ∷ insert_sorted x ys else x ∷ y ∷ ys

unfoldable pub sort : List ℕ → List ℕ
sort [] = []
sort (x ∷ xs) = insert_sorted x (sort xs)

-- `sorted(pages, reverse=True)`
abbrev pub insert_descending : ℕ → List ℕ → List ℕ
insert_descending x [] = x ∷ []
insert_descending x (y ∷ ys) = if leb x y then y ∷ insert_descending x ys else x ∷ y ∷ ys

unfoldable pub sort_descending : List ℕ → List ℕ
sort_descending [] = []
sort_descending (x ∷ xs) = insert_descending x (sort_descending xs)

-- Equality of lists of page numbers.
abbrev pub list_eq : List ℕ → List ℕ → Bool
list_eq [] [] = true
list_eq [] (y ∷ ys) = false
list_eq (x ∷ xs) [] = false
list_eq (x ∷ xs) (y ∷ ys) = if x == y then list_eq xs ys else false

-- app/models/requests.py: `PageSpec` and `PageRange`, whose page numbers are at least 0.
pub record PageSpec : Type 0 where
  pub original_page : ℕ
  pub rotation : ℤ

pub record PageRange : Type 0 where
  pub start : ℕ
  pub end : ℕ

-- What a source asks for, by its first key that is not empty: `pages`, `page_ranges`, or neither.
pub data Selection : Type 0 where
  pages : List PageSpec → Selection
  page_ranges : List PageRange → List (Text × ℤ) → Selection
  all_pages : Selection

pub record MergeSource : Type 0 where
  pub bytes : Text
  pub selection : Selection

-- `rotations.get(key, 0)`
abbrev pub rotation_of : Text → List (Text × ℤ) → ℤ
rotation_of key [] = pos 0
rotation_of key ((k, r) ∷ rs) = if text_eq k key then r else rotation_of key rs

-- A loop whose body may raise.
abbrev pub for_each {ℓ} : {D : Type 0} {X : Type ℓ} → (D → X → Outcome D) → D → List X → Outcome D
for_each body d [] = done d
for_each body d (x ∷ xs) = body d x >>= λ d'. for_each body d' xs

module _ (fz : Fitz) (show : ℤ → Text) where
  open fz use {
    Doc, Page, new, rotation, turned, insert_page, insert_pdf, delete_page, set_rotation, tobytes,
  }

  -- `page.set_rotation((current + degrees) % 360)`, where there is a page.
  unfoldable pub rotate_page : Doc → ℕ → ℤ → Doc
  unfolding turn
  rotate_page doc i degrees = elim (get_elem? (fz.pages doc) i) [
    | none ↦ doc
    | some p ↦ set_rotation doc i (pos (turn (rotation p) degrees))
  ]

  abbrev pub rotate_each : ℤ → Doc → List ℤ → Doc
  rotate_each degrees doc [] = doc
  rotate_each degrees doc (p ∷ ps) = rotate_each degrees (rotate_page doc (pos_part p) degrees) ps

  unfoldable pub rotate_pages : Text → List ℤ → ℤ → Outcome Text
  unfolding validate_pages rotate_page
  rotate_pages pdf_bytes ps degrees = do
    doc ← open_pdf fz pdf_bytes
    validate_pages show (length (fz.pages doc)) ps
    or_uncaught (tobytes (rotate_each degrees doc ps))

  -- `dst[-1].set_rotation(…)` of a page that was just inserted.
  abbrev pub set_last : Doc → ℤ → Doc
  set_last dst r = set_rotation dst (length (fz.pages dst) - 1) r

  abbrev pub insert_each : Doc → Doc → List ℕ → Doc
  insert_each src dst [] = dst
  insert_each src dst (i ∷ is) = insert_each src (insert_page dst src i) is

  abbrev set_last_if : Doc → Option ℤ → Doc
  set_last_if dst none = dst
  set_last_if dst (some r) = set_last dst r

  abbrev pub split_each : Doc → Dict ℤ → Doc → List ℕ → Doc
  split_each src rotations dst [] = dst
  split_each src rotations dst (i ∷ is) =
      split_each src rotations (set_last_if (insert_page dst src i) (lookup i rotations)) is

  unfoldable pub split_pages : Text → List ℤ → Dict ℤ → Outcome Text
  unfolding validate_pages
  split_pages pdf_bytes ps rotations = do
    src ← open_pdf fz pdf_bytes
    validate_pages show (length (fz.pages src)) ps
    or_uncaught (tobytes (split_each src rotations new (map pos_part ps)))

  -- `if rotation: dst[-1].set_rotation((dst[-1].rotation + rotation) % 360)`
  abbrev pub turn_last : Doc → ℤ → Doc
  turn_last dst r = if is_zero r then dst else rotate_page dst (length (fz.pages dst) - 1) r

  -- One page of a source, or the error that it is out of range.
  unfoldable pub merge_page : Doc → Doc → ℕ → ℤ → Outcome Doc
  unfolding rotate_page
  merge_page src dst i r =
      if leb (length (fz.pages src)) i
      then raised (page_out_of_range show (pos i) (length (fz.pages src)))
      else done (turn_last (insert_page dst src i) r)

  abbrev pub merge_selection : Doc → Doc → Selection → Outcome Doc
  merge_selection src dst (pages specs) =
      for_each (λ d s. merge_page src d s.original_page s.rotation) dst specs
  merge_selection src dst (page_ranges ranges rotations) =
      for_each
        (λ d r.
          for_each (λ d' i. merge_page src d' i (rotation_of (show (pos i)) rotations)) d
            (span r.start r.end))
        dst ranges
  merge_selection src dst all_pages = done (insert_pdf dst src)

  abbrev pub merge_source : Doc → MergeSource → Outcome Doc
  merge_source dst s = open_pdf fz s.bytes >>= λ src. merge_selection src dst s.selection

  unfoldable pub merge_pdfs : List MergeSource → Outcome Text
  unfolding merge_page
  merge_pdfs sources = for_each merge_source new sources >>= λ dst. or_uncaught (tobytes dst)

  abbrev pub not_a_permutation : ℕ → Text
  not_a_permutation total =
      codes "new_order must be a permutation of pages 0.."
      ++ show (if total == 0 then negsuc 0 else pos (total - 1))

  unfoldable pub reorder_pages : Text → List ℤ → Outcome Text
  unfolding validate_pages sort
  reorder_pages pdf_bytes new_order = do
    src ← open_pdf fz pdf_bytes
    validate_pages show (length (fz.pages src)) new_order
    if list_eq (sort (map pos_part new_order)) (range_from 0 (length (fz.pages src)))
        then or_uncaught (tobytes (insert_each src new (map pos_part new_order)))
        else raised (pdf_corrupt (not_a_permutation (length (fz.pages src))))

  abbrev pub delete_each : Doc → List ℕ → Outcome Doc
  delete_each doc [] = done doc
  delete_each doc (i ∷ is) = or_uncaught (delete_page doc i) >>= λ d. delete_each d is

  abbrev pub finish_delete : Doc → Outcome Text
  finish_delete rest =
      if is_empty (fz.pages rest)
      then raised (pdf_corrupt (codes "Cannot delete all pages from PDF"))
      else or_uncaught (tobytes rest)

  unfoldable pub delete_pages : Text → List ℤ → Outcome Text
  unfolding validate_pages sort_descending
  delete_pages pdf_bytes pages_to_delete = do
    doc ← open_pdf fz pdf_bytes
    validate_pages show (length (fz.pages doc)) pages_to_delete
    rest ← delete_each doc (sort_descending (map pos_part pages_to_delete))
    finish_delete rest
