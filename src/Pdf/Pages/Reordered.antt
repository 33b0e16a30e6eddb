-- ===== src/Pdf/Pages/Reordered.antt =====
-- `reorder_pages` accepts the permutations of the pages, and returns the pages in the order asked for.
use mathlib.Core.Logic.{∥∥₁_elim}
use mathlib.Core.List.{filter_map, Perm, Permᴰ, append_assoc, append-nil}
use mathlib.Core.List.Perm
use pdf_engine_toolbox.Base.{
  ℕ, zero, suc, ◌<◌, ◌≡◌, refl, ap, sym, subst, ◌∙◌, true, some, List, [], ◌∷◌, ◌++◌, ltb, length,
  map, All, Bool-cases, inl, inr, arith, length-append,
}
use pdf_engine_toolbox.Base.Int.{ℤ, pos, negsuc, pos_part}
use pdf_engine_toolbox.Errors.{Text}
use pdf_engine_toolbox.Pdf.{
  done, raised, get_elem?, get_elem?-ne-none, range_from, Fitz, Documented, open_pdf, Holds,
  validate_pages, IsInRange, validate_pages-done, validate_pages-IsInRange, written-Holds,
  saved-Holds, >>=-eq-done,
}
use pdf_engine_toolbox.Pdf.Pages.{insert_sorted, sort, list_eq, insert_each, reorder_pages}

-- The pages at these positions.
abbrev pub picked {ℓ} : {A : Type ℓ} → List A → List ℕ → List A
picked xs = filter_map (get_elem? xs)

insert_sorted-perm : (x : ℕ) (xs : List ℕ) → Perm (insert_sorted x xs) (x ∷ xs)
insert_sorted-perm x [] = Perm.refl (x ∷ [])
insert_sorted-perm x (y ∷ ys) = elim (Bool-cases (ltb y x)) [
  | inl below ↦ rw below (Perm.trans (Perm.cons y (insert_sorted-perm x ys)) (Perm.swap x y ys))
  | inr above ↦ rw above (Perm.refl (x ∷ y ∷ ys))
]

sort-perm : (xs : List ℕ) → Perm (sort xs) xs
unfolding sort
sort-perm [] = Perm.refl []
sort-perm (x ∷ xs) = Perm.trans (insert_sorted-perm x (sort xs)) (Perm.cons x (sort-perm xs))

list_eq→eq : (xs ys : List ℕ) → list_eq xs ys ≡ true → xs ≡ ys
list_eq→eq [] [] e = refl
list_eq→eq [] (y ∷ ys) e = cc
list_eq→eq (x ∷ xs) [] e = cc
list_eq→eq (x ∷ xs) (y ∷ ys) e = ground (arith, list_eq→eq xs ys)

list_eq_refl : (xs : List ℕ) → list_eq xs xs ≡ true
list_eq_refl [] = refl
list_eq_refl (x ∷ xs) = ground (arith, list_eq_refl xs)

get_elem?-append {ℓ} :
    {A : Type ℓ} (xs ys : List A) (y : A) → get_elem? (xs ++ y ∷ ys) (length xs) ≡ some y
get_elem?-append [] ys y = refl
get_elem?-append (x ∷ xs) ys y = get_elem?-append xs ys y

picked-append {ℓ} :
    {A : Type ℓ} (xs ys : List A) → picked (xs ++ ys) (range_from (length xs) (length ys)) ≡ ys
unfolding filter_map
picked-append xs [] = refl
picked-append xs (y ∷ ys) =
    let next = picked-append (xs ++ y ∷ []) ys in
    let longer : length (xs ++ y ∷ []) ≡ suc (length xs) =
      omega (arith, length-append xs (y ∷ [])) in
    rw (get_elem?-append xs ys y)
      (ap (λ r. y ∷ r) (rw (longer, append_assoc xs (y ∷ []) ys) at next))

-- A permutation of the positions picks a permutation of the list.
picked-perm {ℓ} :
    {A : Type ℓ} (xs : List A) (is : List ℕ)
    → Perm is (range_from 0 (length xs))
    → Perm (picked xs is) xs
picked-perm {A} xs is p =
    subst (λ ys. Perm (picked xs is) ys) (picked-append [] xs) (Perm.filter_map (get_elem? xs) p)

module _ (fz : Fitz) (laws : Documented fz) (show : ℤ → Text) where
  insert_each-pages :
      (src dst : fz.Doc) (ps : List ℤ)
      → All (IsInRange (length (fz.pages src))) ps
      → fz.pages (insert_each fz show src dst (map pos_part ps))
        ≡ fz.pages dst ++ picked (fz.pages src) (map pos_part ps)
  unfolding filter_map
  insert_each-pages src dst [] h = sym (append-nil (fz.pages dst))
  insert_each-pages src dst (negsuc i ∷ ps) h = cc
  insert_each-pages src dst (pos i ∷ ps) h =
      let (p, found) = get_elem?-ne-none (fz.pages src) i (ground arith) in
      insert_each-pages src (fz.insert_page dst src i) ps h.1
      ∙ rw (laws.pages-insert_page dst src i p found, found)
          (append_assoc (fz.pages dst) (p ∷ []) (picked (fz.pages src) (map pos_part ps)))

  inserted :
      (src : fz.Doc) (ps : List ℤ)
      → All (IsInRange (length (fz.pages src))) ps
      → fz.pages (insert_each fz show src fz.new (map pos_part ps))
        ≡ picked (fz.pages src) (map pos_part ps)
  inserted src ps h = insert_each-pages src fz.new ps h ∙ rw (laws.pages-new)

  -- If a file is returned, then the order is a permutation of the page numbers, the file holds the pages
  -- in that order, and they are the pages that came in, each as often.
  pub reorder_pages-Reordered :
      (b out : Text) (ps : List ℤ) (doc : fz.Doc)
      → open_pdf fz b ≡ done doc
      → reorder_pages fz show b ps ≡ done out
      → Perm (map pos_part ps) (range_from 0 (length (fz.pages doc)))
        × Holds fz out (picked (fz.pages doc) (map pos_part ps))
        × Perm (picked (fz.pages doc) (map pos_part ps)) (fz.pages doc)
  unfolding reorder_pages
  reorder_pages-Reordered b out ps doc o e =
      let (_, valid, checked) =
        >>=-eq-done (validate_pages show (length (fz.pages doc)) ps) _ (rw o at e) in
      elim (Bool-cases (list_eq (sort (map pos_part ps)) (range_from 0 (length (fz.pages doc))))) [
        | inl sorted ↦
            let perm : Perm (map pos_part ps) (range_from 0 (length (fz.pages doc))) =
              subst (λ l. Perm (map pos_part ps) l) (list_eq→eq _ _ sorted)
                (Perm.symm (sort-perm (map pos_part ps))) in
            let all = insert_each fz show doc fz.new (map pos_part ps) in
            let written : fz.tobytes all ≡ some out = ground (arith, rw sorted at checked) in
            (
              perm,
              written-Holds fz laws all (picked (fz.pages doc) (map pos_part ps)) out
                  (inserted doc ps (validate_pages-IsInRange show (length (fz.pages doc)) ps valid))
                  written,
              picked-perm (fz.pages doc) (map pos_part ps) perm,
            )
        | inr unsorted ↦ let failed : raised _ ≡ done out = rw unsorted at checked in cc
      ]

insert_sorted_comm :
    (x y : ℕ) (xs : List ℕ)
    → insert_sorted x (insert_sorted y xs) ≡ insert_sorted y (insert_sorted x xs)
insert_sorted_comm x y [] = ground arith
insert_sorted_comm x y (z ∷ zs) = ground (arith, insert_sorted_comm x y zs)

sort-Permᴰ : {xs ys : List ℕ} → Permᴰ xs ys → sort xs ≡ sort ys
unfolding sort
sort-Permᴰ Permᴰ.nil = refl
sort-Permᴰ (Permᴰ.cons {a = x} {b = y} e p) = rw e (ap (insert_sorted y) (sort-Permᴰ p))
sort-Permᴰ (Permᴰ.swap {a = x} {b = y} {l = l} e e') = rw (e, e') (insert_sorted_comm _ _ (sort l))
sort-Permᴰ (Permᴰ.trans p q) = sort-Permᴰ p ∙ sort-Permᴰ q

length-perm-pos {ℓ} : {A : Type ℓ} (xs ys : List A) → Perm xs ys → 0 < length ys → 0 < length xs
length-perm-pos (x ∷ xs) ys p h = omega arith
length-perm-pos [] ys p h = subst (λ l. 0 < length l) (sym (Perm.nil-eq p)) h

sort-range_from : (k n : ℕ) → sort (range_from k n) ≡ range_from k n
unfolding sort
sort-range_from k zero = refl
sort-range_from k (suc zero) = refl
sort-range_from k (suc (suc n)) = rw (sort-range_from (suc k) (suc n)) (ground arith)

numbers_set : IsSet (List ℕ)
numbers_set = hlevel

sort-perm_range : (xs : List ℕ) (n : ℕ) → Perm xs (range_from 0 n) → sort xs ≡ range_from 0 n
sort-perm_range xs n p = ∥∥₁_elim p (numbers_set _ _) (λ q. sort-Permᴰ q ∙ sort-range_from 0 n)

module _ (fz : Fitz) (laws : Documented fz) (show : ℤ → Text) where
  -- Every permutation of the page numbers of a document with pages is accepted.
  pub reorder_pages-perm :
      (b : Text) (ps : List ℤ) (doc : fz.Doc)
      → open_pdf fz b ≡ done doc
      → All (IsInRange (length (fz.pages doc))) ps
      → Perm (map pos_part ps) (range_from 0 (length (fz.pages doc)))
      → 0 < length (fz.pages doc)
      → (out : Text) × (reorder_pages fz show b ps ≡ done out)
  unfolding reorder_pages
  reorder_pages-perm b ps doc o v p h =
      let all = insert_each fz show doc fz.new (map pos_part ps) in
      let same : Perm (fz.pages all) (fz.pages doc) =
        rw (inserted fz laws show doc ps v) (picked-perm (fz.pages doc) (map pos_part ps) p) in
      let (out, written, _) =
        saved-Holds fz laws all (length-perm-pos (fz.pages all) (fz.pages doc) same h) in
      (
        out,
        rw (
          o,
          validate_pages-done show (length (fz.pages doc)) ps v,
          sort-perm_range (map pos_part ps) (length (fz.pages doc)) p,
          list_eq_refl (range_from 0 (length (fz.pages doc))),
          written,
        ),
      )
