-- ===== src/Pdf/Pages/Deleted.antt =====
-- What `delete_pages` leaves of a document: the deletions run from the last page to the first.
use native.Mathlib.Decide.{dec_lt}
use pdf_engine_toolbox.Base.{
  ℕ, zero, suc, ◌+◌, ◌≤◌, ◌<◌, ◌≡◌, refl, ap, sym, ◌∙◌, true, false, List, [], ◌∷◌, ◌==◌, length,
  map, contains, All, is_empty, if◌then◌else◌, arith,
}
use pdf_engine_toolbox.Base.Int.{ℤ, pos, negsuc, pos_part}
use pdf_engine_toolbox.Errors.{Text, codes, pdf_corrupt}
use pdf_engine_toolbox.Pdf.{
  Outcome, Outcome_map, done, raised, uncaught, or_uncaught, erase_idx, Fitz, Documented, open_pdf,
  Holds, validate_pages, IsInRange, validate_pages-done, saved-Holds, saved-pages, >>=-eq-done,
}
use pdf_engine_toolbox.Pdf.Pages.{
  insert_descending, sort_descending, delete_each, finish_delete, delete_pages,
}

-- The list without the positions listed, the first position being `k`.
abbrev pub kept {ℓ} : {A : Type ℓ} → ℕ → List ℕ → List A → List A
kept k is [] = []
kept k is (x ∷ xs) = if contains k is then kept (suc k) is xs else x ∷ kept (suc k) is xs

-- No number twice.
abbrev pub Distinct : List ℕ → Type 0
Distinct [] = Unit {0}
Distinct (x ∷ xs) = (contains x xs ≡ false) × Distinct xs

-- Each number is below the one before it, and the first below `n`.
abbrev Falls : ℕ → List ℕ → Type 0
Falls n [] = Unit {0}
Falls n (x ∷ xs) = (x < n) × Falls x xs

Falls-contains : (n k : ℕ) (xs : List ℕ) → Falls n xs → n ≤ k → contains k xs ≡ false
Falls-contains n k [] f h = refl
Falls-contains n k (x ∷ xs) f h = ground (arith, Falls-contains x k xs)

Falls-le : (m n : ℕ) (xs : List ℕ) → Falls m xs → m ≤ n → Falls n xs
Falls-le m n [] f h = tt
Falls-le m n (x ∷ xs) f h = (omega arith, f.1)

kept-above {ℓ} :
    {A : Type ℓ} (n k : ℕ) (is : List ℕ) (xs : List A) → Falls n is → n ≤ k → kept k is xs ≡ xs
kept-above n k is [] f h = refl
kept-above n k is (x ∷ xs) f h =
    rw (Falls-contains n k is f h) (ap (λ r. x ∷ r) (kept-above n (suc k) is xs f (omega arith)))

kept-below {ℓ} :
    {A : Type ℓ} (k i d : ℕ) (is : List ℕ) (xs : List A)
    → Falls i is
    → i ≡ k + d
    → kept k (i ∷ is) xs ≡ kept k is (erase_idx xs d)
kept-below k i d is [] f e = refl
kept-below k i zero is (x ∷ xs) f e = ground (
  arith,
  kept-above (suc k) (suc k) (i ∷ is) xs (omega arith, f) (omega arith),
  kept-above i k is xs f (omega arith),
)
kept-below k i (suc d) is (x ∷ xs) f e =
    ground (arith, kept-below (suc k) i d is xs f (omega arith))

contains-insert_descending :
    (k x : ℕ) (xs : List ℕ)
    → contains k (insert_descending x xs) ≡ (if x == k then true else contains k xs)
contains-insert_descending k x [] = refl
contains-insert_descending k x (y ∷ ys) = ground (arith, contains-insert_descending k x ys)

contains-sort_descending : (k : ℕ) (xs : List ℕ) → contains k (sort_descending xs) ≡ contains k xs
unfolding sort_descending
contains-sort_descending k [] = refl
contains-sort_descending k (x ∷ xs) =
    ground
      (arith, contains-insert_descending k x (sort_descending xs), contains-sort_descending k xs)

insert_descending-Falls :
    (n x : ℕ) (xs : List ℕ)
    → Falls n xs
    → x < n
    → contains x xs ≡ false
    → Falls n (insert_descending x xs)
insert_descending-Falls n x [] f h e = (h, tt)
insert_descending-Falls n x (y ∷ ys) f h e = ground (arith, insert_descending-Falls y x ys f.1)

AllBelow : ℕ → List ℕ → Type 0
AllBelow n is = All (λ i. i < n) is

sort_descending-Falls :
    (n : ℕ) (xs : List ℕ) → AllBelow n xs → Distinct xs → Falls n (sort_descending xs)
unfolding sort_descending AllBelow
sort_descending-Falls n [] h d = tt
sort_descending-Falls n (x ∷ xs) h d =
    insert_descending-Falls n x (sort_descending xs) (sort_descending-Falls n xs h.1 d.1) h.0
      (contains-sort_descending x xs ∙ d.0)

kept-contains {ℓ} :
    {A : Type ℓ} (k : ℕ) (is js : List ℕ) (xs : List A)
    → ((i : ℕ) → contains i is ≡ contains i js)
    → kept k is xs ≡ kept k js xs
kept-contains k is js [] h = refl
kept-contains k is js (x ∷ xs) h = ground (arith, h k, kept-contains (suc k) is js xs h)

length-insert_descending : (x : ℕ) (xs : List ℕ) → length (insert_descending x xs) ≡ suc (length xs)
length-insert_descending x [] = refl
length-insert_descending x (y ∷ ys) = ground (arith, length-insert_descending x ys)

length-sort_descending : (xs : List ℕ) → length (sort_descending xs) ≡ length xs
unfolding sort_descending
length-sort_descending [] = refl
length-sort_descending (x ∷ xs) =
    length-insert_descending x (sort_descending xs) ∙ ap (λ n. suc n) (length-sort_descending xs)

IsInRange-AllBelow : (n : ℕ) (ps : List ℤ) → All (IsInRange n) ps → AllBelow n (map pos_part ps)
unfolding AllBelow
IsInRange-AllBelow n [] h = tt
IsInRange-AllBelow n (pos i ∷ ps) h = (ground arith, IsInRange-AllBelow n ps h.1)
IsInRange-AllBelow n (negsuc i ∷ ps) h = cc

length-erase_idx {ℓ} :
    {A : Type ℓ} (xs : List A) (i : ℕ) → i < length xs → suc (length (erase_idx xs i)) ≡ length xs
length-erase_idx [] i h = elim h [ ]
length-erase_idx (x ∷ xs) zero h = refl
length-erase_idx (x ∷ xs) (suc i) h = omega (arith, length-erase_idx xs i (omega arith))

length-map : (f : ℤ → ℕ) (ps : List ℤ) → length (map f ps) ≡ length ps
length-map f [] = refl
length-map f (p ∷ ps) = omega (arith, length-map f ps)

module _ (fz : Fitz) (laws : Documented fz) (show : ℤ → Text) where
  -- What comes of a document of which these pages are left.
  abbrev pub Leaves : Outcome Text → List fz.Page → Type 0
  Leaves o [] = o ≡ raised (pdf_corrupt (codes "Cannot delete all pages from PDF"))
  Leaves o (p ∷ ps) = (out : Text) × (o ≡ done out) × Holds fz out (p ∷ ps)

  delete_each-kept :
      (d : fz.Doc) (is : List ℕ)
      → Falls (length (fz.pages d)) is
      → (d' : fz.Doc) × (delete_each fz show d is ≡ done d')
        × (fz.pages d' ≡ kept 0 is (fz.pages d))
  delete_each-kept d [] f = (d, refl, sym (kept-above 0 0 [] (fz.pages d) tt (omega arith)))
  delete_each-kept d (i ∷ is) f =
      let (e, deleted, same) = laws.pages-delete_page d i f.0 in
      let shorter : suc (length (fz.pages e)) ≡ length (fz.pages d) =
        ap (λ n. suc n) (ap length same) ∙ length-erase_idx (fz.pages d) i f.0 in
      let (d', all, left) =
        delete_each-kept e is (Falls-le i (length (fz.pages e)) is f.1 (omega (arith, f.0))) in
      (
        d',
        rw deleted all,
        left ∙ ap (kept 0 is) same ∙ sym (kept-below 0 i i is (fz.pages d) f.1 (omega arith)),
      )

  Leaves-saved :
      (d : fz.Doc) (ps : List fz.Page)
      → fz.pages d ≡ ps
      → Leaves
          (if is_empty ps
            then raised (pdf_corrupt (codes "Cannot delete all pages from PDF"))
            else or_uncaught (fz.tobytes d))
          ps
  Leaves-saved d [] e = refl
  Leaves-saved d (p ∷ ps) e =
      let (out, written, held) = saved-Holds fz laws d (rw e (omega arith)) in
      (out, rw written, rw e at held)

  -- If the pages are in range and none is listed twice, then deleting leaves exactly the pages that are
  -- not listed, in their order: the answer is a file that holds them, or the error that refuses to
  -- delete every page where none is left.
  pub delete_pages-Leaves :
      (b : Text) (ps : List ℤ) (doc : fz.Doc)
      → open_pdf fz b ≡ done doc
      → All (IsInRange (length (fz.pages doc))) ps
      → Distinct (map pos_part ps)
      → Leaves (delete_pages fz show b ps) (kept 0 (map pos_part ps) (fz.pages doc))
  unfolding delete_pages AllBelow
  delete_pages-Leaves b ps doc o v u =
      let ns : List ℕ = map pos_part ps in
      let (d, all, left) =
        delete_each-kept doc (sort_descending ns)
          (sort_descending-Falls (length (fz.pages doc)) ns (IsInRange-AllBelow _ ps v) u) in
      let same : fz.pages d ≡ kept 0 ns (fz.pages doc) =
        left
        ∙ kept-contains 0 (sort_descending ns) ns (fz.pages doc)
            (λ k. contains-sort_descending k ns) in
      rw (o, validate_pages-done show (length (fz.pages doc)) ps v, all, same)
        (Leaves-saved d (kept 0 ns (fz.pages doc)) same)

  delete_each-length :
      (d d' : fz.Doc) (is : List ℕ)
      → delete_each fz show d is ≡ done d'
      → length (fz.pages d') + length is ≡ length (fz.pages d)
  delete_each-length d d' [] e = ground (arith, ap (λ o. Outcome_map fz.pages o) e)
  delete_each-length d d' (i ∷ is) e = elim (dec_lt i (length (fz.pages d))) [
    | yes h ↦
        let (x, deleted, same) = laws.pages-delete_page d i h in
        let rest : delete_each fz show x is ≡ done d' = rw deleted at e in
        omega (
          arith,
          delete_each-length x d' is rest,
          ap length same,
          length-erase_idx (fz.pages d) i h,
        )
    | no h ↦
        let failed : uncaught ≡ done d' = rw (laws.delete_page-none d i (omega arith)) at e in cc
  ]

  length-saved :
      (rest d : fz.Doc) (out : Text)
      → finish_delete fz show rest ≡ done out
      → open_pdf fz out ≡ done d
      → length (fz.pages d) ≡ length (fz.pages rest)
  length-saved rest d out e read =
      ap length (saved-pages fz laws rest d out (ground arith) (ground arith) read)

  -- If a file is returned, then each entry of the list has taken one page away: a page that is listed
  -- twice takes another one with it.
  pub delete_pages-length :
      (b out : Text) (ps : List ℤ) (doc d : fz.Doc)
      → open_pdf fz b ≡ done doc
      → delete_pages fz show b ps ≡ done out
      → open_pdf fz out ≡ done d
      → length (fz.pages d) + length ps ≡ length (fz.pages doc)
  unfolding delete_pages
  delete_pages-length b out ps doc d o e read =
      let run = rw o at e in
      let (_, _, checked) = >>=-eq-done (validate_pages show (length (fz.pages doc)) ps) _ run in
      let (rest, all, saved) =
        >>=-eq-done (delete_each fz show doc (sort_descending (map pos_part ps)))
          (finish_delete fz show) checked in
      omega (
        arith,
        length-saved rest d out saved read,
        delete_each-length doc rest (sort_descending (map pos_part ps)) all,
        length-sort_descending (map pos_part ps),
        length-map pos_part ps,
      )
