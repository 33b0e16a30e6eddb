-- ===== src/Tables/Readers/Service/Targets.antt =====
-- The pages of a table request (app/services/pdf_service.py): the first of each number.
use pdf_engine_toolbox.Base.{
  ℕ, zero, suc, ◌≡◌, ◌<◌, refl, ap, subst, ◌⊎◌, inl, inr, true, false, ◌||◌, List, [], ◌∷◌, arith,
  any, map, All, Bool-cases,
}
use pdf_engine_toolbox.Base.Int.{ℤ, pos, negsuc}
use pdf_engine_toolbox.Pdf.{range_from}
use pdf_engine_toolbox.Tables.Readers.Service.{same_page, distinct_from}

same_page-eq : (p q : ℤ) → same_page p q ≡ true → p ≡ q
same_page-eq (pos m) (pos n) h = let same : m ≡ n = ground arith in ap pos same
same_page-eq (pos m) (negsuc n) h = cc
same_page-eq (negsuc m) (pos n) h = cc
same_page-eq (negsuc m) (negsuc n) h = let same : m ≡ n = ground arith in ap negsuc same

-- A page of a list.
abbrev pub Listing : ℤ → List ℤ → Type 0
Listing p [] = ⊥
Listing p (q ∷ qs) = (p ≡ q) ⊎ Listing p qs

-- No page is among the ones behind it.
abbrev pub Apart : List ℤ → Type 0
Apart [] = Unit {0}
Apart (p ∷ ps) = (¬ Listing p ps) × Apart ps

-- Every one of these pages is among those.
abbrev pub Among : List ℤ → List ℤ → Type 0
Among targets ps = All (λ q. Listing q targets) ps

-- The pages from `k` on, `n` of them, in order.
abbrev pub Counts : ℕ → ℕ → List ℤ → Type 0
Counts k zero ps = ps ≡ []
Counts k (suc n) ps = (rest : List ℤ) × (ps ≡ pos k ∷ rest) × Counts (suc k) n rest

same_page_refl : (p : ℤ) → same_page p p ≡ true
same_page_refl (pos n) = ground arith
same_page_refl (negsuc n) = ground arith

any-Listing : (p : ℤ) (qs : List ℤ) → any (same_page p) qs ≡ true → Listing p qs
any-Listing p [] e = cc
any-Listing p (q ∷ qs) e = elim (Bool-cases (same_page p q)) [
  | inl same ↦ inl (same_page-eq p q same)
  | inr other ↦ inr (any-Listing p qs (ground arith))
]

any-not_Listing : (p : ℤ) (qs : List ℤ) → any (same_page p) qs ≡ false → ¬ Listing p qs
any-not_Listing p [] e h = h
any-not_Listing p (q ∷ qs) e (inl same) =
    let found : same_page p q ≡ true = subst (λ x. same_page p x ≡ true) same (same_page_refl p) in
    ground arith
any-not_Listing p (q ∷ qs) e (inr later) = any-not_Listing p qs (ground arith) later

distinct_from-unseen :
    (q : ℤ) (seen ps : List ℤ)
    → any (same_page q) seen ≡ true
    → any (same_page q) (distinct_from seen ps) ≡ false
distinct_from-unseen q seen [] h = refl
distinct_from-unseen q seen (p ∷ ps) h = elim (Bool-cases (any (same_page p) seen)) [
  | inl again ↦ rw again (distinct_from-unseen q seen ps h)
  | inr first ↦ elim (Bool-cases (same_page q p)) [
    | inl same ↦
        let found : any (same_page p) seen ≡ true =
          subst (λ x. any (same_page x) seen ≡ true) (same_page-eq q p same) h in
        absurd (ground arith)
    | inr other ↦
        let later = distinct_from-unseen q (p ∷ seen) ps (ground arith) in rw (first, other, later)
  ]
]

pub distinct_from-Apart : (seen ps : List ℤ) → Apart (distinct_from seen ps)
distinct_from-Apart seen [] = tt
distinct_from-Apart seen (p ∷ ps) = elim (Bool-cases (any (same_page p) seen)) [
  | inl again ↦ rw again (distinct_from-Apart seen ps)
  | inr first ↦ rw first (
    any-not_Listing p (distinct_from (p ∷ seen) ps)
        (distinct_from-unseen p (p ∷ seen) ps (ground (arith, same_page_refl p))),
    distinct_from-Apart (p ∷ seen) ps,
  )
]

distinct_from-kept :
    (q : ℤ) (seen ps : List ℤ)
    → any (same_page q) ps ≡ true
    → (any (same_page q) seen || any (same_page q) (distinct_from seen ps)) ≡ true
distinct_from-kept q seen [] h = cc
distinct_from-kept q seen (p ∷ ps) h = elim (Bool-cases (any (same_page p) seen)) [
  | inl again ↦ elim (Bool-cases (same_page q p)) [
    | inl same ↦ rw (same_page-eq q p same, again)
    | inr other ↦ rw again (distinct_from-kept q seen ps (ground arith))
  ]
  | inr first ↦ elim (Bool-cases (same_page q p)) [
    | inl same ↦ rw first (ground arith)
    | inr other ↦
        let later = distinct_from-kept q (p ∷ seen) ps (ground arith) in rw first (ground arith)
  ]
]

range_from-later : (j k n : ℕ) → j < k → any (same_page (pos j)) (map pos (range_from k n)) ≡ false
range_from-later j k zero h = refl
range_from-later j k (suc n) h =
    let later = range_from-later j (suc k) n (omega arith) in ground arith

pub range_from-Apart : (k n : ℕ) → Apart (map pos (range_from k n))
range_from-Apart k zero = tt
range_from-Apart k (suc n) = (
  any-not_Listing (pos k) _ (range_from-later k (suc k) n (omega arith)),
  range_from-Apart (suc k) n,
)

Among-cons : (p : ℤ) (targets ps : List ℤ) → Among targets ps → Among (p ∷ targets) ps
Among-cons p targets [] h = tt
Among-cons p targets (q ∷ ps) h = (inr h.0, Among-cons p targets ps h.1)

Among-refl : (ps : List ℤ) → Among ps ps
Among-refl [] = tt
Among-refl (p ∷ ps) = (inl refl, Among-cons p ps ps (Among-refl ps))

Listing-any : (p : ℤ) (qs : List ℤ) → Listing p qs → any (same_page p) qs ≡ true
Listing-any p qs h = elim (Bool-cases (any (same_page p) qs)) [
  | inl found ↦ found
  | inr missing ↦ absurd (any-not_Listing p qs missing h)
]

distinct_from-all : (ps qs : List ℤ) → Among ps qs → Among (distinct_from [] ps) qs
distinct_from-all ps [] h = tt
distinct_from-all ps (q ∷ qs) h = (
  any-Listing q (distinct_from [] ps) (distinct_from-kept q [] ps (Listing-any q ps h.0)),
  distinct_from-all ps qs h.1,
)

-- Every page that was asked for stays.
pub distinct_from-Among : (ps : List ℤ) → Among (distinct_from [] ps) ps
distinct_from-Among ps = distinct_from-all ps ps (Among-refl ps)

-- No other page comes in.
pub Among-distinct_from : (seen ps : List ℤ) → Among ps (distinct_from seen ps)
Among-distinct_from seen [] = tt
Among-distinct_from seen (p ∷ ps) = elim (Bool-cases (any (same_page p) seen)) [
  | inl again ↦ rw again (Among-cons p ps (distinct_from seen ps) (Among-distinct_from seen ps))
  | inr first ↦
      rw first (
        inl refl,
        Among-cons p ps (distinct_from (p ∷ seen) ps) (Among-distinct_from (p ∷ seen) ps),
      )
]

pub range_from-Counts : (k n : ℕ) → Counts k n (map pos (range_from k n))
range_from-Counts k zero = refl
range_from-Counts k (suc n) = (map pos (range_from (suc k) n), refl, range_from-Counts (suc k) n)
