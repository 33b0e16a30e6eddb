-- ===== src/Pdf/Classify/Shadowed.antt =====
-- A keyword that begins with an earlier one is never the match (`_TAX_FORM_PATTERNS`).
use pdf_engine_toolbox.Base.{
  ◌≡◌, ◌≢◌, refl, ap, ◌∙◌, subst, inl, inr, Bool, true, false, not, ◌&&◌, ◌||◌, Option, none, some,
  List, [], ◌∷◌, ◌++◌, arith, any, Bool-cases,
}
use pdf_engine_toolbox.Errors.{Text, codes, text_eq, text_eq_refl}
use pdf_engine_toolbox.Pdf.Classify.{
  Pattern, tax_form_patterns, is_prefix, occurs, Classification, classified, unknown_form,
  first_match, classify_texts,
}

-- The rest of a text behind a prefix.
prefix_rest : (s t : Text) → is_prefix s t ≡ true → (r : Text) × (t ≡ s ++ r)
prefix_rest [] t h = (t, refl)
prefix_rest (c ∷ s) [] h = cc
prefix_rest (c ∷ s) (d ∷ t) h =
    let (r, e) = prefix_rest s t (ground arith) in (r, ground (arith, e))

is_prefix-append : (s r t : Text) → is_prefix (s ++ r) t ≡ true → is_prefix s t ≡ true
is_prefix-append [] r t h = refl
is_prefix-append (c ∷ s) r [] h = cc
is_prefix-append (c ∷ s) r (d ∷ t) h = ground (arith, is_prefix-append s r t)

occurs-append : (s r t : Text) → occurs (s ++ r) t ≡ true → occurs s t ≡ true
occurs-append s r [] h = is_prefix-append s r [] h
occurs-append s r (c ∷ t) h = ground (arith, is_prefix-append s r (c ∷ t), occurs-append s r t)

-- Every pattern of this kind begins with the keyword of an earlier pattern.
abbrev all_shadowed : (Pattern → Bool) → List Pattern → List Pattern → Bool
all_shadowed kind seen [] = true
all_shadowed kind seen (p ∷ ps) =
    (not (kind p) || any (λ q. is_prefix q.keyword p.keyword) seen)
    && all_shadowed kind (p ∷ seen) ps

module _ (upper : Text → Text)
    (upper-append : (s t : Text) → upper (s ++ t) ≡ upper s ++ upper t) where
  unseen-occurs :
      (p : Pattern) (seen : List Pattern) (t : Text)
      → any (λ q. is_prefix q.keyword p.keyword) seen ≡ true
      → any (λ q. occurs (upper q.keyword) t) seen ≡ false
      → occurs (upper p.keyword) t ≡ false
  unseen-occurs p [] t h u = cc
  unseen-occurs p (q ∷ seen) t h u = elim (Bool-cases (is_prefix q.keyword p.keyword)) [
    | inl begins ↦
        let (r, e) = prefix_rest q.keyword p.keyword begins in
        let longer : upper p.keyword ≡ upper q.keyword ++ upper r =
          ap upper e ∙ upper-append q.keyword r in
        elim (Bool-cases (occurs (upper p.keyword) t)) [
          | inl found ↦
              absurd
                (ground (arith, occurs-append (upper q.keyword) (upper r) t (rw longer at found)))
          | inr missing ↦ missing
        ]
    | inr apart ↦ unseen-occurs p seen t (ground arith) (ground arith)
  ]

  first_match-kind :
      (kind : Pattern → Bool) (seen ps : List Pattern) (t : Text) (p : Pattern)
      → all_shadowed kind seen ps ≡ true
      → any (λ q. occurs (upper q.keyword) t) seen ≡ false
      → first_match upper ps t ≡ some p
      → kind p ≡ false
  unfolding first_match
  first_match-kind kind seen [] t p a u e = cc
  first_match-kind kind seen (q ∷ ps) t p a u e = elim (Bool-cases (occurs (upper q.keyword) t)) [
    | inl here ↦
        let same : q ≡ p = ground arith in
        elim (Bool-cases (kind q)) [
          | inl of_kind ↦ absurd (ground (arith, unseen-occurs q seen t (ground arith) u))
          | inr not_kind ↦ subst (λ x. kind x ≡ false) same not_kind
        ]
    | inr skip ↦
        first_match-kind kind (q ∷ seen) ps t p (ground arith) (ground arith) (ground arith)
  ]

-- The keywords that can never match, and the label that only one of them stands for.
abbrev pub is_unreachable : Pattern → Bool
is_unreachable p =
    text_eq p.label (codes "1120-S")
    || text_eq p.keyword (codes "Form 1098-T")
    || text_eq p.keyword (codes "Form 1099-SSA")

abbrev unreachable_shadowed : all_shadowed is_unreachable [] tax_form_patterns ≡ true
unreachable_shadowed = refl

-- The keyword and the label of a classification are not among those.
abbrev pub IsReachable : Classification → Type 0
IsReachable c =
    (c.suggested_label ≢ codes "1120-S")
    × (c.matched_keyword ≢ some (codes "Form 1098-T"))
    × (c.matched_keyword ≢ some (codes "Form 1099-SSA"))

text_ne : (s t : Text) → text_eq s t ≡ false → s ≢ t
text_ne s t h e = let same : text_eq s t ≡ true = rw e (text_eq_refl t) in ground arith

module _ (upper : Text → Text)
    (upper-append : (s t : Text) → upper (s ++ t) ≡ upper s ++ upper t) where
  reached :
      (p : Pattern) (preview : Text)
      → is_unreachable p ≡ false
      → IsReachable (classified upper preview (some p))
  reached p preview h = (
    text_ne p.label (codes "1120-S") (ground arith),
    λ e. text_ne p.keyword (codes "Form 1098-T") (ground arith) (ground arith),
    λ e. text_ne p.keyword (codes "Form 1099-SSA") (ground arith) (ground arith),
  )

  unknown-IsReachable : (preview : Text) → IsReachable (unknown_form preview)
  unknown-IsReachable preview = (λ e. ground arith, λ e. cc, λ e. cc)

  matched-IsReachable :
      (preview t : Text) (o : Option Pattern)
      → first_match upper tax_form_patterns t ≡ o
      → IsReachable (classified upper preview o)
  matched-IsReachable preview t none e = unknown-IsReachable preview
  matched-IsReachable preview t (some p) e = reached p preview (
      first_match-kind upper upper-append is_unreachable [] tax_form_patterns t p
        unreachable_shadowed refl e)

  -- If upper case is taken letter by letter, then no document is classified as Form 1120-S, and none by
  -- the keywords of Form 1098-T and of Form 1099-SSA: an earlier keyword is the beginning of each.
  pub classify_texts-IsReachable : (texts : List Text) → IsReachable (classify_texts upper texts)
  unfolding classify_texts
  classify_texts-IsReachable [] = unknown-IsReachable []
  classify_texts-IsReachable (first ∷ rest) = matched-IsReachable _ _ _ refl
