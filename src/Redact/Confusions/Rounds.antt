-- ===== src/Redact/Confusions/Rounds.antt =====
-- The rounds of `normalize_confusions` end, and its result keeps every position
-- (app/services/identifier_redaction.py).
use pdf_engine_toolbox.Base.{
  ℕ, zero, suc, ◌≡◌, ◌≤◌, ◌<◌, ◌⊎◌, inl, inr, refl, ap, ◌∙◌, subst, Bool, true, false, ◌&&◌, ◌||◌,
  List, [], ◌∷◌, ◌++◌, arith, Bool-cases, length,
}
use pdf_engine_toolbox.Errors.{Text}
use pdf_engine_toolbox.Regex.{Chars}
use pdf_engine_toolbox.Redact.Confusions.{
  Token, short, head_flag, spread, same_flags, spread_loop, unconfused, translate, join_tokens,
  add_char, add_space, split_tokens, numeric_flags, normalize_confusions,
}

-- Every character is the same or the digit that it is read for.
abbrev pub Kept : Text → Text → Type 0
Kept [] [] = Unit
Kept [] (y ∷ u) = ⊥
Kept (x ∷ t) [] = ⊥
Kept (x ∷ t) (y ∷ u) = ((y ≡ x) ⊎ (y ≡ unconfused x)) × Kept t u

Kept-same : (t : Text) → Kept t t
Kept-same [] = tt
Kept-same (x ∷ t) = (inl refl, Kept-same t)

Kept-append : (a b c d : Text) → Kept a b → Kept c d → Kept (a ++ c) (b ++ d)
Kept-append [] [] c d h k = k
Kept-append [] (y ∷ b) c d h k = absurd h
Kept-append (x ∷ a) [] c d h k = absurd h
Kept-append (x ∷ a) (y ∷ b) c d h k = (h.0, Kept-append a b c d h.1 k)

translate-Kept : (t : Text) → Kept t (translate t)
translate-Kept [] = tt
translate-Kept (x ∷ t) = (inr refl, translate-Kept t)

join_tokens-Kept : (ts : List Token) (fs : List Bool) → Kept (join_tokens ts []) (join_tokens ts fs)
join_tokens-Kept [] fs = tt
join_tokens-Kept (t ∷ ts) [] = Kept-same (join_tokens (t ∷ ts) [])
join_tokens-Kept (t ∷ ts) (true ∷ fs) =
    Kept-append t.chars _ (t.gap ++ join_tokens ts []) _ (translate-Kept t.chars)
      (Kept-append t.gap t.gap (join_tokens ts []) _ (Kept-same t.gap) (join_tokens-Kept ts fs))
join_tokens-Kept (t ∷ ts) (false ∷ fs) =
    Kept-append t.chars _ (t.gap ++ join_tokens ts []) _ (Kept-same t.chars)
      (Kept-append t.gap t.gap (join_tokens ts []) _ (Kept-same t.gap) (join_tokens-Kept ts fs))

add_char-join : (c : ℕ) (ts : List Token) → join_tokens (add_char c ts) [] ≡ c ∷ join_tokens ts []
add_char-join c [] = refl
add_char-join c (t ∷ ts) = refl

add_space-join : (c : ℕ) (ts : List Token) → join_tokens (add_space c ts) [] ≡ c ∷ join_tokens ts []
add_space-join c [] = refl
add_space-join c (t ∷ ts) = go t.chars refl
  where
    go :
        (l : Text)
        → t.chars ≡ l
        → join_tokens (add_space c (t ∷ ts)) [] ≡ c ∷ join_tokens (t ∷ ts) []
    go [] e = ground (arith, e)
    go (x ∷ l) e = ground (arith, e)

split_tokens-join : (ch : Chars) (t : Text) → join_tokens (split_tokens ch t) [] ≡ t
split_tokens-join ch [] = refl
split_tokens-join ch (c ∷ t) = elim (Bool-cases (ch.space c)) [
  | inl e ↦ rw e (add_space-join c (split_tokens ch t) ∙ ap (λ u. c ∷ u) (split_tokens-join ch t))
  | inr e ↦ rw e (add_char-join c (split_tokens ch t) ∙ ap (λ u. c ∷ u) (split_tokens-join ch t))
]

-- Normalising OCR confusions keeps every position of a text: each character stays or becomes the
-- digit that it is read for, and none is lost or added.
pub normalize_confusions-Kept :
    (ch : Chars) (text : Text) → Kept text (normalize_confusions ch text)
unfolding normalize_confusions
normalize_confusions-Kept ch text =
    subst (λ t. Kept t (normalize_confusions ch text)) (split_tokens-join ch text)
      (join_tokens-Kept (split_tokens ch text) _)

-- How many tokens are not known to be numeric.
abbrev pub unset : List Bool → ℕ
unset [] = 0
unset (true ∷ fs) = unset fs
unset (false ∷ fs) = suc (unset fs)

-- A round sets flags, or it changes nothing.
abbrev Fewer : List Bool → List Bool → Type 0
Fewer fs gs = (unset gs ≤ unset fs) × ((same_flags fs gs ≡ true) ⊎ (unset gs < unset fs))

one_more : (now : Bool) (fs gs : List Bool) → Fewer fs gs → Fewer (false ∷ fs) (now ∷ gs)
one_more true fs gs h = (omega arith, inr (omega arith))
one_more false fs gs (h, inl same) = (omega arith, inl same)
one_more false fs gs (h, inr less) = (omega arith, inr (omega arith))

spread-Fewer :
    (left : Bool) (ts : List Token) (fs : List Bool)
    → length fs ≡ length ts
    → Fewer fs (spread left ts fs)
spread-Fewer left [] [] n = (omega arith, inl refl)
spread-Fewer left [] (f ∷ fs) n = absurd (omega arith)
spread-Fewer left (t ∷ ts) [] n = (omega arith, inl refl)
spread-Fewer left (t ∷ ts) (true ∷ fs) n = spread-Fewer true ts fs (omega arith)
spread-Fewer left (t ∷ ts) (false ∷ fs) n =
    let now = short t.chars && (left || head_flag fs) in
    one_more now fs (spread now ts fs) (spread-Fewer now ts fs (omega arith))

length-spread :
    (left : Bool) (ts : List Token) (fs : List Bool)
    → length fs ≡ length ts
    → length (spread left ts fs) ≡ length ts
length-spread left [] fs n = refl
length-spread left (t ∷ ts) [] n = absurd (omega arith)
length-spread left (t ∷ ts) (f ∷ fs) n =
    let rest = length-spread (f || (short t.chars && (left || head_flag fs))) ts fs (omega arith) in
    omega arith

unset-length : (fs : List Bool) → unset fs ≤ length fs
unset-length [] = omega arith
unset-length (true ∷ fs) = let rest = unset-length fs in omega arith
unset-length (false ∷ fs) = let rest = unset-length fs in omega arith

spread_loop_settles :
    (fuel : ℕ) (ts : List Token) (fs : List Bool)
    → length fs ≡ length ts
    → unset fs ≤ fuel
    → same_flags (spread_loop fuel ts fs) (spread false ts (spread_loop fuel ts fs)) ≡ true
unfolding spread_loop
spread_loop_settles zero ts fs n few = elim (spread-Fewer false ts fs n).1 [
  | inl same ↦ same
  | inr less ↦ absurd (omega arith)
]
spread_loop_settles (suc fuel) ts fs n few =
    elim (Bool-cases (same_flags fs (spread false ts fs))) [
      | inl same ↦ rw same same
      | inr moved ↦
          let less : unset (spread false ts fs) < unset fs = elim (spread-Fewer false ts fs n).1 [
            | inl same ↦ absurd (ground (arith, same, moved))
            | inr less ↦ less
          ] in
          rw moved (
            spread_loop_settles fuel ts (spread false ts fs) (length-spread false ts fs n)
              (omega arith))
    ]

length-numeric_flags : (ch : Chars) (ts : List Token) → length (numeric_flags ch ts) ≡ length ts
length-numeric_flags ch [] = refl
length-numeric_flags ch (t ∷ ts) = let rest = length-numeric_flags ch ts in omega arith

-- With as many rounds as there are tokens, the rounds that spread numeric tokens to their
-- neighbours have settled: one more round changes nothing.
pub spread_loop-numeric_flags :
    (ch : Chars) (ts : List Token)
    → same_flags
        (spread_loop (length ts) ts (numeric_flags ch ts))
        (spread false ts (spread_loop (length ts) ts (numeric_flags ch ts)))
      ≡ true
spread_loop-numeric_flags ch ts =
    let size = length-numeric_flags ch ts in
    let few = unset-length (numeric_flags ch ts) in
    spread_loop_settles (length ts) ts (numeric_flags ch ts) size (omega arith)
