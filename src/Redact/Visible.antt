-- ===== src/Redact/Visible.antt =====
-- The boxes of a hit: a match that a search finds has a box, since its first digit stands in a word
-- and before its last four (app/services/identifier_redaction.py).
use pdf_engine_toolbox.Base.{
  ℕ, suc, ◌+◌, ◌-◌, ◌≡◌, ◌≢◌, ◌≤◌, ◌<◌, ◌⊎◌, inl, inr, refl, ap, ◌∙◌, List, [], ◌∷◌, ◌++◌, arith,
  length,
}
use pdf_engine_toolbox.Errors.{Text}
use pdf_engine_toolbox.Regex.{take, drop}
use pdf_engine_toolbox.Regex.Reads.{In, length_append}
use pdf_engine_toolbox.Redact.Matches.{slice}
use pdf_engine_toolbox.Redact.Words.{Floats, Word, Span, line_text, add_words}

take-append : {A : Type 0} (xs ys : List A) → take (length xs) (xs ++ ys) ≡ xs
take-append [] ys = refl
take-append (x ∷ xs) ys = ap (λ l. x ∷ l) (take-append xs ys)

drop-append : {A : Type 0} (xs ys : List A) → drop (length xs) (xs ++ ys) ≡ ys
drop-append [] ys = refl
drop-append (x ∷ xs) ys = drop-append xs ys

pub slice-append :
    (lead w t : Text) (stop : ℕ)
    → stop ≡ length lead + length w
    → slice (length lead) stop (lead ++ (w ++ t)) ≡ w
slice-append lead w t stop e =
    let size : stop - length lead ≡ length w = omega arith in
    rw (size, drop-append lead (w ++ t)) (take-append w t)

-- A character of `xs ++ ys` is one of `xs` or one of `ys`.
append-split :
    (xs ys lead : Text) (x : ℕ) (rest : Text)
    → xs ++ ys ≡ lead ++ (x ∷ rest)
    → ((r : Text) × (xs ≡ lead ++ (x ∷ r)))
      ⊎ ((l : Text) × (lead ≡ xs ++ l) × (ys ≡ l ++ (x ∷ rest)))
append-split [] ys lead x rest e = inr (lead, refl, e)
append-split (a ∷ xs) ys [] x rest e = inl (xs, ground arith)
append-split (a ∷ xs) ys (b ∷ lead) x rest e =
    elim (append-split xs ys lead x rest (ground arith)) [
      | inl (r, s) ↦ inl (r, ground (arith, s))
      | inr (l, s, t) ↦ inr (l, ground (arith, s), t)
    ]

module _ (fl : Floats) where
  -- A span over the place.
  abbrev pub Over : ℕ → List (Span fl) → Type 0
  Over i spans = (s : Span fl) × In s spans × (s.start ≤ i) × (i < s.stop)

  Over-more : (i : ℕ) (ss ts : List (Span fl)) → Over i ss → Over i (ss ++ ts)
  Over-more i ss ts (s, here, a, b) = (s, left ss here, a, b)
    where
      left : (us : List (Span fl)) → In s us → In s (us ++ ts)
      left [] h = absurd h
      left (u ∷ us) (inl e) = inl e
      left (u ∷ us) (inr h) = inr (left us h)

  Over-last :
      (i : ℕ) (ss : List (Span fl)) (s : Span fl) → s.start ≤ i → i < s.stop → Over i (ss ++ s ∷ [])
  Over-last i ss s a b = (s, last ss, a, b)
    where
      last : (us : List (Span fl)) → In s (us ++ s ∷ [])
      last [] = inl refl
      last (u ∷ us) = inr (last us)

  -- Every character but a space stands in a word.
  abbrev pub Covered : Text → List (Span fl) → Type 0
  Covered text spans =
      (lead : Text) (x : ℕ) (rest : Text)
      → text ≡ lead ++ (x ∷ rest)
      → x ≢ 32
      → Over (length lead) spans

  spaced :
      (text : Text) (spans : List (Span fl)) → Covered text spans → Covered (text ++ 32 ∷ []) spans
  spaced text spans c lead x rest s ne = elim (append-split text (32 ∷ []) lead x rest s) [
    | inl (r, p) ↦ c lead x r p ne
    | inr (l, p, q) ↦ absurd (ne (only l q))
  ]
    where
      only : (l : Text) → 32 ∷ [] ≡ l ++ (x ∷ rest) → x ≡ 32
      only [] q = ground arith
      only (a ∷ []) q = absurd (ground arith)
      only (a ∷ b ∷ l) q = absurd (ground arith)

  more :
      (lead_text : Text) (w : Word fl) (spans : List (Span fl))
      → Covered lead_text spans
      → Covered (lead_text ++ w.text) (
          spans
          ++ record { start = length lead_text; stop = length lead_text + length w.text; word = w }
            ∷ [])
  more lead_text w spans k lead x rest s ne = elim (append-split lead_text w.text lead x rest s) [
    | inl (r, p) ↦ Over-more (length lead) spans _ (k lead x r p ne)
    | inr (l, p, q) ↦
        let size = length_append lead_text l in
        let whole : length w.text ≡ length l + suc (length rest) =
          ap length q ∙ length_append l (x ∷ rest) in
        let at : length lead ≡ length lead_text + length l = ap length p ∙ size in
        Over-last (length lead) spans _ (omega arith) (omega arith)
  ]

  add_words-Covered :
      (text : Text) (spans : List (Span fl)) (ws : List (Word fl))
      → Covered text spans
      → Covered (add_words fl text spans ws).0 (add_words fl text spans ws).1
  add_words-Covered text spans [] c = c
  add_words-Covered [] spans (w ∷ ws) c = add_words-Covered w.text _ ws (more [] w spans c)
  add_words-Covered (a ∷ text) spans (w ∷ ws) c =
      add_words-Covered ((a ∷ text ++ 32 ∷ []) ++ w.text) _ ws
        (more (a ∷ text ++ 32 ∷ []) w spans (spaced (a ∷ text) spans c))

  pub line_text-Covered : (ws : List (Word fl)) → Covered (line_text fl ws).0 (line_text fl ws).1
  unfolding line_text
  line_text-Covered ws =
      add_words-Covered [] [] ws (λ lead x rest s ne. absurd (none_left lead x rest s))
    where
      none_left : (lead : Text) (x : ℕ) (rest : Text) → [] ≢ lead ++ (x ∷ rest)
      none_left [] x rest s = ground arith
      none_left (a ∷ lead) x rest s = ground arith
