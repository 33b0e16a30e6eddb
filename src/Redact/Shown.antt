-- ===== src/Redact/Shown.antt =====
-- A text that shows an SSN or an EIN has a match, and what a match starts with is a digit that stands
-- before its last four (app/services/identifier_redaction.py).
use pdf_engine_toolbox.Base.{
  ℕ, suc, ◌+◌, ◌≡◌, ◌≢◌, ◌<◌, refl, ap, ◌∙◌, subst, true, none, List, [], ◌∷◌, ◌++◌, arith, length,
  reverse, is_some,
}
use mathlib.Core.List.{reverse-append, reverse-cons}
use pdf_engine_toolbox.Errors.{Text}
use pdf_engine_toolbox.Regex.{Chars, Regex, Cursor, run}
use pdf_engine_toolbox.Regex.Search.{Match, match_at, find_from, finditer}
use pdf_engine_toolbox.Regex.Reads.{In, length_append, last_of, find_from-none, find_from-Stands}
use pdf_engine_toolbox.Redact.{ssn_pattern, ein_pattern}
use pdf_engine_toolbox.Redact.Matches.{slice, prefix_loop, prefix_end}
use pdf_engine_toolbox.Redact.Shapes.{Digits, ReadsId, ShowsSsn, ShowsEin, ssn_matches, ein_matches}
use pdf_engine_toolbox.Redact.Visible.{slice-append}

length-reverse_pos : (x : ℕ) (t : Text) → 0 < length (reverse (x ∷ t))
length-reverse_pos x t =
    let size = ap length (reverse-cons x t) ∙ length_append (reverse t) (x ∷ []) in omega arith

uncons : (n : ℕ) (w : Text) → length w ≡ suc n → (x : ℕ) × (v : Text) × (w ≡ x ∷ v) × (length v ≡ n)
uncons n [] e = absurd (omega arith)
uncons n (x ∷ v) e = (x, v, refl, omega arith)

uncons_two :
    (n : ℕ) (w : Text)
    → length w ≡ suc (suc n)
    → (x y : ℕ) × (v : Text) × (w ≡ x ∷ y ∷ v) × (length v ≡ n)
uncons_two n w e =
    let (x, v, p, k) = uncons (suc n) w e in
    let (y, u, q, l) = uncons n v k in (x, y, u, p ∙ ap (λ z. x ∷ z) q, l)

nothing_left : (w : Text) → length w ≡ 0 → w ≡ []
nothing_left [] e = refl
nothing_left (x ∷ w) e = absurd (omega arith)

two : (w : Text) → length w ≡ 2 → (x y : ℕ) × (w ≡ x ∷ y ∷ [])
two w e =
    let (x, y, v, p, k) = uncons_two 0 w e in (x, y, p ∙ ap (λ z. x ∷ y ∷ z) (nothing_left v k))

three : (w : Text) → length w ≡ 3 → (x y z : ℕ) × (w ≡ x ∷ y ∷ z ∷ [])
three w e =
    let (x, v, p, k) = uncons 2 w e in let (y, z, q) = two v k in (x, y, z, p ∙ ap (λ l. x ∷ l) q)

four : (w : Text) → length w ≡ 4 → (a b c d : ℕ) × (w ≡ a ∷ b ∷ c ∷ d ∷ [])
four w e =
    let (a, b, v, p, k) = uncons_two 2 w e in
    let (c, d, q) = two v k in (a, b, c, d, p ∙ ap (λ l. a ∷ b ∷ l) q)

module _ (ch : Chars) (plain : (x : ℕ) → ch.decimal x ≡ true → ch.isdigit x ≡ true) where
  prefix_loop_four :
      (start : ℕ) (last t : Text)
      → length last ≡ 4
      → Digits ch last
      → prefix_loop ch start 0 (reverse last ++ t) ≡ start + length t
  unfolding prefix_loop
  prefix_loop_four start (a ∷ b ∷ c ∷ d ∷ []) t e h =
      simp (plain a h.0, plain b h.1.0, plain c h.1.1.0, plain d h.1.1.1.0)
  prefix_loop_four start [] t e h = absurd (omega arith)
  prefix_loop_four start (a ∷ []) t e h = absurd (omega arith)
  prefix_loop_four start (a ∷ b ∷ []) t e h = absurd (omega arith)
  prefix_loop_four start (a ∷ b ∷ c ∷ []) t e h = absurd (omega arith)
  prefix_loop_four start (a ∷ b ∷ c ∷ d ∷ x ∷ l) t e h = absurd (omega arith)

  prefix_loop_after :
      (start x : ℕ) (middle last : Text)
      → length last ≡ 4
      → Digits ch last
      → start < prefix_loop ch start 0 (reverse (x ∷ (middle ++ last)))
  prefix_loop_after start x middle last e h =
      let back : reverse (x ∷ (middle ++ last)) ≡ reverse last ++ reverse (x ∷ middle) =
        reverse-append (x ∷ middle) last in
      let end_at =
        ap (prefix_loop ch start 0) back ∙ prefix_loop_four start last (reverse (x ∷ middle)) e h in
      let some_left = length-reverse_pos x middle in omega arith

  -- A match stands at a digit, and its last four digits are further right.
  pub record Standing (t : Text) (m : Match) : Type 0 where
    pub lead : Text
    pub first : ℕ
    pub rest : Text
    pub split : t ≡ lead ++ (first ∷ rest)
    pub digit : ch.decimal first ≡ true
    pub starts : m.start ≡ length lead
    pub cut_after : m.start < prefix_end ch t m.start m.stop

  pub finditer-Standing :
      (r : Regex)
      → ((c d : Cursor) → In d (run r c) → ReadsId ch c d)
      → (t : Text) (m : Match) (ms : List Match) → finditer r t ≡ m ∷ ms
      → Standing t m
  unfolding finditer prefix_end
  finditer-Standing r reads t m ms e =
      let s = find_from-Stands r none 0 t m ms e in
      let id = reads _ s.stop s.matched in
      let word = id.first ∷ (id.middle ++ id.last) in
      let whole : t ≡ s.lead ++ (word ++ s.stop.rest) =
        s.split ∙ ap (λ u. s.lead ++ u) id.read.ahead in
      let from : m.start ≡ length s.lead = s.starts ∙ omega arith in
      let upto : m.stop ≡ length s.lead + length word = s.stops ∙ id.read.moved ∙ omega arith in
      let cut : slice m.start m.stop t ≡ word =
        rw (whole, from) (slice-append s.lead word s.stop.rest m.stop upto) in
      record {
        lead = s.lead;
        first = id.first;
        rest = (id.middle ++ id.last) ++ s.stop.rest;
        split = whole;
        digit = id.first_digit;
        starts = from;
        cut_after =
            rw cut
              (prefix_loop_after m.start id.first id.middle id.last id.last_size id.last_digits);
      }

module _ (ch : Chars) where
  no_match :
      (r : Regex) (lead : Text) (c : ℕ) (t : Text)
      → is_some (match_at r (last_of none lead) (length lead) (c ∷ t)) ≡ true
      → find_from r 0 none 0 (lead ++ c ∷ t) ≢ []
  no_match r lead c t e k =
      let at : 0 + length lead ≡ length lead = omega arith in
      let nothing =
        subst (λ i. match_at r (last_of none lead) i (c ∷ t) ≡ none) at
          (find_from-none r none 0 lead c t k) in
      absurd (ground (arith, nothing, e))

  -- A text that shows an SSN has a match of `_SSN`.
  pub ssn_found : (t : Text) → ShowsSsn ch t → finditer (ssn_pattern ch) t ≢ []
  unfolding finditer
  ssn_found t s k =
      let (a1, a2, a3, p) = three s.a s.sizes.0 in
      let (b1, b2, q) = two s.b s.sizes.1 in
      let (c1, c2, c3, c4, r) = four s.c s.sizes.2 in
      let e = s.shown ∙ rw (p, q, r) refl in
      no_match (ssn_pattern ch) s.lead a1 _
        (ssn_matches ch (last_of none s.lead) (length s.lead) a1 a2 a3 s.mark b1 b2 c1 c2 c3 c4
          s.rest (subst (Digits ch) p s.digits.0) (subst (Digits ch) q s.digits.1)
          (subst (Digits ch) r s.digits.2) s.separator s.before s.after)
        (subst (λ u. find_from (ssn_pattern ch) 0 none 0 u ≡ []) e k)

  -- A text that shows an EIN has a match of `_EIN`.
  pub ein_found : (t : Text) → ShowsEin ch t → finditer (ein_pattern ch) t ≢ []
  unfolding finditer
  ein_found t s k =
      let (a1, a2, p) = two s.a s.sizes.0 in
      let (b1, w, q, n) = uncons 6 s.b s.sizes.1 in
      let (b2, b3, v, q2, n2) = uncons_two 4 w n in
      let (b4, b5, b6, b7, q3) = four v n2 in
      let whole = q ∙ ap (λ l. b1 ∷ l) (q2 ∙ ap (λ l. b2 ∷ b3 ∷ l) q3) in
      let e = s.shown ∙ rw (p, whole) refl in
      no_match (ein_pattern ch) s.lead a1 _
        (ein_matches ch (last_of none s.lead) (length s.lead) a1 a2 b1 b2 b3 b4 b5 b6 b7 s.rest
          (subst (Digits ch) p s.digits.0) (subst (Digits ch) whole s.digits.1) s.before s.after)
        (subst (λ u. find_from (ein_pattern ch) 0 none 0 u ≡ []) e k)
