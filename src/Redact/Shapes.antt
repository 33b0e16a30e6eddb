-- ===== src/Redact/Shapes.antt =====
-- A text that shows an SSN or an EIN is found (app/services/identifier_redaction.py): `_SSN` and
-- `_EIN` match where one stands, and what they match has digits before its last four.
use pdf_engine_toolbox.Base.{
  ℕ, suc, ◌-◌, ◌≡◌, refl, sym, ap, ◌∙◌, subst, Bool, true, false, not, Option, none, [], ◌∷◌, ◌++◌,
  arith, length, All, ◌==◌, is_some,
}
use pdf_engine_toolbox.Errors.{Text, codes}
use pdf_engine_toolbox.Regex.{
  Chars, Regex, run, Cursor, holds, next, group_text, char, times, group, seq, backref, not_behind,
  not_ahead,
}
use pdf_engine_toolbox.Regex.Search.{match_at}
use pdf_engine_toolbox.Regex.Reads.{
  append_assoc, In, Read, Read-both, run-seq, run-times, run-group, run_look, run-backref, run-char,
  last_of,
}
use pdf_engine_toolbox.Redact.{one_of, ssn_pattern, ein_pattern, digit_or_dash}

one_read : (k : ℕ) → suc k - k ≡ 1
one_read k = omega arith

module _ (ch : Chars) where
  abbrev pub Digits : Text → Type 0
  Digits w = All (λ x. ch.decimal x ≡ true) w

  -- `123-45-6789` or `123 45 6789`, apart from digits and dashes.
  pub record ShowsSsn (t : Text) : Type 0 where
    pub lead : Text
    pub a : Text
    pub b : Text
    pub c : Text
    pub mark : ℕ
    pub rest : Text
    pub shown : t ≡ lead ++ (a ++ (mark ∷ (b ++ (mark ∷ (c ++ rest)))))
    pub sizes : (length a ≡ 3) × (length b ≡ 2) × (length c ≡ 4)
    pub digits : Digits a × Digits b × Digits c
    pub separator : one_of (codes "- ") mark ≡ true
    pub before : holds (digit_or_dash ch) (last_of none lead) ≡ false
    pub after : holds (digit_or_dash ch) (next rest) ≡ false

  -- `12-3456789`, apart from digits and dashes.
  pub record ShowsEin (t : Text) : Type 0 where
    pub lead : Text
    pub a : Text
    pub b : Text
    pub rest : Text
    pub shown : t ≡ lead ++ (a ++ (45 ∷ (b ++ rest)))
    pub sizes : (length a ≡ 2) × (length b ≡ 7)
    pub digits : Digits a × Digits b
    pub before : holds (digit_or_dash ch) (last_of none lead) ≡ false
    pub after : holds (digit_or_dash ch) (next rest) ≡ false

  pub ssn_matches :
      (before : Option ℕ) (pos a1 a2 a3 m b1 b2 c1 c2 c3 c4 : ℕ) (rest : Text)
      → Digits (a1 ∷ a2 ∷ a3 ∷ [])
      → Digits (b1 ∷ b2 ∷ [])
      → Digits (c1 ∷ c2 ∷ c3 ∷ c4 ∷ [])
      → one_of (codes "- ") m ≡ true
      → holds (digit_or_dash ch) before ≡ false
      → holds (digit_or_dash ch) (next rest) ≡ false
      → is_some (
          match_at
            (ssn_pattern ch)
            before
            pos
            (a1 ∷ a2 ∷ a3 ∷ m ∷ b1 ∷ b2 ∷ m ∷ c1 ∷ c2 ∷ c3 ∷ c4 ∷ rest))
        ≡ true
  unfolding run
  ssn_matches before pos a1 a2 a3 m b1 b2 c1 c2 c3 c4 rest da db dc s p q =
      let self : (m == m) ≡ true = ground arith in
      simp (
        da.0, da.1.0, da.1.1.0, db.0, db.1.0, dc.0, dc.1.0, dc.1.1.0, dc.1.1.1.0, s, p, q, self,
        one_read,
      )

  pub ein_matches :
      (before : Option ℕ) (pos a1 a2 b1 b2 b3 b4 b5 b6 b7 : ℕ) (rest : Text)
      → Digits (a1 ∷ a2 ∷ [])
      → Digits (b1 ∷ b2 ∷ b3 ∷ b4 ∷ b5 ∷ b6 ∷ b7 ∷ [])
      → holds (digit_or_dash ch) before ≡ false
      → holds (digit_or_dash ch) (next rest) ≡ false
      → is_some (
          match_at
            (ein_pattern ch)
            before
            pos
            (a1 ∷ a2 ∷ 45 ∷ b1 ∷ b2 ∷ b3 ∷ b4 ∷ b5 ∷ b6 ∷ b7 ∷ rest))
        ≡ true
  unfolding run
  ein_matches before pos a1 a2 b1 b2 b3 b4 b5 b6 b7 rest da db p q = simp (
    da.0, da.1.0, db.0, db.1.0, db.1.1.0, db.1.1.1.0, db.1.1.1.1.0, db.1.1.1.1.1.0,
    db.1.1.1.1.1.1.0, p, q,
  )

  -- What a match of either pattern has read: a digit, some text, and four digits.
  pub record ReadsId (c d : Cursor) : Type 0 where
    pub first : ℕ
    pub middle : Text
    pub last : Text
    pub first_digit : ch.decimal first ≡ true
    pub last_size : length last ≡ 4
    pub last_digits : Digits last
    pub read : Read c d (first ∷ (middle ++ last))

  digit_group :
      (k m : ℕ) (c d : Cursor)
      → In d (run (group k (times m 0 (char (ch.decimal)))) c)
      → (w : Text) × (length w ≡ m) × Digits w × Read c d w
  digit_group k m c d h =
      let g = run-group k (times m 0 (char (ch.decimal))) c d h in
      let t = run-times m (ch.decimal) c g.0 g.1 in
      (t.0, t.1, t.2, record { ahead = rw g.2 t.3.ahead; moved = rw g.2 t.3.moved })

  head_digit :
      (m : ℕ) (w : Text)
      → length w ≡ suc m
      → Digits w
      → (x : ℕ) × (v : Text) × (w ≡ x ∷ v) × (ch.decimal x ≡ true) × Digits v × (length v ≡ m)
  head_digit m [] e h = absurd (omega arith)
  head_digit m (x ∷ v) e h = (x, v, refl, h.0, h.1, omega arith)

  moved-Read : {c d e f : Cursor} {v w : Text} → e ≡ c → d ≡ f → v ≡ w → Read e f v → Read c d w
  moved-Read {c} {d} {e} {f} {v} p q s r =
      subst (λ x. Read c d x) s (subst (λ x. Read x d v) p (subst (λ x. Read e x v) (sym q) r))

  regroup :
      (a : Text) (x : ℕ) (v : Text) (m : ℕ) (b g e : Text)
      → a ≡ x ∷ v
      → a ++ ((m ∷ []) ++ (b ++ (g ++ e))) ≡ x ∷ ((v ++ (m ∷ (b ++ g))) ++ e)
  regroup a x v m b g e h =
      ap (λ t. t ++ ((m ∷ []) ++ (b ++ (g ++ e)))) h
      ∙ ap (λ t. x ∷ t)
          (ap (λ t. v ++ (m ∷ t)) (sym (append_assoc b g e))
            ∙ sym (append_assoc v (m ∷ (b ++ g)) e))

  abbrev any_digits : ℕ → ℕ → Regex
  any_digits k m = group k (times m 0 (char (ch.decimal)))

  abbrev ssn_end : Regex
  ssn_end = seq (any_digits 4 4) (not_ahead (digit_or_dash ch))

  abbrev ssn_mid : Regex
  ssn_mid = seq (any_digits 3 2) (seq (backref 2) ssn_end)

  abbrev ssn_mark : Regex
  ssn_mark = group 2 (char (one_of (codes "- ")))

  mark-Read :
      (k : ℕ) (p : ℕ → Bool) (c d : Cursor)
      → In d (run (group k (char p)) c)
      → (x : ℕ) × Read c d (x ∷ [])
  mark-Read k p c d h =
      let g = run-group k (char p) c d h in
      let t = run-char p c g.0 g.1 in
      (t.0, record { ahead = rw g.2 t.2.ahead; moved = rw g.2 t.2.moved })

  pub ssn_reads : (c d : Cursor) → In d (run (ssn_pattern ch) c) → ReadsId c d
  unfolding run
  ssn_reads c d h =
      let p0 =
        run-seq (not_behind (digit_or_dash ch)) (seq (any_digits 1 3) (seq ssn_mark ssn_mid)) c d
          h in
      let p1 = run-seq (any_digits 1 3) (seq ssn_mark ssn_mid) p0.0 d p0.2 in
      let p2 = run-seq ssn_mark ssn_mid p1.0 d p1.2 in
      let p3 = run-seq (any_digits 3 2) (seq (backref 2) ssn_end) p2.0 d p2.2 in
      let p4 = run-seq (backref 2) ssn_end p3.0 d p3.2 in
      let p5 = run-seq (any_digits 4 4) (not_ahead (digit_or_dash ch)) p4.0 d p4.2 in
      let start : p0.0 ≡ c = (run_look (not (holds (digit_or_dash ch) c.before)) c p0.0 p0.1).0 in
      let a = digit_group 1 3 p0.0 p1.0 p1.1 in
      let m = mark-Read 2 (one_of (codes "- ")) p1.0 p2.0 p2.1 in
      let b = digit_group 3 2 p2.0 p3.0 p3.1 in
      let k = run-backref 2 p3.0 p4.0 p4.1 in
      let e = digit_group 4 4 p4.0 p5.0 p5.1 in
      let x = head_digit 2 a.0 a.1 a.2 in
      let inner = (m.0 ∷ []) ++ (b.0 ++ (group_text 2 p3.0.groups ++ e.0)) in
      let whole = Read-both p0.0 p1.0 p5.0 a.0 inner a.3 (
        Read-both p1.0 p2.0 p5.0 (m.0 ∷ []) (b.0 ++ (group_text 2 p3.0.groups ++ e.0)) m.1 (
          Read-both p2.0 p3.0 p5.0 b.0 (group_text 2 p3.0.groups ++ e.0) b.3
            (Read-both p3.0 p4.0 p5.0 (group_text 2 p3.0.groups) e.0 k e.3))) in
      let stop : d ≡ p5.0 =
        (run_look (not (holds (digit_or_dash ch) (next p5.0.rest))) p5.0 d p5.2).0 in
      let gap = x.1 ++ (m.0 ∷ (b.0 ++ group_text 2 p3.0.groups)) in
      let shape : a.0 ++ inner ≡ x.0 ∷ (gap ++ e.0) =
        regroup a.0 x.0 x.1 m.0 b.0 (group_text 2 p3.0.groups) e.0 x.2 in
      record {
        first = x.0;
        middle = gap;
        last = e.0;
        first_digit = x.3;
        last_size = e.1;
        last_digits = e.2;
        read = moved-Read start stop shape whole;
      }

  dash-Read : (p : ℕ → Bool) (c d : Cursor) → In d (run (char p) c) → (x : ℕ) × Read c d (x ∷ [])
  dash-Read p c d h = let t = run-char p c d h in (t.0, t.2)

  pub ein_reads : (c d : Cursor) → In d (run (ein_pattern ch) c) → ReadsId c d
  unfolding run
  ein_reads c d h =
      let look = not_ahead (digit_or_dash ch) in
      let dash = char (λ x. x == 45) in
      let p0 =
        run-seq (not_behind (digit_or_dash ch))
          (seq (any_digits 1 2) (seq dash (seq (any_digits 2 7) look))) c d h in
      let p1 = run-seq (any_digits 1 2) (seq dash (seq (any_digits 2 7) look)) p0.0 d p0.2 in
      let p2 = run-seq dash (seq (any_digits 2 7) look) p1.0 d p1.2 in
      let p3 = run-seq (any_digits 2 7) look p2.0 d p2.2 in
      let start : p0.0 ≡ c = (run_look (not (holds (digit_or_dash ch) c.before)) c p0.0 p0.1).0 in
      let stop : d ≡ p3.0 =
        (run_look (not (holds (digit_or_dash ch) (next p3.0.rest))) p3.0 d p3.2).0 in
      let a = digit_group 1 2 p0.0 p1.0 p1.1 in
      let m = dash-Read (λ x. x == 45) p1.0 p2.0 p2.1 in
      let b = digit_group 2 7 p2.0 p3.0 p3.1 in
      let x = head_digit 1 a.0 a.1 a.2 in
      let y1 = head_digit 6 b.0 b.1 b.2 in
      let y2 = head_digit 5 y1.1 y1.5 y1.4 in
      let y3 = head_digit 4 y2.1 y2.5 y2.4 in
      let b_split : b.0 ≡ y1.0 ∷ y2.0 ∷ y3.0 ∷ y3.1 = cc (y1.2, y2.2, y3.2) in
      let whole =
        Read-both p0.0 p1.0 p3.0 a.0 ((m.0 ∷ []) ++ b.0) a.3
          (Read-both p1.0 p2.0 p3.0 (m.0 ∷ []) b.0 m.1 b.3) in
      let gap = x.1 ++ (m.0 ∷ ([] ++ (y1.0 ∷ y2.0 ∷ y3.0 ∷ []))) in
      let shape : a.0 ++ ((m.0 ∷ []) ++ b.0) ≡ x.0 ∷ (gap ++ y3.1) =
        ap (λ t. a.0 ++ (m.0 ∷ t)) b_split
        ∙ regroup a.0 x.0 x.1 m.0 [] (y1.0 ∷ y2.0 ∷ y3.0 ∷ []) y3.1 x.2 in
      record {
        first = x.0;
        middle = gap;
        last = y3.1;
        first_digit = x.3;
        last_size = y3.5;
        last_digits = y3.4;
        read = moved-Read start stop shape whole;
      }
