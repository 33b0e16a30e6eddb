-- ===== src/Regex/Reads.antt =====
-- What a success of the matcher has read, and what it means that a search finds nothing.
use pdf_engine_toolbox.Base.{
  ℕ, zero, suc, ◌+◌, ◌≡◌, ◌⊎◌, inl, inr, refl, sym, ap, ◌∙◌, Bool, true, false, Option, none, some,
  List, [], ◌∷◌, ◌++◌, head?, arith, Option-cases, Bool-cases, length, All, ◌==◌,
}
use pdf_engine_toolbox.Errors.{Text}
use pdf_engine_toolbox.Regex.{
  Regex, char, seq, times, group, backref, Cursor, run, flat_map, step_if, at_least, map_list,
  captured, only_if, group_text, read_literal,
}
use pdf_engine_toolbox.Regex.Search.{Match, cursor, match_at, find_from}

abbrev pub In : {A : Type 0} → A → List A → Type 0
In x [] = ⊥
In x (y ∷ ys) = (x ≡ y) ⊎ In x ys

pub head?-In : {A : Type 0} (x : A) (xs : List A) → head? xs ≡ some x → In x xs
head?-In x [] e = absurd (ground arith)
head?-In x (y ∷ ys) e = inl (ground arith)

In-append : {A : Type 0} (x : A) (xs ys : List A) → In x (xs ++ ys) → In x xs ⊎ In x ys
In-append x [] ys h = inr h
In-append x (y ∷ xs) ys (inl e) = inl (inl e)
In-append x (y ∷ xs) ys (inr h) = elim (In-append x xs ys h) [ inl a ↦ inl (inr a) | inr b ↦ inr b ]

In-flat_map :
    {A B : Type 0} (f : A → List B) (y : B) (xs : List A)
    → In y (flat_map f xs)
    → (x : A) × In x xs × In y (f x)
In-flat_map f y [] h = absurd h
In-flat_map f y (x ∷ xs) h = elim (In-append y (f x) (flat_map f xs) h) [
  | inl a ↦ (x, inl refl, a)
  | inr b ↦ let r = In-flat_map f y xs b in (r.0, inr r.1, r.2)
]

-- From `c` to `d` the text `w` is read.
pub record Read (c d : Cursor) (w : Text) : Type 0 where
  pub ahead : c.rest ≡ w ++ d.rest
  pub moved : d.pos ≡ c.pos + length w

pub append_assoc : {A : Type 0} (xs ys zs : List A) → (xs ++ ys) ++ zs ≡ xs ++ (ys ++ zs)
append_assoc [] ys zs = refl
append_assoc (x ∷ xs) ys zs = ap (λ l. x ∷ l) (append_assoc xs ys zs)

pub length_append : {A : Type 0} (xs ys : List A) → length (xs ++ ys) ≡ length xs + length ys
length_append [] ys = omega arith
length_append (x ∷ xs) ys = omega (arith, length_append xs ys)

pub Read-both : (c d e : Cursor) (v w : Text) → Read c d v → Read d e w → Read c e (v ++ w)
Read-both c d e v w r s = record {
  ahead = r.ahead ∙ ap (λ t. v ++ t) s.ahead ∙ sym (append_assoc v w e.rest);
  moved = omega (arith, length_append v w, r.moved, s.moved);
}

pub run-seq :
    (r s : Regex) (c d : Cursor)
    → In d (run (seq r s) c)
    → (e : Cursor) × In e (run r c) × In d (run s e)
unfolding run
run-seq r s c d h = In-flat_map (run s) d (run r c) h

step_if-Read :
    (p : ℕ → Bool) (t : Text) (c d : Cursor)
    → c.rest ≡ t
    → In d (step_if p t c)
    → (x : ℕ) × (p x ≡ true) × Read c d (x ∷ [])
step_if-Read p [] c d e h = absurd h
step_if-Read p (x ∷ t) c d e h = elim (Bool-cases (p x)) [
  | inr unfit ↦ absurd (ground arith)
  | inl fit ↦
      let same : d ≡ record { before = some x; pos = suc c.pos; rest = t; groups = c.groups } =
        ground arith in
      (x, fit, record { ahead = e ∙ rw same refl; moved = rw same (omega arith) })
]

pub run-char :
    (p : ℕ → Bool) (c d : Cursor)
    → In d (run (char p) c)
    → (x : ℕ) × (p x ≡ true) × Read c d (x ∷ [])
unfolding run
run-char p c d h = step_if-Read p c.rest c d refl h

-- A character so many times.
at_least-Read :
    (m : ℕ) (p : ℕ → Bool) (c d : Cursor)
    → In d (at_least m 0 (run (char p)) c)
    → (w : Text) × (length w ≡ m) × All (λ x. p x ≡ true) w × Read c d w
at_least-Read zero p c d h =
    let same : d ≡ c = elim h [ inl e ↦ e | inr b ↦ absurd b ] in
    ([], refl, tt, record { ahead = rw same refl; moved = rw same (omega arith) })
at_least-Read (suc m) p c d h =
    let first = In-flat_map (at_least m 0 (run (char p))) d (run (char p) c) h in
    let one = run-char p c first.0 first.1 in
    let more = at_least-Read m p first.0 d first.2 in
    (
      one.0 ∷ more.0,
      ap suc more.1,
      (one.1, more.2),
      Read-both c first.0 d (one.0 ∷ []) more.0 one.2 more.3,
    )

pub run-times :
    (m : ℕ) (p : ℕ → Bool) (c d : Cursor)
    → In d (run (times m 0 (char p)) c)
    → (w : Text) × (length w ≡ m) × All (λ x. p x ≡ true) w × Read c d w
unfolding run
run-times m p c d h = at_least-Read m p c d h

In-map_list :
    {A B : Type 0} (f : A → B) (y : B) (xs : List A)
    → In y (map_list f xs)
    → (x : A) × In x xs × (y ≡ f x)
In-map_list f y [] h = absurd h
In-map_list f y (x ∷ xs) (inl e) = (x, inl refl, e)
In-map_list f y (x ∷ xs) (inr h) = let r = In-map_list f y xs h in (r.0, inr r.1, r.2)

pub run-group :
    (k : ℕ) (r : Regex) (c d : Cursor)
    → In d (run (group k r) c)
    → (e : Cursor) × In e (run r c) × (d ≡ captured k c e)
unfolding run
run-group k r c d h = In-map_list (captured k c) d (run r c) h

-- A look reads nothing.
pub run_look : (b : Bool) (c d : Cursor) → In d (only_if b c) → (d ≡ c) × (b ≡ true)
run_look true c d (inl e) = (e, refl)
run_look true c d (inr h) = absurd h
run_look false c d h = absurd h

read_literal-Read : (t : Text) (c d : Cursor) → In d (read_literal t c) → Read c d t
read_literal-Read [] c d h =
    let same : d ≡ c = elim h [ inl e ↦ e | inr b ↦ absurd b ] in
    record { ahead = rw same refl; moved = rw same (omega arith) }
read_literal-Read (x ∷ t) c d h =
    let first = In-flat_map (read_literal t) d (step_if (λ y. x == y) c.rest c) h in
    let one = step_if-Read (λ y. x == y) c.rest c first.0 refl first.1 in
    let more = read_literal-Read t first.0 d first.2 in
    let same : x ≡ one.0 = ground (arith, one.1) in
    Read-both c first.0 d (x ∷ []) t (rw same one.2) more

pub run-backref :
    (k : ℕ) (c d : Cursor) → In d (run (backref k) c) → Read c d (group_text k c.groups)
unfolding run
run-backref k c d h = read_literal-Read (group_text k c.groups) c d h

-- The character before a place in the text.
abbrev pub last_of : Option ℕ → Text → Option ℕ
last_of before [] = before
last_of before (c ∷ t) = last_of (some c) t

-- Where a search finds nothing, no place of the text matches.
pub find_from-none :
    (r : Regex) (before : Option ℕ) (pos : ℕ) (lead : Text) (c : ℕ) (t : Text)
    → find_from r 0 before pos (lead ++ c ∷ t) ≡ []
    → match_at r (last_of before lead) (pos + length lead) (c ∷ t) ≡ none
unfolding find_from
find_from-none r before pos [] c t e = elim (Option-cases (match_at r before pos (c ∷ t))) [
  | inl nothing ↦ let same : pos + 0 ≡ pos = omega arith in rw same nothing
  | inr (d, found) ↦ absurd (ground (arith, found))
]
find_from-none r before pos (x ∷ lead) c t e =
    elim (Option-cases (match_at r before pos (x ∷ lead ++ c ∷ t))) [
      | inl nothing ↦
          let rest = find_from-none r (some x) (suc pos) lead c t (ground (arith, nothing)) in
          let same : pos + suc (length lead) ≡ suc pos + length lead = omega arith in rw same rest
      | inr (d, found) ↦ absurd (ground (arith, found))
    ]

-- Where the first match of a search stands, and what it has read.
pub record Stands (r : Regex) (before : Option ℕ) (pos : ℕ) (t : Text) (m : Match) : Type 0 where
  pub lead : Text
  pub ahead : Text
  pub stop : Cursor
  pub split : t ≡ lead ++ ahead
  pub matched : In stop (run r (cursor (last_of before lead) (pos + length lead) ahead))
  pub starts : m.start ≡ pos + length lead
  pub stops : m.stop ≡ stop.pos

pub find_from-Stands :
    (r : Regex) (before : Option ℕ) (pos : ℕ) (t : Text) (m : Match) (ms : List Match)
    → find_from r 0 before pos t ≡ m ∷ ms
    → Stands r before pos t m
unfolding find_from
find_from-Stands r before pos [] m ms e = absurd (ground arith)
find_from-Stands r before pos (c ∷ t) m ms e = elim (Option-cases (match_at r before pos (c ∷ t))) [
  | inl nothing ↦
      let s = find_from-Stands r (some c) (suc pos) t m ms (ground (arith, nothing)) in
      let same : pos + suc (length s.lead) ≡ suc pos + length s.lead = omega arith in
      record {
        lead = c ∷ s.lead;
        ahead = s.ahead;
        stop = s.stop;
        split = ap (λ u. c ∷ u) s.split;
        matched = rw same s.matched;
        starts = s.starts ∙ sym same;
        stops = s.stops;
      }
  | inr (d, found) ↦
      let first : m ≡ record { start = pos; stop = d.pos; groups = d.groups } =
        ground (arith, found) in
      let here : pos + 0 ≡ pos = omega arith in
      record {
        lead = [];
        ahead = c ∷ t;
        stop = d;
        split = refl;
        matched = rw here (head?-In d (run r (cursor before pos (c ∷ t))) found);
        starts = rw first (sym here);
        stops = rw first refl;
      }
]
