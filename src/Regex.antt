-- ===== src/Regex.antt =====
-- What the code uses of Python's `re`: a pattern is data, and a matcher tries its ways in the order in
-- which `re` does, so the first success is the match. What the Unicode tables say of a character is a
-- parameter.
pub mod Search
pub mod Reads
use pdf_engine_toolbox.Base.{
  ℕ, zero, suc, ◌+◌, ◌-◌, Bool, true, false, not, ◌&&◌, ◌||◌, Option, none, some, List, [], ◌∷◌,
  ◌++◌, ◌==◌, if◌then◌else◌, length, get_or, Dict, lookup, insert,
}
use pdf_engine_toolbox.Errors.{Text}

-- `\d`, `\s`, `\w`, equality without case, and the methods of `str` on one character.
pub record Chars : Type 0 where
  pub decimal : ℕ → Bool
  pub space : ℕ → Bool
  pub word : ℕ → Bool
  pub same_letter : ℕ → ℕ → Bool
  pub isdigit : ℕ → Bool
  pub isalnum : ℕ → Bool
  pub isupper : ℕ → Bool
  pub islower : ℕ → Bool

-- `times m k r` is `r{m,m+k}`, `many r` is `r*`; a look tests one character at its side.
pub data Regex : Type 0 where
  char : (ℕ → Bool) → Regex
  seq : Regex → Regex → Regex
  alt : Regex → Regex → Regex
  times : ℕ → ℕ → Regex → Regex
  many : Regex → Regex
  group : ℕ → Regex → Regex
  backref : ℕ → Regex
  not_behind : (ℕ → Bool) → Regex
  not_ahead : (ℕ → Bool) → Regex
  boundary : (ℕ → Bool) → Regex
  at_end : Regex

-- Where a match stands: the character before it, its position, the text ahead and the groups.
pub record Cursor : Type 0 where
  pub before : Option ℕ
  pub pos : ℕ
  pub rest : Text
  pub groups : Dict (ℕ × Text)

abbrev pub holds : (ℕ → Bool) → Option ℕ → Bool
holds p none = false
holds p (some c) = p c

abbrev pub next : Text → Option ℕ
next [] = none
next (c ∷ t) = some c

abbrev pub flat_map : {A B : Type 0} → (A → List B) → List A → List B
flat_map f [] = []
flat_map f (x ∷ xs) = f x ++ flat_map f xs

abbrev pub take : {A : Type 0} → ℕ → List A → List A
take zero xs = []
take (suc n) [] = []
take (suc n) (x ∷ xs) = x ∷ take n xs

abbrev pub drop : {A : Type 0} → ℕ → List A → List A
drop zero xs = xs
drop (suc n) [] = []
drop (suc n) (x ∷ xs) = drop n xs

abbrev pub step_if : (ℕ → Bool) → Text → Cursor → List Cursor
step_if p [] c = []
step_if p (x ∷ t) c =
    if p x
    then record { before = some x; pos = suc c.pos; rest = t; groups = c.groups } ∷ []
    else []

abbrev pub read_literal : Text → Cursor → List Cursor
read_literal [] c = c ∷ []
read_literal (x ∷ t) c = flat_map (read_literal t) (step_if (λ y. x == y) c.rest c)

-- Greedy: as often as there is room, then less often.
abbrev pub up_to : ℕ → (Cursor → List Cursor) → Cursor → List Cursor
up_to zero k c = c ∷ []
up_to (suc n) k c = flat_map (up_to n k) (k c) ++ c ∷ []

abbrev pub at_least : ℕ → ℕ → (Cursor → List Cursor) → Cursor → List Cursor
at_least zero n k c = up_to n k c
at_least (suc m) n k c = flat_map (at_least m n k) (k c)

abbrev pub captured : ℕ → Cursor → Cursor → Cursor
captured k c d = record d { groups = insert k (c.pos, take (d.pos - c.pos) c.rest) d.groups }

abbrev pub group_text : ℕ → Dict (ℕ × Text) → Text
group_text k groups = elim (lookup k groups) [ none ↦ [] | some g ↦ g.1 ]

abbrev pub only_if : Bool → Cursor → List Cursor
only_if b c = if b then c ∷ [] else []

abbrev pub map_list : {A B : Type 0} → (A → B) → List A → List B
map_list f [] = []
map_list f (x ∷ xs) = f x ∷ map_list f xs

abbrev pub differ : Bool → Bool → Bool
differ true b = not b
differ false b = b

-- `$`: the end, or before a newline that ends the text.
abbrev pub is_end : Text → Bool
is_end [] = true
is_end (c ∷ []) = c == 10
is_end (c ∷ d ∷ t) = false

-- A repetition consumes a character each time, so the text ahead bounds it.
unfoldable pub run : Regex → Cursor → List Cursor
run (char p) c = step_if p c.rest c
run (seq r s) c = flat_map (run s) (run r c)
run (alt r s) c = run r c ++ run s c
run (times m n r) c = at_least m n (run r) c
run (many r) c = up_to (length c.rest) (run r) c
run (group k r) c = map_list (captured k c) (run r c)
run (backref k) c = read_literal (group_text k c.groups) c
run (not_behind p) c = only_if (not (holds p c.before)) c
run (not_ahead p) c = only_if (not (holds p (next c.rest))) c
run (boundary p) c = only_if (differ (holds p c.before) (holds p (next c.rest))) c
run at_end c = only_if (is_end c.rest) c
