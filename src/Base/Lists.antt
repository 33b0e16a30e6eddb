-- ===== src/Base/Lists.antt =====
-- Lists measured, indexed and searched with native numbers, under the library's names.
use Prim.Native.Nat.{ℕ, zero, suc, ◌+◌, ◌<◌}
use mathlib.Core.Path.{◌≡◌, refl, ap}
use mathlib.Core.Logic.{inl, inr}
use mathlib.Core.Bool.{Bool, true, false, ◌||◌}
use mathlib.Core.List.{List, [], ◌∷◌, ◌++◌, reverse, reverse-cons}
use mathlib.Core.Option.{Option, none, some}
use native.Mathlib.Omega.{arith}
use pdf_engine_toolbox.Base.Tests.{◌==◌, if◌then◌else◌, Bool-cases}

module _ {ℓ} {A : Type ℓ} where
  abbrev pub length : List A → ℕ
  length [] = 0
  length (x ∷ xs) = suc (length xs)

  abbrev pub is_empty : List A → Bool
  is_empty [] = true
  is_empty (x ∷ xs) = false

  abbrev pub head? : List A → Option A
  head? [] = none
  head? (x ∷ xs) = some x

  abbrev pub tail : List A → List A
  tail [] = []
  tail (x ∷ xs) = xs

  abbrev pub get_or : List A → ℕ → A → A
  get_or [] i d = d
  get_or (x ∷ xs) zero d = x
  get_or (x ∷ xs) (suc i) d = get_or xs i d

  -- `next((x for x in xs if p(x)), None)`
  abbrev pub find? : (A → Bool) → List A → Option A
  find? p [] = none
  find? p (x ∷ xs) = if p x then some x else find? p xs

  abbrev pub any : (A → Bool) → List A → Bool
  any p [] = false
  any p (x ∷ xs) = p x || any p xs

  abbrev pub keep_if : (A → Bool) → List A → List A
  keep_if p [] = []
  keep_if p (x ∷ xs) = if p x then x ∷ keep_if p xs else keep_if p xs

  abbrev pub All {κ} : (A → Type κ) → List A → Type κ
  All P [] = Unit
  All P (x ∷ xs) = P x × All P xs

  pub length-append : (xs ys : List A) → length (xs ++ ys) ≡ length xs + length ys
  length-append [] ys = omega arith
  length-append (x ∷ xs) ys = omega (arith, length-append xs ys)

  pub find?-holds : (p : A → Bool) (xs : List A) (x : A) → find? p xs ≡ some x → p x ≡ true
  find?-holds p [] x e = ground arith
  find?-holds p (y ∷ xs) x e = ground (arith, find?-holds p xs x)

  pub find?-none : (p : A → Bool) (xs : List A) → find? p xs ≡ none → any p xs ≡ false
  find?-none p [] e = refl
  find?-none p (y ∷ xs) e = ground (arith, find?-none p xs)

-- `list.remove` and `deque.remove` of an object: the first occurrence goes.
abbrev pub remove : ℕ → List ℕ → List ℕ
remove r [] = []
remove r (x ∷ xs) = if x == r then xs else x ∷ remove r xs

-- How often `r` occurs.
abbrev pub count : ℕ → List ℕ → ℕ
count r [] = 0
count r (x ∷ xs) = if x == r then suc (count r xs) else count r xs

-- `r in xs`
abbrev pub contains : ℕ → List ℕ → Bool
contains r [] = false
contains r (x ∷ xs) = if x == r then true else contains r xs

pub count-append : (r : ℕ) (xs ys : List ℕ) → count r (xs ++ ys) ≡ count r xs + count r ys
count-append r [] ys = omega arith
count-append r (x ∷ xs) ys = ground (arith, count-append r xs ys)

pub count-remove :
    (r s : ℕ) (xs : List ℕ)
    → 0 < count s xs
    → count r (remove s xs) + (if s == r then 1 else 0) ≡ count r xs
count-remove r s [] h = elim h [ ]
count-remove r s (x ∷ xs) h = ground (arith, count-remove r s xs)

pub length-remove : (s : ℕ) (xs : List ℕ) → 0 < count s xs → suc (length (remove s xs)) ≡ length xs
length-remove s [] h = elim h [ ]
length-remove s (x ∷ xs) h = ground (arith, length-remove s xs)

pub count-find? : (p : ℕ → Bool) (xs : List ℕ) (x : ℕ) → find? p xs ≡ some x → 0 < count x xs
count-find? p [] x e = ground arith
count-find? p (y ∷ xs) x e = ground (arith, count-find? p xs x)

pub count-head? : (xs : List ℕ) (x : ℕ) → head? xs ≡ some x → 0 < count x xs
count-head? [] x e = ground arith
count-head? (y ∷ xs) x e = ground arith

pub count-reverse : (r : ℕ) (xs : List ℕ) → count r (reverse xs) ≡ count r xs
count-reverse r [] = refl
count-reverse r (x ∷ xs) = ground (
  arith,
  ap (count r) (reverse-cons x xs),
  count-append r (reverse xs) (x ∷ []),
  count-reverse r xs,
)

pub count-get_or : (xs : List ℕ) (i : ℕ) → i < length xs → 0 < count (get_or xs i 0) xs
count-get_or [] i h = elim h [ ]
count-get_or (x ∷ xs) zero h = ground arith
count-get_or (x ∷ xs) (suc i) h = ground (arith, count-get_or xs i)

-- An element that passes the test stands at some position.
pub any-position :
    (p : ℕ → Bool) (xs : List ℕ)
    → any p xs ≡ true
    → (i : ℕ) × (i < length xs) × (p (get_or xs i 0) ≡ true)
any-position p [] h = absurd (ground arith)
any-position p (x ∷ xs) h = elim (Bool-cases (p x)) [
  | inl here ↦ (0, omega arith, here)
  | inr skip ↦ let (i, lt, at) = any-position p xs (ground arith) in (suc i, omega arith, at)
]

pub find?-any : (p : ℕ → Bool) (xs : List ℕ) (x : ℕ) → 0 < count x xs → p x ≡ true → any p xs ≡ true
find?-any p [] x h e = elim h [ ]
find?-any p (y ∷ xs) x h e = elim (Bool-cases (y == x)) [
  | inl same ↦ ground arith
  | inr other ↦ ground (arith, find?-any p xs x)
]
