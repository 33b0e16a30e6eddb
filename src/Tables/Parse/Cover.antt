-- ===== src/Tables/Parse/Cover.antt =====
-- The slots that the cells of a table cover (app/services/table_evidence.py): every event keeps them
-- apart and within the limit.
use pdf_engine_toolbox.Base.{
  ℕ, zero, suc, ◌+◌, ◌-◌, ◌≡◌, ◌≤◌, ◌<◌, inl, inr, refl, ap, ◌∙◌, subst, Bool, false, ◌&&◌, ◌||◌,
  Option, none, some, List, [], ◌∷◌, ◌++◌, arith, ltb, leb, ◌==◌, length, any, Bool-cases,
  length-append, All,
}
use pdf_engine_toolbox.Base.Int.{ℤ}
use pdf_engine_toolbox.Errors.{Text}
use pdf_engine_toolbox.Tables.{
  max_cells, parsed, Tag, Placement, Cell, Slot, TableParser, same_slot, is_occupied, row_slots,
  slots, slots_of, free_column,
}
use pdf_engine_toolbox.Tables.Parse.{place, refuses, open_cell, read_span}

-- No slot stands twice.
abbrev pub Distinct : List Slot → Type 0
Distinct [] = Unit
Distinct (s ∷ ss) = (is_occupied ss s ≡ false) × Distinct ss

-- The slots of the cells, in order.
abbrev pub cover : List Cell → List Slot
cover [] = []
cover (c ∷ cs) = slots_of c.placement ++ cover cs

abbrev pub current_slots : Option Placement → List Slot
current_slots none = []
current_slots (some q) = slots_of q

-- Both spans are at least one.
abbrev pub Spans : Placement → Type 0
Spans q = (0 < q.row_span) × (0 < q.column_span)

abbrev pub CurrentSpans : Option Placement → Type 0
CurrentSpans none = Unit
CurrentSpans (some q) = Spans q

-- The occupied slots are those of the cells, each once, and not too many.
pub record WellFormed (p : TableParser) : Type 0 where
  pub covered : p.occupied ≡ cover p.cells ++ current_slots p.current
  pub distinct : Distinct p.occupied
  pub bounded : length p.occupied ≤ max_cells
  pub spans : All (λ c. Spans c.placement) p.cells
  pub current_spans : CurrentSpans p.current

pub any-append :
    {A : Type 0} (f : A → Bool) (xs ys : List A) → any f (xs ++ ys) ≡ (any f xs || any f ys)
any-append f [] ys = refl
any-append f (x ∷ xs) ys = ground (arith, any-append f xs ys)

same_slot_sym : (s t : Slot) → same_slot s t ≡ same_slot t s
same_slot_sym s t = ground arith

-- Lists that share no slot.
pub Distinct-append :
    (ss ts : List Slot)
    → Distinct ss
    → Distinct ts
    → any (is_occupied ss) ts ≡ false
    → Distinct (ss ++ ts)
Distinct-append [] ts a b e = b
Distinct-append (s ∷ ss) ts a b e = (
  ground (arith, any-append (same_slot s) ss ts, apart s ss ts),
  Distinct-append ss ts a.1 b (fewer s ss ts e),
)
  where
    apart :
        (s : Slot) (ss ts : List Slot)
        → any (is_occupied (s ∷ ss)) ts ≡ false
        → is_occupied ts s ≡ false
    apart s ss [] e = refl
    apart s ss (t ∷ ts) e = ground (arith, same_slot_sym s t, apart s ss ts)

    fewer :
        (s : Slot) (ss ts : List Slot)
        → any (is_occupied (s ∷ ss)) ts ≡ false
        → any (is_occupied ss) ts ≡ false
    fewer s ss [] e = refl
    fewer s ss (t ∷ ts) e = ground (arith, fewer s ss ts)

pub is_occupied-append :
    (ss ts : List Slot) (s : Slot)
    → is_occupied (ss ++ ts) s ≡ (is_occupied ss s || is_occupied ts s)
is_occupied-append ss ts s = any-append (same_slot s) ss ts

is_occupied-row_slots :
    (r c n i j : ℕ) → is_occupied (row_slots r c n) (i, j) ≡ (i == r && leb c j && ltb j (c + n))
is_occupied-row_slots r c zero i j = ground arith
is_occupied-row_slots r c (suc n) i j = ground (arith, is_occupied-row_slots r (suc c) n i j)

-- The slots of a rectangle are the positions in it.
pub is_occupied-slots :
    (r c rs cs i j : ℕ)
    → is_occupied (slots r c rs cs) (i, j)
      ≡ (leb r i && ltb i (r + rs) && leb c j && ltb j (c + cs))
is_occupied-slots r c zero cs i j = ground arith
is_occupied-slots r c (suc rs) cs i j =
    is_occupied-append (row_slots r c cs) (slots (suc r) c rs cs) (i, j)
    ∙ ground (arith, is_occupied-row_slots r c cs i j, is_occupied-slots (suc r) c rs cs i j)

Distinct-row_slots : (r c n : ℕ) → Distinct (row_slots r c n)
Distinct-row_slots r c zero = tt
Distinct-row_slots r c (suc n) =
    (is_occupied-row_slots r (suc c) n r c ∙ ground arith, Distinct-row_slots r (suc c) n)

row_slots-apart :
    (r c m i d n : ℕ) → r < i → any (is_occupied (row_slots r c m)) (row_slots i d n) ≡ false
row_slots-apart r c m i d zero h = refl
row_slots-apart r c m i d (suc n) h =
    ground (arith, is_occupied-row_slots r c m i d, row_slots-apart r c m i (suc d) n h)

slots-apart :
    (r c m i d rs cs : ℕ) → r < i → any (is_occupied (row_slots r c m)) (slots i d rs cs) ≡ false
slots-apart r c m i d zero cs h = refl
slots-apart r c m i d (suc rs) cs h =
    any-append (is_occupied (row_slots r c m)) (row_slots i d cs) (slots (suc i) d rs cs)
    ∙ ground
        (arith, row_slots-apart r c m i d cs h, slots-apart r c m (suc i) d rs cs (omega arith))

pub Distinct-slots : (r c rs cs : ℕ) → Distinct (slots r c rs cs)
Distinct-slots r c zero cs = tt
Distinct-slots r c (suc rs) cs =
    Distinct-append (row_slots r c cs) (slots (suc r) c rs cs) (Distinct-row_slots r c cs)
      (Distinct-slots (suc r) c rs cs) (slots-apart r c cs (suc r) c rs cs (omega arith))

pub read_span_positive :
    (parse_int : Text → Option ℤ) (a : Option (Option Text)) (n : ℕ)
    → read_span parse_int a ≡ parsed n
    → 0 < n
read_span_positive parse_int none n e = ground arith
read_span_positive parse_int (some none) n e = ground arith
read_span_positive parse_int (some (some t)) n e = ground arith

pub append_nil : {A : Type 0} (xs : List A) → xs ++ [] ≡ xs
append_nil [] = refl
append_nil (x ∷ xs) = ap (λ ys. x ∷ ys) (append_nil xs)

pub place-WellFormed :
    (tag : Tag) (rs cs c : ℕ) (p : TableParser)
    → refuses p.occupied (slots (p.row - 1) c rs cs) ≡ false
    → 0 < rs
    → 0 < cs
    → p.current ≡ none
    → WellFormed p
    → WellFormed (place tag rs cs c p)
unfolding place
place-WellFormed tag rs cs c p e hr hc h w =
    let new = slots (p.row - 1) c rs cs in
    let free : any (is_occupied p.occupied) new ≡ false = ground arith in
    let taken : p.occupied ≡ cover p.cells =
      subst (λ o. p.occupied ≡ cover p.cells ++ current_slots o) h w.covered
      ∙ append_nil (cover p.cells) in
    record {
      covered = ap (λ o. o ++ new) taken;
      distinct =
          Distinct-append p.occupied new w.distinct (Distinct-slots (p.row - 1) c rs cs) free;
      bounded = ground (arith, length-append p.occupied new);
      spans = w.spans;
      current_spans = (hr, hc);
    }

pub open_cell-WellFormed :
    (tag : Tag) (rs cs : ℕ) (p q : TableParser)
    → open_cell tag rs cs p ≡ parsed q
    → 0 < rs
    → 0 < cs
    → p.current ≡ none
    → WellFormed p
    → WellFormed q
unfolding open_cell
open_cell-WellFormed tag rs cs p q e hr hc h w =
    let c = free_column (length p.occupied) p.occupied (p.row - 1) p.col in
    elim (Bool-cases (refuses p.occupied (slots (p.row - 1) c rs cs))) [
      | inl full ↦ absurd (ground arith)
      | inr free ↦
          let same : place tag rs cs c p ≡ q = ground arith in
          subst WellFormed same (place-WellFormed tag rs cs c p free hr hc h w)
    ]
