-- ===== src/Tables/Parse/Columns.antt =====
-- The search for a free column (app/services/table_evidence.py).
use pdf_engine_toolbox.Base.{
  ℕ, zero, suc, ◌+◌, ◌≡◌, ◌≤◌, ◌<◌, inl, inr, subst, true, false, not, ◌&&◌, List, [], ◌∷◌, arith,
  ltb, leb, ◌==◌, if◌then◌else◌, length, Bool-cases,
}
use pdf_engine_toolbox.Tables.{Slot, is_occupied, free_column}

-- How many slots of row `r` are at column `c` or after it.
ahead : List Slot → ℕ → ℕ → ℕ
ahead [] r c = 0
ahead (s ∷ ss) r c = (if (s.0 == r) && leb c s.1 then 1 else 0) + ahead ss r c

ahead-length : (ss : List Slot) (r c : ℕ) → ahead ss r c ≤ length ss
unfolding ahead
ahead-length [] r c = omega arith
ahead-length (s ∷ ss) r c = ground (arith, ahead-length ss r c)

ahead_mono : (ss : List Slot) (r c : ℕ) → ahead ss r (suc c) ≤ ahead ss r c
unfolding ahead
ahead_mono [] r c = omega arith
ahead_mono (s ∷ ss) r c = ground (arith, ahead_mono ss r c)

ahead_falls :
    (ss : List Slot) (r c : ℕ) → is_occupied ss (r, c) ≡ true → ahead ss r (suc c) < ahead ss r c
unfolding ahead
ahead_falls [] r c h = absurd (ground arith)
ahead_falls (s ∷ ss) r c h = ground (arith, ahead_falls ss r c, ahead_mono ss r c)

free_column_free :
    (fuel : ℕ) (ss : List Slot) (r c : ℕ)
    → ahead ss r c ≤ fuel
    → is_occupied ss (r, free_column fuel ss r c) ≡ false
unfolding free_column
free_column_free zero ss r c h = elim (Bool-cases (is_occupied ss (r, c))) [
  | inl full ↦ absurd (omega (arith, ahead_falls ss r c full))
  | inr free ↦ free
]
free_column_free (suc fuel) ss r c h = elim (Bool-cases (is_occupied ss (r, c))) [
  | inl full ↦ rw full (free_column_free fuel ss r (suc c) (omega (arith, ahead_falls ss r c full)))
  | inr free ↦ rw free free
]

free_column_le : (fuel : ℕ) (ss : List Slot) (r c : ℕ) → c ≤ free_column fuel ss r c
unfolding free_column
free_column_le zero ss r c = omega arith
free_column_le (suc fuel) ss r c = ground (arith, free_column_le fuel ss r (suc c))

free_column_first :
    (fuel : ℕ) (ss : List Slot) (r c j : ℕ)
    → c ≤ j
    → j < free_column fuel ss r c
    → is_occupied ss (r, j) ≡ true
unfolding free_column
free_column_first zero ss r c j a b = absurd (omega arith)
free_column_first (suc fuel) ss r c j a b = elim (Bool-cases (is_occupied ss (r, c))) [
  | inl full ↦ elim (Bool-cases (c == j)) [
    | inl here ↦
        let same : c ≡ j = ground arith in subst (λ k. is_occupied ss (r, k) ≡ true) same full
    | inr later ↦ free_column_first fuel ss r (suc c) j (ground arith) (ground (arith, full))
  ]
  | inr free ↦ absurd (ground (arith, free))
]

-- With as much fuel as there are occupied slots, the search for a column ends at a slot that is
-- free, at or after the column it starts from, and every slot of the row between the two is
-- occupied.
pub free_column_lem :
    (ss : List Slot) (r c j : ℕ)
    → (is_occupied ss (r, free_column (length ss) ss r c) ≡ false)
      × (c ≤ free_column (length ss) ss r c)
      × ((leb c j && ltb j (free_column (length ss) ss r c) && not (is_occupied ss (r, j))) ≡ false)
free_column_lem ss r c j = (
  free_column_free (length ss) ss r c (ahead-length ss r c),
  free_column_le (length ss) ss r c,
  ground (arith, free_column_first (length ss) ss r c j),
)
