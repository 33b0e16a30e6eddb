-- ===== src/Ledger/Sweep.antt =====
-- What `_Store.sweep` and `_Store.prune` (app/services/ocr_queue.py) leave of a job.
use pdf_engine_toolbox.Base.{
  ℕ, ◌≡◌, ◌≢◌, inl, inr, refl, ap, ◌∙◌, subst, Bool, true, not, none, some, List, [], ◌∷◌, arith,
  ◌==◌, if◌then◌else◌, keep_if, All, Bool-cases, Dict, lookup, erase, lookup-erase,
}
use pdf_engine_toolbox.Ledger.{
  Row, UnitRow, Ledger, is_open, find_row, has_open, is_expired, references_input, keep_files,
  unit_rows, drop_files, prune, sweep_orphans, sweep,
}

-- `id TEXT NOT NULL UNIQUE`
abbrev pub UniqueIds : List Row → Type 0
UniqueIds [] = Unit
UniqueIds (r ∷ rs) = (find_row r.id rs ≡ none) × UniqueIds rs

abbrev Others : ℕ → List Row → Type 0
Others j rs = All (λ r. r.id ≢ j) rs

find_row-keep_if :
    (i j : ℕ) (rs : List Row)
    → i ≢ j
    → find_row j (keep_if (λ s. not (s.id == i)) rs) ≡ find_row j rs
find_row-keep_if i j [] ne = refl
find_row-keep_if i j (r ∷ rs) ne = ground (arith, find_row-keep_if i j rs ne)

none-Others :
    (f : Row → Bool) (j : ℕ) (rs : List Row) → find_row j rs ≡ none → Others j (keep_if f rs)
none-Others f j [] e = tt
none-Others f j (r ∷ rs) e = elim (Bool-cases (r.id == j)) [
  | inl mine ↦ absurd (ground arith)
  | inr other ↦ ground (arith, none-Others f j rs)
]

-- A job that is not expired is none of the rows that are pruned.
expired-Others :
    (ttl now j : ℕ) (r : Row) (rs : List Row)
    → UniqueIds rs
    → find_row j rs ≡ some r
    → is_open r.status ≡ true
    → Others j (keep_if (is_expired ttl now) rs)
expired-Others ttl now j r [] u e o = tt
expired-Others ttl now j r (s ∷ rs) u e o = elim (Bool-cases (s.id == j)) [
  | inl mine ↦
      let same : s ≡ r = ground arith in
      let open_s : is_open s.status ≡ true = rw same o in
      let here : s.id ≡ j = ground arith in
      let rest : find_row j rs ≡ none = subst (λ k. find_row k rs ≡ none) here u.0 in
      rw open_s (none-Others (is_expired ttl now) j rs rest)
  | inr other ↦ ground (arith, expired-Others ttl now j r rs u.1)
]

find_row-has_open :
    (j : ℕ) (r : Row) (rs : List Row)
    → find_row j rs ≡ some r
    → is_open r.status ≡ true
    → has_open j rs ≡ true
find_row-has_open j r [] e o = ground arith
find_row-has_open j r (s ∷ rs) e o = ground (arith, find_row-has_open j r rs)

find_row-references_input :
    (j : ℕ) (r : Row) (rs : List Row)
    → find_row j rs ≡ some r
    → r.has_input ≡ true
    → references_input j rs ≡ true
find_row-references_input j r [] e o = ground arith
find_row-references_input j r (s ∷ rs) e o = ground (arith, find_row-references_input j r rs)

lookup-keep_files :
    {V : Type 0} (now j : ℕ) (modified : V → ℕ) (f : ℕ → Bool) (d : Dict V)
    → f j ≡ true
    → lookup j (keep_files now modified f d) ≡ lookup j d
unfolding keep_files
lookup-keep_files now j modified f [] e = refl
lookup-keep_files now j modified f ((i, v) ∷ d) e = elim (Bool-cases (i == j)) [
  | inl mine ↦ let same : i ≡ j = ground arith in rw (same, e) (ground arith)
  | inr other ↦ ground (arith, lookup-keep_files now j modified f d e)
]

module _ {U : Type 0} where
  unit_rows-keep_if :
      (j : ℕ) (f : ℕ → Bool) (us : List (UnitRow U))
      → f j ≡ true
      → unit_rows j (keep_if (λ u. f u.job_id) us) ≡ unit_rows j us
  unfolding unit_rows
  unit_rows-keep_if j f [] e = refl
  unit_rows-keep_if j f (u ∷ us) e = elim (Bool-cases (u.job_id == j)) [
    | inl mine ↦
        let same : u.job_id ≡ j = ground arith in
        rw (same, e) (ground (arith, unit_rows-keep_if j f us e))
    | inr other ↦ ground (arith, unit_rows-keep_if j f us e)
  ]

module _ {U R : Type 0} where
  -- The row and the input file of job `j`, and all page rows, as before.
  abbrev Kept : ℕ → Ledger U R → Ledger U R → Type 0
  Kept j l k =
      (find_row j k.rows ≡ find_row j l.rows)
      × (lookup j k.inputs ≡ lookup j l.inputs)
      × (k.units ≡ l.units)

  drop_files-Kept :
      (j : ℕ) (rs : List Row) (l : Ledger U R) → Others j rs → Kept j l (drop_files rs l)
  unfolding drop_files
  drop_files-Kept j [] l o = (refl, refl, refl)
  drop_files-Kept j (r ∷ rs) l o =
      let dropped = record l {
        results = if r.has_result then erase r.id l.results else l.results;
        inputs = if r.has_input then erase r.id l.inputs else l.inputs;
        rows = keep_if (λ s. not (s.id == r.id)) l.rows;
      } in
      let rest = drop_files-Kept j rs dropped o.1 in
      (
        rest.0 ∙ find_row-keep_if r.id j l.rows o.0,
        rest.1 ∙ ground (arith, lookup-erase j r.id l.inputs),
        rest.2,
      )

  -- If ids are unique, a sweep leaves the row of an unfinished job whose row refers to its input
  -- file, the input file and the job's recorded pages as they were.
  pub sweep_keeps_unfinished :
      (ttl now j : ℕ) (r : Row) (l : Ledger U R)
      → UniqueIds l.rows
      → find_row j l.rows ≡ some r
      → is_open r.status ≡ true
      → r.has_input ≡ true
      → (find_row j (sweep ttl now l).rows ≡ some r)
        × (lookup j (sweep ttl now l).inputs ≡ lookup j l.inputs)
        × (unit_rows j (sweep ttl now l).units ≡ unit_rows j l.units)
  unfolding sweep prune sweep_orphans
  sweep_keeps_unfinished ttl now j r l u e o input =
      let pruned = prune ttl now l in
      let kept =
        drop_files-Kept j (keep_if (is_expired ttl now) l.rows) l
          (expired-Others ttl now j r l.rows u e o) in
      let row : find_row j pruned.rows ≡ some r = kept.0 ∙ e in
      (
        row,
        lookup-keep_files now j (λ t. t) (λ i. references_input i pruned.rows) pruned.inputs
              (find_row-references_input j r pruned.rows row input)
            ∙ kept.1,
        unit_rows-keep_if j (λ i. has_open i pruned.rows) pruned.units
              (find_row-has_open j r pruned.rows row o)
            ∙ ap (unit_rows j) kept.2,
      )
