-- ===== src/Ledger/Rows.antt =====
-- The page rows of the ledger (`_Store.save_row`, `units` and the operations that delete page rows,
-- app/services/ocr_queue.py).
use pdf_engine_toolbox.Base.{
  ℕ, suc, ◌≡◌, ◌≢◌, ◌⊎◌, inl, inr, refl, ◌∙◌, true, false, not, String, none, some, List, [], ◌∷◌,
  ◌++◌, arith, ◌==◌, if◌then◌else◌, is_some, keep_if, All, Bool-cases,
}
use pdf_engine_toolbox.Queue.State.{completed, failed}
use pdf_engine_toolbox.Ledger.{
  Row, UnitRow, Ledger, is_open, find_row, update_row, has_open, set_processing, set_finished,
  insert_row, mark_processing, put_unit, save_row, complete, fail, prune, sweep,
}

-- An update that keeps the id changes the row of that id and no other.
pub find_row-update_row :
    (f : Row → Row) (i j : ℕ) (rs : List Row)
    → ((r : Row) → (f r).id ≡ r.id)
    → find_row j (update_row f i rs) ≡ (
        if i == j
        then elim (find_row j rs) [ none ↦ none | some r ↦ some (f r) ]
        else find_row j rs)
find_row-update_row f i j [] h = ground arith
find_row-update_row f i j (r ∷ rs) h = ground (arith, h r, find_row-update_row f i j rs)

pub has_open-update_row :
    (f : Row → Row) (i j : ℕ) (rs : List Row)
    → ((r : Row) → (f r).id ≡ r.id)
    → (i ≢ j) ⊎ ((r : Row) → is_open (f r).status ≡ is_open r.status)
    → has_open j (update_row f i rs) ≡ has_open j rs
has_open-update_row f i j [] h k = refl
has_open-update_row f i j (r ∷ rs) h (inl ne) =
    ground (arith, h r, has_open-update_row f i j rs h (inl ne))
has_open-update_row f i j (r ∷ rs) h (inr k) =
    ground (arith, h r, k r, has_open-update_row f i j rs h (inr k))

pub has_open-append :
    (j : ℕ) (rs : List Row) (r : Row) → has_open j rs ≡ true → has_open j (rs ++ r ∷ []) ≡ true
has_open-append j [] r e = ground arith
has_open-append j (x ∷ rs) r e = ground (arith, has_open-append j rs r)

set_processing-open : (now : ℕ) (r : Row) → is_open (set_processing now r).status ≡ is_open r.status
set_processing-open now r = ground arith

module _ {U : Type 0} where
  -- Every recorded page belongs to an unfinished job.
  abbrev pub NoOrphans : List (UnitRow U) → List Row → Type 0
  NoOrphans us rs = All (λ u. has_open u.job_id rs ≡ true) us

  NoOrphans-rows :
      (us : List (UnitRow U)) (rs ss : List Row)
      → ((j : ℕ) → has_open j rs ≡ true → has_open j ss ≡ true)
      → NoOrphans us rs
      → NoOrphans us ss
  NoOrphans-rows [] rs ss h n = tt
  NoOrphans-rows (u ∷ us) rs ss h n = (h u.job_id n.0, NoOrphans-rows us rs ss h n.1)

  NoOrphans-put_unit :
      (u : UnitRow U) (us : List (UnitRow U)) (rs : List Row)
      → has_open u.job_id rs ≡ true
      → NoOrphans us rs
      → NoOrphans (put_unit u us) rs
  NoOrphans-put_unit u [] rs o n = (o, tt)
  NoOrphans-put_unit u (v ∷ us) rs o n = ground (arith, NoOrphans-put_unit u us rs o n.1)

  NoOrphans-drop_job :
      (f : Row → Row) (i : ℕ) (us : List (UnitRow U)) (rs : List Row)
      → ((r : Row) → (f r).id ≡ r.id)
      → NoOrphans us rs
      → NoOrphans (keep_if (λ u. not (u.job_id == i)) us) (update_row f i rs)
  NoOrphans-drop_job f i [] rs h n = tt
  NoOrphans-drop_job f i (u ∷ us) rs h n = elim (Bool-cases (u.job_id == i)) [
    | inl mine ↦ rw mine (NoOrphans-drop_job f i us rs h n.1)
    | inr other ↦
        let ne : i ≢ u.job_id = ground arith in
        rw other
          (has_open-update_row f i u.job_id rs h (inl ne) ∙ n.0, NoOrphans-drop_job f i us rs h n.1)
  ]

  NoOrphans-keep_if :
      (us : List (UnitRow U)) (rs : List Row)
      → NoOrphans (keep_if (λ u. has_open u.job_id rs) us) rs
  NoOrphans-keep_if [] rs = tt
  NoOrphans-keep_if (u ∷ us) rs = ground (arith, NoOrphans-keep_if us rs)

module _ {U R : Type 0} where
  -- The operations of the queue on its ledger.
  pub data Writes : Ledger U R → Ledger U R → Type 0 where
    inserts : (l k : Ledger U R) (r : Row) (now : ℕ) → insert_row r now l ≡ some k → Writes l k
    marks : (l : Ledger U R) (i now : ℕ) → Writes l (mark_processing i now l)
    saves : (l : Ledger U R) (i u : ℕ) (x : U) → Writes l (save_row i u x l)
    completes : (l : Ledger U R) (i : ℕ) (x : R) (now : ℕ) → Writes l (complete i x now l)
    fails : (l : Ledger U R) (i : ℕ) (e : String) (now : ℕ) → Writes l (fail i e now l)
    sweeps : (l : Ledger U R) (ttl now : ℕ) → Writes l (sweep ttl now l)

  insert_row-NoOrphans :
      (l k : Ledger U R) (r : Row) (now : ℕ)
      → insert_row r now l ≡ some k
      → NoOrphans l.units l.rows
      → NoOrphans k.units k.rows
  unfolding insert_row
  insert_row-NoOrphans l k r now e n = elim (Bool-cases (is_some (find_row r.id l.rows))) [
    | inl taken ↦ absurd (ground arith)
    | inr free ↦
        let grown =
          NoOrphans-rows l.units l.rows (l.rows ++ record r { seq = suc l.next_seq } ∷ [])
            (λ j. has_open-append j l.rows (record r { seq = suc l.next_seq })) n in
        let units : k.units ≡ l.units = ground arith in
        let rows : k.rows ≡ l.rows ++ record r { seq = suc l.next_seq } ∷ [] = ground arith in
        rw (units, rows) grown
  ]

  -- If every recorded page of a ledger belongs to an unfinished job, it does so after any write of
  -- the queue.
  pub Writes-NoOrphans :
      {l k : Ledger U R} → Writes l k → NoOrphans l.units l.rows → NoOrphans k.units k.rows
  unfolding mark_processing save_row complete fail sweep
  Writes-NoOrphans (inserts l k r now e) n = insert_row-NoOrphans l k r now e n
  Writes-NoOrphans (marks l i now) n =
      NoOrphans-rows l.units l.rows (update_row (set_processing now) i l.rows)
        (λ j o.
          has_open-update_row (set_processing now) i j l.rows (λ r. ground arith)
            (inr (set_processing-open now))
          ∙ o)
        n
  Writes-NoOrphans (saves l i u x) n = elim (Bool-cases (has_open i l.rows)) [
    | inl o ↦
        rw o (NoOrphans-put_unit (record { job_id = i; unit = u; result = x }) l.units l.rows o n)
    | inr c ↦ rw c n
  ]
  Writes-NoOrphans (completes l i x now) n =
      NoOrphans-drop_job (set_finished completed true none now) i l.units l.rows (λ r. refl) n
  Writes-NoOrphans (fails l i e now) n =
      NoOrphans-drop_job (set_finished failed false (some e) now) i l.units l.rows (λ r. refl) n
  Writes-NoOrphans (sweeps l ttl now) n =
      NoOrphans-keep_if (prune ttl now l).units (prune ttl now l).rows
