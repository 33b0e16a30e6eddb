-- ===== src/Ledger/Ids.antt =====
-- Job ids in the ledger (`id TEXT NOT NULL UNIQUE`, app/services/ocr_queue.py) under the operations
-- of `_Store`.
use pdf_engine_toolbox.Base.{
  ℕ, suc, ◌≡◌, ◌≢◌, inl, inr, refl, Bool, true, false, not, none, some, List, [], ◌∷◌, ◌++◌, arith,
  ◌==◌, if◌then◌else◌, is_some, keep_if, Bool-cases, erase,
}
use pdf_engine_toolbox.Queue.State.{completed, failed}
use pdf_engine_toolbox.Ledger.{
  Row, Ledger, find_row, update_row, set_processing, set_finished, insert_row, mark_processing,
  save_row, complete, fail, drop_files, prune, sweep, is_expired,
}
use pdf_engine_toolbox.Ledger.Rows.{
  Writes, inserts, marks, saves, completes, fails, sweeps, find_row-update_row,
}
use pdf_engine_toolbox.Ledger.Sweep.{UniqueIds}

UniqueIds-update_row :
    (f : Row → Row) (i : ℕ) (rs : List Row)
    → ((r : Row) → (f r).id ≡ r.id)
    → UniqueIds rs
    → UniqueIds (update_row f i rs)
UniqueIds-update_row f i [] h u = tt
UniqueIds-update_row f i (r ∷ rs) h u =
    ground (arith, h r, find_row-update_row f i r.id rs h, UniqueIds-update_row f i rs h u.1)

none-keep_if :
    (f : Row → Bool) (j : ℕ) (rs : List Row)
    → find_row j rs ≡ none
    → find_row j (keep_if f rs) ≡ none
none-keep_if f j [] e = refl
none-keep_if f j (r ∷ rs) e = ground (arith, none-keep_if f j rs)

UniqueIds-keep_if : (f : Row → Bool) (rs : List Row) → UniqueIds rs → UniqueIds (keep_if f rs)
UniqueIds-keep_if f [] u = tt
UniqueIds-keep_if f (r ∷ rs) u =
    ground (arith, none-keep_if f r.id rs u.0, UniqueIds-keep_if f rs u.1)

none-append :
    (j : ℕ) (rs : List Row) (r : Row)
    → find_row j rs ≡ none
    → r.id ≢ j
    → find_row j (rs ++ r ∷ []) ≡ none
none-append j [] r e ne = ground arith
none-append j (x ∷ rs) r e ne = ground (arith, none-append j rs r)

UniqueIds-append :
    (rs : List Row) (r : Row) → UniqueIds rs → find_row r.id rs ≡ none → UniqueIds (rs ++ r ∷ [])
UniqueIds-append [] r u e = (refl, tt)
UniqueIds-append (x ∷ rs) r u e = elim (Bool-cases (x.id == r.id)) [
  | inl same ↦ absurd (ground arith)
  | inr other ↦
      let ne : r.id ≢ x.id = ground arith in
      let free : find_row r.id rs ≡ none = ground arith in
      (none-append x.id rs r u.0 ne, UniqueIds-append rs r u.1 free)
]

module _ {U R : Type 0} where
  UniqueIds-drop_files :
      (rs : List Row) (l : Ledger U R) → UniqueIds l.rows → UniqueIds (drop_files rs l).rows
  unfolding drop_files
  UniqueIds-drop_files [] l u = u
  UniqueIds-drop_files (r ∷ rs) l u =
      UniqueIds-drop_files rs
        (record l {
          results = if r.has_result then erase r.id l.results else l.results;
          inputs = if r.has_input then erase r.id l.inputs else l.inputs;
          rows = keep_if (λ s. not (s.id == r.id)) l.rows;
        })
        (UniqueIds-keep_if (λ s. not (s.id == r.id)) l.rows u)

  insert_row-UniqueIds :
      (l k : Ledger U R) (r : Row) (now : ℕ)
      → insert_row r now l ≡ some k
      → UniqueIds l.rows
      → UniqueIds k.rows
  unfolding insert_row
  insert_row-UniqueIds l k r now e u = elim (Bool-cases (is_some (find_row r.id l.rows))) [
    | inl taken ↦ absurd (ground arith)
    | inr free ↦
        let absent : find_row r.id l.rows ≡ none = ground arith in
        let rows : k.rows ≡ l.rows ++ record r { seq = suc l.next_seq } ∷ [] = ground arith in
        rw rows (UniqueIds-append l.rows (record r { seq = suc l.next_seq }) u absent)
  ]

  -- If the rows of a ledger have different ids, so have its rows after any write.
  pub Writes-UniqueIds : {l k : Ledger U R} → Writes l k → UniqueIds l.rows → UniqueIds k.rows
  unfolding mark_processing save_row complete fail sweep prune
  Writes-UniqueIds (inserts l k r now e) u = insert_row-UniqueIds l k r now e u
  Writes-UniqueIds (marks l i now) u =
      UniqueIds-update_row (set_processing now) i l.rows (λ r. ground arith) u
  Writes-UniqueIds (saves l i unit x) u = ground arith
  Writes-UniqueIds (completes l i x now) u =
      UniqueIds-update_row (set_finished completed true none now) i l.rows (λ r. refl) u
  Writes-UniqueIds (fails l i e now) u =
      UniqueIds-update_row (set_finished failed false (some e) now) i l.rows (λ r. refl) u
  Writes-UniqueIds (sweeps l ttl now) u =
      UniqueIds-drop_files (keep_if (is_expired ttl now) l.rows) l u
