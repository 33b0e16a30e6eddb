-- ===== src/Ledger/Pages.antt =====
-- The results of pages, from `save_unit` to `units` (class `_Store`, app/services/ocr_queue.py).
use pdf_engine_toolbox.Base.{
  ℕ, ◌≡◌, inl, inr, refl, ap, sym, ◌∙◌, ◌⊎◌, true, false, ◌&&◌, Option, none, some, List, [], ◌∷◌,
  arith, ◌==◌, if◌then◌else◌, Bool-cases, Dict, lookup, insert, lookup-insert,
}
use pdf_engine_toolbox.Errors.{Text}
use pdf_engine_toolbox.Ledger.{
  UnitRow, Ledger, Codec, has_open, put_unit, save_row, sealed_result, save_unit, read_unit,
  add_read, unit_results,
}

module _ {V : Type 0} (c : Codec V) where
  read_back :
      (i u : ℕ) (x : V)
      → ((v : V) → c.loads (c.dumps v) ≡ some v)
      → ((k : ℕ × ℕ) (t : Text) → c.unseal k (c.seal k t) ≡ some t)
      → read_unit c (record { job_id = i; unit = u; result = sealed_result c i u x }) ≡ some x
  read_back i u x json cipher = rw (read_unit, cipher (i, u) (c.dumps x)) (json x)

  add_read-some :
      (u : ℕ) (o : Option V) (rest : Option (Dict V)) (d : Dict V)
      → add_read c u o rest ≡ some d
      → (x : V) × (k : Dict V) × (o ≡ some x) × (rest ≡ some k) × (insert u x k ≡ d)
  add_read-some u none rest d e = cc
  add_read-some u (some x) none d e = cc
  add_read-some u (some x) (some k) d e = (x, k, refl, refl, ground arith)

  unit_results-mine :
      (j : ℕ) (w : UnitRow Text) (us : List (UnitRow Text)) (y : V) (k : Dict V)
      → (w.job_id == j) ≡ true
      → read_unit c w ≡ some y
      → unit_results c j us ≡ some k
      → unit_results c j (w ∷ us) ≡ some (insert w.unit y k)
  unfolding unit_results
  unit_results-mine j w us y k mine r e = rw (mine, e) (on_read (read_unit c w) r)
    where
      on_read :
          (o : Option V) → o ≡ some y → add_read c w.unit o (some k) ≡ some (insert w.unit y k)
      on_read o q = rw q refl

  unit_results-other :
      (j : ℕ) (w : UnitRow Text) (us : List (UnitRow Text))
      → (w.job_id == j) ≡ false
      → unit_results c j (w ∷ us) ≡ unit_results c j us
  unfolding unit_results
  unit_results-other j w us other = rw other refl

  unit_results-mine_inv :
      (j : ℕ) (w : UnitRow Text) (us : List (UnitRow Text)) (d : Dict V)
      → (w.job_id == j) ≡ true
      → unit_results c j (w ∷ us) ≡ some d
      → (y : V) × (k : Dict V) × (read_unit c w ≡ some y)
        × (unit_results c j us ≡ some k)
        × (insert w.unit y k ≡ d)
  unfolding unit_results
  unit_results-mine_inv j w us d mine e =
      add_read-some w.unit (read_unit c w) (unit_results c j us) d (rw mine at e)

  -- What reading the pages of `j` gives where page `u` of job `i` is `x`, and all else is as in `d`.
  abbrev Puts : ℕ → ℕ → ℕ → ℕ → V → Dict V → List (UnitRow Text) → Type 0
  Puts i j u v x d us =
      (k : Dict V) × (unit_results c j us ≡ some k)
      × (lookup v k ≡ (if (i == j) && (u == v) then some x else lookup v d))

  put_first :
      (i j u v : ℕ) (t : Text) (x : V) (us : List (UnitRow Text)) (d : Dict V)
      → read_unit c (record { job_id = i; unit = u; result = t }) ≡ some x
      → unit_results c j us ≡ some d
      → Puts i j u v x d (record { job_id = i; unit = u; result = t } ∷ us)
  put_first i j u v t x us d r e = elim (Bool-cases (i == j)) [
    | inl mine ↦ (
      insert u x d,
      unit_results-mine j (record { job_id = i; unit = u; result = t }) us x d mine r e,
      ground (arith, lookup-insert v u x d),
    )
    | inr other ↦ (
      d,
      unit_results-other j (record { job_id = i; unit = u; result = t }) us other ∙ e,
      ground arith,
    )
  ]

  put_unit-Puts :
      (i j u v : ℕ) (t : Text) (x : V) (us : List (UnitRow Text)) (d : Dict V)
      → read_unit c (record { job_id = i; unit = u; result = t }) ≡ some x
      → unit_results c j us ≡ some d
      → Puts i j u v x d (put_unit (record { job_id = i; unit = u; result = t }) us)
  put_unit-Puts i j u v t x [] d r e = put_first i j u v t x [] d r e
  put_unit-Puts i j u v t x (w ∷ us) d r e = elim (Bool-cases ((w.job_id == i) && (w.unit == u))) [
    | inl replaced ↦
        rw replaced (on_replaced (ground arith) (ground arith) (Bool-cases (w.job_id == j)))
    | inr apart ↦
        rw apart
          (on_kept apart (Bool-cases (w.job_id == j)) (λ k. put_unit-Puts i j u v t x us k r))
  ]
    where
      on_replaced :
          w.job_id ≡ i
          → w.unit ≡ u
          → ((w.job_id == j) ≡ true) ⊎ ((w.job_id == j) ≡ false)
          → Puts i j u v x d (record { job_id = i; unit = u; result = t } ∷ us)
      on_replaced same_job same_unit (inl mine) =
          let (y, k, _, rest, old) = unit_results-mine_inv j w us d mine e in
          let (new, read, found) = put_first i j u v t x us k r rest in
          (new, read, ground (arith, found, lookup-insert v w.unit y k, ap (lookup v) old))
      on_replaced same_job same_unit (inr other) =
          put_first i j u v t x us d r (sym (unit_results-other j w us other) ∙ e)

      on_kept :
          ((w.job_id == i) && (w.unit == u)) ≡ false
          → ((w.job_id == j) ≡ true) ⊎ ((w.job_id == j) ≡ false)
          → ((k : Dict V)
              → unit_results c j us ≡ some k
              → Puts i j u v x k (put_unit (record { job_id = i; unit = u; result = t }) us))
          → Puts i j u v x d (w ∷ put_unit (record { job_id = i; unit = u; result = t }) us)
      on_kept apart (inl mine) ih =
          let (y, k, readable, rest, old) = unit_results-mine_inv j w us d mine e in
          let (new, read, found) = ih k rest in
          (
            insert w.unit y new,
            unit_results-mine j w _ y new mine readable read,
            ground (
              arith,
              found,
              lookup-insert v w.unit y new,
              lookup-insert v w.unit y k,
              ap (lookup v) old,
            ),
          )
      on_kept apart (inr other) ih =
          let (new, read, found) = ih d (sym (unit_results-other j w us other) ∙ e) in
          (new, unit_results-other j w _ other ∙ read, found)

  -- Where JSON reads back what it writes and the cipher opens what it sealed for the same job and page:
  -- if the pages of a job can be read, then after a page of a job is recorded they can still be read, and
  -- that page is as it was recorded if its job is unfinished; every other page, and all of them if it is
  -- not, are as before.
  pub unit_results-save_unit :
      {R : Type 0} (i j u v : ℕ) (x : V) (l : Ledger Text R) (d : Dict V)
      → ((v : V) → c.loads (c.dumps v) ≡ some v)
      → ((k : ℕ × ℕ) (t : Text) → c.unseal k (c.seal k t) ≡ some t)
      → unit_results c j l.units ≡ some d
      → (k : Dict V) × (unit_results c j (save_unit c i u x l).units ≡ some k)
        × (lookup v k ≡ (if has_open i l.rows && (i == j) && (u == v) then some x else lookup v d))
  unfolding save_unit save_row
  unit_results-save_unit i j u v x l d json cipher e = elim (Bool-cases (has_open i l.rows)) [
    | inl running ↦
        rw running (
          put_unit-Puts i j u v (sealed_result c i u x) x l.units d (read_back i u x json cipher) e)
    | inr ended ↦ rw ended (d, e, refl)
  ]
