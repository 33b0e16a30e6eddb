-- ===== src/Ledger/Cached.antt =====
-- The lookup of a finished result by its cache key (`_Store.cached`, app/services/ocr_queue.py).
use pdf_engine_toolbox.Base.{
  ap, not, is_some, ℕ, ◌+◌, refl, ◌≡◌, ◌≤◌, ◌⊎◌, inl, inr, Bool, true, false, Option, none, some,
  List, [], ◌∷◌, arith, All, Bool-cases, ◌&&◌, ltb,
}
use pdf_engine_toolbox.Queue.State.{Status, pending, processing, completed, failed}
use pdf_engine_toolbox.Ledger.{
  Row, Ledger, has_key, is_completed, is_past, is_hit, finished_at, newest, cached,
}

-- No row that `hit` accepts finished later than `b`.
abbrev NoLater : (Row → Bool) → Row → List Row → Type 0
NoLater hit b rs =
    All (λ r. (hit r ≡ false) ⊎ (finished_at r.completed_at ≤ finished_at b.completed_at)) rs

-- A row of the ledger.
abbrev pub Stored : Row → List Row → Type 0
Stored b [] = ⊥
Stored b (r ∷ rs) = (b ≡ r) ⊎ Stored b rs

-- What a search of the rows `rs` came to: no row is a hit, or one that is, and no hit finished later.
abbrev Found : (Row → Bool) → List Row → Option Row → Type 0
Found hit rs none = All (λ r. hit r ≡ false) rs
Found hit rs (some b) = Stored b rs × (hit b ≡ true) × NoLater hit b rs

-- The same, with a hit `b` in hand.
abbrev Improves : (Row → Bool) → Row → List Row → Option Row → Type 0
Improves hit b rs none = ⊥
Improves hit b rs (some c) =
    ((c ≡ b) ⊎ Stored c rs)
    × (hit c ≡ true)
    × (finished_at b.completed_at ≤ finished_at c.completed_at)
    × NoLater hit c rs

not_later :
    (hit : Row → Bool) (b r : Row)
    → (hit r && ltb (finished_at b.completed_at) (finished_at r.completed_at)) ≡ false
    → (hit r ≡ false) ⊎ (finished_at r.completed_at ≤ finished_at b.completed_at)
not_later hit b r e = elim (Bool-cases (hit r)) [ inl h ↦ inr (ground arith) | inr h ↦ inl h ]

newest-Improves :
    (hit : Row → Bool) (b : Row) (rs : List Row)
    → hit b ≡ true
    → Improves hit b rs (newest hit rs (some b))
unfolding newest
newest-Improves hit b [] e = (inl refl, e, omega arith, tt)
newest-Improves hit b (r ∷ rs) e =
    elim (Bool-cases (hit r && ltb (finished_at b.completed_at) (finished_at r.completed_at))) [
      | inl better ↦
          let hit_r : hit r ≡ true = ground arith in
          rw better (
            widen r (newest hit rs (some r)) (λ c same. inr (inl same)) (ground arith)
              (inr (omega arith)) (newest-Improves hit r rs hit_r))
      | inr worse ↦ rw worse (
          widen b (newest hit rs (some b)) (λ c same. inl same) (omega arith)
            (not_later hit b r worse) (newest-Improves hit b rs e))
    ]
  where
    widen :
        (c : Row) (o : Option Row)
        → ((d : Row) → d ≡ c → (d ≡ b) ⊎ ((d ≡ r) ⊎ Stored d rs))
        → finished_at b.completed_at ≤ finished_at c.completed_at
        → (hit r ≡ false) ⊎ (finished_at r.completed_at ≤ finished_at c.completed_at)
        → Improves hit c rs o
        → Improves hit b (r ∷ rs) o
    widen c none from le h i = i
    widen c (some d) from le h i = (place i.0, i.1, omega (arith, i.2), (later h, i.3))
      where
        place : (d ≡ c) ⊎ Stored d rs → (d ≡ b) ⊎ ((d ≡ r) ⊎ Stored d rs)
        place (inl same) = from d same
        place (inr stored) = inr (inr stored)

        later :
            (hit r ≡ false) ⊎ (finished_at r.completed_at ≤ finished_at c.completed_at)
            → (hit r ≡ false) ⊎ (finished_at r.completed_at ≤ finished_at d.completed_at)
        later (inl e) = inl e
        later (inr m) = inr (omega (arith, i.2))

newest-Found : (hit : Row → Bool) (rs : List Row) → Found hit rs (newest hit rs none)
unfolding newest
newest-Found hit [] = tt
newest-Found hit (r ∷ rs) = elim (Bool-cases (hit r)) [
  | inl e ↦ rw e (open_up r (newest hit rs (some r)) (newest-Improves hit r rs e))
  | inr e ↦ rw e (add r (newest hit rs none) e (newest-Found hit rs))
]
  where
    open_up : (b : Row) (o : Option Row) → Improves hit b rs o → Found hit (b ∷ rs) o
    open_up b none i = absurd i
    open_up b (some c) i = (i.0, i.1, (inr i.2, i.3))

    add : (b : Row) (o : Option Row) → hit b ≡ false → Found hit rs o → Found hit (b ∷ rs) o
    add b none e a = (e, a)
    add b (some c) e a = (inr a.0, a.1, (inl e, a.2))

-- A completed job of this key that finished at `t`, not longer than the lifetime ago.
abbrev pub IsUnexpired : ℕ → ℕ → ℕ → ℕ → Row → Type 0
IsUnexpired key ttl now t r =
    (r.cache_key ≡ some key) × (r.status ≡ completed) × (r.completed_at ≡ some t) × (now ≤ t + ttl)

abbrev pub Unexpired : ℕ → ℕ → ℕ → Row → Type 0
Unexpired key ttl now r = (t : ℕ) × IsUnexpired key ttl now t r

abbrev pub FinishedBy : ℕ → Option ℕ → Type 0
FinishedBy t none = ⊥
FinishedBy t (some s) = s ≤ t

-- What the lookup in the rows `rs` answers.
abbrev pub Answers : ℕ → ℕ → ℕ → List Row → Option Row → Type 0
Answers key ttl now rs none = All (λ r. ¬ Unexpired key ttl now r) rs
Answers key ttl now rs (some b) =
    Stored b rs
    × (t : ℕ) × IsUnexpired key ttl now t b
    × All (λ r. (¬ Unexpired key ttl now r) ⊎ FinishedBy t r.completed_at) rs

key_found : (key : ℕ) (o : Option ℕ) → has_key key o ≡ true → o ≡ some key
key_found key none e = cc
key_found key (some k) e = let same : k ≡ key = ground arith in ap some same

completed_found : (s : Status) → is_completed s ≡ true → s ≡ completed
completed_found pending e = cc
completed_found processing e = cc
completed_found completed e = refl
completed_found failed e = cc

time_found :
    (ttl now : ℕ) (o : Option ℕ)
    → (is_some o && not (is_past ttl now o)) ≡ true
    → (t : ℕ) × (o ≡ some t) × (now ≤ t + ttl)
time_found ttl now none e = cc
time_found ttl now (some t) e = (t, refl, ground arith)

is_hit-Unexpired :
    (key ttl now : ℕ) (r : Row) → is_hit key ttl now r ≡ true → Unexpired key ttl now r
is_hit-Unexpired key ttl now r e =
    let (t, ended, fresh) = time_found ttl now r.completed_at (ground arith) in
    (
      t,
      (
        key_found key r.cache_key (ground arith),
        completed_found r.status (ground arith),
        ended,
        fresh,
      ),
    )

not_hit : (key ttl now : ℕ) (r : Row) → is_hit key ttl now r ≡ false → ¬ Unexpired key ttl now r
not_hit key ttl now r e (t, (keyed, done, ended, fresh)) =
    let hit : is_hit key ttl now r ≡ true = rw (keyed, done, ended) (ground arith) in ground arith

none-Unexpired :
    (key ttl now : ℕ) (rs : List Row)
    → All (λ r. is_hit key ttl now r ≡ false) rs
    → All (λ r. ¬ Unexpired key ttl now r) rs
none-Unexpired key ttl now [] h = tt
none-Unexpired key ttl now (r ∷ rs) h =
    (not_hit key ttl now r h.0, none-Unexpired key ttl now rs h.1)

finished_by :
    (key ttl now t : ℕ) (b : Row) (rs : List Row)
    → b.completed_at ≡ some t
    → NoLater (is_hit key ttl now) b rs
    → All (λ r. (¬ Unexpired key ttl now r) ⊎ FinishedBy t r.completed_at) rs
finished_by key ttl now t b [] ended h = tt
finished_by key ttl now t b (r ∷ rs) ended h = (first h.0, finished_by key ttl now t b rs ended h.1)
  where
    by_time :
        (o : Option ℕ)
        → r.completed_at ≡ o
        → finished_at r.completed_at ≤ finished_at b.completed_at
        → (¬ Unexpired key ttl now r) ⊎ FinishedBy t o
    by_time none never le = inl (λ u. cc (u.1.2, never))
    by_time (some s) at le =
        let in_time : s ≤ t = ground (arith, ap finished_at at, ap finished_at ended) in inr in_time

    first :
        (is_hit key ttl now r ≡ false) ⊎ (finished_at r.completed_at ≤ finished_at b.completed_at)
        → (¬ Unexpired key ttl now r) ⊎ FinishedBy t r.completed_at
    first (inl e) = inl (not_hit key ttl now r e)
    first (inr le) = by_time r.completed_at refl le

answered :
    (key ttl now : ℕ) (rs : List Row) (o : Option Row)
    → Found (is_hit key ttl now) rs o
    → Answers key ttl now rs o
answered key ttl now rs none h = none-Unexpired key ttl now rs h
answered key ttl now rs (some b) h =
    let (t, unexpired) = is_hit-Unexpired key ttl now b h.1 in
    (h.0, t, unexpired, finished_by key ttl now t b rs unexpired.2 h.2)

-- The cache lookup answers with a row of the ledger that is a completed job of this key, finished within
-- the lifetime, and that no other such job finished after; it answers with none only if no row of the
-- ledger is such a job.
pub cached-Answers :
    {U R : Type 0} (key ttl now : ℕ) (l : Ledger U R)
    → Answers key ttl now l.rows (cached key ttl now l)
unfolding cached
cached-Answers key ttl now l =
    answered key ttl now l.rows _ (newest-Found (is_hit key ttl now) l.rows)
