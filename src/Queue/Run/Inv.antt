-- ===== src/Queue/Run/Inv.antt =====
-- The invariant of a run: every page of a job that has not failed is still to be read, being read,
-- or has a result; `inflight` counts the workers on the job; a job handed out to be finished has
-- nothing left.
use pdf_engine_toolbox.Base.{
  ℕ, ◌+◌, ◌≡◌, ◌<◌, ◌≢◌, ◌⊎◌, inl, inr, refl, sym, subst, ◌∙◌, true, none, some, List, [], ◌∷◌,
  ◌==◌, arith, lookup-insert, count, Bool-cases, Option-cases, ==_iff,
}
use pdf_engine_toolbox.Queue.State.{Host, Job, OcrQueue, Request}
use pdf_engine_toolbox.Queue.Next.{Pick}
use pdf_engine_toolbox.Queue.Next.Pages.{SameWork, Starts, Finishes, Own, Effect}
use pdf_engine_toolbox.Queue.Work.{Outcome, returned, threw, record_unit, expire, add_job}
use pdf_engine_toolbox.Queue.Run.{System, holding, reading, reading_page, Holds, here, there}
use pdf_engine_toolbox.Queue.Run.Ends.{Ends}
use pdf_engine_toolbox.Queue.Run.Hands.{
  reading-le-holding, Holds-reading, Holds-reading_page, present, left_or_present,
}

module _ {h : Host} where
  -- Every requested page is left, being read, or done.
  abbrev pub Covers : (r : ℕ) → List Pick → Job h → Type 0
  Covers r ps j =
      (u : ℕ) → 0 < count u j.targets → 0 < count u j.units + reading_page r u ps + present u j.done

  pub record JobInv (r : ℕ) (ps : List Pick) (j : Job h) : Type 0 where
    pub flight : j.inflight ≡ reading r ps
    pub out : j.finishing ≡ true → (j.units ≡ []) × (j.inflight ≡ 0)
    pub failed : (j.units ≡ []) ⊎ (j.error ≡ none)
    pub covered : j.error ≡ none → Covers r ps j

  -- Whoever holds a job to finish it holds one that was marked so.
  abbrev pub Closers : List Pick → (ℕ → Job h) → Type 0
  Closers ps heap =
      (p : Pick) (qs : List Pick) → Holds p ps qs → p.unit ≡ none → (heap p.job).finishing ≡ true

  pub record Inv (s : System h) : Type 0 where
    pub jobs : (r : ℕ) → JobInv r s.hands (s.queue.heap r)
    pub closers : Closers s.hands s.queue.heap

  pub SameWork-JobInv :
      (r : ℕ) (ps : List Pick) (j k : Job h) → SameWork j k → JobInv r ps j → JobInv r ps k
  SameWork-JobInv r ps j k w v = record {
    flight = ground arith;
    out = ground arith;
    failed = ground arith;
    covered = λ e u m. ground (arith, v.covered (sym w.error ∙ e) u);
  }

  -- A pick of another job does not count.
  others-JobInv :
      (r : ℕ) (p : Pick) (ps : List Pick) (j : Job h)
      → p.job ≢ r
      → JobInv r ps j
      → JobInv r (p ∷ ps) j
  others-JobInv r p ps j ne v = record {
    flight = ground arith;
    out = v.out;
    failed = v.failed;
    covered = λ e u m. ground (arith, v.covered e u m);
  }

  Own-JobInv :
      (p : Pick) (ps : List Pick) (j k : Job h)
      → Own j k p
      → JobInv p.job ps j
      → JobInv p.job (p ∷ ps) k
  Own-JobInv p ps j k o v = elim (Option-cases p.unit) [
    | inl e ↦
        let w : Finishes j k = ground arith in
        record {
          flight = ground arith;
          out = ground arith;
          failed = ground arith;
          covered = λ q u m. ground (arith, v.covered (sym w.error ∙ q) u);
        }
    | inr (x, e) ↦
        let w : Starts j k x p.first = ground arith in
        record {
          flight = ground arith;
          out = ground arith;
          failed = ground arith;
          covered = λ q u m. ground (arith, v.covered (sym w.error ∙ q) u);
        }
  ]

  pub take-jobs :
      (q q' : OcrQueue h) (p : Pick) (ps : List Pick)
      → Effect q q' (some p)
      → ((r : ℕ) → JobInv r ps (q.heap r))
      → (r : ℕ) → JobInv r (p ∷ ps) (q'.heap r)
  take-jobs q q' p ps (others, own) v r = elim (Bool-cases (p.job == r)) [
    | inl same ↦
        subst (λ k. JobInv k (p ∷ ps) (q'.heap k)) ((==_iff p.job r).0 same)
          (Own-JobInv p ps (q.heap p.job) (q'.heap p.job) own (v p.job))
    | inr other ↦
        let ne : p.job ≢ r = ground arith in
        others-JobInv r p ps (q'.heap r) ne
          (SameWork-JobInv r ps (q.heap r) (q'.heap r) (others r ne) (v r))
  ]

  Own-finishing :
      (p : Pick) (j k : Job h)
      → Own j k p
      → (p.unit ≡ none) ⊎ (j.finishing ≡ true)
      → k.finishing ≡ true
  Own-finishing p j k o f = elim (Option-cases p.unit) [
    | inl e ↦ let w : Finishes j k = ground arith in ground arith
    | inr (x, e) ↦ let w : Starts j k x p.first = ground arith in ground arith
  ]

  pub take-Closers :
      (q q' : OcrQueue h) (p : Pick) (ps : List Pick)
      → Effect q q' (some p)
      → Closers ps q.heap
      → Closers (p ∷ ps) q'.heap
  take-Closers q q' p ps (others, own) c x qs here e =
      Own-finishing p (q.heap p.job) (q'.heap p.job) own (inl e)
  take-Closers q q' p ps (others, own) c x (y ∷ qs) (there m) e =
      elim (Bool-cases (p.job == x.job)) [
        | inl same ↦
            let at = (==_iff p.job x.job).0 same in
            subst (λ k. (q'.heap k).finishing ≡ true) at
              (Own-finishing p (q.heap p.job) (q'.heap p.job) own
                (inr (subst (λ k. (q.heap k).finishing ≡ true) (sym at) (c x qs m e))))
        | inr other ↦ ground (arith, others x.job, c x qs m e)
      ]

  -- A new job's pages are all to be read, but those whose results came with it.
  pub arrive-own :
      (r : ℕ) (a : Request h) (q : OcrQueue h) (ps : List Pick)
      → holding r ps ≡ 0
      → JobInv r ps ((add_job r a q).heap r)
  unfolding add_job
  arrive-own r a q ps free = record {
    flight = ground (arith, reading-le-holding r ps);
    out = ground arith;
    failed = ground arith;
    covered = λ e u m. ground (arith, left_or_present u a.done a.targets);
  }

  pub arrive-others :
      (r s : ℕ) (a : Request h) (q : OcrQueue h) → r ≢ s → (add_job r a q).heap s ≡ q.heap s
  unfolding add_job
  arrive-others r s a q ne = ground arith

  -- The others keep their invariant when a worker puts down what it held.
  pub drop-JobInv :
      (r : ℕ) {p : Pick} {ps qs : List Pick} (j : Job h)
      → Holds p ps qs
      → p.job ≢ r
      → JobInv r ps j
      → JobInv r qs j
  drop-JobInv r j m ne v = record {
    flight = ground (arith, Holds-reading r m);
    out = v.out;
    failed = v.failed;
    covered = λ e u n. ground (arith, v.covered e u n, Holds-reading_page r u m);
  }

  pub bring-JobInv :
      (u : ℕ) (o : Outcome (h.Page)) {p : Pick} {ps qs : List Pick} (j : Job h)
      → Holds p ps qs
      → p.unit ≡ some u
      → JobInv p.job ps j
      → JobInv p.job qs (record_unit u o j)
  unfolding record_unit
  bring-JobInv u (returned x) {p} j m e v = record {
    flight = ground (arith, Holds-reading p.job m);
    out = ground (arith, Holds-reading p.job m);
    failed = ground arith;
    covered = λ q w n. ground (
      arith,
      v.covered q w n,
      Holds-reading_page p.job w m,
      lookup-insert w u x j.done,
      ==_iff u w,
    );
  }
  bring-JobInv u (threw x) {p} j m e v = record {
    flight = ground (arith, Holds-reading p.job m);
    out = ground (arith, Holds-reading p.job m);
    failed = inl refl;
    covered = λ q w n. absurd (ground arith);
  }

  pub record_unit-finishing :
      (u : ℕ) (o : Outcome (h.Page)) (j : Job h) → (record_unit u o j).finishing ≡ j.finishing
  unfolding record_unit
  record_unit-finishing u (returned x) j = refl
  record_unit-finishing u (threw x) j = refl

  -- A job that was handed out has nobody reading it, whoever finishes it.
  pub close-JobInv :
      {p : Pick} {ps qs : List Pick} (j k : Job h)
      → Holds p ps qs
      → p.unit ≡ none
      → j.finishing ≡ true
      → Ends j k
      → JobInv p.job ps j
      → JobInv p.job qs k
  close-JobInv {p} j k m e f w v = record {
    flight = ground (arith, Holds-reading p.job m);
    out = λ _. (w.units, ground (arith, v.out f));
    failed = inl w.units;
    covered =
        λ q u n. ground (arith, v.covered (w.error q) u, v.out f, Holds-reading_page p.job u m);
  }

  pub expire-own :
      (r : ℕ) (q : OcrQueue h) (ps : List Pick)
      → JobInv r ps (q.heap r)
      → JobInv r ps ((expire r q).heap r)
  unfolding expire
  expire-own r q ps v = record {
    flight = ground (arith, v.flight);
    out = ground (arith, v.out);
    failed = ground arith;
    covered = λ e u n. absurd (ground arith);
  }
