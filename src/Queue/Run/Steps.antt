-- ===== src/Queue/Run/Steps.antt =====
-- The invariant holds at every step of a run, and what it says of a job that is assembled.
use pdf_engine_toolbox.Base.{
  ℕ, ◌≡◌, ◌<◌, ◌≢◌, inl, inr, sym, ◌∙◌, subst, Bool, true, false, none, some, List, ◌∷◌, ◌==◌,
  is_some, arith, count, Bool-cases, ==_iff, lookup,
}
use pdf_engine_toolbox.Queue.State.{Host, Job, Request}
use pdf_engine_toolbox.Queue.Next.{Pick, next_unit}
use pdf_engine_toolbox.Queue.Next.Pages.{Effect, next_unit-Effect}
use pdf_engine_toolbox.Queue.Work.{Outcome, begin_run, end_run, finish, expire, add_job}
use pdf_engine_toolbox.Queue.Run.{
  System, Step, Reach, holding, reading, Holds, here, there, arrive, take, rest, bring, close,
  give_up, start, next,
}
use pdf_engine_toolbox.Queue.Run.Ends.{
  finish-Ends, finish-others, end_run-own, end_run-others, expire-others, expire-finishing,
}
use pdf_engine_toolbox.Queue.Run.Hands.{Holds-holding, reading_page-le}
use pdf_engine_toolbox.Queue.Run.Inv.{
  Inv, JobInv, Closers, SameWork-JobInv, take-jobs, take-Closers, arrive-own, arrive-others,
  drop-JobInv, bring-JobInv, record_unit-finishing, close-JobInv, expire-own,
}

-- What is held after something was put down was held before.
Holds-more :
    {p x : Pick} {ps qs rs : List Pick}
    → Holds p ps qs
    → Holds x qs rs
    → (zs : List Pick) × Holds x ps zs
Holds-more here m = (_, there m)
Holds-more (there a) here = (_, here)
Holds-more (there a) (there m) = let (zs, n) = Holds-more a m in (_, there n)

Holds-same : (x : Pick) (ps rs : List Pick) → Holds x ps rs → (zs : List Pick) × Holds x ps zs
Holds-same x ps rs m = (rs, m)

module _ {h : Host} where
  -- A step that changes one job object, by what it does to that one.
  write-jobs :
      (r : ℕ) (ps qs : List Pick) (f g : ℕ → Job h)
      → ((s : ℕ) → r ≢ s → g s ≡ f s)
      → ((s : ℕ) → r ≢ s → JobInv s ps (f s) → JobInv s qs (f s))
      → JobInv r qs (g r)
      → ((s : ℕ) → JobInv s ps (f s))
      → (s : ℕ) → JobInv s qs (g s)
  write-jobs r ps qs f g same keep own v s = elim (Bool-cases (r == s)) [
    | inl e ↦ subst (λ k. JobInv k qs (g k)) ((==_iff r s).0 e) own
    | inr e ↦
        let ne : r ≢ s = ground arith in subst (JobInv s qs) (sym (same s ne)) (keep s ne (v s))
  ]

  write-Closers :
      (r : ℕ) (ps qs : List Pick) (f g : ℕ → Job h)
      → ((s : ℕ) → r ≢ s → g s ≡ f s)
      → ((f r).finishing ≡ true → (g r).finishing ≡ true)
      → ((x : Pick) (rs : List Pick) → Holds x qs rs → (zs : List Pick) × Holds x ps zs)
      → Closers ps f
      → Closers qs g
  write-Closers r ps qs f g same own more c x rs m e =
      let (zs, n) = more x rs m in
      let was = c x zs n e in
      elim (Bool-cases (r == x.job)) [
        | inl at ↦
            let at' = (==_iff r x.job).0 at in
            subst (λ k. (g k).finishing ≡ true) at'
              (own (subst (λ k. (f k).finishing ≡ true) (sym at') was))
        | inr off ↦
            let ne : r ≢ x.job = ground arith in
            subst (λ (j : Job h). j.finishing ≡ true) (sym (same x.job ne)) was
      ]

  arrive-Inv :
      (s : System h) (r : ℕ) (a : Request h)
      → holding r s.hands ≡ 0
      → Inv s
      → Inv (record s { queue = add_job r a s.queue })
  arrive-Inv s r a free v = record {
    jobs =
        write-jobs r s.hands s.hands s.queue.heap (add_job r a s.queue).heap
          (λ k ne. arrive-others r k a s.queue ne) (λ k ne w. w)
          (arrive-own r a s.queue s.hands free) v.jobs;
    closers = λ p qs m e.
        let ne : r ≢ p.job = λ at. elim_free p qs m at in
        subst (λ (j : Job h). j.finishing ≡ true) (sym (arrive-others r p.job a s.queue ne))
          (v.closers p qs m e);
  }
    where
      elim_free : (p : Pick) (qs : List Pick) → Holds p s.hands qs → r ≡ p.job → ⊥
      elim_free p qs m at =
          let none_held = subst (λ k. holding k s.hands ≡ 0) at free in
          omega (arith, Holds-holding m, none_held)

  take-Inv :
      (s : System h) (p : Pick)
      → (next_unit s.queue).1 ≡ some p
      → Inv s
      → Inv (record { queue = (next_unit s.queue).0; hands = p ∷ s.hands })
  take-Inv s p e v =
      let effect = subst (Effect s.queue (next_unit s.queue).0) e (next_unit-Effect s.queue) in
      record {
        jobs = take-jobs s.queue (next_unit s.queue).0 p s.hands effect v.jobs;
        closers = take-Closers s.queue (next_unit s.queue).0 p s.hands effect v.closers;
      }

  rest-Inv :
      (s : System h)
      → (next_unit s.queue).1 ≡ none
      → Inv s
      → Inv (record s { queue = (next_unit s.queue).0 })
  rest-Inv s e v =
      let same = subst (Effect s.queue (next_unit s.queue).0) e (next_unit-Effect s.queue) in
      record {
        jobs = λ r. SameWork-JobInv r s.hands (s.queue.heap r) _ (same r) (v.jobs r);
        closers = λ p qs m f. ground (arith, same p.job, v.closers p qs m f);
      }

  bring-Inv :
      (s : System h) (p : Pick) (u : ℕ) (ps : List Pick) (o : Outcome (h.Page)) (t : h.Float)
      → Holds p s.hands ps
      → p.unit ≡ some u
      → s.queue.stopped ≡ false
      → Inv s
      → Inv (record { queue = end_run p.job u o t (begin_run s.queue); hands = ps })
  bring-Inv s p u ps o t m e live v =
      let own = end_run-own p.job u o t s.queue live in
      record {
        jobs =
            write-jobs p.job s.hands ps s.queue.heap _
              (λ k ne. end_run-others p.job k u o t s.queue ne)
              (λ k ne. drop-JobInv k (s.queue.heap k) m ne)
              (subst (JobInv p.job ps) (sym own)
                (bring-JobInv u o (s.queue.heap p.job) m e (v.jobs p.job)))
              v.jobs;
        closers =
            write-Closers p.job s.hands ps s.queue.heap _
              (λ k ne. end_run-others p.job k u o t s.queue ne)
              (λ f.
                subst (λ (j : Job h). j.finishing ≡ true) (sym own)
                  (record_unit-finishing u o (s.queue.heap p.job) ∙ f))
              (λ x rs n. Holds-more m n) v.closers;
      }

  close-Inv :
      (s : System h) (p : Pick) (ps : List Pick) (a : Outcome (h.Response))
      (b c : Outcome (Unit {0})) (d : Bool)
      → Holds p s.hands ps
      → p.unit ≡ none
      → Inv s
      → Inv (record { queue = finish p.job a b c d s.queue; hands = ps })
  close-Inv s p ps a b c d m e v =
      let out = v.closers p ps m e in
      let mine = v.jobs p.job in
      let ends = finish-Ends p.job a b c d s.queue out (mine.out out).0 in
      record {
        jobs =
            write-jobs p.job s.hands ps s.queue.heap _
              (λ k ne. finish-others p.job k a b c d s.queue ne)
              (λ k ne. drop-JobInv k (s.queue.heap k) m ne)
              (close-JobInv (s.queue.heap p.job) _ m e out ends mine) v.jobs;
        closers =
            write-Closers p.job s.hands ps s.queue.heap _
              (λ k ne. finish-others p.job k a b c d s.queue ne) (λ _. ends.finishing)
              (λ x rs n. Holds-more m n) v.closers;
      }

  give_up-Inv : (s : System h) (r : ℕ) → Inv s → Inv (record s { queue = expire r s.queue })
  give_up-Inv s r v = record {
    jobs =
        write-jobs r s.hands s.hands s.queue.heap _ (λ k ne. expire-others r k s.queue ne)
          (λ k ne w. w) (expire-own r s.queue s.hands (v.jobs r)) v.jobs;
    closers =
        write-Closers r s.hands s.hands s.queue.heap _ (λ k ne. expire-others r k s.queue ne)
          (λ f. expire-finishing r s.queue ∙ f) (λ x rs m. Holds-same x s.hands rs m) v.closers;
  }

  -- Whatever the workers, submitters and deadlines do, and in whatever order, the invariant stays.
  pub Step-Inv : {s t : System h} → Step s t → Inv s → Inv t
  Step-Inv (arrive s r a _ free) v = arrive-Inv s r a free v
  Step-Inv (take s p _ e) v = take-Inv s p e v
  Step-Inv (rest s _ e) v = rest-Inv s e v
  Step-Inv (bring s p u ps o t m e live) v = bring-Inv s p u ps o t m e live v
  Step-Inv (close s p ps a b c d m e) v = close-Inv s p ps a b c d m e v
  Step-Inv (give_up s r) v = give_up-Inv s r v

  pub Reach-Inv : {s t : System h} → Reach s t → Inv s → Inv t
  Reach-Inv start v = v
  Reach-Inv (next r st) v = Step-Inv st (Reach-Inv r v)

  -- From a system in which the invariant holds, after any interleaving of arrivals, worker
  -- sections and deadlines, a job that a worker holds to finish and that has no error has a
  -- recorded result for every requested page, and no worker is reading a page of it.
  pub finished_has_every_page :
      {s t : System h} (p : Pick) (ps : List Pick) (u : ℕ)
      → Inv s
      → Reach s t
      → Holds p t.hands ps
      → p.unit ≡ none
      → (t.queue.heap p.job).error ≡ none
      → 0 < count u (t.queue.heap p.job).targets
      → (is_some (lookup u (t.queue.heap p.job).done) ≡ true) × (reading p.job t.hands ≡ 0)
  finished_has_every_page {t = t} p ps u v run m e clean asked =
      let w = Reach-Inv run v in
      let mine = w.jobs p.job in
      let out = mine.out (w.closers p ps m e) in
      ground (arith, mine.flight, mine.covered clean u asked, out, reading_page-le p.job u t.hands)
