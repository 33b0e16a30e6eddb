-- ===== src/Queue/Run/Ends.antt =====
-- How a page's return, the end of a job and a deadline change the job objects.
use pdf_engine_toolbox.Base.{ℕ, ◌≡◌, ◌≢◌, Bool, true, false, Option, none, some, [], arith}
use pdf_engine_toolbox.Queue.State.{Host, Job, OcrQueue, Failure}
use pdf_engine_toolbox.Queue.Work.{
  Outcome, returned, threw, record_unit, begin_run, end_run, finish, settle, fail_job, deliver,
  expire,
}

module _ {h : Host} where
  -- A job without pages left stays so, and what it has done and was asked to do stays too.
  pub record Ends (j k : Job h) : Type 0 where
    pub units : k.units ≡ []
    pub inflight : k.inflight ≡ j.inflight
    pub finishing : k.finishing ≡ true
    pub done : k.done ≡ j.done
    pub targets : k.targets ≡ j.targets
    pub error : k.error ≡ none → j.error ≡ none

  fail_job-Ends :
      (r : ℕ) (e : Failure) (d : Bool) (q : OcrQueue h)
      → Ends (q.heap r) ((fail_job r e d q).heap r)
  unfolding fail_job
  fail_job-Ends r e d q = ground arith

  fail_job-others :
      (r s : ℕ) (e : Failure) (d : Bool) (q : OcrQueue h)
      → r ≢ s
      → (fail_job r e d q).heap s ≡ q.heap s
  unfolding fail_job
  fail_job-others r s e d q ne = ground arith

  deliver-Ends :
      (r : ℕ) (x : h.Response) (b c : Outcome (Unit {0})) (d : Bool) (q : OcrQueue h)
      → (q.heap r).finishing ≡ true
      → (q.heap r).units ≡ []
      → Ends (q.heap r) ((deliver r x b c d q).heap r)
  unfolding deliver
  deliver-Ends r x (threw e) c d q f u = ground arith
  deliver-Ends r x (returned o) (threw e) d q f u = ground arith
  deliver-Ends r x (returned o) (returned w) d q f u = ground arith

  deliver-others :
      (r s : ℕ) (x : h.Response) (b c : Outcome (Unit {0})) (d : Bool) (q : OcrQueue h)
      → r ≢ s
      → (deliver r x b c d q).heap s ≡ q.heap s
  unfolding deliver
  deliver-others r s x b c d q ne = ground arith

  settle-Ends :
      (r : ℕ) (f : Option Failure) (a : Outcome (h.Response)) (b c : Outcome (Unit {0})) (d : Bool)
      (q : OcrQueue h)
      → (q.heap r).finishing ≡ true
      → (q.heap r).units ≡ []
      → Ends (q.heap r) ((settle r f a b c d q).heap r)
  unfolding settle
  settle-Ends r (some e) a b c d q f u = fail_job-Ends r e d q
  settle-Ends r none (threw e) b c d q f u = fail_job-Ends r e d q
  settle-Ends r none (returned x) b c d q f u = deliver-Ends r x b c d q f u

  pub finish-Ends :
      (r : ℕ) (a : Outcome (h.Response)) (b c : Outcome (Unit {0})) (d : Bool) (q : OcrQueue h)
      → (q.heap r).finishing ≡ true
      → (q.heap r).units ≡ []
      → Ends (q.heap r) ((finish r a b c d q).heap r)
  unfolding finish
  finish-Ends r a b c d q = settle-Ends r (q.heap r).error a b c d q

  pub finish-others :
      (r s : ℕ) (a : Outcome (h.Response)) (b c : Outcome (Unit {0})) (d : Bool) (q : OcrQueue h)
      → r ≢ s
      → (finish r a b c d q).heap s ≡ q.heap s
  unfolding finish
  finish-others r s a b c d q ne = ground arith

  pub end_run-own :
      (r u : ℕ) (o : Outcome (h.Page)) (t : h.Float) (q : OcrQueue h)
      → q.stopped ≡ false
      → (end_run r u o t (begin_run q)).heap r ≡ record_unit u o (q.heap r)
  unfolding end_run begin_run
  end_run-own r u o t q e = ground arith

  pub end_run-others :
      (r s u : ℕ) (o : Outcome (h.Page)) (t : h.Float) (q : OcrQueue h)
      → r ≢ s
      → (end_run r u o t (begin_run q)).heap s ≡ q.heap s
  unfolding end_run begin_run
  end_run-others r s u o t q ne = ground arith

  pub expire-others : (r s : ℕ) (q : OcrQueue h) → r ≢ s → (expire r q).heap s ≡ q.heap s
  unfolding expire
  expire-others r s q ne = ground arith

  pub expire-finishing :
      (r : ℕ) (q : OcrQueue h) → ((expire r q).heap r).finishing ≡ (q.heap r).finishing
  unfolding expire
  expire-finishing r q = ground arith
