-- ===== src/Auth/Once.antt =====
-- A version 2 request is accepted once: the ledger keeps its nonce for as long as the request would
-- pass the freshness check. And the ledger stays within its limit.
use pdf_engine_toolbox.Base.{
  ◌≡◌, ◌≤◌, ◌⊎◌, inl, inr, refl, sym, ◌∙◌, ap, subst, Bool, true, false, Option, none, some, List,
  [], ◌∷◌, length, arith, Bool-cases, All,
}
use pdf_engine_toolbox.Base.Int.{ℤ, pos, ◌+ℤ◌, ◌-ℤ◌, ◌≤ℤ◌, abs, int_laws}
use pdf_engine_toolbox.Errors.{Text, Result, ok, err, is_ok, text_eq_refl}
use pdf_engine_toolbox.Auth.{
  AuthSettings, Digests, HttpRequest, NonceLedger, holds_hash, unexpired, header, claim_nonce,
  check_v2, check_signature, use_up, verify_headers, verify_hmac, max_drift,
}
use pdf_engine_toolbox.Auth.Replay.{Passes, passes, check_signature-ok, Result-cases}

-- The ledger holds this hash with this expiry.
abbrev pub Row : Text → ℤ → NonceLedger → Type 0
Row k e [] = ⊥
Row k e ((j, x) ∷ l) = ((j ≡ k) × (x ≡ e)) ⊎ Row k e l

Row-unexpired :
    (k : Text) (e now : ℤ) (l : NonceLedger) → now ≤ℤ e → Row k e l → Row k e (unexpired now l)
Row-unexpired k e now [] le m = m
Row-unexpired k e now ((j, x) ∷ l) le (inl at) = ground arith
Row-unexpired k e now ((j, x) ∷ l) le (inr m) = ground (arith, Row-unexpired k e now l le m)

Row-holds_hash : (k : Text) (e : ℤ) (l : NonceLedger) → Row k e l → holds_hash k l ≡ true
Row-holds_hash k e [] m = absurd m
Row-holds_hash k e ((j, x) ∷ l) (inl at) = ground (arith, text_eq_refl k)
Row-holds_hash k e ((j, x) ∷ l) (inr m) = ground (arith, Row-holds_hash k e l m)

module _ (s : AuthSettings) (d : Digests) where
  claim_nonce-Row :
      (av : Bool) (n : Text) (now e x : ℤ) (k : Text) (l : NonceLedger)
      → now ≤ℤ e
      → Row k e l
      → Row k e (claim_nonce s d av n now x l).1
  unfolding claim_nonce
  claim_nonce-Row av n now e x k l le m = ground (arith, Row-unexpired k e now l le m)

  claim_nonce-records :
      (av : Bool) (n : Text) (now x : ℤ) (l : NonceLedger)
      → is_ok (claim_nonce s d av n now x l).0 ≡ true
      → Row (d.sha256 n) x (claim_nonce s d av n now x l).1
  unfolding claim_nonce
  claim_nonce-records av n now x l e = ground arith

  claim_nonce-refuses :
      (av : Bool) (n : Text) (now e x : ℤ) (l : NonceLedger)
      → now ≤ℤ e
      → Row (d.sha256 n) e l
      → is_ok (claim_nonce s d av n now x l).0 ≡ false
  unfolding claim_nonce
  claim_nonce-refuses av n now e x l le m = ground (
    arith,
    Row-holds_hash (d.sha256 n) e (unexpired now l) (Row-unexpired (d.sha256 n) e now l le m),
  )

  check_v2-nonce :
      (r : HttpRequest) (n : Option Text)
      → check_v2 s d true r ≡ ok n
      → (k : Text) × (n ≡ some k) × (header r.x_nonce ≡ some k)
  unfolding check_v2
  check_v2-nonce r n e = ground arith

  -- A verification, whatever it comes to, keeps a row that has not expired.
  use_up-Row :
      (n : Option Text) (av : Bool) (now e : ℤ) (k : Text) (x : Result ℤ) (l : NonceLedger)
      → now ≤ℤ e
      → Row k e l
      → Row k e (use_up s d n av now x l).1
  unfolding use_up
  use_up-Row n av now e k (err x) l le m = m
  use_up-Row none av now e k (ok ts) l le m = m
  use_up-Row (some n) av now e k (ok ts) l le m = claim_nonce-Row av n now e _ k l le m

  verify_headers-eq :
      (v2 av : Bool) (now : ℤ) (t g : Text) (n : Option Text) (r : HttpRequest) (l : NonceLedger)
      → check_v2 s d v2 r ≡ ok n
      → verify_headers s d v2 av now (some t) (some g) r l
        ≡ use_up s d n av now (check_signature s d v2 n t g now r) l
  unfolding verify_headers
  verify_headers-eq v2 av now t g n r l e = rw (e, verify_headers) refl

  verify_headers-Row :
      (v2 av : Bool) (now e : ℤ) (k : Text) (t g : Option Text) (r : HttpRequest) (l : NonceLedger)
      → now ≤ℤ e
      → Row k e l
      → Row k e (verify_headers s d v2 av now t g r l).1
  unfolding verify_headers
  verify_headers-Row v2 av now e k none g r l le m = m
  verify_headers-Row v2 av now e k (some t) none r l le m = m
  verify_headers-Row v2 av now e k (some t) (some g) r l le m =
      elim (Result-cases (check_v2 s d v2 r)) [
        | inr refused ↦ ground arith
        | inl (n, ok_n) ↦
            subst (λ (x : Result (Unit {0}) × NonceLedger). Row k e x.1)
              (sym (verify_headers-eq v2 av now t g n r l ok_n)) (use_up-Row n av now e k _ l le m)
      ]

  verify_hmac-Row :
      (v2 av : Bool) (now e : ℤ) (k : Text) (r : HttpRequest) (l : NonceLedger)
      → now ≤ℤ e
      → Row k e l
      → Row k e (verify_hmac s d v2 av now r l).1
  unfolding verify_hmac
  verify_hmac-Row v2 av now e k r l le m = verify_headers-Row v2 av now e k _ _ r l le m

-- One call of the check.
pub record Check : Type 0 where
  pub v2 : Bool
  pub available : Bool
  pub now : ℤ
  pub request : HttpRequest

module _ (s : AuthSettings) (d : Digests) where
  abbrev pub verify : Check → NonceLedger → Result (Unit {0}) × NonceLedger
  verify c l = verify_hmac s d c.v2 c.available c.now c.request l

  abbrev pub verify_all : List Check → NonceLedger → NonceLedger
  verify_all [] l = l
  verify_all (c ∷ cs) l = verify_all cs (verify c l).1

  verify_all-Row :
      (cs : List Check) (now e : ℤ) (k : Text) (l : NonceLedger)
      → All (λ c. c.now ≤ℤ now) cs
      → now ≤ℤ e
      → Row k e l
      → Row k e (verify_all cs l)
  verify_all-Row [] now e k l before le m = m
  verify_all-Row (c ∷ cs) now e k l before le m =
      verify_all-Row cs now e k (verify c l).1 before.1 le
        (verify_hmac-Row s d c.v2 c.available c.now e k c.request l (omega arith) m)

  -- The expiry of an accepted nonce.
  abbrev deadline : ℤ → ℤ
  deadline signed = signed +ℤ pos s.sensitive_auth_max_timestamp_drift_ms

  accepted-Row :
      (v2 av : Bool) (now : ℤ) (r : HttpRequest) (l : NonceLedger) (p : Passes s d v2 av now r l)
      → v2 ≡ true
      → is_ok (verify_hmac s d v2 av now r l).0 ≡ true
      → (k : Text) × (header r.x_nonce ≡ some k)
        × Row (d.sha256 k) (deadline p.signed) (verify_hmac s d v2 av now r l).1
  unfolding use_up
  accepted-Row v2 av now r l p is_v2 e =
      let (k, used, there) =
        check_v2-nonce s d r p.used (subst (λ v. check_v2 s d v r ≡ ok p.used) is_v2 p.has_nonce) in
      let whole : verify_hmac s d v2 av now r l ≡ claim_nonce s d av k now (deadline p.signed) l =
        p.same ∙ ap (λ n. use_up s d n av now (ok p.signed) l) used in
      (
        k,
        there,
        subst (λ (x : Result (Unit {0}) × NonceLedger). Row (d.sha256 k) (deadline p.signed) x.1)
            (sym whole)
            (claim_nonce-records s d av k now (deadline p.signed) l
              (subst (λ (x : Result (Unit {0}) × NonceLedger). is_ok x.0 ≡ true) whole e)),
      )

  in_time :
      (now ts : ℤ) → abs (now -ℤ ts) ≤ s.sensitive_auth_max_timestamp_drift_ms → now ≤ℤ deadline ts
  in_time now ts h = omega int_laws

  used-refused :
      (v2 av : Bool) (now : ℤ) (r : HttpRequest) (l : NonceLedger) (p : Passes s d v2 av now r l)
      (k : Text)
      → v2 ≡ true
      → header r.x_nonce ≡ some k
      → now ≤ℤ deadline p.signed
      → Row (d.sha256 k) (deadline p.signed) l
      → is_ok (verify_hmac s d v2 av now r l).0 ≡ false
  unfolding use_up
  used-refused v2 av now r l p k is_v2 has le m =
      let (j, used, there) =
        check_v2-nonce s d r p.used (subst (λ v. check_v2 s d v r ≡ ok p.used) is_v2 p.has_nonce) in
      let same_nonce : j ≡ k = cc in
      let whole : verify_hmac s d v2 av now r l ≡ claim_nonce s d av k now (deadline p.signed) l =
        p.same ∙ ap (λ n. use_up s d n av now (ok p.signed) l) (used ∙ ap some same_nonce) in
      subst (λ (x : Result (Unit {0}) × NonceLedger). is_ok x.0 ≡ false) (sym whole)
        (claim_nonce-refuses s d av k now (deadline p.signed) (deadline p.signed) l le m)

  fresh_enough :
      (v2 av : Bool) (now : ℤ) (r : HttpRequest) (l : NonceLedger) (p : Passes s d v2 av now r l)
      → v2 ≡ true
      → now ≤ℤ deadline p.signed
  unfolding max_drift
  fresh_enough v2 av now r l p is_v2 = in_time now p.signed (
      subst (λ v. abs (now -ℤ p.signed) ≤ max_drift s d v) is_v2
        (check_signature-ok s d v2 p.used p.timestamp p.signature now p.signed r p.verified).1)

  same_signed :
      (a b : Check) (l k : NonceLedger) (p : Passes s d a.v2 a.available a.now a.request l)
      (q : Passes s d b.v2 b.available b.now b.request k)
      → a.request.x_timestamp ≡ b.request.x_timestamp
      → p.signed ≡ q.signed
  same_signed a b l k p q e =
      let pc =
        check_signature-ok s d a.v2 p.used p.timestamp p.signature a.now p.signed a.request
          p.verified in
      let qc =
        check_signature-ok s d b.v2 q.used q.timestamp q.signature b.now q.signed b.request
          q.verified in
      let same : header a.request.x_timestamp ≡ header b.request.x_timestamp = ap header e in
      cc (p.has_timestamp, q.has_timestamp, same, pc.0, qc.0)

  -- Of two version 2 checks with the same timestamp and nonce headers, the later is refused if the
  -- earlier was accepted, whatever was checked in between, as long as no check in between ran at a
  -- later time than the later check.
  pub verify_once :
      (a b : Check) (cs : List Check) (l : NonceLedger)
      → a.v2 ≡ true
      → b.v2 ≡ true
      → a.request.x_timestamp ≡ b.request.x_timestamp
      → a.request.x_nonce ≡ b.request.x_nonce
      → All (λ c. c.now ≤ℤ b.now) cs
      → is_ok (verify a l).0 ≡ true
      → is_ok (verify b (verify_all cs (verify a l).1)).0 ≡ false
  verify_once a b cs l va vb et en before accepted =
      let mid = verify_all cs (verify a l).1 in
      elim (Bool-cases (is_ok (verify b mid).0)) [
        | inr refused ↦ refused
        | inl again ↦
            let p = passes s d a.v2 a.available a.now a.request l accepted in
            let q = passes s d b.v2 b.available b.now b.request mid again in
            let (k, has, row) = accepted-Row a.v2 a.available a.now a.request l p va accepted in
            let le = fresh_enough b.v2 b.available b.now b.request mid q vb in
            let row' =
              subst (λ t. Row (d.sha256 k) (deadline t) (verify a l).1)
                (same_signed a b l mid p q et) row in
            used-refused b.v2 b.available b.now b.request mid q k vb (sym (ap header en) ∙ has) le (
              verify_all-Row cs b.now (deadline q.signed) (d.sha256 k) (verify a l).1 before le
                row')
      ]

  length-unexpired : (now : ℤ) (l : NonceLedger) → length (unexpired now l) ≤ length l
  length-unexpired now [] = omega arith
  length-unexpired now (e ∷ l) = ground (arith, length-unexpired now l)

  -- The ledger after a check: within the limit if it was before, and the same if the check refused.
  abbrev Keeps : NonceLedger → Result (Unit {0}) × NonceLedger → Type 0
  Keeps l (x, l') =
      (length l ≤ s.sensitive_nonce_cache_max_entries
        → length l' ≤ s.sensitive_nonce_cache_max_entries)
      × (is_ok x ≡ false → l' ≡ l)

  claim_nonce-Keeps :
      (av : Bool) (n : Text) (now x : ℤ) (l : NonceLedger) → Keeps l (claim_nonce s d av n now x l)
  unfolding claim_nonce
  claim_nonce-Keeps av n now x l = (ground arith, ground arith)

  use_up-Keeps :
      (n : Option Text) (av : Bool) (now : ℤ) (x : Result ℤ) (l : NonceLedger)
      → Keeps l (use_up s d n av now x l)
  unfolding use_up
  use_up-Keeps n av now (err x) l = (λ h. h, λ _. refl)
  use_up-Keeps none av now (ok ts) l = (λ h. h, λ _. refl)
  use_up-Keeps (some n) av now (ok ts) l = claim_nonce-Keeps av n now (deadline ts) l

  verify_headers-Keeps :
      (v2 av : Bool) (now : ℤ) (t g : Option Text) (r : HttpRequest) (l : NonceLedger)
      → Keeps l (verify_headers s d v2 av now t g r l)
  unfolding verify_headers
  verify_headers-Keeps v2 av now none g r l = (λ h. h, λ _. refl)
  verify_headers-Keeps v2 av now (some t) none r l = (λ h. h, λ _. refl)
  verify_headers-Keeps v2 av now (some t) (some g) r l = elim (Result-cases (check_v2 s d v2 r)) [
    | inr refused ↦ ground arith
    | inl (n, ok_n) ↦
        subst (Keeps l) (sym (verify_headers-eq s d v2 av now t g n r l ok_n))
          (use_up-Keeps n av now (check_signature s d v2 n t g now r) l)
  ]

  -- A check keeps the nonce ledger within its limit if it was within it, and leaves it as it was
  -- if the check refused.
  pub verify_hmac-ledger :
      (v2 av : Bool) (now : ℤ) (r : HttpRequest) (l : NonceLedger)
      → (length l ≤ s.sensitive_nonce_cache_max_entries
          → length (verify_hmac s d v2 av now r l).1 ≤ s.sensitive_nonce_cache_max_entries)
        × (is_ok (verify_hmac s d v2 av now r l).0 ≡ false → (verify_hmac s d v2 av now r l).1 ≡ l)
  unfolding verify_hmac
  verify_hmac-ledger v2 av now r l = verify_headers-Keeps v2 av now _ _ r l
