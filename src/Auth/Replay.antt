-- ===== src/Auth/Replay.antt =====
-- What an accepted request has shown.
use pdf_engine_toolbox.Base.{
  ◌≡◌, ◌≤◌, ◌⊎◌, inl, inr, refl, ◌∙◌, ap, subst, Bool, true, false, Option, some, arith,
  Option-cases,
}
use pdf_engine_toolbox.Base.Int.{ℤ, ◌-ℤ◌, abs}
use pdf_engine_toolbox.Errors.{Text, Result, ok, err, is_ok, text_eq→eq}
use pdf_engine_toolbox.Auth.{
  AuthSettings, Digests, HttpRequest, NonceLedger, header, check_v2, check_signature, use_up,
  verify_headers, verify_hmac, max_drift, message,
}

pub Result-cases : {A : Type 0} (x : Result A) → ((a : A) × (x ≡ ok a)) ⊎ (is_ok x ≡ false)
Result-cases (ok a) = inl (a, refl)
Result-cases (err e) = inr refl

module _ (s : AuthSettings) (d : Digests) where
  -- What the service may conclude from an accepted request.
  pub record Accepted (v2 : Bool) (now : ℤ) (r : HttpRequest) : Type 0 where
    pub timestamp : Text
    pub signature : Text
    pub nonce : Option Text
    pub signed : ℤ
    pub has_timestamp : header r.x_timestamp ≡ some timestamp
    pub has_signature : header r.x_signature ≡ some signature
    pub has_nonce : check_v2 s d v2 r ≡ ok nonce
    pub is_number : d.parse_int timestamp ≡ some signed
    pub fresh : abs (now -ℤ signed) ≤ max_drift s d v2
    pub authentic : signature ≡ d.hmac_sha256 s.pdf_engine_secret (message s d nonce timestamp r)

  pub check_signature-ok :
      (v2 : Bool) (n : Option Text) (t g : Text) (now ts : ℤ) (r : HttpRequest)
      → check_signature s d v2 n t g now r ≡ ok ts
      → (d.parse_int t ≡ some ts)
        × (abs (now -ℤ ts) ≤ max_drift s d v2)
        × (g ≡ d.hmac_sha256 s.pdf_engine_secret (message s d n t r))
  unfolding check_signature
  check_signature-ok v2 n t g now ts r e = elim (Option-cases (d.parse_int t)) [
    | inl none_there ↦ absurd (ground arith)
    | inr (x, there) ↦
        ground (arith, text_eq→eq g (d.hmac_sha256 s.pdf_engine_secret (message s d n t r)))
  ]

  -- The way of an accepted request through the checks.
  pub record Passes (v2 available : Bool) (now : ℤ) (r : HttpRequest) (l : NonceLedger)
      : Type 0 where
    pub timestamp : Text
    pub signature : Text
    pub used : Option Text
    pub signed : ℤ
    pub has_timestamp : header r.x_timestamp ≡ some timestamp
    pub has_signature : header r.x_signature ≡ some signature
    pub has_nonce : check_v2 s d v2 r ≡ ok used
    pub verified : check_signature s d v2 used timestamp signature now r ≡ ok signed
    pub same : verify_hmac s d v2 available now r l ≡ use_up s d used available now (ok signed) l

  use_up-err :
      (v2 : Bool) (n : Option Text) (now : ℤ) (x : Result ℤ) (l : NonceLedger)
      → is_ok x ≡ false
      → is_ok (use_up s d n v2 now x l).0 ≡ false
  unfolding use_up
  use_up-err v2 n now (ok ts) l e = absurd (ground arith)
  use_up-err v2 n now (err x) l e = refl

  checks_first :
      (v2 available : Bool) (now : ℤ) (r : HttpRequest) (l : NonceLedger) (t g : Text)
      (n : Option Text)
      → header r.x_timestamp ≡ some t
      → header r.x_signature ≡ some g
      → check_v2 s d v2 r ≡ ok n
      → verify_hmac s d v2 available now r l
        ≡ use_up s d n available now (check_signature s d v2 n t g now r) l
  unfolding verify_hmac
  checks_first v2 available now r l t g n et eg en = rw (et, eg, verify_headers, en) refl

  signed-Passes :
      (v2 available : Bool) (now : ℤ) (r : HttpRequest) (l : NonceLedger) (t g : Text)
      (n : Option Text)
      → header r.x_timestamp ≡ some t
      → header r.x_signature ≡ some g
      → check_v2 s d v2 r ≡ ok n
      → is_ok (use_up s d n available now (check_signature s d v2 n t g now r) l).0 ≡ true
      → Passes v2 available now r l
  signed-Passes v2 available now r l t g n et eg en e =
      elim (Result-cases (check_signature s d v2 n t g now r)) [
        | inr unsigned ↦ absurd (ground (arith, use_up-err available n now _ l unsigned))
        | inl (ts, es) ↦ record {
          timestamp = t;
          signature = g;
          used = n;
          signed = ts;
          has_timestamp = et;
          has_signature = eg;
          has_nonce = en;
          verified = es;
          same =
              checks_first v2 available now r l t g n et eg en
              ∙ ap (λ x. use_up s d n available now x l) es;
        }
      ]

  pub passes :
      (v2 available : Bool) (now : ℤ) (r : HttpRequest) (l : NonceLedger)
      → is_ok (verify_hmac s d v2 available now r l).0 ≡ true
      → Passes v2 available now r l
  unfolding verify_hmac
  passes v2 available now r l e = elim (Option-cases (header r.x_timestamp)) [
    | inl no_time ↦ absurd (ground arith)
    | inr (t, et) ↦ elim (Option-cases (header r.x_signature)) [
      | inl no_signature ↦ absurd (ground arith)
      | inr (g, eg) ↦ elim (Result-cases (check_v2 s d v2 r)) [
        | inr refused ↦ absurd (ground arith)
        | inl (n, en) ↦
            signed-Passes v2 available now r l t g n et eg en
              (subst (λ x. is_ok x.0 ≡ true) (checks_first v2 available now r l t g n et eg en) e)
      ]
    ]
  ]

  -- An accepted request has its timestamp and signature headers and, where required, valid version
  -- 2 headers; its signed time is within the drift, and its signature is the HMAC of the message
  -- built from the time, the nonce, the method, the path and the hash of the body.
  pub verify_hmac-Accepted :
      (v2 available : Bool) (now : ℤ) (r : HttpRequest) (l : NonceLedger)
      → is_ok (verify_hmac s d v2 available now r l).0 ≡ true
      → Accepted v2 now r
  verify_hmac-Accepted v2 available now r l e =
      let p = passes v2 available now r l e in
      let checked =
        check_signature-ok v2 p.used p.timestamp p.signature now p.signed r p.verified in
      record {
        timestamp = p.timestamp;
        signature = p.signature;
        nonce = p.used;
        signed = p.signed;
        has_timestamp = p.has_timestamp;
        has_signature = p.has_signature;
        has_nonce = p.has_nonce;
        is_number = checked.0;
        fresh = checked.1;
        authentic = checked.2;
      }
