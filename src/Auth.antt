-- ===== src/Auth.antt =====
-- app/auth/hmac_auth.py: the HMAC-SHA256 check of a request, and the ledger of used nonces that
-- makes a version 2 request good for one use.
pub mod Replay
pub mod Once
use pdf_engine_toolbox.Base.{
  ℕ, ◌+◌, Bool, true, false, not, ◌&&◌, ◌||◌, Option, none, some, List, [], ◌∷◌, ◌++◌, ltb, leb,
  ◌==◌, if◌then◌else◌, length, keep_if, any, is_empty,
}
use pdf_engine_toolbox.Base.Int.{ℤ, pos, ◌+ℤ◌, ◌-ℤ◌, ltb_ℤ, abs}
use pdf_engine_toolbox.Errors.{
  Text, codes, Result, ok, err, ◌>>=◌, ◌>>◌, raise_if, authentication_error, text_eq,
}

-- The settings that the check reads (app/config.py).
pub record AuthSettings : Type 0 where
  pub pdf_engine_secret : Text
  pub workers : ℕ
  pub max_timestamp_drift_ms : ℕ
  pub sensitive_auth_max_timestamp_drift_ms : ℕ
  pub sensitive_nonce_cache_max_entries : ℕ

-- What is taken from Python: hex digests and `int(text)`, which fails on what is no number.
pub record Digests : Type 0 where
  pub sha256 : Text → Text
  pub hmac_sha256 : Text → Text → Text
  pub parse_int : Text → Option ℤ

-- A header that is missing is `none`.
pub record HttpRequest : Type 0 where
  pub x_timestamp : Option Text
  pub x_signature : Option Text
  pub x_auth_version : Option Text
  pub x_nonce : Option Text
  pub http_method : Text
  pub url_path : Text
  pub body : Text

-- A row of `sensitive_hmac_nonces`: the hash and `expires_at_ms`.
abbrev pub NonceLedger : Type 0
NonceLedger = List (Text × ℤ)

abbrev pub holds_hash : Text → NonceLedger → Bool
holds_hash k [] = false
holds_hash k ((j, e) ∷ l) = if text_eq j k then true else holds_hash k l

-- `DELETE ... WHERE expires_at_ms < now_ms`
abbrev pub unexpired : ℤ → NonceLedger → NonceLedger
unexpired now [] = []
unexpired now ((k, e) ∷ l) = if ltb_ℤ e now then unexpired now l else (k, e) ∷ unexpired now l

-- `_NONCE_PATTERN`: 32 to 64 hexadecimal digits.
abbrev is_hex : ℕ → Bool
is_hex c = (leb b'0' c && leb c b'9') || (leb b'a' c && leb c b'f') || (leb b'A' c && leb c b'F')

unfoldable pub nonce_ok : Text → Bool
nonce_ok n = leb 32 (length n) && leb (length n) 64 && not (any (λ c. not (is_hex c)) n)

-- A header that is absent or empty reads as false.
abbrev pub header : Option Text → Option Text
header none = none
header (some []) = none
header (some (c ∷ t)) = some (c ∷ t)

abbrev invalid_v2 : Result (Option Text)
invalid_v2 = err (authentication_error (codes "Missing or invalid HMAC v2 headers"))

-- `auth_version != "2" or not nonce or not _NONCE_PATTERN.fullmatch(nonce)` raises.
unfoldable pub check_v2_headers : Option Text → Option Text → Result (Option Text)
check_v2_headers none n = invalid_v2
check_v2_headers (some v) none = invalid_v2
check_v2_headers (some v) (some n) =
    if text_eq v (codes "2") && nonce_ok n then ok (some n) else invalid_v2

module _ (s : AuthSettings) (d : Digests) where
  -- `_claim_sensitive_nonce`: one transaction, rolled back when it raises. `available` is false when
  -- the database cannot be opened or written.
  unfoldable pub claim_nonce : Bool → Text → ℤ → ℤ → NonceLedger → Result (Unit {0}) × NonceLedger
  claim_nonce available nonce now expires l =
      let kept = unexpired now l in
      let hash = d.sha256 nonce in
      if not available
      then (err (authentication_error (codes "Sensitive request replay store unavailable")), l)
      else if leb s.sensitive_nonce_cache_max_entries (length kept)
      then (err (authentication_error (codes "Sensitive request replay cache is full")), l)
      else if holds_hash hash kept
      then (err (authentication_error (codes "Request replay detected")), l)
      else (ok tt, (hash, expires) ∷ kept)

  -- `v2:{timestamp}:{nonce}:{method}:{path}:{body_hash}`, without the version and nonce in version 1.
  unfoldable pub message : Option Text → Text → HttpRequest → Text
  message (some nonce) timestamp r =
      codes "v2:"
      ++ (timestamp
          ++ (codes ":"
              ++ (nonce
                  ++ (codes ":"
                      ++ (r.http_method
                          ++ (codes ":" ++ (r.url_path ++ (codes ":" ++ d.sha256 r.body))))))))
  message none timestamp r =
      timestamp
      ++ (codes ":"
          ++ (r.http_method ++ (codes ":" ++ (r.url_path ++ (codes ":" ++ d.sha256 r.body)))))

  unfoldable pub max_drift : Bool → ℕ
  max_drift true = s.sensitive_auth_max_timestamp_drift_ms
  max_drift false = s.max_timestamp_drift_ms

  -- The nonce of a version 2 request; a version 1 request has none to claim.
  unfoldable pub check_v2 : Bool → HttpRequest → Result (Option Text)
  unfolding check_v2_headers
  check_v2 false r = ok none
  check_v2 true r =
      if not (s.workers == 1)
      then err
          (authentication_error (codes "Sensitive HMAC v2 requires a single replay-cache worker"))
      else check_v2_headers r.x_auth_version (header r.x_nonce)

  -- Freshness and signature; the signed time.
  unfoldable pub check_signature : Bool → Option Text → Text → Text → ℤ → HttpRequest → Result ℤ
  unfolding max_drift message
  check_signature v2 nonce timestamp signature now r = elim (d.parse_int timestamp) [
    | none ↦ err (authentication_error (codes "Invalid timestamp format"))
    | some ts ↦
        if ltb (max_drift v2) (abs (now -ℤ ts))
        then err (authentication_error (codes "Request timestamp expired"))
        else if text_eq signature (d.hmac_sha256 s.pdf_engine_secret (message nonce timestamp r))
        then ok ts
        else err (authentication_error (codes "Invalid signature"))
  ]

  -- The last step: a version 2 request uses its nonce up. The row covers the whole time in which the
  -- request would be accepted, up to the signed time plus the drift.
  unfoldable pub use_up :
      Option Text → Bool → ℤ → Result ℤ → NonceLedger → Result (Unit {0}) × NonceLedger
  unfolding claim_nonce
  use_up n available now (err e) l = (err e, l)
  use_up none available now (ok ts) l = (ok tt, l)
  use_up (some n) available now (ok ts) l =
      claim_nonce available n now (ts +ℤ pos s.sensitive_auth_max_timestamp_drift_ms) l

  verify_headers :
      Bool
      → Bool
      → ℤ
      → Option Text
      → Option Text
      → HttpRequest
      → NonceLedger
      → Result (Unit {0}) × NonceLedger
  verify_headers v2 available now (some timestamp) (some signature) r l = elim (check_v2 v2 r) [
    | err e ↦ (err e, l)
    | ok nonce ↦ use_up nonce available now (check_signature v2 nonce timestamp signature now r) l
  ]
  verify_headers v2 available now none signature r l =
      (err (authentication_error (codes "Missing X-Timestamp or X-Signature headers")), l)
  verify_headers v2 available now (some timestamp) none r l =
      (err (authentication_error (codes "Missing X-Timestamp or X-Signature headers")), l)

  -- `verify_hmac`, at the time `now` in milliseconds.
  unfoldable pub verify_hmac :
      Bool → Bool → ℤ → HttpRequest → NonceLedger → Result (Unit {0}) × NonceLedger
  unfolding verify_headers
  verify_hmac v2 available now r l =
      verify_headers v2 available now (header r.x_timestamp) (header r.x_signature) r l
