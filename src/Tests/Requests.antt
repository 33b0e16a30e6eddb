-- ===== src/Tests/Requests.antt =====
-- A version 2 request that is accepted, and then sent again.
use Prim.Native.Nat.{◌*◌}
use pdf_engine_toolbox.Base.{
  ℕ, ◌+◌, ◌-◌, ◌≡◌, ◌≤◌, refl, true, false, some, [], ◌∷◌, ◌++◌, arith, length,
}
use pdf_engine_toolbox.Base.Int.{ℤ, pos, ◌+ℤ◌, ◌-ℤ◌, abs}
use pdf_engine_toolbox.Errors.{Text, codes, is_ok}
use pdf_engine_toolbox.Auth.{
  AuthSettings, Digests, HttpRequest, verify_hmac, check_v2, check_signature, use_up, nonce_ok,
}
use pdf_engine_toolbox.Auth.Replay.{Accepted, verify_hmac-Accepted}
use pdf_engine_toolbox.Auth.Once.{Check, verify, verify_all, verify_once, verify_hmac-ledger}

abbrev demo_settings : AuthSettings
demo_settings = record {
  pdf_engine_secret = codes "k";
  workers = 1;
  max_timestamp_drift_ms = 300000;
  sensitive_auth_max_timestamp_drift_ms = 60000;
  sensitive_nonce_cache_max_entries = 2;
}

-- A number in decimal digits.
abbrev decimal : Text → ℕ → ℤ
decimal [] n = pos n
decimal (c ∷ t) n = decimal t (n * 10 + (c - b'0'))

abbrev demo_digests : Digests
demo_digests = record {
  sha256 = λ t. t;
  hmac_sha256 = λ k m. k ++ m;
  parse_int = λ t. some (decimal t 0);
}

abbrev demo_nonce : Text
demo_nonce = codes "0123456789abcdef0123456789ABCDEF"

abbrev unlock : HttpRequest
unlock = record {
  x_timestamp = some (codes "100500");
  x_signature = some (codes "kv2:100500:0123456789abcdef0123456789ABCDEF:POST:/unlock:pw");
  x_auth_version = some (codes "2");
  x_nonce = some demo_nonce;
  http_method = codes "POST";
  url_path = codes "/unlock";
  body = codes "pw";
}

abbrev sent_at : ℕ → Check
sent_at t = record { v2 = true; available = true; now = pos t; request = unlock }

unlock_accepted : is_ok (verify demo_settings demo_digests (sent_at 100000) []).0 ≡ true
unfolding verify_hmac check_v2 check_signature use_up nonce_ok abs ◌+ℤ◌ ◌-ℤ◌
unlock_accepted = refl

verify_once_example :
    is_ok
      (verify demo_settings demo_digests (sent_at 160500) (
        verify_all demo_settings demo_digests
          (sent_at 130000 ∷ [])
          (verify demo_settings demo_digests (sent_at 100000) []).1)).0
    ≡ false
verify_once_example =
    verify_once demo_settings demo_digests (sent_at 100000) (sent_at 160500) (sent_at 130000 ∷ [])
      [] refl refl refl refl (omega arith) unlock_accepted

verify_hmac-Accepted_example : Accepted demo_settings demo_digests true (pos 100000) unlock
verify_hmac-Accepted_example =
    verify_hmac-Accepted demo_settings demo_digests true true (pos 100000) unlock [] unlock_accepted

verify_hmac-ledger_example :
    (length {A = Text × ℤ} [] ≤ 2
      → length (verify_hmac demo_settings demo_digests true true (pos 100000) unlock []).1 ≤ 2)
    × (is_ok (verify_hmac demo_settings demo_digests true true (pos 100000) unlock []).0 ≡ false
        → (verify_hmac demo_settings demo_digests true true (pos 100000) unlock []).1 ≡ [])
verify_hmac-ledger_example =
    verify_hmac-ledger demo_settings demo_digests true true (pos 100000) unlock []
