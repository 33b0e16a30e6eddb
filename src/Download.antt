-- ===== src/Download.antt =====
-- app/services/download_service.py: what may be downloaded, and how much of it. A text is its list of
-- code points, and so is the content of a response.
pub mod Policy
pub mod Fetch
use pdf_engine_toolbox.Base.{
  ℕ, zero, suc, ◌-◌, Bool, true, false, not, ◌&&◌, ◌||◌, Option, none, some, List, [], ◌∷◌, ◌++◌,
  reverse, leb, ◌==◌, if◌then◌else◌, any, is_empty,
}
use pdf_engine_toolbox.Base.Int.{ℤ}
use pdf_engine_toolbox.Errors.{Text, codes, PdfEngineError, source_url_rejected, text_eq}

-- `urlsplit`, with the properties that the code reads.
pub record SplitUrl : Type 0 where
  pub scheme : Text
  pub username : Option Text
  pub password : Option Text
  pub fragment : Text
  pub port : Option ℕ
  pub hostname : Option Text
  pub query : Text
  pub path : Text

-- `ipaddress.ip_address`, with the properties that the code reads.
pub record Address : Type 0 where
  pub is_global : Bool
  pub is_private : Bool
  pub is_loopback : Bool
  pub is_link_local : Bool
  pub is_multicast : Bool
  pub is_reserved : Bool
  pub is_unspecified : Bool
  pub is_site_local : Bool

-- What is taken from Python's libraries; `none` where the call raises. `urlsplit` fails as well where
-- the port is no number, and `keys` are the lower-case names of `parse_qs`.
pub record Python : Type 0 where
  pub urlsplit : Text → Option SplitUrl
  pub idna : Text → Option Text
  pub lower : Text → Text
  pub keys : Text → List Text
  pub ip_address : Text → Option Address
  pub getaddrinfo : Text → Option (List Text)
  pub parse_int : Text → Option ℤ
  pub show : ℕ → Text

-- A call returns, raises an error of the engine, or raises an exception that nothing catches.
pub data Fetched (A : Type 0) : Type 0 where
  fetched : A → Fetched A
  refused : PdfEngineError → Fetched A
  uncaught : Fetched A

abbrev pub and_then : {A B : Type 0} → Fetched A → (A → Fetched B) → Fetched B
and_then (fetched a) f = f a
and_then (refused e) f = refused e
and_then uncaught f = uncaught

-- `if condition: raise SourceUrlRejectedError(message)`
abbrev pub reject_if : {A : Type 0} → Bool → Text → Fetched A → Fetched A
reject_if b m k = if b then refused (source_url_rejected m) else k

abbrev pub holds_text : Text → List Text → Bool
holds_text t [] = false
holds_text t (u ∷ us) = text_eq u t || holds_text t us

abbrev pub holds_all : List Text → List Text → Bool
holds_all [] us = true
holds_all (t ∷ ts) us = holds_text t us && holds_all ts us

abbrev pub is_hex : ℕ → Bool
is_hex c = (leb b'0' c && leb c b'9') || (leb b'a' c && leb c b'f') || (leb b'A' c && leb c b'F')

abbrev pub is_alphanumeric : ℕ → Bool
is_alphanumeric c =
    (leb b'0' c && leb c b'9') || (leb b'a' c && leb c b'z') || (leb b'A' c && leb c b'Z')

-- `[A-Za-z0-9._~!$&'()*+,;=:@/-]`
abbrev pub is_target_char : ℕ → Bool
is_target_char c = is_alphanumeric c || any (λ d. c == d) (codes "._~!$&'()*+,;=:@/-")

-- The rest of `_SAFE_REQUEST_TARGET` after its first character: `query` says whether the first `?`
-- was read, and `digits` how many digits of an escape are missing.
abbrev pub match_target : Bool → ℕ → Text → Bool
match_target query digits [] = digits == 0
match_target query (suc digits) (c ∷ t) = is_hex c && match_target query digits t
match_target query zero (c ∷ t) =
    if c == b'%'
    then match_target query 2 t
    else if c == b'?'
    then match_target true 0 t
    else is_target_char c && match_target query 0 t

abbrev pub starts_with : ℕ → Text → Bool
starts_with c [] = false
starts_with c (d ∷ t) = d == c

unfoldable pub is_safe_target : Text → Bool
is_safe_target [] = false
is_safe_target (c ∷ t) = (c == b'/') && not (starts_with b'/' t) && match_target false 0 t

abbrev pub ends_with : ℕ → Text → Bool
ends_with c t = starts_with c (reverse t)
