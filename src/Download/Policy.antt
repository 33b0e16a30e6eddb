-- ===== src/Download/Policy.antt =====
-- The policy on source URLs and addresses (app/services/download_service.py).
use pdf_engine_toolbox.Base.{
  ℕ, Bool, true, false, not, ◌&&◌, ◌||◌, Option, none, some, List, [], ◌∷◌, ◌++◌, reverse, ◌==◌,
  if◌then◌else◌, any, is_empty, is_some,
}
use pdf_engine_toolbox.Errors.{Text, codes, source_url_rejected, download_failed, text_eq}
use pdf_engine_toolbox.Tables.{is_space}
use pdf_engine_toolbox.Download.{
  SplitUrl, Python, Fetched, fetched, refused, uncaught, and_then, reject_if, holds_text, holds_all,
  is_safe_target, starts_with, ends_with,
}

abbrev drop_space : Text → Text
drop_space [] = []
drop_space (c ∷ t) = if is_space c then drop_space t else c ∷ t

-- `str.strip`
abbrev pub strip : Text → Text
strip t = reverse (drop_space (reverse (drop_space t)))

abbrev add_first : ℕ → List Text → List Text
add_first c [] = (c ∷ []) ∷ []
add_first c (t ∷ ts) = (c ∷ t) ∷ ts

-- `str.split(",")`
abbrev pub split_on : ℕ → Text → List Text
split_on d [] = [] ∷ []
split_on d (c ∷ t) = if c == d then [] ∷ split_on d t else add_first c (split_on d t)

abbrev contains_char : ℕ → Text → Bool
contains_char c t = any (λ d. d == c) t

abbrev pub not_permitted : Text
not_permitted = codes "Source URL is not permitted"

abbrev pub find_host : Text → List Text → Option Text
find_host t [] = none
find_host t (u ∷ us) = if text_eq u t then some u else find_host t us

abbrev pub required_keys : List Text
required_keys = codes "x-amz-algorithm" ∷ codes "x-amz-credential" ∷ codes "x-amz-signature" ∷ []

abbrev pub request_target : SplitUrl → Text
request_target u =
    let path = if is_empty u.path then codes "/" else u.path in
    if is_empty u.query then path else path ++ (codes "?" ++ u.query)

-- `request_target.startswith("/")`, before the query is added
abbrev pub is_rooted : SplitUrl → Bool
is_rooted u = is_empty u.path || starts_with b'/' u.path

abbrev pub is_default_port : Option ℕ → Bool
is_default_port none = true
is_default_port (some p) = p == 443

-- `tuple(dict.fromkeys(addresses))`: the first of each.
abbrev pub fromkeys : List Text → List Text → List Text
fromkeys seen [] = []
fromkeys seen (t ∷ ts) = if holds_text t seen then fromkeys seen ts else t ∷ fromkeys (t ∷ seen) ts

-- The target is rooted and safe.
abbrev pub check_form : SplitUrl → Text → Fetched (Text × Text)
check_form u host = reject_if (not (is_rooted u)) not_permitted (
    reject_if (not (is_safe_target (request_target u)))
      (codes "Source URL request target is not permitted") (fetched (host, request_target u)))

module _ (py : Python) where
  -- `{host.strip().lower() for host in ... if host.strip()}`
  abbrev pub host_names : List Text → List Text
  host_names [] = []
  host_names (t ∷ ts) =
      if is_empty (strip t) then host_names ts else py.lower (strip t) ∷ host_names ts

  abbrev pub is_invalid_host : Text → Text → Bool
  is_invalid_host host encoded =
      contains_char b':' host
      || contains_char b'/' host
      || contains_char b'@' host
      || ends_with b'.' host
      || not (text_eq host encoded)

  -- The loop over the hosts. `host.encode("idna")` may raise, and nothing catches that; it is reached
  -- only if the conditions before it are false.
  unfoldable pub check_hosts : List Text → Fetched (Unit {0})
  check_hosts [] = fetched tt
  check_hosts (host ∷ hosts) =
      let rest = check_hosts hosts in
      let invalid = refused (source_url_rejected (codes "Source URL allowlist is invalid")) in
      if is_invalid_host host host then invalid else elim (py.idna host) [
        | none ↦ uncaught
        | some encoded ↦ if text_eq host encoded then rest else invalid
      ]

  unfoldable pub configured_allowed_hosts : Text → Fetched (List Text)
  unfolding check_hosts
  configured_allowed_hosts setting =
      let hosts = host_names (split_on b',' setting) in
      if is_empty hosts
      then refused (source_url_rejected (codes "Source URL allowlist is not configured"))
      else and_then (check_hosts hosts) (λ u. fetched hosts)

  -- The host is configured and the query is signed.
  unfoldable pub check_target : SplitUrl → Text → List Text → Fetched (Text × Text)
  check_target u request_host hosts = elim (find_host request_host hosts) [
    | none ↦ refused (source_url_rejected (codes "Source URL host is not permitted"))
    | some canonical ↦
        reject_if (not (holds_all required_keys (py.keys u.query)))
          (codes "Source URL must be an AWS presigned URL") (check_form u canonical)
  ]

  -- The requested host in canonical form.
  unfoldable pub request_host : SplitUrl → Fetched Text
  request_host u = elim (u.hostname) [
    | none ↦ refused (source_url_rejected not_permitted)
    | some host ↦
        if is_empty host || ends_with b'.' host
        then refused (source_url_rejected not_permitted)
        else elim (py.idna host) [
          | none ↦ refused (source_url_rejected not_permitted)
          | some encoded ↦ fetched (py.lower encoded)
        ]
  ]

  unfoldable pub check_url : Text → SplitUrl → Fetched (Text × Text)
  unfolding configured_allowed_hosts check_target request_host
  check_url setting u =
      reject_if (not (text_eq u.scheme (codes "https"))) (codes "Source URL must use HTTPS") (
        reject_if (is_some u.username || is_some u.password)
          (codes "Source URL userinfo is not permitted")
          (reject_if (not (is_empty u.fragment)) (codes "Source URL fragments are not permitted") (
            reject_if (not (is_default_port u.port)) (codes "Source URL port is not permitted") (
              and_then (request_host u) (λ host.
                and_then (configured_allowed_hosts setting)
                  (λ hosts. check_target u host hosts))))))

  unfoldable pub validate_source_url : Text → Text → Fetched (Text × Text)
  unfolding check_url
  validate_source_url setting url = elim (py.urlsplit url) [
    | none ↦ refused (source_url_rejected not_permitted)
    | some u ↦ check_url setting u
  ]

  unfoldable pub is_public_address : Text → Bool
  is_public_address raw = elim (py.ip_address raw) [
    | none ↦ false
    | some a ↦
        a.is_global
        && not a.is_private
        && not a.is_loopback
        && not a.is_link_local
        && not a.is_multicast
        && not a.is_reserved
        && not a.is_unspecified
        && not a.is_site_local
  ]

  unfoldable pub resolve_public_addresses : Text → Fetched (List Text)
  unfolding is_public_address
  resolve_public_addresses host = elim (py.getaddrinfo host) [
    | none ↦ refused (download_failed (codes "Source URL hostname could not be resolved"))
    | some records ↦
        let addresses = fromkeys [] records in
        reject_if (is_empty addresses || any (λ a. not (is_public_address a)) addresses)
          (codes "Source URL resolved to a non-public address") (fetched addresses)
  ]
