-- ===== src/Download/Fetch/Approval.antt =====
-- `download_pdf` from the URL to the content (app/services/download_service.py).
use pdf_engine_toolbox.Base.{
  ℕ, ◌≡◌, inl, inr, subst, true, false, not, ◌||◌, List, [], ◌∷◌, arith, Bool-cases, Option-cases,
  is_empty, any, is_some,
}
use pdf_engine_toolbox.Errors.{Text, text_eq, codes}
use pdf_engine_toolbox.Download.{SplitUrl, Python, fetched, and_then}
use pdf_engine_toolbox.Download.Policy.{
  is_default_port, configured_allowed_hosts, check_target, check_url, request_host,
  validate_source_url, is_public_address, fromkeys, resolve_public_addresses,
}
use pdf_engine_toolbox.Download.Fetch.{Reply, get_pinned, download_pdf}
use pdf_engine_toolbox.Download.Fetch.Pinned.{
  and_then-fetched, Approved, Whole, configured_hosts, check_target-Approved, read_reply-Whole,
}

module _ (py : Python) where
  check_url-Approved :
      (setting : Text) (u : SplitUrl) (v : Text × Text)
      → check_url py setting u ≡ fetched v
      → Approved py setting v.0 v.1
  unfolding check_url
  check_url-Approved setting u v e = elim (Bool-cases (text_eq u.scheme (codes "https"))) [
    | inr http ↦ absurd (ground arith)
    | inl https ↦ elim (Bool-cases (is_some u.username || is_some u.password)) [
      | inl userinfo ↦ absurd (ground arith)
      | inr anonymous ↦ elim (Bool-cases (is_empty u.fragment)) [
        | inr fragment ↦ absurd (ground arith)
        | inl whole ↦ elim (Bool-cases (is_default_port u.port)) [
          | inr port ↦ absurd (ground arith)
          | inl default ↦
              let host =
                and_then-fetched (request_host py u)
                  (λ h.
                    and_then (configured_allowed_hosts py setting)
                      (λ hosts. check_target py u h hosts))
                  v (ground arith) in
              let hosts =
                and_then-fetched (configured_allowed_hosts py setting)
                  (λ hosts. check_target py u host.0 hosts) v host.2 in
              check_target-Approved py setting u host.0 hosts.0 v
                (configured_hosts py setting hosts.0 hosts.1) hosts.2
        ]
      ]
    ]
  ]

  validate_source_url-Approved :
      (setting url : Text) (v : Text × Text)
      → validate_source_url py setting url ≡ fetched v
      → Approved py setting v.0 v.1
  unfolding validate_source_url
  validate_source_url-Approved setting url v e = elim (Option-cases (py.urlsplit url)) [
    | inl bad ↦ absurd (ground arith)
    | inr (u, parsed) ↦ check_url-Approved setting u v (ground (arith, parsed))
  ]

  resolve_public :
      (host : Text) (address : Text) (others : List Text)
      → resolve_public_addresses py host ≡ fetched (address ∷ others)
      → is_public_address py address ≡ true
  unfolding resolve_public_addresses
  resolve_public host address others e = elim (Option-cases (py.getaddrinfo host)) [
    | inl unresolved ↦ absurd (ground arith)
    | inr (records, found) ↦
        elim (Bool-cases (
          is_empty (fromkeys [] records)
          || any (λ a. not (is_public_address py a)) (fromkeys [] records))) [
            | inl bad ↦ absurd (ground arith)
            | inr good ↦
                let same : fromkeys [] records ≡ address ∷ others = ground arith in
                let all : any (λ a. not (is_public_address py a)) (address ∷ others) ≡ false =
                  subst (λ l. any (λ a. not (is_public_address py a)) l ≡ false) same
                    (ground arith) in
                ground arith
          ]
  ]

  -- A finished download: the content is the whole of what one public address answered, asked for a
  -- configured host with a safe target.
  pub record Downloaded (max_bytes : ℕ) (setting : Text) (contact : Text → Text → Text → Reply)
      (content : Text) : Type 0 where
    pub host : Text
    pub target : Text
    pub address : Text
    pub approved : Approved py setting host target
    pub public : is_public_address py address ≡ true
    pub whole : Whole max_bytes (contact address host target) content

  -- If a download returns content, then it was asked of a public address, for a host that the
  -- settings allow and a safe target; the answer was a success without redirect, and the content
  -- is all of its chunks and no longer than the limit.
  pub download_pdf-Downloaded :
      (max_bytes : ℕ) (setting : Text) (contact : Text → Text → Text → Reply) (url content : Text)
      → download_pdf py max_bytes setting contact url ≡ fetched content
      → Downloaded max_bytes setting contact content
  unfolding download_pdf
  download_pdf-Downloaded max_bytes setting contact url content e =
      let v =
        and_then-fetched (validate_source_url py setting url)
          (λ v.
            and_then (resolve_public_addresses py v.0)
              (λ addresses. get_pinned py max_bytes contact v.0 v.1 addresses))
          content e in
      let a =
        and_then-fetched (resolve_public_addresses py v.0.0)
          (λ addresses. get_pinned py max_bytes contact v.0.0 v.0.1 addresses) content v.2 in
      pinned v.0 (validate_source_url-Approved setting url v.0 v.1) a.0 a.1 a.2
    where
      pinned :
          (v : Text × Text)
          → Approved py setting v.0 v.1
          → (addresses : List Text) → resolve_public_addresses py v.0 ≡ fetched addresses
          → get_pinned py max_bytes contact v.0 v.1 addresses ≡ fetched content
          → Downloaded max_bytes setting contact content
      pinned v ok [] r g = absurd (ground arith)
      pinned v ok (address ∷ others) r g = record {
        host = v.0;
        target = v.1;
        address = address;
        approved = ok;
        public = resolve_public v.0 address others r;
        whole = read_reply-Whole py max_bytes (contact address v.0 v.1) content g;
      }
