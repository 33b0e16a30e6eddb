-- ===== src/Download/Fetch.antt =====
-- `download_pdf` (app/services/download_service.py).
pub mod Pinned
pub mod Approval
use pdf_engine_toolbox.Base.{
  ℕ, ◌+◌, Bool, true, false, not, ◌&&◌, ◌||◌, Option, none, some, List, [], ◌∷◌, ◌++◌,
  if◌then◌else◌, ltb, leb, length, head?,
}
use pdf_engine_toolbox.Base.Int.{ℤ, pos, negsuc}
use pdf_engine_toolbox.Errors.{Text, codes, download_failed}
use pdf_engine_toolbox.Download.{Python, Fetched, fetched, refused, uncaught, and_then}
use pdf_engine_toolbox.Download.Policy.{validate_source_url, resolve_public_addresses}

-- The exceptions of the HTTP client.
pub data HttpFailure : Type 0 where
  timed_out_reading request_error : HttpFailure

-- A response, and the stream of its body: chunks, and a failure that may end them.
pub record HttpResponse : Type 0 where
  pub is_redirect : Bool
  pub is_success : Bool
  pub status_code : ℕ
  pub content_length : Option Text
  pub chunks : List Text
  pub broken : Option HttpFailure

pub data Reply : Type 0 where
  no_response : HttpFailure → Reply
  response : HttpResponse → Reply

abbrev pub fail_with : {A : Type 0} → Text → Fetched A
fail_with m = refused (download_failed m)

abbrev pub too_large : Text
too_large = codes "Source file exceeds the maximum size"

abbrev pub http_failure : {A : Type 0} → HttpFailure → Fetched A
http_failure timed_out_reading = fail_with (codes "Timeout downloading PDF from source URL")
http_failure request_error = fail_with (codes "Network error downloading PDF")

-- `async for chunk in response.aiter_bytes()`, with what was read and its size.
unfoldable pub read_chunks : ℕ → ℕ → Text → Option HttpFailure → List Text → Fetched Text
read_chunks max_bytes total content none [] = fetched content
read_chunks max_bytes total content (some f) [] = http_failure f
read_chunks max_bytes total content broken (chunk ∷ chunks) =
    let rest = read_chunks max_bytes (total + length chunk) (content ++ chunk) broken chunks in
    if ltb max_bytes (total + length chunk) then fail_with too_large else rest

abbrev pub check_declared : ℕ → Option ℤ → Fetched (Unit {0})
check_declared max_bytes none = fail_with (codes "Source returned an invalid Content-Length")
check_declared max_bytes (some (negsuc n)) = fail_with too_large
check_declared max_bytes (some (pos n)) =
    if ltb max_bytes n then fail_with too_large else fetched tt

module _ (py : Python) where
  abbrev pub check_length : ℕ → Option Text → Fetched (Unit {0})
  check_length max_bytes none = fetched tt
  check_length max_bytes (some t) = check_declared max_bytes (py.parse_int t)

  unfoldable pub read_response : ℕ → HttpResponse → Fetched Text
  unfolding read_chunks
  read_response max_bytes r =
      if r.is_redirect
      then fail_with (codes "Redirects are not permitted for source URLs")
      else if not r.is_success
      then fail_with (codes "HTTP " ++ (py.show r.status_code ++ codes " downloading PDF"))
      else and_then (check_length max_bytes r.content_length)
          (λ u. read_chunks max_bytes 0 [] r.broken r.chunks)

  unfoldable pub read_reply : ℕ → Reply → Fetched Text
  unfolding read_response
  read_reply max_bytes (no_response f) = http_failure f
  read_reply max_bytes (response r) = read_response max_bytes r

  -- `contact address host target` is what the client gets from the address, with the host as its
  -- `Host` header and server name; it follows no redirect.
  abbrev pub get_pinned : ℕ → (Text → Text → Text → Reply) → Text → Text → List Text → Fetched Text
  get_pinned max_bytes contact host target [] = uncaught
  get_pinned max_bytes contact host target (address ∷ addresses) =
      read_reply max_bytes (contact address host target)

  unfoldable pub download_pdf : ℕ → Text → (Text → Text → Text → Reply) → Text → Fetched Text
  unfolding validate_source_url resolve_public_addresses read_reply
  download_pdf max_bytes setting contact url = and_then (validate_source_url py setting url) (λ v.
      and_then (resolve_public_addresses py v.0)
        (λ addresses. get_pinned max_bytes contact v.0 v.1 addresses))
