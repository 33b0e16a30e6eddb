-- ===== src/Tests/Downloads.antt =====
-- A download of two chunks from an allowed host.
use pdf_engine_toolbox.Base.{
  ◌≡◌, refl, true, false, none, some, [], ◌∷◌, if◌then◌else◌, leb, length,
}
use pdf_engine_toolbox.Errors.{Text, codes}
use pdf_engine_toolbox.Tables.{join}
use pdf_engine_toolbox.Download.{SplitUrl, Address, Python, fetched, is_safe_target}
use pdf_engine_toolbox.Download.Policy.{required_keys}
use pdf_engine_toolbox.Download.Fetch.{
  Reply, response, download_pdf, read_chunks, fail_with, too_large,
}
use pdf_engine_toolbox.Download.Fetch.Pinned.{read_chunks_lem}
use pdf_engine_toolbox.Download.Fetch.Approval.{Downloaded, download_pdf-Downloaded}

abbrev demo_url : SplitUrl
demo_url = record {
  scheme = codes "https";
  username = none;
  password = none;
  fragment = [];
  port = none;
  hostname = some (codes "b.s3");
  query = codes "X-Amz=1%2F";
  path = codes "/k";
}

abbrev demo_address : Address
demo_address = record {
  is_global = true;
  is_private = false;
  is_loopback = false;
  is_link_local = false;
  is_multicast = false;
  is_reserved = false;
  is_unspecified = false;
  is_site_local = false;
}

abbrev demo_python : Python
demo_python = record {
  urlsplit = λ t. some demo_url;
  idna = λ t. some t;
  lower = λ t. t;
  keys = λ t. required_keys;
  ip_address = λ t. some demo_address;
  getaddrinfo = λ t. some (codes "8.8.8.8" ∷ []);
  parse_int = λ t. none;
  show = λ n. [];
}

abbrev demo_contact : Text → Text → Text → Reply
demo_contact address host target = response (record {
  is_redirect = false;
  is_success = true;
  status_code = 200;
  content_length = none;
  chunks = codes "%P" ∷ codes "DF" ∷ [];
  broken = none;
})

demo_content :
    download_pdf demo_python 4 (codes "a.s3, b.s3 ") demo_contact (codes "u")
    ≡ fetched (codes "%PDF")
unfolding download_pdf is_safe_target
demo_content = refl

double_slash : is_safe_target (codes "//evil") ≡ false
unfolding is_safe_target
double_slash = refl

download_pdf-Downloaded_example :
    Downloaded demo_python 4 (codes "a.s3, b.s3 ") demo_contact (codes "%PDF")
download_pdf-Downloaded_example =
    download_pdf-Downloaded demo_python 4 (codes "a.s3, b.s3 ") demo_contact (codes "u")
      (codes "%PDF") demo_content

read_chunks_lem_example : read_chunks 3 0 [] none (codes "%P" ∷ codes "DF" ∷ []) ≡ (
    if leb (length (join (codes "%P" ∷ codes "DF" ∷ []))) 3
    then fetched (join (codes "%P" ∷ codes "DF" ∷ []))
    else fail_with too_large)
read_chunks_lem_example = read_chunks_lem 3 (codes "%P" ∷ codes "DF" ∷ [])
