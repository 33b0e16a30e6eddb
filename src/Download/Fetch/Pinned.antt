-- ===== src/Download/Fetch/Pinned.antt =====
-- What a download that succeeds has met (app/services/download_service.py).
use pdf_engine_toolbox.Base.{
  ℕ, ◌+◌, ◌≡◌, ◌≤◌, inl, inr, refl, ◌≢◌, sym, ap, subst, Bool, true, false, Option, none, some,
  List, [], ◌∷◌, ◌++◌, if◌then◌else◌, ltb, leb, length, arith, Bool-cases, Option-cases, is_empty,
  length-append,
}
use pdf_engine_toolbox.Errors.{Text, text_eq, text_eq_refl}
use pdf_engine_toolbox.Tables.{join}
use pdf_engine_toolbox.Download.{
  SplitUrl, Python, Fetched, fetched, refused, uncaught, and_then, reject_if, holds_text, holds_all,
  is_safe_target,
}
use pdf_engine_toolbox.Download.Policy.{
  split_on, host_names, find_host, configured_allowed_hosts, check_hosts, check_form, check_target,
  request_target, is_rooted, required_keys,
}
use pdf_engine_toolbox.Download.Fetch.{
  HttpFailure, timed_out_reading, request_error, HttpResponse, Reply, no_response, response,
  fail_with, too_large, read_chunks, check_length, read_response, read_reply,
}

pub and_then-fetched :
    {A B : Type 0} (x : Fetched A) (f : A → Fetched B) (b : B)
    → and_then x f ≡ fetched b
    → (a : A) × (x ≡ fetched a) × (f a ≡ fetched b)
and_then-fetched (fetched a) f b e = (a, refl, e)
and_then-fetched (refused r) f b e = absurd (ground arith)
and_then-fetched uncaught f b e = absurd (ground arith)

pub reject_if-fetched :
    {A : Type 0} (c : Bool) (m : Text) (k : Fetched A) (a : A)
    → reject_if c m k ≡ fetched a
    → (c ≡ false) × (k ≡ fetched a)
reject_if-fetched true m k a e = absurd (ground arith)
reject_if-fetched false m k a e = (refl, e)

append_nil : {A : Type 0} (xs : List A) → xs ++ [] ≡ xs
append_nil [] = refl
append_nil (x ∷ xs) = ap (λ ys. x ∷ ys) (append_nil xs)

append_assoc : {A : Type 0} (xs ys zs : List A) → (xs ++ ys) ++ zs ≡ xs ++ (ys ++ zs)
append_assoc [] ys zs = refl
append_assoc (x ∷ xs) ys zs = ap (λ l. x ∷ l) (append_assoc xs ys zs)

read_chunks-append :
    (max_bytes : ℕ) (content : Text) (chunks : List Text)
    → length content ≤ max_bytes
    → read_chunks max_bytes (length content) content none chunks ≡ (
        if leb (length (content ++ join chunks)) max_bytes
        then fetched (content ++ join chunks)
        else fail_with too_large)
unfolding read_chunks
read_chunks-append max_bytes content [] h = rw (append_nil content) (ground arith)
read_chunks-append max_bytes content (chunk ∷ chunks) h =
    let whole : (content ++ chunk) ++ join chunks ≡ content ++ (chunk ++ join chunks) =
      append_assoc content chunk (join chunks) in
    let size = length-append content chunk in
    let more = length-append (content ++ chunk) (join chunks) in
    elim (Bool-cases (ltb max_bytes (length content + length chunk))) [
      | inl over ↦
          let long : leb (length (content ++ (chunk ++ join chunks))) max_bytes ≡ false =
            subst (λ t. leb (length t) max_bytes ≡ false) whole (ground arith) in
          rw (over, long) refl
      | inr fits ↦
          rw (fits, sym size, sym whole)
            (read_chunks-append max_bytes (content ++ chunk) chunks (ground arith))
    ]

-- The body of a response that does not break off is returned whole if it is not longer than the
-- limit, and is refused otherwise.
pub read_chunks_lem :
    (max_bytes : ℕ) (chunks : List Text)
    → read_chunks max_bytes 0 [] none chunks ≡ (
        if leb (length (join chunks)) max_bytes then fetched (join chunks) else fail_with too_large)
read_chunks_lem max_bytes chunks = read_chunks-append max_bytes [] chunks (omega arith)

read_chunks_broken :
    (max_bytes total : ℕ) (content : Text) (f : HttpFailure) (chunks : List Text) (t : Text)
    → read_chunks max_bytes total content (some f) chunks ≢ fetched t
unfolding read_chunks
read_chunks_broken max_bytes total content timed_out_reading [] t e = absurd (ground arith)
read_chunks_broken max_bytes total content request_error [] t e = absurd (ground arith)
read_chunks_broken max_bytes total content f (chunk ∷ chunks) t e =
    elim (Bool-cases (ltb max_bytes (total + length chunk))) [
      | inl over ↦ absurd (ground arith)
      | inr fits ↦
          read_chunks_broken max_bytes (total + length chunk) (content ++ chunk) f chunks t
            (ground arith)
    ]

-- A response that is read whole: a success without redirect, all of its chunks and no more than the
-- limit.
pub record Whole (max_bytes : ℕ) (reply : Reply) (content : Text) : Type 0 where
  pub answer : HttpResponse
  pub replied : reply ≡ response answer
  pub direct : answer.is_redirect ≡ false
  pub success : answer.is_success ≡ true
  pub body : content ≡ join answer.chunks
  pub bounded : length content ≤ max_bytes

read_body :
    (max_bytes : ℕ) (b : Option HttpFailure) (chunks : List Text) (t : Text)
    → read_chunks max_bytes 0 [] b chunks ≡ fetched t
    → (t ≡ join chunks) × (length t ≤ max_bytes)
read_body max_bytes (some f) chunks t e = absurd (read_chunks_broken max_bytes 0 [] f chunks t e)
read_body max_bytes none chunks t e = elim (Bool-cases (leb (length (join chunks)) max_bytes)) [
  | inl fits ↦
      let same : t ≡ join chunks = ground (arith, read_chunks_lem max_bytes chunks) in
      (same, rw same (ground arith))
  | inr over ↦ absurd (ground (arith, read_chunks_lem max_bytes chunks))
]

find_host-holds :
    (t u : Text) (hosts : List Text) → find_host t hosts ≡ some u → holds_text u hosts ≡ true
find_host-holds t u [] e = absurd (ground arith)
find_host-holds t u (h ∷ hosts) e = elim (Bool-cases (text_eq h t)) [
  | inl same ↦ let here : h ≡ u = ground arith in rw (here, text_eq_refl u) refl
  | inr other ↦ ground (arith, find_host-holds t u hosts)
]

check_form-safe :
    (u : SplitUrl) (host : Text) (v : Text × Text)
    → check_form u host ≡ fetched v
    → (is_safe_target v.1 ≡ true) × (host ≡ v.0)
check_form-safe u host v e = elim (Bool-cases (is_rooted u)) [
  | inr loose ↦ absurd (ground arith)
  | inl rooted ↦ elim (Bool-cases (is_safe_target (request_target u))) [
    | inr unsafe ↦ absurd (ground arith)
    | inl safe ↦
        let same : (host, request_target u) ≡ v = ground arith in
        (subst (λ x. is_safe_target x.1 ≡ true) same safe, ap (λ x. x.0) same)
  ]
]

module _ (py : Python) where
  read_response-Whole :
      (max_bytes : ℕ) (r : HttpResponse) (t : Text)
      → read_response py max_bytes r ≡ fetched t
      → Whole max_bytes (response r) t
  unfolding read_response
  read_response-Whole max_bytes r t e = elim (Bool-cases r.is_redirect) [
    | inl moved ↦ absurd (ground arith)
    | inr direct ↦ elim (Bool-cases r.is_success) [
      | inr bad ↦ absurd (ground arith)
      | inl good ↦
          let rest =
            and_then-fetched (check_length py max_bytes r.content_length)
              (λ u. read_chunks max_bytes 0 [] r.broken r.chunks) t (ground arith) in
          let read = read_body max_bytes r.broken r.chunks t rest.2 in
          record {
            answer = r;
            replied = refl;
            direct = direct;
            success = good;
            body = read.0;
            bounded = read.1;
          }
    ]
  ]

  pub read_reply-Whole :
      (max_bytes : ℕ) (reply : Reply) (t : Text)
      → read_reply py max_bytes reply ≡ fetched t
      → Whole max_bytes reply t
  unfolding read_reply
  read_reply-Whole max_bytes (no_response timed_out_reading) t e = absurd (ground arith)
  read_reply-Whole max_bytes (no_response request_error) t e = absurd (ground arith)
  read_reply-Whole max_bytes (response r) t e = read_response-Whole max_bytes r t e

  pub configured_hosts :
      (setting : Text) (hosts : List Text)
      → configured_allowed_hosts py setting ≡ fetched hosts
      → hosts ≡ host_names py (split_on b',' setting)
  unfolding configured_allowed_hosts
  configured_hosts setting hosts e =
      elim (Bool-cases (is_empty (host_names py (split_on b',' setting)))) [
        | inl empty ↦ absurd (ground arith)
        | inr some_hosts ↦
            let rest =
              and_then-fetched (check_hosts py (host_names py (split_on b',' setting)))
                (λ u. fetched (host_names py (split_on b',' setting))) hosts (ground arith) in
            ground (arith, rest.2)
      ]

  -- A host of the configuration, and a target that keeps the request at it.
  pub record Approved (setting host target : Text) : Type 0 where
    pub allowed : holds_text host (host_names py (split_on b',' setting)) ≡ true
    pub safe : is_safe_target target ≡ true

  pub check_target-Approved :
      (setting : Text) (u : SplitUrl) (t : Text) (hosts : List Text) (v : Text × Text)
      → hosts ≡ host_names py (split_on b',' setting)
      → check_target py u t hosts ≡ fetched v
      → Approved setting v.0 v.1
  unfolding check_target
  check_target-Approved setting u t hosts v h e = elim (Option-cases (find_host t hosts)) [
    | inl missing ↦ absurd (ground arith)
    | inr (host, found) ↦
        let signed : check_form u host ≡ fetched v =
          elim (Bool-cases (holds_all required_keys (py.keys u.query))) [
            | inl all ↦ ground arith
            | inr lacks ↦ absurd (ground arith)
          ] in
        let form = check_form-safe u host v signed in
        record {
          allowed = rw (sym form.1, sym h) (find_host-holds t host hosts found);
          safe = form.0;
        }
  ]
