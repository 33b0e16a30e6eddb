-- ===== src/Errors.antt =====
-- app/utils/errors.py: the exceptions of the engine, each with the code, the message and the HTTP
-- status that the API answers; and results that carry one. A text is its list of code points.
use Prim.Native.Char.{code}
use Prim.Native.String.{String}
use pdf_engine_toolbox.Base.{
  ℕ, Bool, true, false, List, [], ◌∷◌, ◌++◌, ◌≡◌, ◌==◌, ◌&&◌, if◌then◌else◌, arith,
}
use pdf_engine_toolbox.Base.Int.{ℤ, pos}

abbrev pub Text : Type 0
Text = List ℕ

abbrev pub codes : String → Text
codes String.[] = []
codes (String.◌∷◌ c s) = code c ∷ codes s

pub record PdfEngineError : Type 0 where
  pub code : Text
  pub message : Text
  pub status_code : ℕ

abbrev pub pdf_corrupt : Text → PdfEngineError
pdf_corrupt m = record { code = codes "PDF_CORRUPT"; message = m; status_code = 422 }

-- `show` prints a number in decimal.
abbrev pub page_out_of_range : (ℤ → Text) → ℤ → ℕ → PdfEngineError
page_out_of_range show page total = record {
  code = codes "PAGE_OUT_OF_RANGE";
  message =
      codes "Page "
      ++ (show page
          ++ (codes " is out of range (document has " ++ (show (pos total) ++ codes " pages)")));
  status_code = 422;
}

abbrev pub download_failed : Text → PdfEngineError
download_failed m = record { code = codes "DOWNLOAD_FAILED"; message = m; status_code = 502 }

abbrev pub source_url_rejected : Text → PdfEngineError
source_url_rejected m = record {
  code = codes "SOURCE_URL_REJECTED";
  message = m;
  status_code = 400;
}

abbrev pub authentication_error : Text → PdfEngineError
authentication_error m = record { code = codes "AUTH_FAILED"; message = m; status_code = 401 }

abbrev pub password_authorization : PdfEngineError
password_authorization = record {
  code = codes "PDF_PASSWORD_AUTHORIZATION_FAILED";
  message = codes "Password is incorrect or document access is not authorized";
  status_code = 403;
}

abbrev pub password_not_required : PdfEngineError
password_not_required = record {
  code = codes "PDF_PASSWORD_NOT_REQUIRED";
  message = codes "Document does not require password authorization";
  status_code = 409;
}

abbrev pub timeout_error : Text → PdfEngineError
timeout_error m = record { code = codes "TIMEOUT"; message = m; status_code = 504 }

pub data Result (A : Type 0) : Type 0 where
  ok : A → Result A
  err : PdfEngineError → Result A

infixl 5 ◌>>=◌ ◌>>◌
abbrev pub ◌>>=◌ : {A B : Type 0} → Result A → (A → Result B) → Result B
ok a >>= f = f a
err e >>= f = err e

abbrev pub ◌>>◌ : {B : Type 0} → Result (Unit {0}) → Result B → Result B
m >> k = m >>= λ _. k

-- `if condition: raise error`
abbrev pub raise_if : Bool → PdfEngineError → Result (Unit {0})
raise_if b e = if b then err e else ok tt

abbrev pub is_ok : {A : Type 0} → Result A → Bool
is_ok (ok _) = true
is_ok (err _) = false

-- Equality of texts.
abbrev pub text_eq : Text → Text → Bool
text_eq [] [] = true
text_eq [] (d ∷ t) = false
text_eq (c ∷ s) [] = false
text_eq (c ∷ s) (d ∷ t) = (c == d) && text_eq s t

pub text_eq_refl : (s : Text) → text_eq s s ≡ true
text_eq_refl [] = ground arith
text_eq_refl (c ∷ s) = ground (arith, text_eq_refl s)

pub text_eq→eq : (s t : Text) → text_eq s t ≡ true → s ≡ t
text_eq→eq [] [] e = ground arith
text_eq→eq [] (d ∷ t) e = ground arith
text_eq→eq (c ∷ s) [] e = ground arith
text_eq→eq (c ∷ s) (d ∷ t) e = ground (arith, text_eq→eq s t)
