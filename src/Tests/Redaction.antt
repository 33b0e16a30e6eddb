-- ===== src/Tests/Redaction.antt =====
-- A page with an SSN in two words is redacted; the OCR text "B 0 Z 9" is read as digits.
use pdf_engine_toolbox.Base.{
  ℕ, ◌+◌, ◌*◌, ◌-◌, ◌/◌, ◌≡◌, refl, Bool, true, false, none, some, List, [], ◌∷◌, leb, ltb, ◌==◌,
  ◌&&◌, ◌||◌, All, if◌then◌else◌,
}
use pdf_engine_toolbox.Errors.{Text, codes}
use pdf_engine_toolbox.Regex.{Chars, run}
use pdf_engine_toolbox.Regex.Search.{search}
use pdf_engine_toolbox.Redact.{ssn, ein}
use pdf_engine_toolbox.Redact.Confusions.{
  normalize_confusions, spread_loop, same_flags, spread, split_tokens, numeric_flags,
}
use pdf_engine_toolbox.Redact.Confusions.Rounds.{Kept, normalize_confusions-Kept}
use pdf_engine_toolbox.Redact.Matches.{matches, suspect_runs, prefix_end}
use pdf_engine_toolbox.Redact.Words.{Floats, Rect, Word, Fitz, line_text}
use pdf_engine_toolbox.Redact.Words.Find.{find_identifiers, search_groups}
use pdf_engine_toolbox.Redact.Boxed.{ShowsIdentifier, find_identifiers-Clean}
use pdf_engine_toolbox.Redact.Flow.Clean.{IsPdfOf, Cleaned, redact_identifiers-Cleaned}
use pdf_engine_toolbox.Redact.Flow.Clear.{Clear, redact_identifiers-Clear}
use pdf_engine_toolbox.Redact.Confusions.Rounds.{spread_loop-numeric_flags}
use pdf_engine_toolbox.Redact.Flow.{passed, Documents, OcrWords, Redaction, redact_identifiers}

abbrev within : ℕ → ℕ → ℕ → Bool
within lo hi x = leb lo x && leb x hi

abbrev lower : ℕ → ℕ
lower x = if within 65 90 x then x + 32 else x

-- The characters of ASCII.
abbrev ascii : Chars
ascii = record {
  decimal = within 48 57;
  space = λ x. x == 32 || within 9 13 x;
  word = λ x. within 48 57 x || within 97 122 (lower x) || x == 95;
  same_letter = λ x y. lower x == lower y;
  isdigit = within 48 57;
  isalnum = λ x. within 48 57 x || within 97 122 (lower x);
  isupper = within 65 90;
  islower = within 97 122;
}

ssn_in_text :
    matches ascii (codes "SSN 123-45-6789 paid") false
    ≡ record { start = 4; stop = 15; kind = ssn; digits = codes "123456789" } ∷ []
unfolding matches run
ssn_in_text = refl

label_then_digits :
    matches ascii (codes "Employer ID no. 123456789") false
    ≡ record { start = 16; stop = 25; kind = ein; digits = codes "123456789" } ∷ []
unfolding matches run search
label_then_digits = refl

misread_ssn :
    matches ascii (codes "I23-45-678S") true
    ≡ record { start = 0; stop = 11; kind = ssn; digits = codes "123456785" } ∷ []
unfolding matches run
misread_ssn = refl

comb_field : normalize_confusions ascii (codes "B 0 Z 9 ID") ≡ codes "8 0 2 9 ID"
unfolding normalize_confusions
comb_field = refl

all_letters : normalize_confusions ascii (codes "B G G O Z") ≡ codes "8 6 6 0 2"
unfolding normalize_confusions
all_letters = refl

a_dropped_digit : suspect_runs ascii (codes "123-45-678") ≡ codes "12345678" ∷ []
unfolding suspect_runs run
a_dropped_digit = refl

form_number : suspect_runs ascii (codes "OMB No. 1545-0029") ≡ []
unfolding suspect_runs run
form_number = refl

-- Numbers without fractions for the floating-point numbers.
abbrev pub whole : Floats
whole = record {
  F = ℕ;
  ratio = λ n d. n / d;
  add = λ a b. a + b;
  sub = λ a b. a - b;
  mul = λ a b. a * b;
  div = λ a b. a / b;
  rounded = λ a. a;
  lt = ltb;
  le = leb;
}

abbrev box : ℕ → ℕ → Rect whole
box x0 x1 = record { x0 = x0; y0 = 10; x1 = x1; y1 = 20 }

abbrev printed : Text → ℕ → ℕ → Word whole
printed t x0 x1 = record { text = t; rect = box x0 x1; is_line = false }

abbrev paper : Fitz whole (List (Word whole))
paper = record {
  width = λ r. r.x1 - r.x0;
  height = λ r. r.y1 - r.y0;
  search_for = λ p t r. [];
  get_pixmap = λ p r. [];
}

abbrev shown_page : List (Word whole)
shown_page = printed (codes "SSN") 10 40 ∷ printed (codes "123-45-6789") 50 150 ∷ []

abbrev hidden_page : List (Word whole)
hidden_page = printed (codes "SSN") 10 40 ∷ printed (codes "6789") 100 150 ∷ []

-- A file is its first character: "c" is the clean one.
abbrev files : Documents ascii whole paper
files = record {
  open_pdf = λ t. elim t [
    | [] ↦ none
    | c ∷ r ↦ some ((if c == b'c' then hidden_page else shown_page) ∷ [])
  ];
  convert = λ t m. none;
  words = λ p. p;
  get_text = λ p. codes "a text layer that has more than fifty characters in it";
  area = λ p. 100;
  image_areas = λ p. [];
  intersects = λ a b. false;
  burn = λ t bs. codes "c";
}

abbrev no_ocr : OcrWords ascii whole paper
no_ocr = λ t is. passed []

abbrev redacted : Redaction ascii whole paper
redacted = record {
  pdf_bytes = codes "c";
  redactions =
      record {
        page = 0;
        kind = ssn;
        last4 = codes "6789";
        from_ocr = false;
        rects = box 50 50 ∷ [];
      }
      ∷ [];
  ocr_pages = 0 ∷ [];
}

redacts_page :
    redact_identifiers ascii whole paper files no_ocr (codes "s") (codes "application/pdf")
    ≡ passed redacted
unfolding redact_identifiers run prefix_end
redacts_page = refl

ascii_plain : (x : ℕ) → ascii.decimal x ≡ true → ascii.isdigit x ≡ true
ascii_plain x e = e

redact_identifiers-Clear_example :
    (pages : List (List (Word whole))) × (files.open_pdf (codes "c") ≡ some pages)
    × All (Clear ascii whole paper files) pages
redact_identifiers-Clear_example =
    redact_identifiers-Clear ascii whole paper files ascii_plain refl no_ocr (codes "s")
      (codes "application/pdf") redacted redacts_page

redact_identifiers-Cleaned_example :
    (pdf : Text) × (before : List (List (Word whole))) × IsPdfOf ascii whole paper files
      (codes "s")
      (codes "application/pdf")
      pdf
    × (files.open_pdf pdf ≡ some before)
    × Cleaned ascii whole paper files no_ocr before redacted
redact_identifiers-Cleaned_example =
    redact_identifiers-Cleaned ascii whole paper files no_ocr (codes "s") (codes "application/pdf")
      redacted redacts_page

nothing_hidden : find_identifiers ascii whole paper 0 hidden_page false none ≡ []
unfolding find_identifiers run
nothing_hidden = refl

find_identifiers-Clean_example :
    All
      (λ line. ¬ ShowsIdentifier ascii (line_text whole line).0)
      (search_groups ascii whole paper hidden_page false)
find_identifiers-Clean_example =
    find_identifiers-Clean ascii ascii_plain refl whole paper 0 none hidden_page nothing_hidden

normalize_confusions-Kept_example :
    Kept (codes "B 0 Z 9 ID") (normalize_confusions ascii (codes "B 0 Z 9 ID"))
normalize_confusions-Kept_example = normalize_confusions-Kept ascii (codes "B 0 Z 9 ID")

spread_loop-numeric_flags_example :
    same_flags
      (spread_loop 4
        (split_tokens ascii (codes "B 0 Z 9"))
        (numeric_flags ascii (split_tokens ascii (codes "B 0 Z 9"))))
      (spread false (split_tokens ascii (codes "B 0 Z 9")) (
        spread_loop 4
          (split_tokens ascii (codes "B 0 Z 9"))
          (numeric_flags ascii (split_tokens ascii (codes "B 0 Z 9")))))
    ≡ true
spread_loop-numeric_flags_example =
    spread_loop-numeric_flags ascii (split_tokens ascii (codes "B 0 Z 9"))
