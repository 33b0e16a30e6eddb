-- ===== src/Redact/Confusions.antt =====
-- `normalize_confusions` (app/services/identifier_redaction.py): letters that OCR reads for digits.
pub mod Rounds
use pdf_engine_toolbox.Base.{
  ℕ, zero, suc, ◌*◌, Bool, true, false, not, ◌&&◌, ◌||◌, List, [], ◌∷◌, ◌++◌, leb, ◌==◌,
  if◌then◌else◌, length, any, keep_if, is_empty,
}
use pdf_engine_toolbox.Errors.{Text, codes}
use pdf_engine_toolbox.Regex.{Chars}
use pdf_engine_toolbox.Redact.{one_of}

-- `_CONFUSIONS`
abbrev pub unconfused : ℕ → ℕ
unconfused c =
    if one_of (codes "Il|") c
    then b'1'
    else if one_of (codes "OoD") c
    then b'0'
    else if one_of (codes "Ss") c
    then b'5'
    else if c == b'B'
    then b'8'
    else if c == b'Z'
    then b'2'
    else if c == b'G'
    then b'6'
    else if c == b'q'
    then b'9'
    else c

-- `_CONFUSABLE` and `_STANDALONE`
abbrev pub is_confusable : ℕ → Bool
is_confusable c = one_of (codes "Il|OoDSsBZGq") c

abbrev pub is_standalone : ℕ → Bool
is_standalone c = one_of (codes "Il|OoSsBZGq") c

-- A token and the white space after it.
pub record Token : Type 0 where
  pub chars : Text
  pub gap : Text

abbrev pub short : Text → Bool
short t = leb 1 (length t) && leb (length t) 3 && not (any (λ c. not (is_standalone c)) t)

abbrev pub head_flag : List Bool → Bool
head_flag [] = false
head_flag (b ∷ bs) = b

-- One round of the `while` loop, from left to right: the left neighbour is read as this round left it.
abbrev pub spread : Bool → List Token → List Bool → List Bool
spread left [] fs = []
spread left (t ∷ ts) [] = []
spread left (t ∷ ts) (f ∷ fs) =
    let now = f || (short t.chars && (left || head_flag fs)) in now ∷ spread now ts fs

abbrev pub same_flags : List Bool → List Bool → Bool
same_flags [] gs = true
same_flags (f ∷ fs) [] = true
same_flags (true ∷ fs) (g ∷ gs) = g && same_flags fs gs
same_flags (false ∷ fs) (g ∷ gs) = not g && same_flags fs gs

-- `while changed`, on fuel.
unfoldable pub spread_loop : ℕ → List Token → List Bool → List Bool
spread_loop zero ts fs = fs
spread_loop (suc fuel) ts fs =
    let next = spread false ts fs in
    let rest = spread_loop fuel ts next in if same_flags fs next then fs else rest

abbrev pub set_all : ℕ → List Bool → List Bool
set_all zero fs = fs
set_all (suc n) [] = []
set_all (suc n) (f ∷ fs) = true ∷ set_all n fs

-- How many short tokens stand from here on.
abbrev pub run_length : List Token → ℕ
run_length [] = 0
run_length (t ∷ ts) = if short t.chars then suc (run_length ts) else 0

-- The streaks: `count` short tokens stand before this one, and `force` says that their streak is long.
abbrev pub streaks : Bool → List Token → List Bool → List Bool
streaks inside [] fs = []
streaks inside (t ∷ ts) [] = []
streaks inside (t ∷ ts) (f ∷ fs) =
    let long = short t.chars && (inside || leb 4 (run_length (t ∷ ts))) in
    (f || long) ∷ streaks long ts fs

abbrev pub translate : Text → Text
translate [] = []
translate (c ∷ t) = unconfused c ∷ translate t

-- `"".join(parts)`, with the numeric tokens translated.
abbrev pub join_tokens : List Token → List Bool → Text
join_tokens [] fs = []
join_tokens (t ∷ ts) [] = t.chars ++ (t.gap ++ join_tokens ts [])
join_tokens (t ∷ ts) (f ∷ fs) =
    (if f then translate t.chars else t.chars) ++ (t.gap ++ join_tokens ts fs)

abbrev pub add_char : ℕ → List Token → List Token
add_char c [] = record { chars = c ∷ []; gap = [] } ∷ []
add_char c (t ∷ ts) = record t { chars = c ∷ t.chars } ∷ ts

abbrev pub add_space : ℕ → List Token → List Token
add_space c [] = record { chars = []; gap = c ∷ [] } ∷ []
add_space c (t ∷ ts) =
    if is_empty t.chars
    then record t { gap = c ∷ t.gap } ∷ ts
    else record { chars = []; gap = c ∷ [] } ∷ t ∷ ts

module _ (ch : Chars) where
  -- `re.split(r"(\s+)", text)`: a text that begins with white space has an empty token there. The one
  -- at the end of a text that ends with white space is left out: no rule reads it.
  abbrev pub split_tokens : Text → List Token
  split_tokens [] = record { chars = []; gap = [] } ∷ []
  split_tokens (c ∷ t) =
      if ch.space c then add_space c (split_tokens t) else add_char c (split_tokens t)

  abbrev pub numeric : Text → Bool
  numeric t =
      let alnum = keep_if (λ c. ch.isalnum c || c == b'|') t in
      any (ch.isdigit) t
      && not (is_empty alnum)
      && leb (length alnum) (length (keep_if (λ c. ch.isdigit c || is_confusable c) alnum) * 2)

  abbrev pub numeric_flags : List Token → List Bool
  numeric_flags [] = []
  numeric_flags (t ∷ ts) = numeric t.chars ∷ numeric_flags ts

  unfoldable pub normalize_confusions : Text → Text
  unfolding spread_loop
  normalize_confusions text =
      let tokens = split_tokens text in
      join_tokens tokens
        (streaks false tokens (spread_loop (length tokens) tokens (numeric_flags tokens)))
