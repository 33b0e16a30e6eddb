-- ===== src/Redact/Matches.antt =====
-- `_matches` and `suspect_runs`: the identifiers in one line of text, and the digit runs that may be a
-- misread one (app/services/identifier_redaction.py).
use pdf_engine_toolbox.Base.{
  ℕ, suc, ◌+◌, ◌-◌, Bool, true, false, not, ◌&&◌, ◌||◌, Option, none, some, List, [], ◌∷◌, ◌++◌,
  leb, ltb, ◌==◌, if◌then◌else◌, length, any, keep_if, max, lookup, reverse,
}
use pdf_engine_toolbox.Errors.{Text}
use pdf_engine_toolbox.Regex.{Chars, take, drop, group_text}
use pdf_engine_toolbox.Regex.Search.{Match, finditer, search}
use pdf_engine_toolbox.Redact.{
  IdentifierKind, ssn, ein, tin, Hit, ssn_pattern, ein_pattern, labeled_bare, ssn_label, ein_label,
  not_identifier, digit_run,
}
use pdf_engine_toolbox.Redact.Confusions.{normalize_confusions}

abbrev pub slice : ℕ → ℕ → Text → Text
slice start stop text = take (stop - start) (drop start text)

-- `"x" * len(...)` in the place of every match
abbrev pub masked : ℕ → Text → List Match → Text
masked pos [] ms = []
masked pos (c ∷ t) ms =
    (if any (λ m. leb m.start pos && ltb pos m.stop) ms then b'x' else c) ∷ masked (suc pos) t ms

abbrev pub map_matches : {A : Type 0} → (Match → A) → List Match → List A
map_matches f [] = []
map_matches f (m ∷ ms) = f m ∷ map_matches f ms

-- `(start, end, digits)`
pub record DigitRun : Type 0 where
  pub start : ℕ
  pub stop : ℕ
  pub digits : Text

abbrev pub is_shape : List ℕ → List ℕ → Bool
is_shape [] [] = true
is_shape [] (n ∷ ns) = false
is_shape (m ∷ ms) [] = false
is_shape (m ∷ ms) (n ∷ ns) = (m == n) && is_shape ms ns

-- `len(groups) == len(shape)` and the sum of the differences
abbrev pub shape_distance : List ℕ → List ℕ → Option ℕ
shape_distance [] [] = some 0
shape_distance [] (n ∷ ns) = none
shape_distance (m ∷ ms) [] = none
shape_distance (m ∷ ms) (n ∷ ns) = elim (shape_distance ms ns) [
  | none ↦ none
  | some d ↦ some (d + ((m - n) + (n - m)))
]

abbrev pub near : List ℕ → List ℕ → Bool
near groups shape = elim (shape_distance groups shape) [ none ↦ false | some d ↦ leb d 2 ]

-- `_ID_GROUPS`
abbrev pub id_groups : List (List ℕ)
id_groups = (3 ∷ 2 ∷ 4 ∷ []) ∷ (2 ∷ 7 ∷ []) ∷ (3 ∷ 6 ∷ []) ∷ (9 ∷ []) ∷ []

abbrev pub suspect_digits : ℕ
suspect_digits = 7

abbrev largest : List ℕ → ℕ
largest [] = 0
largest (n ∷ ns) = max n (largest ns)

abbrev pub is_suspect : List ℕ → ℕ → Bool
is_suspect groups n =
    if leb 4 (length groups) && leb (largest groups) 2 && not (n == 9)
    then true
    else if not (leb suspect_digits n && leb n 11) || (n == 9)
    then false
    else any (near groups) id_groups

module _ (ch : Chars) where
  abbrev pub digits_of : Text → Text
  digits_of t = keep_if (ch.decimal) t

  -- The lengths of `re.findall(r"\d+", text)`, with `n` digits read of the group at hand.
  abbrev pub group_lengths : ℕ → Text → List ℕ
  group_lengths n [] = if n == 0 then [] else n ∷ []
  group_lengths n (c ∷ t) =
      let rest = group_lengths (if ch.decimal c then suc n else 0) t in
      if ch.decimal c || (n == 0) then rest else n ∷ rest

  abbrev pub digit_runs : Text → List DigitRun
  digit_runs text =
      let hidden = masked 0 text (finditer (not_identifier ch) text) in
      map_matches
        (λ m. record {
          start = m.start;
          stop = m.stop;
          digits = digits_of (slice m.start m.stop hidden);
        })
        (finditer (digit_run ch) hidden)

  abbrev pub label_kind : Text → IdentifierKind
  label_kind label =
      if search (ssn_label ch) none 0 label
      then ssn
      else if search (ein_label ch) none 0 label
      then ein
      else tin

  abbrev pub run_kind : Text → ℕ → ℕ → IdentifierKind
  run_kind text start stop =
      let groups = group_lengths 0 (slice start stop text) in
      if is_shape groups (3 ∷ 2 ∷ 4 ∷ [])
      then ssn
      else if is_shape groups (2 ∷ 7 ∷ [])
      then ein
      else label_kind (slice (start - 60) start text)

  abbrev pub suspects_in : Text → List DigitRun → List Text
  suspects_in text [] = []
  suspects_in text (r ∷ rs) =
      let rest = suspects_in text rs in
      if is_suspect (group_lengths 0 (slice r.start r.stop text)) (length r.digits)
      then r.digits ∷ rest
      else rest

  unfoldable pub suspect_runs : Text → List Text
  unfolding normalize_confusions finditer
  suspect_runs text =
      let normalized = normalize_confusions ch text in
      suspects_in normalized (digit_runs normalized)

  abbrev pub nine_digit_hits : Text → List DigitRun → List Hit
  nine_digit_hits text [] = []
  nine_digit_hits text (r ∷ rs) =
      let rest = nine_digit_hits text rs in
      if length r.digits == 9
      then record {
        start = r.start;
        stop = r.stop;
        kind = run_kind text r.start r.stop;
        digits = r.digits;
      }
        ∷ rest
      else rest

  abbrev pub group_start : ℕ → Match → ℕ
  group_start k m = elim (lookup k m.groups) [ none ↦ 0 | some g ↦ g.0 ]

  abbrev pub ssn_hit : Match → Hit
  ssn_hit m = record {
    start = m.start;
    stop = m.stop;
    kind = ssn;
    digits = group_text 1 m.groups ++ (group_text 3 m.groups ++ group_text 4 m.groups);
  }

  abbrev pub ein_hit : Match → Hit
  ein_hit m = record {
    start = m.start;
    stop = m.stop;
    kind = ein;
    digits = group_text 1 m.groups ++ group_text 2 m.groups;
  }

  -- The match is the label with its digits, the hit the digits.
  abbrev pub bare_hit : Text → Match → Hit
  bare_hit line m = record {
    start = group_start 1 m;
    stop = group_start 1 m + length (group_text 1 m.groups);
    kind = label_kind (slice m.start m.stop line);
    digits = group_text 1 m.groups;
  }

  unfoldable pub text_hits : Text → List Hit
  unfolding finditer
  text_hits line =
      map_matches ssn_hit (finditer (ssn_pattern ch) line)
      ++ (map_matches ein_hit (finditer (ein_pattern ch) line)
          ++ map_matches (bare_hit line) (finditer (labeled_bare ch) line))

  unfoldable pub ocr_hits : Text → List Hit
  unfolding normalize_confusions finditer
  ocr_hits line =
      let normalized = normalize_confusions ch line in
      nine_digit_hits normalized (digit_runs normalized)

  -- `_matches`
  unfoldable pub matches : Text → Bool → List Hit
  unfolding text_hits ocr_hits
  matches line ocr = if ocr then ocr_hits line else text_hits line

  -- `_prefix_end` on the characters of `text[start:end]` from the last to the first, with `seen` digits
  -- passed: the fourth digit from the end, or `start`.
  unfoldable pub prefix_loop : ℕ → ℕ → Text → ℕ
  prefix_loop start seen [] = start
  prefix_loop start seen (c ∷ t) =
      let rest = prefix_loop start (if ch.isdigit c then suc seen else seen) t in
      if ch.isdigit c && (suc seen == 4) then start + length t else rest

  unfoldable pub prefix_end : Text → ℕ → ℕ → ℕ
  unfolding prefix_loop
  prefix_end text start stop = prefix_loop start 0 (reverse (slice start stop text))
