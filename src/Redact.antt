-- ===== src/Redact.antt =====
-- app/services/identifier_redaction.py: SSNs, ITINs and EINs are found in the words of a page and
-- blacked out, and the result is searched again. This file has the patterns and what is found.
pub mod Confusions
pub mod Matches
pub mod Words
pub mod Flow
pub mod Shapes
pub mod Visible
pub mod Shown
pub mod Boxed
use pdf_engine_toolbox.Base.{
  ℕ, suc, ◌-◌, Bool, true, false, not, ◌&&◌, ◌||◌, List, [], ◌∷◌, leb, ltb, ◌==◌, any,
}
use pdf_engine_toolbox.Errors.{Text, codes}
use pdf_engine_toolbox.Regex.{
  Chars, Regex, char, seq, alt, times, many, group, backref, not_behind, not_ahead, boundary,
  at_end,
}

pub data IdentifierKind : Type 0 where
  ssn ein tin : IdentifierKind

-- `(start, end, kind, digits)`
pub record Hit : Type 0 where
  pub start : ℕ
  pub stop : ℕ
  pub kind : IdentifierKind
  pub digits : Text

abbrev pub one_of : Text → ℕ → Bool
one_of cs x = any (λ c. c == x) cs

-- `-./_:·•` and space, with the dashes from U+2010 to U+2015
abbrev pub is_separator : ℕ → Bool
is_separator x = one_of (codes "-./_: ") x || x == 183 || x == 8226 || (leb 8208 x && leb x 8213)

-- `[-.…·_ ]`
abbrev pub is_leader : ℕ → Bool
is_leader x = one_of (codes "-._ ") x || x == 8230 || x == 183

abbrev pub here : ℕ → Regex
here c = char (λ x. x == c)

-- Both one after the other, for three or more parts.
abbrev pub chain : Regex → List Regex → Regex
chain r [] = r
chain r (s ∷ rs) = seq r (chain s rs)

abbrev pub either : Regex → List Regex → Regex
either r [] = r
either r (s ∷ rs) = alt r (either s rs)

abbrev pub opt : Regex → Regex
opt r = times 0 1 r

module _ (ch : Chars) where
  abbrev pub digit : Regex
  digit = char (ch.decimal)

  abbrev pub digits_times : ℕ → Regex
  digits_times n = times n 0 digit

  abbrev pub digit_or_dash : ℕ → Bool
  digit_or_dash x = ch.decimal x || x == 45

  -- `_SSN`
  abbrev pub ssn_pattern : Regex
  ssn_pattern = chain (not_behind digit_or_dash) (
      group 1 (digits_times 3)
      ∷ group 2 (char (one_of (codes "- ")))
      ∷ group 3 (digits_times 2)
      ∷ backref 2
      ∷ group 4 (digits_times 4)
      ∷ not_ahead digit_or_dash
      ∷ [])

  -- `_EIN`
  abbrev pub ein_pattern : Regex
  ein_pattern =
      chain (not_behind digit_or_dash) (
        group 1 (digits_times 2)
        ∷ here 45
        ∷ group 2 (digits_times 7)
        ∷ not_ahead digit_or_dash
        ∷ [])

  -- A word, whatever its case.
  abbrev pub literal : Text → Regex
  literal [] = times 0 0 at_end
  literal (c ∷ t) = seq (char (ch.same_letter c)) (literal t)

  abbrev pub spaces : Regex
  spaces = seq (char (ch.space)) (many (char (ch.space)))

  abbrev pub word_edge : Regex
  word_edge = boundary (ch.word)

  abbrev pub social_security : Regex
  social_security = chain (literal (codes "social")) (spaces ∷ literal (codes "security") ∷ [])

  -- `payer'?s?`
  abbrev pub possessive : Text → Regex
  possessive t = chain (literal t) (opt (here 39) ∷ opt (literal (codes "s")) ∷ [])

  abbrev pub owner : Regex
  owner = either (literal (codes "taxpayer")) (
      literal (codes "employer")
      ∷ possessive (codes "payer")
      ∷ possessive (codes "recipient")
      ∷ possessive (codes "borrower")
      ∷ possessive (codes "student")
      ∷ [])

  abbrev pub identifier_label : Regex
  identifier_label = either (literal (codes "SSN")) (
      literal (codes "TIN")
      ∷ literal (codes "EIN")
      ∷ literal (codes "FEIN")
      ∷ literal (codes "ITIN")
      ∷ seq social_security (opt (seq spaces (literal (codes "number"))))
      ∷ chain owner (
          spaces
          ∷ alt (literal (codes "identification")) (literal (codes "id"))
          ∷ opt (
              seq spaces
                (alt (literal (codes "number")) (seq (literal (codes "no")) (opt (here 46)))))
          ∷ [])
      ∷ chain (literal (codes "identification")) (spaces ∷ literal (codes "number") ∷ [])
      ∷ [])

  -- `_LABELED_BARE`
  abbrev pub labeled_bare : Regex
  labeled_bare = chain word_edge (
      identifier_label
      ∷ word_edge
      ∷ times 0 40 (char (λ x. not (ch.decimal x || x == 10)))
      ∷ group 1 (digits_times 9)
      ∷ not_ahead (ch.decimal)
      ∷ [])

  -- `_SSN_LABEL` and `_EIN_LABEL`
  abbrev pub ssn_label : Regex
  ssn_label = chain word_edge (
      either (literal (codes "SSN")) (literal (codes "ITIN") ∷ social_security ∷ [])
      ∷ word_edge
      ∷ [])

  abbrev pub ein_label : Regex
  ein_label = chain word_edge (
      either (literal (codes "EIN")) (literal (codes "FEIN") ∷ literal (codes "employer") ∷ [])
      ∷ word_edge
      ∷ [])

  abbrev pub no_digit_ahead : Regex
  no_digit_ahead = not_ahead (ch.decimal)

  abbrev pub no_digit_behind : Regex
  no_digit_behind = not_behind (ch.decimal)

  abbrev pub cents : Regex
  cents = seq (here 46) (digits_times 2)

  abbrev pub dash_or_dot : Regex
  dash_or_dot = char (one_of (codes "-."))

  -- `_NOT_IDENTIFIER`: amounts, dates, ZIP+4 and telephone numbers
  abbrev pub not_identifier : Regex
  not_identifier =
      either
        (chain (opt (here 36)) (
          times 1 2 digit
          ∷ seq (seq (here 44) (digits_times 3)) (many (seq (here 44) (digits_times 3)))
          ∷ opt cents
          ∷ no_digit_ahead
          ∷ []))
        (chain (opt (here 36)) (digit ∷ many digit ∷ cents ∷ no_digit_ahead ∷ [])
          ∷ chain no_digit_behind (
              times 1 1 digit
              ∷ here 47
              ∷ times 1 1 digit
              ∷ here 47
              ∷ times 2 2 digit
              ∷ no_digit_ahead
              ∷ [])
          ∷ chain no_digit_behind (digits_times 5 ∷ here 45 ∷ digits_times 4 ∷ no_digit_ahead ∷ [])
          ∷ chain (here 40) (
              digits_times 3
              ∷ here 41
              ∷ opt (char (ch.space))
              ∷ digits_times 3
              ∷ dash_or_dot
              ∷ digits_times 4
              ∷ no_digit_ahead
              ∷ [])
          ∷ chain no_digit_behind (
              digits_times 3
              ∷ dash_or_dot
              ∷ digits_times 3
              ∷ dash_or_dot
              ∷ digits_times 4
              ∷ no_digit_ahead
              ∷ [])
          ∷ [])

  -- `_DIGIT_RUN`
  abbrev pub digit_run : Regex
  digit_run =
      seq digit
        (many (seq (alt (times 0 2 (char is_separator)) (times 3 13 (char is_leader))) digit))
