-- ===== src/Pdf/Classify.antt =====
-- `classify_document` of app/services/pdf_service.py, but for the tax year: the keywords in their order.
pub mod Shadowed
use pdf_engine_toolbox.Base.{
  ℕ, zero, suc, Bool, true, false, ◌&&◌, ◌||◌, not, Option, none, some, List, [], ◌∷◌, ◌++◌, ◌==◌,
  reverse, if◌then◌else◌, String,
}
use pdf_engine_toolbox.Errors.{Text, codes}
use pdf_engine_toolbox.Download.Policy.{strip}
use pdf_engine_toolbox.Regex.{take}
use pdf_engine_toolbox.Pdf.{Outcome, done, ◌>>=◌, Fitz, open_pdf}

pub record Pattern : Type 0 where
  pub keyword : Text
  pub label : Text

abbrev pub form : String → String → Pattern
form keyword label = record { keyword = codes keyword; label = codes label }

abbrev pub tax_form_patterns : List Pattern
tax_form_patterns =
    form "Wage and Tax Statement" "W-2"
    ∷ form "Form W-2" "W-2"
    ∷ form "Interest Income" "1099-INT"
    ∷ form "Form 1099-INT" "1099-INT"
    ∷ form "Dividend Income" "1099-DIV"
    ∷ form "Form 1099-DIV" "1099-DIV"
    ∷ form "Miscellaneous Income" "1099-MISC"
    ∷ form "Form 1099-MISC" "1099-MISC"
    ∷ form "Nonemployee Compensation" "1099-NEC"
    ∷ form "Form 1099-NEC" "1099-NEC"
    ∷ form "Form 1099-B" "1099-B"
    ∷ form "Proceeds From Broker" "1099-B"
    ∷ form "Form 1099-R" "1099-R"
    ∷ form "Distributions From Pensions" "1099-R"
    ∷ form "Form 1099-S" "1099-S"
    ∷ form "Real Estate Transactions" "1099-S"
    ∷ form "Form 1099-G" "1099-G"
    ∷ form "Government Payments" "1099-G"
    ∷ form "Form 1099-K" "1099-K"
    ∷ form "Payment Card" "1099-K"
    ∷ form "Form 1099-SSA" "SSA-1099"
    ∷ form "Social Security Benefit" "SSA-1099"
    ∷ form "Schedule K-1" "K-1"
    ∷ form "Partner's Share" "K-1"
    ∷ form "Shareholder's Share" "K-1"
    ∷ form "Beneficiary's Share" "K-1"
    ∷ form "Form 1098" "1098"
    ∷ form "Mortgage Interest Statement" "1098"
    ∷ form "Form 1098-T" "1098-T"
    ∷ form "Tuition Statement" "1098-T"
    ∷ form "Form 1095-A" "1095-A"
    ∷ form "Health Insurance Marketplace" "1095-A"
    ∷ form "Form 1095-B" "1095-B"
    ∷ form "Form 1095-C" "1095-C"
    ∷ form "U.S. Individual Income Tax Return" "1040"
    ∷ form "Form 1040" "1040"
    ∷ form "Form 1065" "1065"
    ∷ form "U.S. Return of Partnership Income" "1065"
    ∷ form "Form 1120" "1120"
    ∷ form "U.S. Corporation Income Tax Return" "1120"
    ∷ form "Form 1120-S" "1120-S"
    ∷ form "Form 990" "990"
    ∷ form "Form 941" "941"
    ∷ form "Employer's Quarterly Federal Tax" "941"
    ∷ form "Form 940" "940"
    ∷ form "Form 8949" "8949"
    ∷ form "Sales and Other Dispositions" "8949"
    ∷ form "Schedule A" "Schedule A"
    ∷ form "Itemized Deductions" "Schedule A"
    ∷ form "Schedule B" "Schedule B"
    ∷ form "Schedule C" "Schedule C"
    ∷ form "Profit or Loss From Business" "Schedule C"
    ∷ form "Schedule D" "Schedule D"
    ∷ form "Capital Gains and Losses" "Schedule D"
    ∷ form "Schedule E" "Schedule E"
    ∷ form "Supplemental Income and Loss" "Schedule E"
    ∷ form "Schedule SE" "Schedule SE"
    ∷ form "Self-Employment Tax" "Schedule SE"
    ∷ form "Passport" "Passport"
    ∷ form "Driver License" "ID"
    ∷ form "Driver's License" "ID"
    ∷ form "Property Tax" "Property Tax"
    ∷ form "Receipt" "Receipt"
    ∷ form "Invoice" "Invoice"
    ∷ form "Bank Statement" "Bank Statement"
    ∷ []

abbrev pub is_prefix : Text → Text → Bool
is_prefix [] t = true
is_prefix (c ∷ s) [] = false
is_prefix (c ∷ s) (d ∷ t) = (c == d) && is_prefix s t

-- `needle in text`
abbrev pub occurs : Text → Text → Bool
occurs needle [] = is_prefix needle []
occurs needle (c ∷ t) = is_prefix needle (c ∷ t) || occurs needle t

pub record Classification : Type 0 where
  pub suggested_label : Text
  pub is_confident : Bool
  pub matched_keyword : Option Text
  pub page_text_preview : Text

abbrev pub unknown_form : Text → Classification
unknown_form preview = record {
  suggested_label = codes "Unknown";
  is_confident = false;
  matched_keyword = none;
  page_text_preview = preview;
}

-- The first page, and the second one after a space.
abbrev pub combined_text : Text → List Text → Text
combined_text first [] = first
combined_text first (second ∷ rest) = first ++ (32 ∷ strip second)

abbrev pub texts_of : {P : Type 0} → (P → Text) → List P → List Text
texts_of get_text [] = []
texts_of get_text (p ∷ ps) = get_text p ∷ texts_of get_text ps

-- `upper` is `str.upper`.
module _ (upper : Text → Text) where
  unfoldable pub first_match : List Pattern → Text → Option Pattern
  first_match [] t = none
  first_match (p ∷ ps) t = if occurs (upper p.keyword) t then some p else first_match ps t

  abbrev pub classified : Text → Option Pattern → Classification
  classified preview none = unknown_form preview
  classified preview (some p) = record {
    suggested_label = p.label;
    is_confident = true;
    matched_keyword = some p.keyword;
    page_text_preview = preview;
  }

  unfoldable pub classify_texts : List Text → Classification
  unfolding first_match
  classify_texts [] = unknown_form []
  classify_texts (first ∷ rest) =
      classified (take 200 (strip first))
        (first_match tax_form_patterns (upper (combined_text (strip first) rest)))

  unfoldable pub classify_document : (fz : Fitz) → (fz.Page → Text) → Text → Outcome Classification
  unfolding classify_texts
  classify_document fz get_text pdf_bytes =
      open_pdf fz pdf_bytes >>= λ doc. done (classify_texts (texts_of get_text (fz.pages doc)))
