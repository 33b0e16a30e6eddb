-- ===== src/Redact/Flow/Clear.antt =====
-- No line of a returned file shows an identifier (app/services/identifier_redaction.py).
use pdf_engine_toolbox.Base.{ℕ, suc, ◌≡◌, true, false, some, List, [], ◌∷◌, All}
use pdf_engine_toolbox.Errors.{Text}
use pdf_engine_toolbox.Regex.{Chars}
use pdf_engine_toolbox.Redact.Words.{Floats, Fitz, line_text}
use pdf_engine_toolbox.Redact.Words.Find.{search_groups}
use pdf_engine_toolbox.Redact.Boxed.{ShowsIdentifier, find_identifiers-Clean}
use pdf_engine_toolbox.Redact.Flow.{passed, Documents, OcrWords, Redaction, redact_identifiers}
use pdf_engine_toolbox.Redact.Flow.Clean.{LayersClean, redact_identifiers-Cleaned}

module _ (ch : Chars) (fl : Floats) {Page : Type 0} (fitz : Fitz fl Page)
    (docs : Documents ch fl fitz) where
  -- No line of words of the text layer shows an SSN or an EIN.
  abbrev pub Clear : Page → Type 0
  Clear p =
      All (λ line. ¬ ShowsIdentifier ch (line_text fl line).0)
        (search_groups ch fl fitz (docs.words p) false)

  module _ (plain : (x : ℕ) → ch.decimal x ≡ true → ch.isdigit x ≡ true)
      (blank : ch.decimal 32 ≡ false) where
    pages-Clear :
        (i : ℕ) (pages : List Page) → LayersClean ch fl fitz docs i pages → All Clear pages
    pages-Clear i [] c = tt
    pages-Clear i (p ∷ pages) c = (
      find_identifiers-Clean ch plain blank fl fitz i (some p) (docs.words p) c.0,
      pages-Clear (suc i) pages c.1,
    )

    -- If every decimal digit is a digit to `isdigit` and a space is none, and a redaction is
    -- returned, then its file opens, and on every page of it no reading line of the text layer
    -- shows an SSN or an EIN: three, two and four digits with the same dash or space between them,
    -- or two digits, a dash and seven digits, with no digit or dash at either side.
    pub redact_identifiers-Clear :
        (ocr : OcrWords ch fl fitz) (bytes media_type : Text) (r : Redaction ch fl fitz)
        → redact_identifiers ch fl fitz docs ocr bytes media_type ≡ passed r
        → (pages : List Page) × (docs.open_pdf r.pdf_bytes ≡ some pages) × All Clear pages
    redact_identifiers-Clear ocr bytes media_type r e =
        let (pdf, before, source, opened, clean) =
          redact_identifiers-Cleaned ch fl fitz docs ocr bytes media_type r e in
        (clean.pages, clean.opened, pages-Clear 0 clean.pages clean.layers)
