-- ===== src/Tables/Readers/Answers.antt =====
-- The answer of `read_page` (app/services/table_pipeline.py): whose it is, and what it says.
use pdf_engine_toolbox.Base.{
  ℕ, ◌≡◌, refl, inl, inr, Bool, true, false, not, ◌&&◌, ◌||◌, Option, none, some, arith, is_empty,
  is_some, or_else, Bool-cases,
}
use pdf_engine_toolbox.Errors.{Text}
use pdf_engine_toolbox.Pdf.{Outcome, done, raised, uncaught, ◌>>=◌}
use pdf_engine_toolbox.Tables.Readers.{
  Measures, Attempt, returned, out_of_memory, excepted, PageResult,
}
use pdf_engine_toolbox.Tables.Readers.Docling.{docling_page_result}
use pdf_engine_toolbox.Tables.Readers.RapidPage.{
  ReadPage, page_read, configuration_error, no_memory, rapid_page_result,
}
use pdf_engine_toolbox.Tables.Readers.Pipeline.{
  Strategy, auto, pymupdf, image, is_auto, is_partial, TablePage, native_result, from_rapid,
  first_result, prefer, after_fallback, fall_back, read_page,
}
use pdf_engine_toolbox.Tables.Readers.Sound.{
  is_docling, is_native, is_image, IsAccounted, Settles, native_result-Settles, Reads,
  rapid_page_result-Reads, Converts, docling_page_result-Converts,
}

module _ (ms : Measures) where
  -- The answer of a page, and when it may be Docling's or PyMuPDF's.
  pub record IsSound (s : Strategy) (docling allowed : Bool) (r : PageResult ms) : Type 0 where
    pub accounted : IsAccounted ms r
    pub fallback_wanted : (is_docling r.source && not (is_auto s && docling && allowed)) ≡ false
    pub native_wanted : (is_native r.source && is_image s) ≡ false

  abbrev pub Answers : Strategy → Bool → Bool → Outcome (PageResult ms) → Type 0
  Answers s docling allowed (done r) = IsSound s docling allowed r
  Answers s docling allowed _ = Unit {0}

  -- A first result: sound whatever the settings, and not Docling's.
  abbrev First : Strategy → Outcome (PageResult ms) → Type 0
  First s (done r) =
      IsAccounted ms r
      × (is_docling r.source ≡ false)
      × ((is_native r.source && is_image s) ≡ false)
  First s _ = Unit {0}

  from_rapid-First : (s : Strategy) (o : ReadPage ms) → Reads ms o → First s (from_rapid ms o)
  from_rapid-First s (page_read r) h = (h.0, rw (h.1), rw (h.1))
  from_rapid-First s configuration_error h = tt
  from_rapid-First s no_memory h = tt

  first_result-First :
      (i : ℕ) (s : Strategy) (english : Bool) (p : TablePage ms)
      (a : Attempt (Option (PageResult ms)))
      → Settles ms s a
      → First s (first_result ms i english p a)
  first_result-First i s english p out_of_memory h = tt
  first_result-First i s english p excepted h = tt
  first_result-First i s english p (returned (some r)) h = (h.0, rw (h.1), rw (h.2, h.1))
  first_result-First i s true p (returned none) h =
      from_rapid-First s (rapid_page_result ms i p.rendered)
        (rapid_page_result-Reads ms i p.rendered)
  first_result-First i s false p (returned none) h = tt

  has_reason : (o : Option Text) (t : Text) → not (is_some (or_else o (some t))) ≡ false
  has_reason none t = refl
  has_reason (some u) t = refl

  prefer-IsAccounted :
      (first alternative : PageResult ms)
      → IsAccounted ms first
      → IsAccounted ms alternative
      → IsAccounted ms (prefer ms first alternative)
  prefer-IsAccounted first alternative f a =
      elim (Bool-cases (not (is_partial alternative.status) || is_empty first.tables)) [
        | inl taken ↦ rw taken (record {
          complete_tables = a.complete_tables;
          empty_tables = a.empty_tables;
          partial_reason = a.partial_reason;
          grids = a.grids;
        })
        | inr kept ↦ rw kept (record {
          complete_tables = refl;
          empty_tables = refl;
          partial_reason = has_reason alternative.reason _;
          grids = f.grids;
        })
      ]

  after_fallback-Answers :
      (first : PageResult ms) (a : Attempt (PageResult ms))
      → IsAccounted ms first
      → Converts ms a
      → Answers auto true true (after_fallback ms first a)
  after_fallback-Answers first out_of_memory f c = tt
  after_fallback-Answers first excepted f c = tt
  after_fallback-Answers first (returned r) f c = record {
    accounted = prefer-IsAccounted first r f c;
    fallback_wanted = ground arith;
    native_wanted = ground arith;
  }

  fall_back-Answers :
      (i : ℕ) (s : Strategy) (docling : Bool) (p : TablePage ms) (first : PageResult ms)
      → First s (done first)
      → Answers s docling p.allowed (fall_back ms i s docling p first)
  unfolding fall_back
  fall_back-Answers i pymupdf docling p first f = record {
    accounted = f.0;
    fallback_wanted = ground (arith, f.1);
    native_wanted = f.2;
  }
  fall_back-Answers i image docling p first f = record {
    accounted = f.0;
    fallback_wanted = ground (arith, f.1);
    native_wanted = f.2;
  }
  fall_back-Answers i auto docling p first f =
      elim (Bool-cases (is_partial first.status && docling)) [
        | inr settled ↦
            rw settled (record {
              accounted = f.0;
              fallback_wanted = ground (arith, f.1);
              native_wanted = f.2;
            })
        | inl wanted ↦ elim (Bool-cases p.allowed) [
          | inl allowed ↦
              let named : docling ≡ true = ground arith in
              rw (wanted, allowed, named)
                (after_fallback-Answers first (docling_page_result ms i p.conversion) f.0
                  (docling_page_result-Converts ms i p.conversion))
          | inr at_limit ↦
              rw (wanted, at_limit)
                (record {
                  accounted = record {
                    complete_tables = refl;
                    empty_tables = refl;
                    partial_reason = refl;
                    grids = f.0.grids;
                  };
                  fallback_wanted = ground (arith, f.1);
                  native_wanted = f.2;
                })
        ]
      ]

  -- What a page of a table request is answered with says what it is: a complete page has tables, an
  -- empty one has none, and any other gives a reason; tables that are not PyMuPDF's are grids of their
  -- cells; Docling answers only where the strategy is automatic, the settings name it and the claim was
  -- allowed; and PyMuPDF never where the page image was asked for.
  pub read_page-Answers :
      (i : ℕ) (s : Strategy) (english docling : Bool) (p : TablePage ms)
      → Answers s docling p.allowed (read_page ms i s english docling p)
  unfolding read_page
  read_page-Answers i s english docling p =
      on_first (first_result ms i english p (native_result ms i s p.native)) (
        first_result-First i s english p (native_result ms i s p.native)
          (native_result-Settles ms i s p.native))
    where
      on_first :
          (o : Outcome (PageResult ms))
          → First s o
          → Answers s docling p.allowed (o >>= λ first. fall_back ms i s docling p first)
      on_first (done first) h = fall_back-Answers i s docling p first h
      on_first (raised e) h = tt
      on_first uncaught h = tt
