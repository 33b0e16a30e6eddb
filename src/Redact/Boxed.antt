-- ===== src/Redact/Boxed.antt =====
-- A line of a page that shows an identifier is found (app/services/identifier_redaction.py).
use pdf_engine_toolbox.Base.{
  ℕ, ◌≡◌, ◌≢◌, ◌≤◌, ◌<◌, ◌⊎◌, inl, inr, refl, sym, subst, Bool, true, false, Option, List, [], ◌∷◌,
  ◌++◌, arith, Bool-cases, All, leb, max, min,
}
use pdf_engine_toolbox.Errors.{Text}
use pdf_engine_toolbox.Regex.{Chars, Regex, Cursor, run}
use pdf_engine_toolbox.Regex.Search.{Match, finditer}
use pdf_engine_toolbox.Regex.Reads.{In}
use pdf_engine_toolbox.Redact.{Hit, ssn_pattern, ein_pattern, labeled_bare}
use pdf_engine_toolbox.Redact.Matches.{
  prefix_end, matches, text_hits, map_matches, ssn_hit, ein_hit, bare_hit,
}
use pdf_engine_toolbox.Redact.Words.{Floats, Rect, Word, Span, line_text, Fitz}
use pdf_engine_toolbox.Redact.Words.Find.{
  hit_rects, found_of, found_in_groups, search_groups, find_identifiers,
}
use pdf_engine_toolbox.Redact.Shapes.{ReadsId, ShowsSsn, ShowsEin, ssn_reads, ein_reads}
use pdf_engine_toolbox.Redact.Visible.{Over, line_text-Covered}
use pdf_engine_toolbox.Redact.Shown.{Standing, finditer-Standing, ssn_found, ein_found}
use pdf_engine_toolbox.Redact.Flow.Clean.{append-empty}

-- A text in which an SSN or an EIN stands.
abbrev pub ShowsIdentifier : Chars → Text → Type 0
ShowsIdentifier ch t = ShowsSsn ch t ⊎ ShowsEin ch t

In-right : {A : Type 0} (xs ys : List A) (x : A) → In x ys → In x (xs ++ ys)
In-right [] ys x h = h
In-right (y ∷ xs) ys x h = inr (In-right xs ys x h)

module _ (ch : Chars) (fl : Floats) {Page : Type 0} (fitz : Fitz fl Page) where
  hit_rects_some :
      (page : Option Page) (ocr : Bool) (start cut : ℕ) (spans : List (Span fl))
      → Over fl start spans
      → start < cut
      → hit_rects ch fl fitz page ocr start cut spans ≢ []
  unfolding hit_rects
  hit_rects_some page ocr start cut [] (s, h, a, b) lt e = absurd h
  hit_rects_some page ocr start cut (x ∷ spans) (s, inl same, a, b) lt e =
      let from : x.start ≤ start = rw (← same) a in
      let upto : start < x.stop = rw (← same) b in
      let open_box : leb (min cut x.stop) (max start x.start) ≡ false = ground arith in
      absurd (ground (arith, open_box, e))
  hit_rects_some page ocr start cut (x ∷ spans) (s, inr h, a, b) lt e =
      let rest = hit_rects_some page ocr start cut spans (s, h, a, b) lt in
      elim (Bool-cases (leb (min cut x.stop) (max start x.start))) [
        | inl t ↦ rest (ground (arith, t, e))
        | inr f ↦ absurd (ground (arith, f, e))
      ]

  found_of_none :
      (i : ℕ) (page : Option Page) (text : Text) (spans : List (Span fl)) (hits : List Hit)
      (h : Hit)
      → found_of ch fl fitz i page false text spans hits ≡ []
      → In h hits
      → hit_rects ch fl fitz page false h.start (prefix_end ch text h.start h.stop) spans ≡ []
  unfolding found_of
  found_of_none i page text spans [] h e here = absurd here
  found_of_none i page text spans (g ∷ hits) h e here =
      go (hit_rects ch fl fitz page false g.start (prefix_end ch text g.start g.stop) spans) refl
        here (found_of_none i page text spans hits h)
    where
      go :
          (rs : List (Rect fl))
          → hit_rects ch fl fitz page false g.start (prefix_end ch text g.start g.stop) spans ≡ rs
          → In h (g ∷ hits)
          → (found_of ch fl fitz i page false text spans hits ≡ []
              → In h hits
              → hit_rects ch fl fitz page false h.start (prefix_end ch text h.start h.stop) spans
                ≡ [])
          → hit_rects ch fl fitz page false h.start (prefix_end ch text h.start h.stop) spans ≡ []
      go (r ∷ rs) k here more = absurd (ground (arith, k, e))
      go [] k (inl same) more = rw same k
      go [] k (inr there) more = more (ground (arith, k, e)) there

module _ (ch : Chars) (plain : (x : ℕ) → ch.decimal x ≡ true → ch.isdigit x ≡ true)
    (blank : ch.decimal 32 ≡ false) (fl : Floats) {Page : Type 0} (fitz : Fitz fl Page) where
  -- A match in a line has a box.
  match_boxed :
      (page : Option Page) (ws : List (Word fl)) (m : Match)
      → Standing ch plain (line_text fl ws).0 m
      → hit_rects ch fl fitz page false m.start
          (prefix_end ch (line_text fl ws).0 m.start m.stop)
          (line_text fl ws).1
        ≢ []
  match_boxed page ws m s =
      let solid : s.first ≢ 32 = λ e. absurd (ground (arith, s.digit, blank, e)) in
      let over = line_text-Covered fl ws s.lead s.first s.rest s.split solid in
      hit_rects_some ch fl fitz page false m.start _ (line_text fl ws).1
        (subst (λ i. Over fl i (line_text fl ws).1) (sym s.starts) over) s.cut_after

  -- If no match of a line has a box, then there is no match.
  no_match_left :
      (r : Regex)
      → ((c d : Cursor) → In d (run r c) → ReadsId ch c d)
      → (i : ℕ) (page : Option Page) (ws : List (Word fl)) (hits : List Hit)
      → found_of ch fl fitz i page false (line_text fl ws).0 (line_text fl ws).1 hits ≡ []
      → ((m : Match) (ms : List Match)
          → finditer r (line_text fl ws).0 ≡ m ∷ ms
          → (h : Hit) × In h hits × (h.start ≡ m.start) × (h.stop ≡ m.stop))
      → finditer r (line_text fl ws).0 ≡ []
  no_match_left r reads i page ws hits e hit = go (finditer r (line_text fl ws).0) refl
    where
      go : (ms : List Match) → finditer r (line_text fl ws).0 ≡ ms → ms ≡ []
      go [] k = refl
      go (m ∷ ms) k =
          let (h, here, from, upto) = hit m ms k in
          let bare =
            found_of_none ch fl fitz i page (line_text fl ws).0 (line_text fl ws).1 hits h e here in
          absurd (
            match_boxed page ws m (finditer-Standing ch plain r reads (line_text fl ws).0 m ms k)
              (rw (← from, ← upto) bare))

  line_clean :
      (i : ℕ) (page : Option Page) (ws : List (Word fl))
      → found_of ch fl fitz i page false
          (line_text fl ws).0
          (line_text fl ws).1
          (matches ch (line_text fl ws).0 false)
        ≡ []
      → ¬ ShowsIdentifier ch (line_text fl ws).0
  unfolding matches text_hits
  line_clean i page ws e (inl shows) =
      let text = (line_text fl ws).0 in
      ssn_found ch text shows (
        no_match_left (ssn_pattern ch) (ssn_reads ch) i page ws (text_hits ch text) e (λ m ms k. (
          ssn_hit ch m,
          subst
              (λ l. In (ssn_hit ch m) (
                map_matches (ssn_hit ch) l
                ++ (map_matches (ein_hit ch) (finditer (ein_pattern ch) text)
                    ++ map_matches (bare_hit ch text) (finditer (labeled_bare ch) text))))
              (sym k) (inl refl),
          refl,
          refl,
        )))
  line_clean i page ws e (inr shows) =
      let text = (line_text fl ws).0 in
      ein_found ch text shows (
        no_match_left (ein_pattern ch) (ein_reads ch) i page ws (text_hits ch text) e (λ m ms k. (
          ein_hit ch m,
          In-right (map_matches (ssn_hit ch) (finditer (ssn_pattern ch) text)) _ (ein_hit ch m) (
              subst
                (λ l. In (ein_hit ch m) (
                  map_matches (ein_hit ch) l
                  ++ map_matches (bare_hit ch text) (finditer (labeled_bare ch) text)))
                (sym k) (inl refl)),
          refl,
          refl,
        )))

  groups_clean :
      (i : ℕ) (page : Option Page) (groups : List (List (Word fl)))
      → found_in_groups ch fl fitz i page false groups ≡ []
      → All (λ ws. ¬ ShowsIdentifier ch (line_text fl ws).0) groups
  unfolding found_in_groups
  groups_clean i page [] e = tt
  groups_clean i page (ws ∷ groups) e =
      let parts =
        append-empty
          (found_of ch fl fitz i page false (line_text fl ws).0 (line_text fl ws).1
            (matches ch (line_text fl ws).0 false))
          (found_in_groups ch fl fitz i page false groups) e in
      (line_clean i page ws parts.0, groups_clean i page groups parts.1)

  -- If every decimal digit is a digit to `isdigit` and a space is none, and the search of the
  -- words of a text layer finds nothing, then no reading line of them shows an SSN or an EIN.
  pub find_identifiers-Clean :
      (i : ℕ) (page : Option Page) (ws : List (Word fl))
      → find_identifiers ch fl fitz i ws false page ≡ []
      → All (λ line. ¬ ShowsIdentifier ch (line_text fl line).0) (search_groups ch fl fitz ws false)
  unfolding find_identifiers
  find_identifiers-Clean i page ws e = groups_clean i page (search_groups ch fl fitz ws false) e
