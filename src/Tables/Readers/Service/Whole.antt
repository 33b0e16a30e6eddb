-- ===== src/Tables/Readers/Service/Whole.antt =====
-- A list of tables that `extract_tables` returns hides nothing of the pages (app/services/pdf_service.py).
use mathlib.Core.List.{append_assoc}
use pdf_engine_toolbox.Base.{
  ℕ, suc, ◌+◌, ◌≡◌, refl, sym, subst, ◌⊎◌, inl, inr, Bool, true, false, Option, none, some, List,
  [], ◌∷◌, ◌++◌, arith, length, any, map, Bool-cases, if◌then◌else◌,
}
use pdf_engine_toolbox.Base.Int.{ℤ, pos, pos_part}
use pdf_engine_toolbox.Errors.{Text}
use pdf_engine_toolbox.Pdf.{
  Outcome, done, raised, >>=-eq-done, Fitz, open_pdf, get_elem?, validate_pages,
  validate_pages-IsInRange, in_range-pos,
}
use pdf_engine_toolbox.Tables.Readers.{
  Measures, Table, PageResult, PageStatus, complete, empty, unsupported, failed,
}
use pdf_engine_toolbox.Tables.Readers.Pipeline.{is_partial}
use pdf_engine_toolbox.Tables.Readers.Service.{
  request_timeout, extraction_incomplete, PageTable, TablesResult, numbered, by_page, all_tables,
  all_outcomes, combined, queue_results, targets_of, extract_tables_result, extract_tables,
}
use pdf_engine_toolbox.Tables.Readers.Service.Targets.{
  Apart, distinct_from-Apart, range_from-Apart, Among, distinct_from-Among, Among-distinct_from,
  Counts, range_from-Counts,
}

get_elem?-middle {ℓ} :
    {A : Type ℓ} (xs : List A) (x : A) (ys : List A) → get_elem? (xs ++ x ∷ ys) (length xs) ≡ some x
get_elem?-middle [] x ys = refl
get_elem?-middle (y ∷ xs) x ys = get_elem?-middle xs x ys

length-append {ℓ} : {A : Type ℓ} (xs ys : List A) → length (xs ++ ys) ≡ length xs + length ys
length-append [] ys = omega arith
length-append (x ∷ xs) ys = ground (arith, length-append xs ys)

module _ (ms : Measures) where
  abbrev pub tagged : ℕ → ℕ → Table ms → PageTable ms
  tagged p j t = record { table = t; page_index = p; table_index = j }

  abbrev pub table_count : List (PageResult ms) → ℕ
  table_count [] = 0
  table_count (r ∷ rs) = length r.tables + table_count rs

  numbered-length : (p i : ℕ) (ts : List (Table ms)) → length (numbered ms p i ts) ≡ length ts
  numbered-length p i [] = refl
  numbered-length p i (t ∷ ts) = ground (arith, numbered-length p (suc i) ts)

  -- Each table of a page stands in the list under its page and its place, from place `i` on.
  abbrev pub Listed : List (PageTable ms) → ℕ → ℕ → List (Table ms) → Type 0
  Listed found p i [] = Unit {0}
  Listed found p i (t ∷ ts) =
      ((k : ℕ) × (get_elem? found k ≡ some (tagged p i t))) × Listed found p (suc i) ts

  -- Each page has a result, which is complete or empty, and its tables are in the list.
  abbrev pub Settled : List (PageTable ms) → List ℕ → List (PageResult ms) → Type 0
  Settled found [] [] = Unit {0}
  Settled found (p ∷ ps) (r ∷ rs) =
      ((r.status ≡ complete) ⊎ (r.status ≡ empty)) × Listed found p 0 r.tables × Settled found ps rs
  Settled found _ _ = true ≡ false

  settled_status : (s : PageStatus) → is_partial s ≡ false → (s ≡ complete) ⊎ (s ≡ empty)
  settled_status complete e = inl refl
  settled_status empty e = inr refl
  settled_status unsupported e = cc
  settled_status failed e = cc

  numbered-Listed :
      (before after : List (PageTable ms)) (p i : ℕ) (ts : List (Table ms))
      → Listed (before ++ (numbered ms p i ts ++ after)) p i ts
  numbered-Listed before after p i [] = tt
  numbered-Listed before after p i (t ∷ ts) = (
    (length before, get_elem?-middle before (tagged p i t) (numbered ms p (suc i) ts ++ after)),
    subst (λ l. Listed l p (suc i) ts)
        (append_assoc before (tagged p i t ∷ []) (numbered ms p (suc i) ts ++ after))
        (numbered-Listed (before ++ tagged p i t ∷ []) after p (suc i) ts),
  )

  all_tables-Settled :
      (before : List (PageTable ms)) (ps : List ℕ) (rs : List (PageResult ms))
      (pairs : List (ℕ × PageResult ms))
      → by_page ms ps rs ≡ done pairs
      → any (λ o. is_partial o.status) (all_outcomes ms pairs) ≡ false
      → Settled (before ++ all_tables ms pairs) ps rs
        × (length (all_tables ms pairs) ≡ table_count rs)
  all_tables-Settled before [] [] pairs e h =
      let same : [] ≡ pairs = ground arith in rw (← same) (tt, refl)
  all_tables-Settled before [] (r ∷ rs) pairs e h = absurd (ground arith)
  all_tables-Settled before (p ∷ ps) [] pairs e h = absurd (ground arith)
  all_tables-Settled before (p ∷ ps) (r ∷ rs) pairs e h =
      let (rest, later, last) = >>=-eq-done (by_page ms ps rs) _ e in
      let same : (p, r) ∷ rest ≡ pairs = ground arith in
      let settled : any (λ o. is_partial o.status) (all_outcomes ms ((p, r) ∷ rest)) ≡ false =
        subst (λ l. any (λ o. is_partial o.status) (all_outcomes ms l) ≡ false) (sym same) h in
      let (others, counted) =
        all_tables-Settled (before ++ numbered ms p 0 r.tables) ps rs rest later (ground arith) in
      subst
        (λ l.
          Settled (before ++ all_tables ms l) (p ∷ ps) (r ∷ rs)
          × (length (all_tables ms l) ≡ table_count (r ∷ rs)))
        same
        (
          (
            settled_status r.status (ground arith),
            numbered-Listed before (all_tables ms rest) p 0 r.tables,
            subst (λ l. Settled l ps rs)
                (append_assoc before (numbered ms p 0 r.tables) (all_tables ms rest)) others,
          ),
          rw
              (
                length-append (numbered ms p 0 r.tables) (all_tables ms rest),
                numbered-length p 0 r.tables,
                counted,
              )
              refl,
        )

  legacy-Settled :
      (hash : Text) (ps : List ℕ) (rs : List (PageResult ms)) (pairs : List (ℕ × PageResult ms))
      (r : TablesResult ms) (found : List (PageTable ms))
      → by_page ms ps rs ≡ done pairs
      → combined ms hash pairs ≡ r
      → (if r.partial then raised extraction_incomplete else done r.tables) ≡ done found
      → Settled found ps rs × (length found ≡ table_count rs)
  legacy-Settled hash ps rs pairs r found paired whole kept =
      let listed : (if (combined ms hash pairs).partial
            then raised extraction_incomplete
            else done (all_tables ms pairs))
          ≡ done found =
        subst
          (λ x. (if x.partial then raised extraction_incomplete else done x.tables) ≡ done found)
          (sym whole) kept in
      elim (Bool-cases (any (λ o. is_partial o.status) (all_outcomes ms pairs))) [
        | inl partial ↦ absurd (ground arith)
        | inr settled ↦
            let same : all_tables ms pairs ≡ found = ground arith in
            subst (λ l. Settled l ps rs × (length l ≡ table_count rs)) same
              (all_tables-Settled [] ps rs pairs paired settled)
      ]

  module _ (fz : Fitz) (show : ℤ → Text) (sha256 : Text → Text)
      (run_pages : List ℕ → Outcome (List (PageResult ms))) where
    -- The pages that were asked for, each of them and no other; by default the pages of the document.
    abbrev pub AreAsked : fz.Doc → Option (List ℤ) → List ℤ → Type 0
    AreAsked doc none targets = Counts 0 (length (fz.pages doc)) targets
    AreAsked doc (some ps) targets = Among targets ps × Among ps targets

    -- What `extract_tables` read for the list that it returns: some pages, and what the queue answered for
    -- them, if there are any.
    pub record Whole (doc : fz.Doc) (asked : Option (List ℤ)) (found : List (PageTable ms))
        : Type 0 where
      pub targets : List ℤ
      pub results : List (PageResult ms)
      pub apart : Apart targets
      pub are_asked : AreAsked doc asked targets
      pub numbers : map pos (map pos_part targets) ≡ targets
      pub answered :
          ((targets ≡ []) × (results ≡ [])) ⊎ (run_pages (map pos_part targets) ≡ done results)
      pub settled : Settled found (map pos_part targets) results
      pub total : length found ≡ table_count results

    targets_of-Apart :
        (doc : fz.Doc) (asked : Option (List ℤ))
        → Apart (targets_of ms fz show sha256 run_pages doc asked)
    targets_of-Apart doc none = range_from-Apart 0 (length (fz.pages doc))
    targets_of-Apart doc (some ps) = distinct_from-Apart [] ps

    targets_of-AreAsked :
        (doc : fz.Doc) (asked : Option (List ℤ))
        → AreAsked doc asked (targets_of ms fz show sha256 run_pages doc asked)
    targets_of-AreAsked doc none = range_from-Counts 0 (length (fz.pages doc))
    targets_of-AreAsked doc (some ps) = (distinct_from-Among ps, Among-distinct_from [] ps)

    -- Settled results are the queue's, since those of a request that is out of time have failed.
    queue_answered :
        (time_left : Bool) (found : List (PageTable ms)) (targets : List ℤ)
        (rs : List (PageResult ms))
        → queue_results ms run_pages time_left (map pos_part targets) ≡ done rs
        → Settled found (map pos_part targets) rs
        → ((targets ≡ []) × (rs ≡ [])) ⊎ (run_pages (map pos_part targets) ≡ done rs)
    queue_answered time_left found [] rs e h = inl (refl, ground arith)
    queue_answered true found (p ∷ ps) rs e h = inr e
    queue_answered false found (p ∷ ps) [] e h = cc
    queue_answered false found (p ∷ ps) (r ∷ rs) e h =
        let late : r.status ≡ failed = ground arith in
        absurd (elim (h.0) [ inl s ↦ ground arith | inr s ↦ ground arith ])

    -- If a list of tables is returned, then the pages read are those that were asked for, by default all
    -- pages of the document, and no page twice; the queue answered for each of them with a result that is
    -- complete or empty; and the list has as many tables as those results together, each under its page and
    -- its place on it.
    pub extract_tables-Whole :
        (b : Text) (asked : Option (List ℤ)) (prepared time_left : Bool) (doc : fz.Doc)
        (found : List (PageTable ms))
        → open_pdf fz b ≡ done doc
        → extract_tables ms fz show sha256 run_pages b asked prepared time_left ≡ done found
        → Whole doc asked found
    unfolding extract_tables
    extract_tables-Whole b asked prepared time_left doc found o e =
        let (r, made, kept) =
          >>=-eq-done (extract_tables_result ms fz show sha256 run_pages b asked prepared time_left)
            _ e in
        let (_, _, e₁) =
          >>=-eq-done (if prepared then done tt else raised request_timeout) _ made in
        let (d, opens, e₂) = >>=-eq-done (open_pdf fz b) _ e₁ in
        let (_, valid, e₃) =
          >>=-eq-done
            (validate_pages show (length (fz.pages d))
              (targets_of ms fz show sha256 run_pages d asked))
            _ e₂ in
        let (rs, answered, e₄) =
          >>=-eq-done
            (queue_results ms run_pages time_left
              (map pos_part (targets_of ms fz show sha256 run_pages d asked)))
            _ e₃ in
        let (pairs, paired, e₅) =
          >>=-eq-done
            (by_page ms (map pos_part (targets_of ms fz show sha256 run_pages d asked)) rs) _ e₄ in
        let whole : combined ms (sha256 b) pairs ≡ r = ground arith in
        let (settled, total) = legacy-Settled (sha256 b) _ rs pairs r found paired whole kept in
        let same : d ≡ doc = ground arith in
        subst (λ x. Whole x asked found) same
          (record {
            targets = targets_of ms fz show sha256 run_pages d asked;
            results = rs;
            apart = targets_of-Apart d asked;
            are_asked = targets_of-AreAsked d asked;
            numbers = in_range-pos (length (fz.pages d)) _ (
                validate_pages-IsInRange show (length (fz.pages d))
                  (targets_of ms fz show sha256 run_pages d asked) valid);
            answered = queue_answered time_left found _ rs answered settled;
            settled = settled;
            total = total;
          })
