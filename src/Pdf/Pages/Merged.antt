-- ===== src/Pdf/Pages/Merged.antt =====
-- What `merge_pdfs` promises: the selections of its sources, one after another. A selection is read off
-- the list of the source's pages, with no document built.
use native.Mathlib.Decide.{dec_lt}
use mathlib.Core.List.{append_assoc, append-nil}
use pdf_engine_toolbox.Base.{
  ℕ, ◌-◌, ◌≡◌, refl, ap, sym, ◌∙◌, true, false, none, some, List, [], ◌∷◌, ◌++◌, leb, length,
  if◌then◌else◌, Bool-cases, inl, inr, arith, length-append,
}
use pdf_engine_toolbox.Base.Int.{ℤ, pos}
use pdf_engine_toolbox.Errors.{Text, page_out_of_range}
use pdf_engine_toolbox.Pdf.{
  Outcome, Outcome_map, done, raised, uncaught, ◌>>=◌, or_uncaught, get_elem?, get_elem?-outside,
  get_elem?-ne-none, modify, Fitz, Documented, open_pdf, Holds, saved-Holds,
}
use pdf_engine_toolbox.Pdf.Pages.{
  turn, is_zero, span, Selection, MergeSource, rotation_of, for_each, rotate_page, turn_last,
  merge_page, merge_selection, merge_source, merge_pdfs,
}

-- What each item gives, joined; the first error stops it.
abbrev pub gather {ℓ} :
    {X : Type ℓ} {P : Type 0} → (X → Outcome (List P)) → List X → Outcome (List P)
gather f [] = done []
gather f (x ∷ xs) = f x >>= λ ps. gather f xs >>= λ qs. done (ps ++ qs)

-- A loop whose every step appends what an item gives appends what all of them give.
module _ {ℓ} {X : Type ℓ} {D P : Type 0} (view : D → List P) (body : D → X → Outcome D)
    (spec : X → Outcome (List P)) where
  abbrev Appends : Outcome D → D → Outcome (List P) → Type 0
  Appends o d given = Outcome_map view o ≡ Outcome_map (λ ps. view d ++ ps) given

  regroup :
      (l m ps : List P) (rest : Outcome (List P))
      → m ≡ l ++ ps
      → Outcome_map (λ qs. m ++ qs) rest
        ≡ Outcome_map (λ qs. l ++ qs) (rest >>= λ qs. done (ps ++ qs))
  regroup l m ps (done qs) e = rw e (ap done (append_assoc l ps qs))
  regroup l m ps (raised r) e = refl
  regroup l m ps uncaught e = refl

  for_each-step :
      (d : D) (o : Outcome D) (given rest : Outcome (List P)) (xs : List X)
      → Appends o d given
      → ((d' : D) → Appends (for_each body d' xs) d' rest)
      → Appends (o >>= λ d'. for_each body d' xs) d (given >>= λ ps. rest >>= λ qs. done (ps ++ qs))
  for_each-step d (done d') (done ps) rest xs e h =
      h d' ∙ regroup (view d) (view d') ps rest (ground (arith, e))
  for_each-step d (done d') (raised r) rest xs e h = cc
  for_each-step d (done d') uncaught rest xs e h = cc
  for_each-step d (raised r) (done ps) rest xs e h = cc
  for_each-step d (raised r) (raised s) rest xs e h = cc
  for_each-step d (raised r) uncaught rest xs e h = cc
  for_each-step d uncaught (done ps) rest xs e h = cc
  for_each-step d uncaught (raised s) rest xs e h = cc
  for_each-step d uncaught uncaught rest xs e h = refl

  for_each-gather :
      ((d : D) (x : X) → Appends (body d x) d (spec x))
      → (xs : List X) (d : D) → Appends (for_each body d xs) d (gather spec xs)
  for_each-gather h [] d = ap done (sym (append-nil (view d)))
  for_each-gather h (x ∷ xs) d =
      for_each-step d (body d x) (spec x) (gather spec xs) xs (h d x) (for_each-gather h xs)

get_elem?-last {ℓ} :
    {A : Type ℓ} (xs : List A) (x : A) → get_elem? (xs ++ x ∷ []) (length xs) ≡ some x
get_elem?-last [] x = refl
get_elem?-last (y ∷ xs) x = get_elem?-last xs x

modify-last {ℓ} :
    {A : Type ℓ} (xs : List A) (x : A) (f : A → A)
    → modify (xs ++ x ∷ []) (length xs) f ≡ xs ++ f x ∷ []
modify-last [] x f = refl
modify-last (y ∷ xs) x f = ap (λ r. y ∷ r) (modify-last xs x f)

module _ (fz : Fitz) (show : ℤ → Text) where
  -- A page turned by a number of degrees, as it is displayed.
  abbrev pub turned_by : fz.Page → ℤ → fz.Page
  turned_by p r = if is_zero r then p else fz.turned p (pos (turn (fz.rotation p) r))

  abbrev pub select_page : List fz.Page → ℕ → ℤ → Outcome (List fz.Page)
  select_page ps i r = elim (get_elem? ps i) [
    | none ↦ raised (page_out_of_range show (pos i) (length ps))
    | some p ↦ done (turned_by p r ∷ [])
  ]

  abbrev pub select : List fz.Page → Selection → Outcome (List fz.Page)
  select ps (Selection.pages specs) = gather (λ s. select_page ps s.original_page s.rotation) specs
  select ps (Selection.page_ranges ranges rotations) =
      gather
        (λ r.
          gather (λ i. select_page ps i (rotation_of (show (pos i)) rotations))
            (span r.start r.end))
        ranges
  select ps Selection.all_pages = done ps

  -- The pages that a list of sources asks for.
  abbrev pub selected : List MergeSource → Outcome (List fz.Page)
  selected = gather (λ s. open_pdf fz s.bytes >>= λ src. select (fz.pages src) s.selection)

  module _ (laws : Documented fz) where
    rotate_page-pages :
        (d : fz.Doc) (i : ℕ) (r : ℤ) (q : fz.Page)
        → get_elem? (fz.pages d) i ≡ some q
        → fz.pages (rotate_page fz show d i r)
          ≡ modify (fz.pages d) i (λ p. fz.turned p (pos (turn (fz.rotation q) r)))
    unfolding rotate_page
    rotate_page-pages d i r q e =
        rw (e, rotate_page) (laws.pages-set_rotation d i (pos (turn (fz.rotation q) r)))

    -- The page just inserted is the last one.
    insert_page-last :
        (dst src : fz.Doc) (i : ℕ) (p : fz.Page)
        → get_elem? (fz.pages src) i ≡ some p
        → (fz.pages (fz.insert_page dst src i) ≡ fz.pages dst ++ p ∷ [])
          × (length (fz.pages (fz.insert_page dst src i)) - 1 ≡ length (fz.pages dst))
    insert_page-last dst src i p e =
        let here = laws.pages-insert_page dst src i p e in
        (here, omega (arith, ap length here, length-append (fz.pages dst) (p ∷ [])))

    turn_last-pages :
        (dst src : fz.Doc) (i : ℕ) (r : ℤ) (p : fz.Page)
        → get_elem? (fz.pages src) i ≡ some p
        → fz.pages (turn_last fz show (fz.insert_page dst src i) r)
          ≡ fz.pages dst ++ turned_by p r ∷ []
    turn_last-pages dst src i r p e =
        let (here, last) = insert_page-last dst src i p e in
        elim (Bool-cases (is_zero r)) [
          | inl zero_turn ↦ rw zero_turn here
          | inr turns ↦
              rw
                (
                  turns,
                  last,
                  rotate_page-pages (fz.insert_page dst src i) (length (fz.pages dst)) r p
                      (rw here (get_elem?-last (fz.pages dst) p)),
                  here,
                )
                (modify-last (fz.pages dst) p (λ q. fz.turned q (pos (turn (fz.rotation p) r))))
        ]

    merge_page-select :
        (src dst : fz.Doc) (i : ℕ) (r : ℤ)
        → Outcome_map fz.pages (merge_page fz show src dst i r)
          ≡ Outcome_map (λ ps. fz.pages dst ++ ps) (select_page (fz.pages src) i r)
    unfolding merge_page
    merge_page-select src dst i r = elim (dec_lt i (length (fz.pages src))) [
      | yes h ↦
          let (p, found) = get_elem?-ne-none (fz.pages src) i h in
          let inside : leb (length (fz.pages src)) i ≡ false = ground arith in
          rw (inside, found, select_page) (ap done (turn_last-pages dst src i r p found))
      | no h ↦
          let outside : leb (length (fz.pages src)) i ≡ true = ground arith in
          rw (outside, get_elem?-outside (fz.pages src) i (omega arith), select_page)
    ]

    merge_selection-select :
        (src dst : fz.Doc) (s : Selection)
        → Outcome_map fz.pages (merge_selection fz show src dst s)
          ≡ Outcome_map (λ ps. fz.pages dst ++ ps) (select (fz.pages src) s)
    merge_selection-select src dst (Selection.pages specs) =
        for_each-gather fz.pages (λ d s. merge_page fz show src d s.original_page s.rotation)
          (λ s. select_page (fz.pages src) s.original_page s.rotation)
          (λ d s. merge_page-select src d s.original_page s.rotation) specs dst
    merge_selection-select src dst (Selection.page_ranges ranges rotations) =
        for_each-gather fz.pages
          (λ d r.
            for_each (λ d' i. merge_page fz show src d' i (rotation_of (show (pos i)) rotations)) d
              (span r.start r.end))
          (λ r.
            gather (λ i. select_page (fz.pages src) i (rotation_of (show (pos i)) rotations))
              (span r.start r.end))
          (λ d r.
            for_each-gather fz.pages
              (λ d' i. merge_page fz show src d' i (rotation_of (show (pos i)) rotations))
              (λ i. select_page (fz.pages src) i (rotation_of (show (pos i)) rotations))
              (λ d' i. merge_page-select src d' i (rotation_of (show (pos i)) rotations))
              (span r.start r.end) d)
          ranges dst
    merge_selection-select src dst Selection.all_pages = ap done (laws.pages-insert_pdf dst src)

    merge_source-select :
        (dst : fz.Doc) (s : MergeSource)
        → Outcome_map fz.pages (merge_source fz show dst s)
          ≡ Outcome_map
              (λ ps. fz.pages dst ++ ps)
              (open_pdf fz s.bytes >>= λ src. select (fz.pages src) s.selection)
    merge_source-select dst s = on_opened (open_pdf fz s.bytes)
      where
        on_opened :
            (o : Outcome fz.Doc)
            → Outcome_map fz.pages (o >>= λ src. merge_selection fz show src dst s.selection)
              ≡ Outcome_map
                  (λ ps. fz.pages dst ++ ps)
                  (o >>= λ src. select (fz.pages src) s.selection)
        on_opened (done src) = merge_selection-select src dst s.selection
        on_opened (raised r) = refl
        on_opened uncaught = refl

    -- What a merge comes to, given what its sources ask for: an error is the answer, no page at all is
    -- no file, and any pages are a file that holds them.
    abbrev pub Merges : Outcome Text → Outcome (List fz.Page) → Type 0
    Merges o (done []) = o ≡ uncaught
    Merges o (done (p ∷ ps)) = (out : Text) × (o ≡ done out) × Holds fz out (p ∷ ps)
    Merges o (raised e) = o ≡ raised e
    Merges o uncaught = o ≡ uncaught

    Merges-saved :
        (o : Outcome fz.Doc) (given : Outcome (List fz.Page))
        → Outcome_map fz.pages o ≡ given
        → Merges (o >>= λ dst. or_uncaught (fz.tobytes dst)) given
    Merges-saved (done d) (done []) e = rw (laws.tobytes-none d (ground arith))
    Merges-saved (done d) (done (p ∷ ps)) e =
        let same : fz.pages d ≡ p ∷ ps = ground arith in
        let (out, written, held) = saved-Holds fz laws d (rw same (omega arith)) in
        (out, rw written, rw same at held)
    Merges-saved (done d) (raised r) e = cc
    Merges-saved (done d) uncaught e = cc
    Merges-saved (raised r) (done ps) e = cc
    Merges-saved (raised r) (raised s) e = ground arith
    Merges-saved (raised r) uncaught e = cc
    Merges-saved uncaught (done ps) e = cc
    Merges-saved uncaught (raised s) e = cc
    Merges-saved uncaught uncaught e = refl

    from_nothing :
        (given : Outcome (List fz.Page)) → Outcome_map (λ ps. fz.pages fz.new ++ ps) given ≡ given
    from_nothing (done ps) = rw (laws.pages-new)
    from_nothing (raised r) = refl
    from_nothing uncaught = refl

    -- A merge refines the selections of its sources, one after another: the file that it returns holds
    -- exactly their pages, each turned by the degrees asked for; it fails with the first of their
    -- errors; and it writes no file where they come to no page.
    pub merge_pdfs-Merges :
        (sources : List MergeSource) → Merges (merge_pdfs fz show sources) (selected sources)
    unfolding merge_pdfs
    merge_pdfs-Merges sources =
        Merges-saved (for_each (merge_source fz show) fz.new sources) (selected sources) (
          for_each-gather fz.pages (merge_source fz show)
            (λ s. open_pdf fz s.bytes >>= λ src. select (fz.pages src) s.selection)
            merge_source-select sources fz.new
          ∙ from_nothing (selected sources))
