-- ===== src/Tables/Parse/Handlers.antt =====
-- Every event of the HTML keeps the table parser well-formed (app/services/table_evidence.py).
use pdf_engine_toolbox.Base.{
  ℕ, suc, ◌≡◌, ◌<◌, inl, inr, refl, sym, ap, ◌∙◌, subst, true, false, not, ◌||◌, Option, none, some,
  List, [], ◌∷◌, ◌++◌, arith, is_some, Bool-cases, Option-cases, All,
}
use pdf_engine_toolbox.Base.Int.{ℤ}
use pdf_engine_toolbox.Errors.{Text}
use pdf_engine_toolbox.Tables.{
  Parsed, raised, parsed, Tag, Attributes, Event, starttag, endtag, data_event, tr, td, th, br,
  other_tag, Placement, Cell, TableParser, slots_of, new_parser, closes,
}
use pdf_engine_toolbox.Tables.Parse.{
  open_cell, start_row, start_cell, handle_starttag, end_cell, end_row, handle_endtag, handle, feed,
  read_span, add_part, cell_of,
}
use pdf_engine_toolbox.Tables.Parse.Cover.{
  cover, Spans, CurrentSpans, current_slots, WellFormed, append_nil, read_span_positive,
  open_cell-WellFormed,
}

-- What an event leaves is well-formed, unless it is refused.
abbrev Keeps : Parsed TableParser → Type 0
Keeps (raised e) = Unit
Keeps (parsed q) = WellFormed q

Keeps-parsed : (x : Parsed TableParser) (q : TableParser) → x ≡ parsed q → Keeps x → WellFormed q
Keeps-parsed (raised e) q h k = absurd (ground arith)
Keeps-parsed (parsed p) q h k = subst Keeps h k

Keeps-of : (x : Parsed TableParser) → ((q : TableParser) → x ≡ parsed q → WellFormed q) → Keeps x
Keeps-of (raised e) h = tt
Keeps-of (parsed p) h = h p refl

-- A change of anything but the slots and the cells.
same_slots-WellFormed :
    (p q : TableParser)
    → p.occupied ≡ q.occupied
    → p.cells ≡ q.cells
    → p.current ≡ q.current
    → WellFormed p
    → WellFormed q
same_slots-WellFormed p q o c u w = record {
  covered = sym o ∙ w.covered ∙ rw (c, u) refl;
  distinct = rw (sym o) w.distinct;
  bounded = rw (sym o) w.bounded;
  spans = rw (sym c) w.spans;
  current_spans = rw (sym u) w.current_spans;
}

add_part-WellFormed : (t : Text) (p : TableParser) → WellFormed p → WellFormed (add_part t p)
add_part-WellFormed t p w = elim (Bool-cases (is_some p.current)) [
  | inl in_cell ↦
      rw in_cell (same_slots-WellFormed p (record p { parts = p.parts ++ t ∷ [] }) refl refl refl w)
  | inr outside ↦ rw outside w
]

start_row-WellFormed : (p : TableParser) → WellFormed p → Keeps (start_row p)
unfolding start_row
start_row-WellFormed p w = elim (Bool-cases (is_some p.current || p.row_open)) [
  | inl refused ↦ rw refused tt
  | inr e ↦ rw e (
      same_slots-WellFormed p (record p { row = suc p.row; col = 0; row_open = true }) refl refl
        refl w)
]

start_cell-WellFormed :
    (parse_int : Text → Option ℤ) (t : Tag) (a : Attributes) (p : TableParser)
    → WellFormed p
    → Keeps (start_cell parse_int t a p)
unfolding start_cell
start_cell-WellFormed parse_int t a p w = elim (Bool-cases (not p.row_open || is_some p.current)) [
  | inl refused ↦ rw refused tt
  | inr e ↦ rw e (
      spans (read_span parse_int a.rowspan) (read_span parse_int a.colspan)
        (λ n. read_span_positive parse_int a.rowspan n)
        (λ n. read_span_positive parse_int a.colspan n) (ground arith))
]
  where
    spans :
        (x y : Parsed ℕ)
        → ((n : ℕ) → x ≡ parsed n → 0 < n)
        → ((n : ℕ) → y ≡ parsed n → 0 < n)
        → p.current ≡ none
        → Keeps (elim x [
          | raised e ↦ raised e
          | parsed rs ↦ elim y [ raised e ↦ raised e | parsed cs ↦ open_cell t rs cs p ]
        ])
    spans (raised e) y f g h = tt
    spans (parsed rs) (raised e) f g h = tt
    spans (parsed rs) (parsed cs) f g h =
        Keeps-of (open_cell t rs cs p)
          (λ q e. open_cell-WellFormed t rs cs p q e (f rs refl) (g cs refl) h w)

append_assoc : {A : Type 0} (xs ys zs : List A) → (xs ++ ys) ++ zs ≡ xs ++ (ys ++ zs)
append_assoc [] ys zs = refl
append_assoc (x ∷ xs) ys zs = ap (λ l. x ∷ l) (append_assoc xs ys zs)

cover-append : (cs : List Cell) (c : Cell) → cover (cs ++ c ∷ []) ≡ cover cs ++ slots_of c.placement
cover-append [] c = append_nil (slots_of c.placement)
cover-append (d ∷ cs) c =
    ap (λ l. slots_of d.placement ++ l) (cover-append cs c)
    ∙ sym (append_assoc (slots_of d.placement) (cover cs) (slots_of c.placement))

All-append :
    {A : Type 0} (P : A → Type 0) (xs : List A) (x : A) → All P xs → P x → All P (xs ++ x ∷ [])
All-append P [] x a h = (h, tt)
All-append P (y ∷ xs) x a h = (a.0, All-append P xs x a.1 h)

close_cell-WellFormed :
    (p : TableParser) (q : Placement) (o : Option Tag)
    → p.current ≡ some q
    → WellFormed p
    → WellFormed
        (record p { cells = p.cells ++ cell_of q p.parts ∷ []; current = none; cell_tag = o })
close_cell-WellFormed p q o e w =
    let c = cell_of q p.parts in
    let taken : p.occupied ≡ cover p.cells ++ slots_of q =
      subst (λ x. p.occupied ≡ cover p.cells ++ current_slots x) e w.covered in
    record {
      covered = taken ∙ sym (cover-append p.cells c) ∙ sym (append_nil (cover (p.cells ++ c ∷ [])));
      distinct = w.distinct;
      bounded = w.bounded;
      spans =
          All-append (λ d. Spans d.placement) p.cells c w.spans
            (subst CurrentSpans e w.current_spans);
      current_spans = tt;
    }

end_cell-WellFormed : (t : Tag) (p : TableParser) → WellFormed p → Keeps (end_cell t p)
unfolding end_cell
end_cell-WellFormed t p w = elim (Option-cases p.current) [
  | inl e ↦ rw e tt
  | inr (q, e) ↦ elim (Bool-cases (closes t p.cell_tag)) [
    | inl c ↦ rw (e, c) (close_cell-WellFormed p q none e w)
    | inr c ↦ rw (e, c) tt
  ]
]

end_row-WellFormed : (p : TableParser) → WellFormed p → Keeps (end_row p)
unfolding end_row
end_row-WellFormed p w = elim (Bool-cases (not p.row_open || is_some p.current)) [
  | inl refused ↦ rw refused tt
  | inr e ↦ rw e (same_slots-WellFormed p (record p { row_open = false }) refl refl refl w)
]

handle-Keeps :
    (parse_int : Text → Option ℤ) (e : Event) (p : TableParser)
    → WellFormed p
    → Keeps (handle parse_int e p)
unfolding handle handle_starttag handle_endtag
handle-Keeps parse_int (starttag tr a) p w = start_row-WellFormed p w
handle-Keeps parse_int (starttag td a) p w = start_cell-WellFormed parse_int td a p w
handle-Keeps parse_int (starttag th a) p w = start_cell-WellFormed parse_int th a p w
handle-Keeps parse_int (starttag br a) p w = add_part-WellFormed (10 ∷ []) p w
handle-Keeps parse_int (starttag (other_tag t) a) p w = w
handle-Keeps parse_int (endtag td) p w = end_cell-WellFormed td p w
handle-Keeps parse_int (endtag th) p w = end_cell-WellFormed th p w
handle-Keeps parse_int (endtag tr) p w = end_row-WellFormed p w
handle-Keeps parse_int (endtag br) p w = w
handle-Keeps parse_int (endtag (other_tag t)) p w = w
handle-Keeps parse_int (data_event t) p w = add_part-WellFormed t p w

-- An event that is accepted keeps the parser well-formed: the occupied slots are those of its
-- cells, none twice and at most 20000, and every span is at least one.
pub handle-WellFormed :
    (parse_int : Text → Option ℤ) (e : Event) (p q : TableParser)
    → handle parse_int e p ≡ parsed q
    → WellFormed p
    → WellFormed q
handle-WellFormed parse_int e p q h w =
    Keeps-parsed (handle parse_int e p) q h (handle-Keeps parse_int e p w)

feed-Keeps :
    (parse_int : Text → Option ℤ) (es : List Event) (p : TableParser)
    → WellFormed p
    → Keeps (feed parse_int es p)
unfolding feed
feed-Keeps parse_int [] p w = w
feed-Keeps parse_int (e ∷ es) p w =
    go (feed-Keeps parse_int es) (handle parse_int e p) (handle-Keeps parse_int e p w)
  where
    go :
        ((q : TableParser) → WellFormed q → Keeps (feed parse_int es q))
        → (x : Parsed TableParser) → Keeps x
        → Keeps (elim x [ raised y ↦ raised y | parsed q ↦ feed parse_int es q ])
    go rest (raised y) k = tt
    go rest (parsed q) k = rest q k

pub feed-WellFormed :
    (parse_int : Text → Option ℤ) (es : List Event) (p q : TableParser)
    → feed parse_int es p ≡ parsed q
    → WellFormed p
    → WellFormed q
feed-WellFormed parse_int es p q h w =
    Keeps-parsed (feed parse_int es p) q h (feed-Keeps parse_int es p w)

pub new_parser-WellFormed : WellFormed new_parser
new_parser-WellFormed = record {
  covered = refl;
  distinct = tt;
  bounded = omega arith;
  spans = tt;
  current_spans = tt;
}
