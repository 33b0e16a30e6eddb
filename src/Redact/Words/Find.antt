-- ===== src/Redact/Words/Find.antt =====
-- `find_identifiers` (app/services/identifier_redaction.py).
use pdf_engine_toolbox.Base.{
  ℕ, suc, ◌-◌, Bool, true, false, not, ◌&&◌, ◌||◌, Option, none, some, List, [], ◌∷◌, ◌++◌, leb,
  ltb, ◌==◌, if◌then◌else◌, length, is_some, max, min, keep_if, reverse,
}
use pdf_engine_toolbox.Errors.{Text, codes}
use pdf_engine_toolbox.Regex.{Chars, char, seq, many, at_end, take, drop}
use pdf_engine_toolbox.Regex.Search.{search, match_at}
use pdf_engine_toolbox.Redact.{Hit, one_of}
use pdf_engine_toolbox.Redact.Confusions.{normalize_confusions}
use pdf_engine_toolbox.Redact.Matches.{matches, prefix_end, slice}
use pdf_engine_toolbox.Redact.Words.{
  Floats, Rect, Word, Found, Fitz, n, reading_lines, Span, line_text, singletons, glyph_runs,
}

module _ (ch : Chars) (fl : Floats) where
  -- `[\dIlOoSsBZGq|]`, and `[-\u2010-\u2015./ ]`
  abbrev pub is_digit_like : ℕ → Bool
  is_digit_like c = ch.decimal c || one_of (codes "IlOoSsBZGq|") c

  abbrev pub is_joint : ℕ → Bool
  is_joint c = one_of (codes "-./ ") c || (leb 8208 c && leb c 8213)

  abbrev pub numeric_end : Text → Bool
  numeric_end t = search (seq (char is_digit_like) (seq (many (char is_joint)) at_end)) none 0 t

  abbrev pub numeric_start : Text → Bool
  numeric_start t = is_some (match_at (char is_digit_like) none 0 t)

  module _ {Page : Type 0} (fitz : Fitz fl Page) where
    abbrev pub tenths : ℕ → fl.F → fl.F
    tenths k x = fl.mul (fl.ratio k 10) x

    -- `_glyph_columns`: the columns of the picture as places on the page.
    abbrev pub glyph_columns : Page → Rect fl → List (fl.F × fl.F)
    glyph_columns page rect = places (glyph_runs fl 0 none (fitz.get_pixmap page rect))
      where
        places : List (ℕ × ℕ) → List (fl.F × fl.F)
        places [] = []
        places ((a, b) ∷ gs) =
            (fl.add rect.x0 (fl.div (n fl a) (n fl 4)), fl.add rect.x0 (fl.div (n fl b) (n fl 4)))
            ∷ places gs

    -- Whether the glyph is of a character in `[lo, hi)`; `i` is the index of the next character.
    abbrev pub wanted_flags : ℕ → ℕ → ℕ → Text → List Bool
    wanted_flags lo hi i [] = []
    wanted_flags lo hi i (c ∷ t) =
        let rest = wanted_flags lo hi (suc i) t in
        if ch.space c then rest else (leb lo i && ltb i hi) ∷ rest

    -- The box from the first to the last wanted glyph, each side halfway into the gap. `last` is the
    -- right side of the glyph before, `x0` the left side once a wanted glyph was seen, and `x1` its
    -- right side.
    abbrev pub halfway : fl.F → fl.F → fl.F
    halfway a b = fl.div (fl.add a b) (n fl 2)

    abbrev pub wanted_left : Option fl.F → List Bool → List (fl.F × fl.F) → Option fl.F
    wanted_left last (true ∷ fs) (g ∷ gs) = some (elim last [ none ↦ g.0 | some e ↦ halfway e g.0 ])
    wanted_left last (false ∷ fs) (g ∷ gs) = wanted_left (some g.1) fs gs
    wanted_left last _ _ = none

    -- The same from the right, on the reversed lists.
    abbrev pub wanted_right : Option fl.F → List Bool → List (fl.F × fl.F) → Option fl.F
    wanted_right after (true ∷ fs) (g ∷ gs) =
        some (elim after [ none ↦ g.1 | some s ↦ halfway g.1 s ])
    wanted_right after (false ∷ fs) (g ∷ gs) = wanted_right (some g.0) fs gs
    wanted_right after _ _ = none

    abbrev pub glyph_rect : Word fl → ℕ → ℕ → List (fl.F × fl.F) → Option (Rect fl)
    glyph_rect w lo hi glyphs =
        let flags = wanted_flags lo hi 0 w.text in
        if not (length glyphs == length flags) then none else elim (wanted_left none flags glyphs) [
          | none ↦ none
          | some a ↦ elim (wanted_right none (reverse flags) (reverse glyphs)) [
            | none ↦ none
            | some b ↦ some (record { x0 = a; y0 = w.rect.y0; x1 = b; y1 = w.rect.y1 })
          ]
        ]

    -- Approximate widths of characters.
    abbrev pub weight : ℕ → fl.F
    weight c =
        if one_of (codes "-. /,()'") c
        then fl.ratio 3 10
        else if ch.islower c
        then fl.ratio 5 10
        else if ch.isupper c
        then fl.ratio 68 100
        else fl.ratio 56 100

    abbrev pub sum_weights : fl.F → Text → fl.F
    sum_weights acc [] = acc
    sum_weights acc (c ∷ t) = sum_weights (fl.add acc (weight c)) t

    abbrev pub float_max : fl.F → fl.F → fl.F
    float_max a b = if fl.lt a b then b else a

    abbrev pub weighted_rect : Word fl → ℕ → ℕ → Rect fl
    weighted_rect w lo hi =
        let unit =
          fl.div (fitz.width w.rect)
            (float_max (sum_weights (n fl 0) w.text) (fl.ratio 1 1000000)) in
        let left = fl.add w.rect.x0 (fl.mul unit (sum_weights (n fl 0) (take lo w.text))) in
        let right = fl.add w.rect.x0 (fl.mul unit (sum_weights (n fl 0) (take hi w.text))) in
        record {
          x0 = fl.sub left (fl.mul unit (fl.ratio 3 10));
          y0 = w.rect.y0;
          x1 =
              fl.add right
                (fl.mul unit (if leb (length w.text) hi then fl.ratio 3 10 else fl.ratio 25 100));
          y1 = w.rect.y1;
        }

    -- `rect + (a, b, c, d)`
    abbrev pub grow : Rect fl → fl.F → fl.F → fl.F → fl.F → Rect fl
    grow r a b c d = record {
      x0 = fl.sub r.x0 a;
      y0 = fl.sub r.y0 b;
      x1 = fl.add r.x1 c;
      y1 = fl.add r.y1 d;
    }

    -- The leftmost or the rightmost, the first of equals from the left.
    abbrev pub leftmost : Rect fl → List (Rect fl) → Rect fl
    leftmost r [] = r
    leftmost r (s ∷ ss) = leftmost (if fl.lt s.x0 r.x0 then s else r) ss

    abbrev pub rightmost : Rect fl → List (Rect fl) → Rect fl
    rightmost r [] = r
    rightmost r (s ∷ ss) = rightmost (if fl.lt s.x0 r.x0 then r else s) ss

    abbrev pub image_rect : Option Page → Word fl → ℕ → ℕ → Rect fl
    image_rect none w lo hi = weighted_rect w lo hi
    image_rect (some page) w lo hi = elim (glyph_rect w lo hi (glyph_columns page w.rect)) [
      | none ↦ weighted_rect w lo hi
      | some r ↦ r
    ]

    abbrev pub layer_rect : Option Page → Word fl → ℕ → ℕ → Rect fl
    layer_rect none w lo hi = weighted_rect w lo hi
    layer_rect (some page) w lo hi =
        elim (fitz.search_for page (slice lo hi w.text)
          (grow w.rect (n fl 1) (n fl 1) (n fl 1) (n fl 1))) [
            | [] ↦ weighted_rect w lo hi
            | r ∷ rs ↦ if lo == 0 then leftmost r rs else rightmost r rs
          ]

    -- `_part_rect`
    unfoldable pub part_rect : Word fl → ℕ → ℕ → Option Page → Bool → Rect fl
    part_rect w lo hi page ocr =
        if (lo == 0) && leb (length w.text) hi
        then w.rect
        else if ocr
        then image_rect page w lo hi
        else layer_rect page w lo hi

    abbrev pub widened : Rect fl → Bool → Rect fl
    widened r ends =
        let height = fitz.height r in
        let pad = float_max (fl.ratio 15 10) (fl.mul (fl.ratio 3 10) height) in
        let rise = fl.mul (fl.ratio 15 100) height in
        grow r pad rise (if ends then pad else n fl 0) rise

    abbrev pub is_rotated : Word fl → Bool
    is_rotated w =
        fl.lt (fl.mul (fl.ratio 15 10) (fitz.width w.rect)) (fitz.height w.rect)
        && leb 4 (length w.text)

    -- The box of one word of a hit.
    unfoldable pub hit_rect : Option Page → Bool → Span fl → ℕ → ℕ → Rect fl
    unfolding part_rect
    hit_rect page ocr s lo hi =
        if ocr && is_rotated s.word
        then grow s.word.rect (n fl 2) (n fl 2) (n fl 2) (n fl 2)
        else if ocr
        then widened (part_rect s.word (lo - s.start) (hi - s.start) page ocr)
            (leb (length s.word.text) (hi - s.start))
        else part_rect s.word (lo - s.start) (hi - s.start) page ocr

    -- The boxes of `[start, cut)`, word by word.
    unfoldable pub hit_rects : Option Page → Bool → ℕ → ℕ → List (Span fl) → List (Rect fl)
    unfolding hit_rect
    hit_rects page ocr start cut [] = []
    hit_rects page ocr start cut (s ∷ ss) =
        let lo = max start s.start in
        let hi = min cut s.stop in
        let rest = hit_rects page ocr start cut ss in
        if leb hi lo then rest else hit_rect page ocr s lo hi ∷ rest

    abbrev pub last_four : Text → Text
    last_four digits = drop (length digits - 4) digits

    unfoldable pub found_of :
        ℕ → Option Page → Bool → Text → List (Span fl) → List Hit → List (Found fl)
    unfolding hit_rects prefix_end normalize_confusions
    found_of i page ocr text spans [] = []
    found_of i page ocr text spans (h ∷ hs) =
        let rest = found_of i page ocr text spans hs in
        let cut =
          prefix_end ch (if ocr then normalize_confusions ch text else text) h.start h.stop in
        elim (hit_rects page ocr h.start cut spans) [
          | [] ↦ rest
          | r ∷ rs ↦
              record {
                page = i;
                kind = h.kind;
                last4 = last_four h.digits;
                from_ocr = ocr;
                rects = r ∷ rs;
              }
              ∷ rest
        ]

    -- A line that ends in a digit group, and one right below it that starts with one.
    abbrev pub last_word : Word fl → List (Word fl) → Word fl
    last_word w [] = w
    last_word w (v ∷ vs) = last_word v vs

    abbrev pub continues : List (Word fl) → List (Word fl) → Bool
    continues [] lower = false
    continues (u ∷ us) [] = false
    continues (u ∷ us) (v ∷ vs) =
        let upper = last_word u us in
        let last = upper.rect in
        let first = v.rect in
        let height = fitz.height last in
        let gap = fl.sub first.y0 last.y1 in
        numeric_end (normalize_confusions ch upper.text)
        && numeric_start v.text
        && fl.le (fl.sub (n fl 0) (fl.mul (fl.ratio 2 10) height)) gap
        && fl.le gap (fl.mul (fl.ratio 15 10) height)
        && fl.le first.x0 (fl.add last.x1 (fl.mul (n fl 2) height))
        && fl.le (fl.sub u.rect.x0 (fl.mul (n fl 2) height)) first.x1

    -- The copies joined with one upper line; a line is not joined to itself.
    abbrev pub joined_below : ℕ → ℕ → List (Word fl) → List (List (Word fl)) → List (List (Word fl))
    joined_below i j upper [] = []
    joined_below i j upper (lower ∷ ls) =
        let rest = joined_below i (suc j) upper ls in
        if not (i == j) && continues upper lower then (upper ++ lower) ∷ rest else rest

    abbrev pub joined_lines :
        ℕ → List (List (Word fl)) → List (List (Word fl)) → List (List (Word fl))
    joined_lines i groups [] = []
    joined_lines i groups (upper ∷ us) =
        joined_below i 0 upper groups ++ joined_lines (suc i) groups us

    -- `_search_groups`
    unfoldable pub search_groups : List (Word fl) → Bool → List (List (Word fl))
    unfolding reading_lines
    search_groups ws ocr =
        let groups =
          reading_lines fl (keep_if (λ w. not w.is_line) ws)
          ++ singletons fl (keep_if (λ w. w.is_line) ws) in
        if ocr then groups ++ joined_lines 0 groups groups else groups

    unfoldable pub found_in_groups :
        ℕ → Option Page → Bool → List (List (Word fl)) → List (Found fl)
    unfolding found_of line_text matches
    found_in_groups i page ocr [] = []
    found_in_groups i page ocr (g ∷ gs) =
        let line = line_text fl g in
        found_of i page ocr line.0 line.1 (matches ch line.0 ocr) ++ found_in_groups i page ocr gs

    unfoldable pub find_identifiers : ℕ → List (Word fl) → Bool → Option Page → List (Found fl)
    unfolding search_groups found_in_groups
    find_identifiers i ws ocr page = found_in_groups i page ocr (search_groups ws ocr)
