-- ===== src/Tables/Parse/Grid.antt =====
-- The grid that `TableParser.result` makes of the cells (app/services/table_evidence.py).
use pdf_engine_toolbox.Base.{
  ℕ, zero, suc, ◌≡◌, ◌<◌, refl, ap, ◌∙◌, Bool, true, ◌&&◌, Option, none, some, List, [], ◌∷◌, arith,
  ◌==◌, if◌then◌else◌, length, any, is_some, All,
}
use pdf_engine_toolbox.Errors.{Text}
use pdf_engine_toolbox.Tables.{Cell, Slot}
use pdf_engine_toolbox.Tables.Parse.{repeat, set_at, fill}

abbrev pub get_elem? {ℓ} : {A : Type ℓ} → List A → ℕ → Option A
get_elem? [] i = none
get_elem? (x ∷ xs) zero = some x
get_elem? (x ∷ xs) (suc i) = get_elem? xs i

-- `rows[i][j]`
abbrev pub entry : List (List Text) → ℕ → ℕ → Option Text
entry [] i j = none
entry (row ∷ rows) zero j = get_elem? row j
entry (row ∷ rows) (suc i) j = entry rows i j

abbrev pub Rect : ℕ → List (List Text) → Type 0
Rect w rows = All (λ row. length row ≡ w) rows

abbrev pub anchors : Slot → List Cell → Bool
anchors s cs = any (λ c. (c.placement.row_index == s.0) && (c.placement.column_index == s.1)) cs

pub length-repeat : {A : Type 0} (n : ℕ) (x : A) → length (repeat n x) ≡ n
length-repeat zero x = refl
length-repeat (suc n) x = ap suc (length-repeat n x)

pub repeat-Rect : (h w : ℕ) → Rect w (repeat h (repeat w []))
repeat-Rect zero w = tt
repeat-Rect (suc h) w = (length-repeat w [], repeat-Rect h w)

pub length-set_at :
    {A : Type 0} (i : ℕ) (f : A → A) (xs : List A) → length (set_at i f xs) ≡ length xs
length-set_at i f [] = refl
length-set_at zero f (x ∷ xs) = refl
length-set_at (suc i) f (x ∷ xs) = ap suc (length-set_at i f xs)

pub set_at-Rect :
    (w i j : ℕ) (t : Text) (rows : List (List Text))
    → Rect w rows
    → Rect w (set_at i (set_at j (λ u. t)) rows)
set_at-Rect w i j t [] r = tt
set_at-Rect w zero j t (row ∷ rows) r = (length-set_at j (λ u. t) row ∙ r.0, r.1)
set_at-Rect w (suc i) j t (row ∷ rows) r = (r.0, set_at-Rect w i j t rows r.1)

pub fill-Rect :
    (w : ℕ) (cs : List Cell) (rows : List (List Text)) → Rect w rows → Rect w (fill cs rows)
fill-Rect w [] rows r = r
fill-Rect w (c ∷ cs) rows r =
    fill-Rect w cs
      (set_at c.placement.row_index (set_at c.placement.column_index (λ t. c.text)) rows)
      (set_at-Rect w c.placement.row_index c.placement.column_index c.text rows r)

pub length-fill : (cs : List Cell) (rows : List (List Text)) → length (fill cs rows) ≡ length rows
length-fill [] rows = refl
length-fill (c ∷ cs) rows =
    length-fill cs
      (set_at c.placement.row_index (set_at c.placement.column_index (λ t. c.text)) rows)
    ∙ length-set_at c.placement.row_index (set_at c.placement.column_index (λ t. c.text)) rows

get_elem?-set_at :
    (i j : ℕ) (t : Text) (xs : List Text)
    → get_elem? (set_at i (λ u. t) xs) j
      ≡ (if (i == j) && is_some (get_elem? xs j) then some t else get_elem? xs j)
get_elem?-set_at i j t [] = ground arith
get_elem?-set_at zero zero t (x ∷ xs) = refl
get_elem?-set_at zero (suc j) t (x ∷ xs) = ground arith
get_elem?-set_at (suc i) zero t (x ∷ xs) = ground arith
get_elem?-set_at (suc i) (suc j) t (x ∷ xs) = get_elem?-set_at i j t xs ∙ ground arith

pub entry-set_at :
    (r c i j : ℕ) (t : Text) (rows : List (List Text))
    → entry (set_at r (set_at c (λ u. t)) rows) i j
      ≡ (if (r == i) && (c == j) && is_some (entry rows i j) then some t else entry rows i j)
entry-set_at r c i j t [] = ground arith
entry-set_at zero c zero j t (row ∷ rows) = get_elem?-set_at c j t row ∙ ground arith
entry-set_at zero c (suc i) j t (row ∷ rows) = ground arith
entry-set_at (suc r) c zero j t (row ∷ rows) = ground arith
entry-set_at (suc r) c (suc i) j t (row ∷ rows) = entry-set_at r c i j t rows ∙ ground arith

pub entry-repeat :
    (h w i j : ℕ) → i < h → j < w → is_some (entry (repeat h (repeat w [])) i j) ≡ true
entry-repeat zero w i j a b = absurd (omega arith)
entry-repeat (suc h) w zero j a b = elem w j b
  where
    elem : (w j : ℕ) → j < w → is_some (get_elem? (repeat {A = Text} w []) j) ≡ true
    elem zero j b = absurd (omega arith)
    elem (suc w) zero b = refl
    elem (suc w) (suc j) b = elem w j (omega arith)
entry-repeat (suc h) w (suc i) j a b = entry-repeat h w i j (omega arith) b
