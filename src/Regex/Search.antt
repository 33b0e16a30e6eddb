-- ===== src/Regex/Search.antt =====
-- `finditer`, `search` and what follows from finding nothing.
use pdf_engine_toolbox.Base.{
  ℕ, zero, suc, ◌-◌, Bool, true, Option, none, some, List, [], ◌∷◌, is_some, head?, if◌then◌else◌,
}
use pdf_engine_toolbox.Errors.{Text}
use pdf_engine_toolbox.Base.{Dict}
use pdf_engine_toolbox.Regex.{Regex, Cursor, run}

pub record Match : Type 0 where
  pub start : ℕ
  pub stop : ℕ
  pub groups : Dict (ℕ × Text)

abbrev pub cursor : Option ℕ → ℕ → Text → Cursor
cursor before pos rest = record { before = before; pos = pos; rest = rest; groups = [] }

abbrev pub match_at : Regex → Option ℕ → ℕ → Text → Option Cursor
match_at r before pos t = head? (run r (cursor before pos t))

-- `finditer`: a match starts where the one before it ended or later. `skip` characters are still part
-- of the last match. None of the patterns matches the empty text.
unfoldable pub find_from : Regex → ℕ → Option ℕ → ℕ → Text → List Match
find_from r skip before pos [] = []
find_from r (suc skip) before pos (c ∷ t) = find_from r skip (some c) (suc pos) t
find_from r zero before pos (c ∷ t) = elim (match_at r before pos (c ∷ t)) [
  | none ↦ find_from r zero (some c) (suc pos) t
  | some d ↦
      record { start = pos; stop = d.pos; groups = d.groups }
      ∷ find_from r (d.pos - pos - 1) (some c) (suc pos) t
]

unfoldable pub finditer : Regex → Text → List Match
unfolding find_from
finditer r t = find_from r zero none 0 t

-- `bool(r.search(t))`
unfoldable pub search : Regex → Option ℕ → ℕ → Text → Bool
search r before pos [] = is_some (match_at r before pos [])
search r before pos (c ∷ t) =
    let rest = search r (some c) (suc pos) t in
    if is_some (match_at r before pos (c ∷ t)) then true else rest
