-- ===== src/Queue/Run/Hands.antt =====
-- Counting what the workers hold.
use pdf_engine_toolbox.Base.{
  ℕ, ◌+◌, ◌≡◌, ◌≤◌, ◌<◌, refl, not, List, [], ◌∷◌, ◌&&◌, ◌==◌, if◌then◌else◌, is_some, arith, Dict,
  lookup, count, keep_if,
}
use pdf_engine_toolbox.Queue.Next.{Pick}
use pdf_engine_toolbox.Queue.Run.{holding, reading, reading_page, is_unit, Holds, here, there}

pub reading_page-le : (r u : ℕ) (ps : List Pick) → reading_page r u ps ≤ reading r ps
reading_page-le r u [] = omega arith
reading_page-le r u (p ∷ ps) = ground (arith, reading_page-le r u ps)

pub reading-le-holding : (r : ℕ) (ps : List Pick) → reading r ps ≤ holding r ps
reading-le-holding r [] = omega arith
reading-le-holding r (p ∷ ps) = ground (arith, reading-le-holding r ps)

pub Holds-reading :
    (r : ℕ) {p : Pick} {ps qs : List Pick}
    → Holds p ps qs
    → reading r ps ≡ (if (p.job == r) && is_some p.unit then 1 else 0) + reading r qs
Holds-reading r here = refl
Holds-reading r (there m) = omega (arith, Holds-reading r m)

pub Holds-reading_page :
    (r u : ℕ) {p : Pick} {ps qs : List Pick}
    → Holds p ps qs
    → reading_page r u ps
      ≡ (if (p.job == r) && is_unit p.unit u then 1 else 0) + reading_page r u qs
Holds-reading_page r u here = refl
Holds-reading_page r u (there m) = omega (arith, Holds-reading_page r u m)

pub Holds-holding : {p : Pick} {ps qs : List Pick} → Holds p ps qs → 0 < holding p.job ps
Holds-holding here = ground arith
Holds-holding (there m) = omega (arith, Holds-holding m)

-- 1 if the page has a result.
abbrev pub present {ℓ} : {V : Type ℓ} → ℕ → Dict V → ℕ
present u d = if is_some (lookup u d) then 1 else 0

-- A page of a new job is still to be read, or its result came with the job.
pub left_or_present {ℓ} :
    {V : Type ℓ} (u : ℕ) (d : Dict V) (ts : List ℕ)
    → 0 < count u ts
    → 0 < count u (keep_if (λ t. not (is_some (lookup t d))) ts) + present u d
left_or_present u d [] m = elim m [ ]
left_or_present u d (t ∷ ts) m = ground (arith, left_or_present u d ts)
