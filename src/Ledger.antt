-- ===== src/Ledger.antt =====
-- The job ledger of the OCR queue (class `_Store`, app/services/ocr_queue.py): the tables `ocr_jobs`
-- and `ocr_job_units`, and the files under `inputs` and `results`, which are named after their job.
-- A statement of SQL is one function. Times are numbers; `completed_at < now - ttl` is written
-- `completed_at + ttl < now`. A page's result is stored as JSON and sealed, by the functions of `Codec`.
pub mod Rows
pub mod Pages
pub mod Sweep
pub mod Ids
pub mod Cached
use pdf_engine_toolbox.Base.{
  ℕ, suc, ◌+◌, Bool, true, false, not, ◌&&◌, ◌||◌, String, Option, none, some, List, [], ◌∷◌, ◌++◌,
  ltb, leb, ◌==◌, if◌then◌else◌, is_some, or_else, keep_if, Dict, lookup, insert, erase,
}
use pdf_engine_toolbox.Errors.{Text}
use pdf_engine_toolbox.Queue.State.{Status, pending, processing, completed, failed}

-- A row of `ocr_jobs`. A path column holds the job's own file or NULL.
pub record Row : Type 0 where
  pub seq : ℕ
  pub id : ℕ
  pub status : Status
  pub page_count : ℕ
  pub has_input : Bool
  pub has_result : Bool
  pub error : Option String
  pub created_at : ℕ
  pub started_at : Option ℕ
  pub completed_at : Option ℕ
  pub cache_key : Option ℕ

-- A row of `ocr_job_units`.
pub record UnitRow (U : Type 0) : Type 0 where
  pub job_id : ℕ
  pub unit : ℕ
  pub result : U

-- JSON, and the cipher with the text that it binds a value to, that of a job and a page.
pub record Codec (V : Type 0) : Type 0 where
  pub dumps : V → Text
  pub loads : Text → Option V
  pub seal : ℕ × ℕ → Text → Text
  pub unseal : ℕ × ℕ → Text → Option Text

-- `U` is what is stored of a page's result, `R` of a document's; a file carries its modification time.
pub record Ledger (U R : Type 0) : Type 0 where
  pub rows : List Row
  pub units : List (UnitRow U)
  pub inputs : Dict ℕ
  pub results : Dict (ℕ × R)
  pub next_seq : ℕ

-- `status IN ('pending', 'processing')`
abbrev pub is_open : Status → Bool
is_open pending = true
is_open processing = true
is_open completed = false
is_open failed = false

abbrev pub is_completed : Status → Bool
is_completed completed = true
is_completed _ = false

-- `SELECT * FROM ocr_jobs WHERE id = ?`
abbrev pub find_row : ℕ → List Row → Option Row
find_row i [] = none
find_row i (r ∷ rs) = if r.id == i then some r else find_row i rs

-- `UPDATE ocr_jobs SET ... WHERE id = ?`
abbrev pub update_row : (Row → Row) → ℕ → List Row → List Row
update_row f i [] = []
update_row f i (r ∷ rs) = (if r.id == i then f r else r) ∷ update_row f i rs

-- `EXISTS (SELECT 1 FROM ocr_jobs WHERE id = ? AND status IN (...))`
abbrev pub has_open : ℕ → List Row → Bool
has_open i [] = false
has_open i (r ∷ rs) = (r.id == i && is_open r.status) || has_open i rs

-- `completed_at < now - ttl`, false on NULL.
abbrev pub is_past : ℕ → ℕ → Option ℕ → Bool
is_past ttl now none = false
is_past ttl now (some t) = ltb (t + ttl) now

abbrev pub set_processing : ℕ → Row → Row
set_processing now r =
    if is_open r.status
    then record r { status = processing; started_at = or_else r.started_at (some now) }
    else r

abbrev pub set_finished : Status → Bool → Option String → ℕ → Row → Row
set_finished status has_result error now r = record r {
  status = status;
  has_result = has_result;
  error = error;
  completed_at = some now;
  has_input = false;
}

-- The rows that `prune` deletes.
abbrev pub is_expired : ℕ → ℕ → Row → Bool
is_expired ttl now r = not (is_open r.status) && is_past ttl now r.completed_at

abbrev pub stale_after : ℕ
stale_after = 600

abbrev pub references_input : ℕ → List Row → Bool
references_input i [] = false
references_input i (r ∷ rs) = (r.id == i && r.has_input) || references_input i rs

abbrev pub references_result : ℕ → List Row → Bool
references_result i [] = false
references_result i (r ∷ rs) = (r.id == i && r.has_result) || references_result i rs

abbrev pub has_key : ℕ → Option ℕ → Bool
has_key key none = false
has_key key (some k) = k == key

-- `cache_key = ? AND status = 'completed' AND completed_at >= ?`
abbrev pub is_hit : ℕ → ℕ → ℕ → Row → Bool
is_hit key ttl now r =
    has_key key r.cache_key
    && is_completed r.status
    && is_some r.completed_at
    && not (is_past ttl now r.completed_at)

abbrev pub finished_at : Option ℕ → ℕ
finished_at none = 0
finished_at (some t) = t

-- `ORDER BY completed_at DESC LIMIT 1`
newest : (Row → Bool) → List Row → Option Row → Option Row
newest hit [] best = best
newest hit (r ∷ rs) none = newest hit rs (if hit r then some r else none)
newest hit (r ∷ rs) (some b) =
    newest hit rs (
      some
        (if hit r && ltb (finished_at b.completed_at) (finished_at r.completed_at) then r else b))

-- A file stays if a row refers to it, or if it is younger than ten minutes: it may belong to a
-- submission that has yet to write its row.
unfoldable pub keep_files : {V : Type 0} → ℕ → (V → ℕ) → (ℕ → Bool) → Dict V → Dict V
keep_files now modified referenced [] = []
keep_files now modified referenced ((i, v) ∷ d) =
    if referenced i || leb now (modified v + stale_after)
    then (i, v) ∷ keep_files now modified referenced d
    else keep_files now modified referenced d

module _ {U : Type 0} where
  abbrev pub put_unit : UnitRow U → List (UnitRow U) → List (UnitRow U)
  put_unit u [] = u ∷ []
  put_unit u (v ∷ vs) =
      if (v.job_id == u.job_id) && (v.unit == u.unit) then u ∷ vs else v ∷ put_unit u vs

  -- `SELECT unit, result FROM ocr_job_units WHERE job_id = ?`
  pub unit_rows : ℕ → List (UnitRow U) → Dict U
  unit_rows i [] = []
  unit_rows i (u ∷ us) =
      if u.job_id == i then insert u.unit u.result (unit_rows i us) else unit_rows i us

module _ {U R : Type 0} where
  -- `write_input` then `insert`; the id is UNIQUE. A row inserted as failed has no input.
  unfoldable pub insert_row : Row → ℕ → Ledger U R → Option (Ledger U R)
  insert_row r now l =
      if is_some (find_row r.id l.rows)
      then none
      else some (record l {
        rows = l.rows ++ record r { seq = suc l.next_seq } ∷ [];
        next_seq = suc l.next_seq;
        inputs = if r.has_input then insert r.id now l.inputs else l.inputs;
      })

  unfoldable pub mark_processing : ℕ → ℕ → Ledger U R → Ledger U R
  mark_processing i now l = record l { rows = update_row (set_processing now) i l.rows }

  -- The statement of `save_unit`: `INSERT OR REPLACE`, only while the job is unfinished.
  unfoldable pub save_row : ℕ → ℕ → U → Ledger U R → Ledger U R
  save_row i unit result l =
      if has_open i l.rows
      then record l {
        units = put_unit (record { job_id = i; unit = unit; result = result }) l.units;
      }
      else l

  -- `_finish`: the row, the unit rows and then the input file.
  unfoldable pub finish_row : ℕ → Status → Bool → Option String → ℕ → Ledger U R → Ledger U R
  finish_row i status has_result error now l = record l {
    rows = update_row (set_finished status has_result error now) i l.rows;
    units = keep_if (λ u. not (u.job_id == i)) l.units;
    inputs = elim (find_row i l.rows) [
      | none ↦ l.inputs
      | some r ↦ if r.has_input then erase i l.inputs else l.inputs
    ];
  }

  unfoldable pub complete : ℕ → R → ℕ → Ledger U R → Ledger U R
  unfolding finish_row
  complete i result now l =
      finish_row i completed true none now (record l { results = insert i (now, result) l.results })

  unfoldable pub fail : ℕ → String → ℕ → Ledger U R → Ledger U R
  unfolding finish_row
  fail i error now l = finish_row i failed false (some error) now l

  -- `unfinished`: rows are appended in the order of `seq`.
  unfoldable pub unfinished : Ledger U R → List Row
  unfinished l = keep_if (λ r. is_open r.status) l.rows

  unfoldable pub drop_files : List Row → Ledger U R → Ledger U R
  drop_files [] l = l
  drop_files (r ∷ rs) l = drop_files rs (record l {
    results = if r.has_result then erase r.id l.results else l.results;
    inputs = if r.has_input then erase r.id l.inputs else l.inputs;
    rows = keep_if (λ s. not (s.id == r.id)) l.rows;
  })

  unfoldable pub prune : ℕ → ℕ → Ledger U R → Ledger U R
  unfolding drop_files
  prune ttl now l = drop_files (keep_if (is_expired ttl now) l.rows) l

  -- What remains of `sweep` after `prune`: files that no row refers to, and pages of no open job.
  unfoldable pub sweep_orphans : ℕ → Ledger U R → Ledger U R
  unfolding keep_files
  sweep_orphans now l = record l {
    inputs = keep_files now (λ t. t) (λ i. references_input i l.rows) l.inputs;
    results = keep_files now (λ x. x.0) (λ i. references_result i l.rows) l.results;
    units = keep_if (λ u. has_open u.job_id l.rows) l.units;
  }

  unfoldable pub sweep : ℕ → ℕ → Ledger U R → Ledger U R
  unfolding prune sweep_orphans
  sweep ttl now l = sweep_orphans now (prune ttl now l)

  -- `cached`: of the unexpired results for this key the one that finished last.
  unfoldable pub cached : ℕ → ℕ → ℕ → Ledger U R → Option Row
  unfolding newest
  cached key ttl now l = newest (is_hit key ttl now) l.rows none

module _ {V : Type 0} (c : Codec V) where
  abbrev pub sealed_result : ℕ → ℕ → V → Text
  sealed_result i unit result = c.seal (i, unit) (c.dumps result)

  unfoldable pub save_unit : {R : Type 0} → ℕ → ℕ → V → Ledger Text R → Ledger Text R
  unfolding save_row
  save_unit i unit result l = save_row i unit (sealed_result i unit result) l

  -- `json.loads(self.cipher.open(…))`, or an exception.
  abbrev pub read_unit : UnitRow Text → Option V
  read_unit u = elim (c.unseal (u.job_id, u.unit) u.result) [ none ↦ none | some t ↦ c.loads t ]

  abbrev pub add_read : ℕ → Option V → Option (Dict V) → Option (Dict V)
  add_read unit none rest = none
  add_read unit (some x) none = none
  add_read unit (some x) (some d) = some (insert unit x d)

  -- `units`: the recorded pages of a job, or an exception where one of them cannot be read.
  unfoldable pub unit_results : ℕ → List (UnitRow Text) → Option (Dict V)
  unit_results i [] = some []
  unit_results i (u ∷ us) =
      let rest = unit_results i us in
      if u.job_id == i then add_read u.unit (read_unit u) rest else rest
