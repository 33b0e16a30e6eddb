-- ===== src/Tests/Store.antt =====
-- A ledger with a finished job, an unfinished one with a page, and a stray page and file.
use pdf_engine_toolbox.Base.{
  ℕ, arith, ◌≡◌, refl, true, false, Option, some, none, [], ◌∷◌, Dict, lookup, if◌then◌else◌, ◌&&◌,
  ◌==◌,
}
use pdf_engine_toolbox.Errors.{Text}
use pdf_engine_toolbox.Queue.State.{processing, completed}
use pdf_engine_toolbox.Ledger.{
  Row, Ledger, find_row, has_open, save_unit, complete, sweep, unit_rows, unit_results, Codec,
  cached, drop_files, prune, sweep_orphans, keep_files,
}
use pdf_engine_toolbox.Ledger.Rows.{completes, NoOrphans, Writes-NoOrphans}
use pdf_engine_toolbox.Ledger.Pages.{unit_results-save_unit}
use pdf_engine_toolbox.Ledger.Sweep.{sweep_keeps_unfinished}
use pdf_engine_toolbox.Ledger.Cached.{Answers, cached-Answers}

abbrev old_row : Row
old_row = record {
  seq = 1;
  id = 7;
  status = completed;
  page_count = 1;
  has_input = false;
  has_result = true;
  error = none;
  created_at = 10;
  started_at = some 11;
  completed_at = some 12;
  cache_key = some 3;
}

abbrev live_row : Row
live_row = record {
  seq = 2;
  id = 8;
  status = processing;
  page_count = 2;
  has_input = true;
  has_result = false;
  error = none;
  created_at = 20;
  started_at = some 21;
  completed_at = none;
  cache_key = none;
}

abbrev demo_ledger : Ledger ℕ ℕ
demo_ledger = record {
  rows = old_row ∷ live_row ∷ [];
  units = record { job_id = 8; unit = 0; result = 50 } ∷ [];
  inputs = (8, 20) ∷ (9, 20) ∷ [];
  results = (7, (12, 70)) ∷ [];
  next_seq = 2;
}

sweep_clears : (sweep 100 5000 demo_ledger).results ≡ []
unfolding sweep prune sweep_orphans drop_files keep_files
sweep_clears = refl

sweep_drops_stray_input : (sweep 100 5000 demo_ledger).inputs ≡ (8, 20) ∷ []
unfolding sweep prune sweep_orphans drop_files keep_files
sweep_drops_stray_input = refl

sweep_keeps_unfinished_example :
    (find_row 8 (sweep 100 5000 demo_ledger).rows ≡ some live_row)
    × (lookup 8 (sweep 100 5000 demo_ledger).inputs ≡ lookup 8 demo_ledger.inputs)
    × (unit_rows 8 (sweep 100 5000 demo_ledger).units ≡ unit_rows 8 demo_ledger.units)
sweep_keeps_unfinished_example =
    sweep_keeps_unfinished 100 5000 8 live_row demo_ledger (refl, (refl, tt)) refl refl refl

Writes-NoOrphans_example :
    NoOrphans (complete 8 80 30 demo_ledger).units (complete 8 80 30 demo_ledger).rows
Writes-NoOrphans_example = Writes-NoOrphans (completes demo_ledger 8 80 30) (refl, tt)

-- A result is its own text, and a sealed text carries its job and page.
abbrev open_sealed : ℕ × ℕ → Text → Option Text
open_sealed (i, u) (j ∷ v ∷ t) = if (i == j) && (u == v) then some t else none
open_sealed k _ = none

abbrev plain : Codec Text
plain = record {
  dumps = λ t. b'{' ∷ t;
  loads = tail_of;
  seal = λ k t. k.0 ∷ k.1 ∷ t;
  unseal = open_sealed;
}
  where
    tail_of : Text → Option Text
    tail_of [] = none
    tail_of (c ∷ t) = some t

opened_seal : (k : ℕ × ℕ) (t : Text) → open_sealed k (k.0 ∷ k.1 ∷ t) ≡ some t
opened_seal (i, u) t = ground arith

abbrev page_ledger : Ledger Text ℕ
page_ledger = record {
  rows = old_row ∷ live_row ∷ [];
  units = record { job_id = 8; unit = 0; result = 8 ∷ 0 ∷ b'{' ∷ 50 ∷ [] } ∷ [];
  inputs = (8, 20) ∷ [];
  results = [];
  next_seq = 2;
}

first_page : unit_results plain 8 page_ledger.units ≡ some ((0, 50 ∷ []) ∷ [])
unfolding unit_results
first_page = refl

unit_results-save_unit_example :
    (k : Dict Text) × (unit_results plain 8 (save_unit plain 8 1 (51 ∷ []) page_ledger).units
      ≡ some k)
    × (lookup 1 k ≡ (
        if has_open 8 page_ledger.rows && (8 == 8) && (1 == 1)
        then some (51 ∷ [])
        else lookup {V = Text} 1 ((0, 50 ∷ []) ∷ [])))
unit_results-save_unit_example =
    unit_results-save_unit plain 8 8 1 1 (51 ∷ []) page_ledger ((0, 50 ∷ []) ∷ []) (λ t. refl)
      opened_seal first_page

cached-Answers_example : Answers 3 100 50 demo_ledger.rows (cached 3 100 50 demo_ledger)
cached-Answers_example = cached-Answers 3 100 50 demo_ledger
