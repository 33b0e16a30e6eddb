-- ===== src/Tables/Readers/RapidPage.antt =====
-- app/services/table_ocr.py: the loop of `read_tables` over the regions, and `read_page_result`.
use pdf_engine_toolbox.Base.{
  ℕ, zero, suc, Bool, Option, none, some, List, [], ◌∷◌, is_empty, if◌then◌else◌,
}
use pdf_engine_toolbox.Errors.{Text, codes}
use pdf_engine_toolbox.Tables.Readers.{
  Measures, Attempt, returned, out_of_memory, excepted, rapidtable, PageStatus, complete, empty,
  unsupported, failed, Table, PageResult, page_result,
}
use pdf_engine_toolbox.Tables.Readers.Rapid.{
  Region, Recognition, RegionOutcome, resolved, unresolved, failed_region, escaped, memory,
  read_region,
}

module _ (ms : Measures) where
  -- `TableReadResult`
  pub record TableReadResult : Type 0 where
    pub tables : List (Table ms)
    pub unresolved_regions : ℕ
    pub failed_regions : ℕ

  -- What a region adds before the later ones.
  abbrev pub add_region : RegionOutcome ms → Attempt TableReadResult → Attempt TableReadResult
  add_region memory rest = out_of_memory
  add_region escaped rest = excepted
  add_region (resolved t) (returned k) = returned (record k { tables = t ∷ k.tables })
  add_region unresolved (returned k) =
      returned (record k { unresolved_regions = suc k.unresolved_regions })
  add_region failed_region (returned k) =
      returned (record k { failed_regions = suc k.failed_regions })
  add_region _ out_of_memory = out_of_memory
  add_region _ excepted = excepted

  unfoldable pub read_tables : Recognition ms → List (Region ms) → Attempt TableReadResult
  unfolding read_region
  read_tables rec [] = returned (record { tables = []; unresolved_regions = 0; failed_regions = 0 })
  read_tables rec (r ∷ rs) = add_region (read_region ms rec r) (read_tables rec rs)

  -- A rendered page: whether it is all white, its ruled regions, and what the engines read, if they can
  -- be made and do not fail.
  pub record RenderedPage : Type 0 where
    pub white : Bool
    pub regions : List (Region ms)
    pub engines : Attempt (Attempt (Recognition ms))

  -- `RapidConfigurationError` fails the request.
  pub data ReadPage : Type 0 where
    page_read : PageResult ms → ReadPage
    configuration_error no_memory : ReadPage

  abbrev pub rapid : ℕ → PageStatus → List (Table ms) → Option Text → ReadPage
  rapid i status tables reason = page_read (page_result ms i rapidtable status tables reason)

  -- By the tables, the unresolved and the failed regions.
  abbrev pub accounted : ℕ → List (Table ms) → ℕ → ℕ → ReadPage
  accounted i ts k (suc m) = rapid i failed ts (some (codes "table_region_failed"))
  accounted i ts (suc k) zero = rapid i unsupported ts (some (codes "table_region_unresolved"))
  accounted i [] zero zero = rapid i unsupported [] (some (codes "table_structure_not_resolved"))
  accounted i (t ∷ ts) zero zero = rapid i complete (t ∷ ts) none

  abbrev pub read_outcome : ℕ → Attempt TableReadResult → ReadPage
  read_outcome i out_of_memory = no_memory
  read_outcome i excepted = rapid i failed [] (some (codes "table_recognition_failed"))
  read_outcome i (returned k) = accounted i k.tables k.unresolved_regions k.failed_regions

  abbrev pub with_engines : ℕ → List (Region ms) → Attempt (Attempt (Recognition ms)) → ReadPage
  with_engines i regions out_of_memory = no_memory
  with_engines i regions excepted = configuration_error
  with_engines i regions (returned out_of_memory) = no_memory
  with_engines i regions (returned excepted) = read_outcome i excepted
  with_engines i regions (returned (returned rec)) = read_outcome i (read_tables rec regions)

  unfoldable pub rapid_page_result : ℕ → RenderedPage → ReadPage
  unfolding read_tables
  rapid_page_result i page =
      if page.white
      then rapid i empty [] (some (codes "blank_page"))
      else if is_empty page.regions
      then rapid i unsupported [] (some (codes "no_ruled_table_region"))
      else with_engines i page.regions page.engines
