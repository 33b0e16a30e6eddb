-- ===== src/Tests/Results.antt =====
-- A result put into the cache, and a cache of two files over its limit.
use pdf_engine_toolbox.Base.{◌*◌, ◌≡◌, ◌≤◌, refl, true, none, some, [], ◌∷◌, arith}
use pdf_engine_toolbox.Errors.{Text, codes}
use pdf_engine_toolbox.Cache.{
  CacheSettings, Json, json, CacheDir, total_size, put_cached, get_cached, write_entry, prune_loop,
  prune_if_needed,
}
use pdf_engine_toolbox.Cache.Prune.{prune_if_needed_fits}
use pdf_engine_toolbox.Cache.Stored.{get_cached-put_cached}

abbrev demo_cache : CacheSettings
demo_cache = record { cache_enabled = true; cache_max_size_mb = 1; cache_ttl_seconds = 60 }

abbrev demo_json : Json Text
demo_json = record { sha256 = λ t. 5; dumps = λ t. t; loads = λ t. some t; sorted_dumps = λ t. t }

abbrev empty_cache : CacheDir
empty_cache = record { data_files = []; meta_files = [] }

abbrev two_files : CacheDir
two_files = record {
  data_files = (1, (20, codes "new")) ∷ (2, (10, codes "old")) ∷ [];
  meta_files = (1, none) ∷ [];
}

oldest_goes :
    (prune_loop 4 6 ((2, (10, codes "old")) ∷ (1, (20, codes "new")) ∷ []) two_files).data_files
    ≡ (1, (20, codes "new")) ∷ []
unfolding prune_loop
oldest_goes = refl

entry_fits :
    total_size
      (write_entry demo_json demo_cache 100 5 (json (codes "x")) none empty_cache).data_files
    ≤ 1 * 1024 * 1024
unfolding write_entry
entry_fits = omega arith

get_cached-put_cached_example :
    get_cached demo_json demo_cache 150 (codes "h") (codes "ocr") none (
      put_cached demo_json demo_cache 100
        (codes "h")
        (codes "ocr")
        (json (codes "x"))
        none
        none
        empty_cache)
    ≡ (
      some (json (codes "x")),
      put_cached demo_json demo_cache 100
          (codes "h")
          (codes "ocr")
          (json (codes "x"))
          none
          none
          empty_cache,
    )
get_cached-put_cached_example =
    get_cached-put_cached demo_json demo_cache 100 150 (codes "h") (codes "ocr") (json (codes "x"))
      none none empty_cache refl (λ v. refl) entry_fits (omega arith)

prune_if_needed_fits_example :
    total_size (prune_if_needed demo_cache two_files).data_files ≤ 1 * 1024 * 1024
prune_if_needed_fits_example = prune_if_needed_fits demo_cache two_files (refl, (refl, tt))
