-- ===== src/Cache.antt =====
-- app/services/cache_service.py: results of expensive operations on disk, each as two files named by
-- its key: the data, with its modification time, and the metadata. A key is the number of its hex
-- digest. `now` is the time of the call; reads and writes of the disk that fail are left out, but a
-- metadata file may be unreadable.
pub mod Prune
pub mod Stored
use pdf_engine_toolbox.Base.{
  ℕ, ◌+◌, ◌-◌, ◌*◌, Bool, true, false, not, Option, none, some, List, [], ◌∷◌, ◌++◌, ltb, leb, ◌==◌,
  if◌then◌else◌, length, Dict, lookup, insert, erase,
}
use pdf_engine_toolbox.Errors.{Text, codes}

pub record CacheSettings : Type 0 where
  pub cache_enabled : Bool
  pub cache_max_size_mb : ℕ
  pub cache_ttl_seconds : ℕ

-- Python's digest and JSON.
pub record Json (V : Type 0) : Type 0 where
  pub sha256 : Text → ℕ
  pub dumps : V → Text
  pub loads : Text → Option V
  pub sorted_dumps : V → Text

pub data Cached (V : Type 0) : Type 0 where
  bytes : Text → Cached V
  json : V → Cached V

pub record Meta : Type 0 where
  pub created_at : ℕ
  pub ttl : ℕ
  pub is_json : Bool

pub record CacheDir : Type 0 where
  pub data_files : Dict (ℕ × Text)
  pub meta_files : Dict (Option Meta)

-- `remove_entry`
abbrev pub remove_entry : ℕ → CacheDir → CacheDir
remove_entry k d = record { data_files = erase k d.data_files; meta_files = erase k d.meta_files }

abbrev pub total_size : Dict (ℕ × Text) → ℕ
total_size [] = 0
total_size ((k, (t, raw)) ∷ es) = length raw + total_size es

-- `entries.sort(key=lambda e: e[1])`, which is stable.
abbrev pub insert_sorted : ℕ × (ℕ × Text) → Dict (ℕ × Text) → Dict (ℕ × Text)
insert_sorted e [] = e ∷ []
insert_sorted e (f ∷ fs) = if leb e.1.0 f.1.0 then e ∷ f ∷ fs else f ∷ insert_sorted e fs

abbrev pub sort : Dict (ℕ × Text) → Dict (ℕ × Text)
sort [] = []
sort (e ∷ es) = insert_sorted e (sort es)

-- The loop over the entries, oldest first; `total` is what the code thinks is left.
unfoldable pub prune_loop : ℕ → ℕ → Dict (ℕ × Text) → CacheDir → CacheDir
prune_loop max_bytes total [] d = d
prune_loop max_bytes total ((k, (t, raw)) ∷ es) d =
    let rest = prune_loop max_bytes (total - length raw) es (remove_entry k d) in
    if leb total max_bytes then d else rest

unfoldable pub prune_if_needed : CacheSettings → CacheDir → CacheDir
unfolding prune_loop
prune_if_needed s d =
    let max_bytes = s.cache_max_size_mb * 1024 * 1024 in
    if leb (total_size d.data_files) max_bytes
    then d
    else prune_loop max_bytes (total_size d.data_files) (sort d.data_files) d

module _ {V : Type 0} (j : Json V) where
  -- Empty `params` count as none.
  abbrev pub cache_key : Text → Text → Option V → ℕ
  cache_key source operation none = j.sha256 (source ++ (codes ":" ++ operation))
  cache_key source operation (some params) =
      j.sha256 (source ++ (codes ":" ++ (operation ++ (codes ":" ++ j.sorted_dumps params))))

  abbrev pub is_json_result : Cached V → Bool
  is_json_result (bytes raw) = false
  is_json_result (json v) = true

  abbrev pub raw_of : Cached V → Text
  raw_of (bytes raw) = raw
  raw_of (json v) = j.dumps v

  abbrev pub read_raw : Bool → Text → Option (Cached V)
  read_raw false raw = some (bytes raw)
  read_raw true raw = elim (j.loads raw) [ none ↦ none | some v ↦ some (json v) ]

  -- What was found, and the directory: an expired entry is removed.
  unfoldable pub get_cached :
      CacheSettings → ℕ → Text → Text → Option V → CacheDir → Option (Cached V) × CacheDir
  get_cached s now source operation params d =
      let k = cache_key source operation params in
      if not s.cache_enabled then (none, d) else elim (lookup k d.meta_files) [
        | none ↦ (none, d)
        | some m ↦ elim (lookup k d.data_files) [
          | none ↦ (none, d)
          | some file ↦ elim m [
            | none ↦ (none, d)
            | some meta ↦
                if ltb (meta.created_at + meta.ttl) now
                then (none, remove_entry k d)
                else (read_raw meta.is_json file.1, d)
          ]
        ]
      ]

  -- `ttl or settings.cache_ttl_seconds`
  abbrev pub ttl_or : CacheSettings → Option ℕ → ℕ
  ttl_or s none = s.cache_ttl_seconds
  ttl_or s (some t) = if t == 0 then s.cache_ttl_seconds else t

  unfoldable pub write_entry : CacheSettings → ℕ → ℕ → Cached V → Option ℕ → CacheDir → CacheDir
  write_entry s now k result ttl d = record {
    data_files = insert k (now, raw_of result) d.data_files;
    meta_files =
        insert k
          (some (record { created_at = now; ttl = ttl_or s ttl; is_json = is_json_result result }))
          d.meta_files;
  }

  unfoldable pub put_cached :
      CacheSettings → ℕ → Text → Text → Cached V → Option V → Option ℕ → CacheDir → CacheDir
  unfolding write_entry prune_if_needed
  put_cached s now source operation result params ttl d =
      if not s.cache_enabled
      then d
      else prune_if_needed s (write_entry s now (cache_key source operation params) result ttl d)
