-- ===== src/Cache/Stored.antt =====
-- What is put into the result cache is found again (app/services/cache_service.py).
use pdf_engine_toolbox.Base.{
  ℕ, ◌+◌, ◌*◌, ◌≡◌, ◌≤◌, refl, ◌∙◌, true, false, Option, some, ltb, leb, arith, Dict, lookup,
  insert, lookup-insert,
}
use pdf_engine_toolbox.Errors.{Text}
use pdf_engine_toolbox.Cache.{
  CacheSettings, CacheDir, Json, Cached, bytes, json, Meta, total_size, cache_key, ttl_or,
  write_entry, put_cached, get_cached, prune_if_needed, read_raw, raw_of, is_json_result,
}

module _ {V : Type 0} (j : Json V) where
  read_raw-raw_of :
      (c : Cached V)
      → ((v : V) → j.loads (j.dumps v) ≡ some v)
      → read_raw j (is_json_result j c) (raw_of j c) ≡ some c
  read_raw-raw_of (bytes raw) h = refl
  read_raw-raw_of (json v) h = rw (h v) refl

  lookup_written : (A : Type 0) (k : ℕ) (v : A) (d : Dict A) → lookup k (insert k v d) ≡ some v
  lookup_written A k v d = lookup-insert k k v d ∙ ground arith

  get_cached-write_entry :
      (s : CacheSettings) (now later : ℕ) (source operation : Text) (result : Cached V)
      (params : Option V) (ttl : Option ℕ) (d : CacheDir)
      → s.cache_enabled ≡ true
      → ((v : V) → j.loads (j.dumps v) ≡ some v)
      → later ≤ now + ttl_or j s ttl
      → get_cached j s later source operation params
          (write_entry j s now (cache_key j source operation params) result ttl d)
        ≡ (some result, write_entry j s now (cache_key j source operation params) result ttl d)
  unfolding get_cached write_entry
  get_cached-write_entry s now later source operation result params ttl d on law fresh =
      let k = cache_key j source operation params in
      let young : ltb (now + ttl_or j s ttl) later ≡ false = ground arith in
      let meta : Meta = record {
        created_at = now;
        ttl = ttl_or j s ttl;
        is_json = is_json_result j result;
      } in
      simp (
        on,
        lookup_written (Option Meta) k (some meta) d.meta_files,
        lookup_written (ℕ × Text) k (now, raw_of j result) d.data_files,
        young,
        read_raw-raw_of result law,
      )

  put_cached-fits :
      (s : CacheSettings) (now : ℕ) (source operation : Text) (result : Cached V)
      (params : Option V) (ttl : Option ℕ) (d : CacheDir)
      → s.cache_enabled ≡ true
      → total_size
          (write_entry j s now (cache_key j source operation params) result ttl d).data_files
        ≤ s.cache_max_size_mb * 1024 * 1024
      → put_cached j s now source operation result params ttl d
        ≡ write_entry j s now (cache_key j source operation params) result ttl d
  unfolding put_cached prune_if_needed
  put_cached-fits s now source operation result params ttl d on fits =
      let e = write_entry j s now (cache_key j source operation params) result ttl d in
      let room : leb (total_size e.data_files) (s.cache_max_size_mb * 1024 * 1024) ≡ true =
        ground arith in
      simp (on, room)

  -- If the cache is on, JSON reads back what it writes, and the directory fits its limit with the
  -- new entry, then a result that was put is got again, with the directory unchanged, until its
  -- lifetime is over.
  pub get_cached-put_cached :
      (s : CacheSettings) (now later : ℕ) (source operation : Text) (result : Cached V)
      (params : Option V) (ttl : Option ℕ) (d : CacheDir)
      → s.cache_enabled ≡ true
      → ((v : V) → j.loads (j.dumps v) ≡ some v)
      → total_size
          (write_entry j s now (cache_key j source operation params) result ttl d).data_files
        ≤ s.cache_max_size_mb * 1024 * 1024
      → later ≤ now + ttl_or j s ttl
      → get_cached j s later source operation params
          (put_cached j s now source operation result params ttl d)
        ≡ (some result, put_cached j s now source operation result params ttl d)
  get_cached-put_cached s now later source operation result params ttl d on law fits fresh =
      rw (put_cached-fits s now source operation result params ttl d on fits)
        (get_cached-write_entry s now later source operation result params ttl d on law fresh)
