-- ===== src/Cache/Prune.antt =====
-- Pruning the result cache (app/services/cache_service.py).
use pdf_engine_toolbox.Base.{
  ℕ, ◌+◌, ◌-◌, ◌*◌, ◌≡◌, ◌≤◌, inl, inr, refl, sym, ◌∙◌, none, some, [], ◌∷◌, leb, ◌==◌, length,
  arith, Dict, lookup, erase, lookup-erase, Bool-cases, All,
}
use pdf_engine_toolbox.Errors.{Text}
use pdf_engine_toolbox.Cache.{
  CacheSettings, CacheDir, remove_entry, total_size, insert_sorted, sort, prune_loop,
  prune_if_needed,
}

-- A directory has one file of a name.
abbrev pub UniqueKeys : Dict (ℕ × Text) → Type 0
UniqueKeys [] = Unit
UniqueKeys (e ∷ es) = (lookup e.0 es ≡ none) × UniqueKeys es

total_size-insert_sorted :
    (e : ℕ × (ℕ × Text)) (es : Dict (ℕ × Text))
    → total_size (insert_sorted e es) ≡ length e.1.1 + total_size es
total_size-insert_sorted e [] = ground arith
total_size-insert_sorted e (f ∷ fs) = ground (arith, total_size-insert_sorted e fs)

total_size-sort : (es : Dict (ℕ × Text)) → total_size (sort es) ≡ total_size es
total_size-sort [] = refl
total_size-sort (e ∷ es) = ground (arith, total_size-insert_sorted e (sort es), total_size-sort es)

lookup-insert_sorted :
    (k : ℕ) (e : ℕ × (ℕ × Text)) (es : Dict (ℕ × Text))
    → lookup e.0 es ≡ none
    → lookup k (insert_sorted e es) ≡ lookup k (e ∷ es)
lookup-insert_sorted k e [] h = refl
lookup-insert_sorted k e (f ∷ fs) h = ground (arith, lookup-insert_sorted k e fs)

lookup-sort : (k : ℕ) (es : Dict (ℕ × Text)) → UniqueKeys es → lookup k (sort es) ≡ lookup k es
lookup-sort k [] u = refl
lookup-sort k (e ∷ es) u =
    ground (arith, lookup-insert_sorted k e (sort es), lookup-sort k es u.1, lookup-sort e.0 es u.1)

UniqueKeys-insert_sorted :
    (e : ℕ × (ℕ × Text)) (es : Dict (ℕ × Text))
    → lookup e.0 es ≡ none
    → UniqueKeys es
    → UniqueKeys (insert_sorted e es)
UniqueKeys-insert_sorted e [] h u = (refl, tt)
UniqueKeys-insert_sorted e (f ∷ fs) h u =
    ground (arith, lookup-insert_sorted f.0 e fs, UniqueKeys-insert_sorted e fs)

UniqueKeys-sort : (es : Dict (ℕ × Text)) → UniqueKeys es → UniqueKeys (sort es)
UniqueKeys-sort [] u = tt
UniqueKeys-sort (e ∷ es) u =
    UniqueKeys-insert_sorted e (sort es) (lookup-sort e.0 es u.1 ∙ u.0) (UniqueKeys-sort es u.1)

total_size-erase_le : (k : ℕ) (d : Dict (ℕ × Text)) → total_size (erase k d) ≤ total_size d
total_size-erase_le k [] = omega arith
total_size-erase_le k (e ∷ d) = ground (arith, total_size-erase_le k d)

total_size-erase :
    (k : ℕ) (v : ℕ × Text) (d : Dict (ℕ × Text))
    → lookup k d ≡ some v
    → total_size (erase k d) + length v.1 ≤ total_size d
total_size-erase k v [] h = absurd (ground arith)
total_size-erase k v (e ∷ d) h = elim (Bool-cases (e.0 == k)) [
  | inl here ↦
      let same : e.1 ≡ v = ground arith in
      rw (here, sym same) (omega (arith, total_size-erase_le k d))
  | inr other ↦ ground (arith, total_size-erase k v d)
]

-- The entries are in the directory.
abbrev Listed : Dict (ℕ × Text) → Dict (ℕ × Text) → Type 0
Listed es d = All (λ e. lookup e.0 d ≡ some e.1) es

Listed-erase :
    (k : ℕ) (es d : Dict (ℕ × Text)) → lookup k es ≡ none → Listed es d → Listed es (erase k d)
Listed-erase k [] d h a = tt
Listed-erase k (e ∷ es) d h a =
    (ground (arith, lookup-erase e.0 k d, a.0), Listed-erase k es d (ground arith) a.1)

Listed-cons :
    (f : ℕ × (ℕ × Text)) (es d : Dict (ℕ × Text))
    → lookup f.0 es ≡ none
    → Listed es d
    → Listed es (f ∷ d)
Listed-cons f [] d h a = tt
Listed-cons f (e ∷ es) d h a = (ground (arith, a.0), Listed-cons f es d (ground arith) a.1)

Listed-self : (es : Dict (ℕ × Text)) → UniqueKeys es → Listed es es
Listed-self [] u = tt
Listed-self (e ∷ es) u = (ground arith, Listed-cons e es es u.0 (Listed-self es u.1))

Listed-same :
    (es c d : Dict (ℕ × Text)) → ((k : ℕ) → lookup k c ≡ lookup k d) → Listed es c → Listed es d
Listed-same [] c d h a = tt
Listed-same (e ∷ es) c d h a = (sym (h e.0) ∙ a.0, Listed-same es c d h a.1)

prune_loop_fits :
    (max_bytes total : ℕ) (es : Dict (ℕ × Text)) (d : CacheDir)
    → total ≡ total_size es
    → total_size d.data_files ≤ total
    → UniqueKeys es
    → Listed es d.data_files
    → total_size (prune_loop max_bytes total es d).data_files ≤ max_bytes
unfolding prune_loop
prune_loop_fits max_bytes total [] d h b u a = omega (arith, h, b)
prune_loop_fits max_bytes total (e ∷ es) d h b u a = elim (Bool-cases (leb total max_bytes)) [
  | inl fits ↦ rw fits (ground arith)
  | inr over ↦ rw over (
      prune_loop_fits max_bytes (total - length e.1.1) es (remove_entry e.0 d) (omega arith)
        (omega (arith, total_size-erase e.0 e.1 d.data_files a.0)) u.1
        (Listed-erase e.0 es d.data_files u.0 a.1))
]

-- If a directory has one file of a name, then after pruning its data files are together no larger
-- than the limit.
pub prune_if_needed_fits :
    (s : CacheSettings) (d : CacheDir)
    → UniqueKeys d.data_files
    → total_size (prune_if_needed s d).data_files ≤ s.cache_max_size_mb * 1024 * 1024
unfolding prune_if_needed
prune_if_needed_fits s d u =
    let max_bytes = s.cache_max_size_mb * 1024 * 1024 in
    let files = d.data_files in
    elim (Bool-cases (leb (total_size files) max_bytes)) [
      | inl fits ↦ rw fits (ground arith)
      | inr over ↦ rw over (
          prune_loop_fits max_bytes (total_size files) (sort files) d (sym (total_size-sort files))
            (omega arith) (UniqueKeys-sort files u)
            (Listed-same (sort files) (sort files) files (λ k. lookup-sort k files u)
              (Listed-self (sort files) (UniqueKeys-sort files u))))
    ]
