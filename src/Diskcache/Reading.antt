-- ===== src/Diskcache/Reading.antt =====
-- internal/diskcache/cache.go: what `Load` answers, and what it makes of a file that `Write` left.
use bitblocker.Base.{
  ℕ, ◌≡◌, ◌≢◌, inl, inr, refl, subst, String, true, false, ◌&&◌, Option, none, some, List, [], map,
  any, All, arith, Bool-cases, Option-cases,
}
use bitblocker.Base.Int.{ℤ, ltb_ℤ, sub_ℕ, ◌≤ℤ◌}
use bitblocker.Base.Result.{Result, ok, err}
use bitblocker.Netip.{Addr, IsAddr, unmap, covers}
use bitblocker.Blocklist.Trie.{Trie, contains}
use bitblocker.Mmdb.{Traversal, LoadError, is_wanted, load_country_blocklist}
use bitblocker.Mmdb.Networks.{Network, IsNetwork, row_of, prefix_of}
use bitblocker.Mmdb.Loading.{load_networks}
use bitblocker.Diskcache.{
  File, FileSystem, WriteRun, write, CacheError, absent, stale, unusable, wrap, load_file, load,
}
use bitblocker.Diskcache.Writing.{Left, IsFresh, write-IsAtomic, concat_chunks}

module _ (open_mmdb : List ℕ → Option Traversal) (countries : List String) (max_age : ℤ)
    (now : ℕ) where
  -- The four kinds of answer, each with what is at the path.
  pub data Answers (o : Option File) : Result CacheError Trie → Type 0 where
    not_there : o ≡ none → Answers o (err absent)
    too_old : (x : File) → o ≡ some x → ¬ (sub_ℕ now x.modified ≤ℤ max_age) → Answers o (err stale)
    bad_file :
        (x : File) (e : LoadError)
        → o ≡ some x
        → sub_ℕ now x.modified ≤ℤ max_age
        → load_country_blocklist (open_mmdb x.bytes) countries ≡ err e
        → Answers o (err (unusable e))
    served :
        (x : File) (t : Trie)
        → o ≡ some x
        → sub_ℕ now x.modified ≤ℤ max_age
        → load_country_blocklist (open_mmdb x.bytes) countries ≡ ok t
        → Answers o (ok t)

  in_time :
      (x : File) (r : Result LoadError Trie)
      → sub_ℕ now x.modified ≤ℤ max_age
      → load_country_blocklist (open_mmdb x.bytes) countries ≡ r
      → Answers (some x) (wrap r)
  in_time x (ok t) h e = served x t refl h e
  in_time x (err b) h e = bad_file x b refl h e

  load_file-Answers : (x : File) → Answers (some x) (load_file open_mmdb x max_age now countries)
  unfolding load_file
  load_file-Answers x = elim (Bool-cases (ltb_ℤ max_age (sub_ℕ now x.modified))) [
    | inl b ↦ rw b (too_old x refl (ground arith))
    | inr b ↦ rw b (in_time x _ (ground arith) refl)
  ]

  load_file-ok :
      (x : File) (t : Trie)
      → sub_ℕ now x.modified ≤ℤ max_age
      → load_country_blocklist (open_mmdb x.bytes) countries ≡ ok t
      → load_file open_mmdb x max_age now countries ≡ ok t
  unfolding load_file
  load_file-ok x t h e =
      let young : ltb_ℤ max_age (sub_ℕ now x.modified) ≡ false = ground arith in rw (young, e) refl

  -- Where `os.Stat` works, a load answers that the file is absent, that it is older than the bound,
  -- that it does not give a blocklist, or the blocklist that it gives, each answer in its case only.
  pub load-Answers :
      (fs : FileSystem) (path : String)
      → Answers (fs path) (load open_mmdb false fs path max_age now countries)
  unfolding load
  load-Answers fs path = elim (Option-cases (fs path)) [
    | inl e ↦ rw (e, load) (not_there refl)
    | inr (x, e) ↦ rw (e, load) (load_file-Answers x)
  ]

  -- After a write that ends without an error, with a fresh temporary name, of the bytes of a
  -- database of well-formed networks, a load for some countries within the age bound gives a trie
  -- that contains an address, unmapped first, exactly when a network of a wanted country covers it.
  pub write-load :
      (r : WriteRun) (path : String) (fs : FileSystem) (ns : List Network)
      → IsFresh r path fs
      → (write r path fs).error ≡ none
      → open_mmdb (concat_chunks r.chunks) ≡ some (record { rows = map row_of ns; complete = true })
      → sub_ℕ now r.now ≤ℤ max_age
      → countries ≢ []
      → All IsNetwork ns
      → (t : Trie) × (load open_mmdb false (write r path fs).fs path max_age now countries ≡ ok t)
        × ((ip : Addr)
            → IsAddr ip
            → contains t ip
              ≡ any (λ n. is_wanted countries n.country && covers (prefix_of n) (unmap ip)) ns)
  unfolding load
  write-load r path fs ns fresh done opened age some_country wf =
      let (t, loads, found) = load_networks countries ns some_country wf in
      let left : Left r (fs path) ((write r path fs).fs path) none =
        subst (Left r (fs path) ((write r path fs).fs path)) done
          (write-IsAtomic r path fs fresh).left in
      let file_loads =
        load_file-ok (record { bytes = concat_chunks r.chunks; modified = r.now }) t age
          (rw opened loads) in
      (t, rw (left, load) file_loads, found)
