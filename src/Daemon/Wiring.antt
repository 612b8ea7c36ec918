-- ===== src/Daemon/Wiring.antt =====
-- cmd/bitblocker/main.go: what the server sees of the source, and what the disk cache puts there.
use bitblocker.Base.{
  ℕ, ◌≡◌, ◌≢◌, inl, inr, refl, sym, ap, ◌∙◌, String, Bool, true, false, ◌&&◌, Option, none, some,
  List, [], map, any, All, arith, Bool-cases, Option-cases, if◌then◌else◌, ltb,
}
use bitblocker.Base.Int.{pos, sub_ℕ, ◌≤ℤ◌}
use bitblocker.Base.Result.{Result, ok, err}
use bitblocker.Netip.{Addr, IsAddr, unmap, covers}
use bitblocker.Blocklist.Trie.{Trie, contains}
use bitblocker.Blocklist.Source.{Source, current_trie, swap}
use bitblocker.Config.{Config}
use bitblocker.Mmdb.{Traversal, is_wanted}
use bitblocker.Mmdb.Networks.{Network, IsNetwork, row_of, prefix_of}
use bitblocker.Diskcache.{
  FileSystem, remove, CacheError, absent, stale, cannot_stat, unusable, load, WriteRun, write,
}
use bitblocker.Diskcache.Writing.{IsFresh, concat_chunks}
use bitblocker.Diskcache.Reading.{write-load}
use bitblocker.Server.Readiness.{Lookup, usable}
use bitblocker.Server.ClientIp.{Text, extract_client_ip}
use bitblocker.Server.Handlers.{Server, Request, plain, is_get, handle_check}
use bitblocker.Daemon.{
  lookup_of, lookup_source, is_ready, remove_unusable_cache, after_load, load_disk_cache,
}

-- The scheduler calls the blocklist ready exactly when the server calls the lookup usable.
pub is_ready-usable : (src : Source) → is_ready src ≡ usable (lookup_source src)
unfolding is_ready lookup_source usable
is_ready-usable src = elim (Option-cases (current_trie src)) [
  | inl e ↦ rw (e, is_ready, lookup_source, usable) refl
  | inr (t, e) ↦ rw (e, is_ready, lookup_source, usable) refl
]

-- What the load of the disk cache does: it puts the trie of the cache into the source and leaves the
-- files alone, or it leaves the source alone and removes the file unless there is none, or the removal
-- fails; the other files stay.
pub data Cached (path : String) (fails : Bool) (src : Source) (fs : FileSystem)
    : Result CacheError Trie → Source → FileSystem → Type 0 where
  filled : (t : Trie) → Cached path fails src fs (ok t) (swap src (some t)) fs
  cold : Cached path fails src fs (err absent) src fs
  removed :
      (e : CacheError)
      → e ≢ absent
      → fails ≡ false
      → Cached path fails src fs (err e) src (remove path fs)
  left : (e : CacheError) → e ≢ absent → fails ≡ true → Cached path fails src fs (err e) src fs

after_load-Cached :
    (path : String) (fails : Bool) (src : Source) (fs : FileSystem) (r : Result CacheError Trie)
    → let (src', fs', lines) = after_load fails path src fs r in Cached path fails src fs r src' fs'
unfolding after_load remove_unusable_cache
after_load-Cached path fails src fs (ok t) = filled t
after_load-Cached path fails src fs (err absent) = cold
after_load-Cached path true src fs (err stale) = left stale (λ h. ground arith) refl
after_load-Cached path false src fs (err stale) = removed stale (λ h. ground arith) refl
after_load-Cached path true src fs (err cannot_stat) = left _ (λ h. ground arith) refl
after_load-Cached path false src fs (err cannot_stat) = removed _ (λ h. ground arith) refl
after_load-Cached path true src fs (err (unusable e)) = left _ (λ h. ground arith) refl
after_load-Cached path false src fs (err (unusable e)) = removed _ (λ h. ground arith) refl

-- The load of the disk cache ends in one of four ways, by the answer of the load: a trie is swapped
-- into the source and no file is touched; there is no file, and nothing changes; the file is stale
-- or does not load, and it is removed; or that removal fails, and nothing changes. The source is
-- touched in the first case only.
pub load_disk_cache-Cached :
    (open_mmdb : List ℕ → Option Traversal) (stat_fails remove_fails : Bool) (now : ℕ)
    (cfg : Config) (src : Source) (fs : FileSystem)
    → let (src', fs', lines) = load_disk_cache open_mmdb stat_fails remove_fails now cfg src fs in
      Cached cfg.cache.path remove_fails src fs
        (load open_mmdb stat_fails fs cfg.cache.path cfg.cache.max_age now cfg.block.countries)
        src'
        fs'
unfolding load_disk_cache
load_disk_cache-Cached open_mmdb stat_fails remove_fails now cfg src fs =
    after_load-Cached cfg.cache.path remove_fails src fs _

module _ (parse_addr : Text → Option Addr) (redacted : Addr → Text) (s : Server) (now : ℕ)
    (r : Request) (a : Addr) where
  decided :
      (k : Lookup)
      → ltb 0 k.len ≡ true
      → is_get r ≡ true
      → extract_client_ip parse_addr r.headers ≡ some a
      → (handle_check parse_addr redacted s now (some k) r).1
        ≡ (if k.contains a then plain s.block_status else plain (pos 200))
  unfolding handle_check usable
  decided k u g x = elim (Bool-cases (k.contains a)) [ inl c ↦ ground arith | inr c ↦ ground arith ]

  pub serves :
      (t : Trie) (src : Source) (b : Bool)
      → current_trie src ≡ some t
      → usable (lookup_source src) ≡ true
      → is_get r ≡ true
      → extract_client_ip parse_addr r.headers ≡ some a
      → contains t a ≡ b
      → (handle_check parse_addr redacted s now (lookup_source src) r).1
        ≡ (if b then plain s.block_status else plain (pos 200))
  unfolding lookup_source usable
  serves t src b cur u g x c =
      let seen : lookup_source src ≡ some (lookup_of t) = rw (cur, lookup_source) refl in
      rw (seen, ← c) (decided (lookup_of t) (sym (ap usable seen) ∙ u) g x)

  -- A daemon that starts on a cache which was written without an error, with a fresh temporary name,
  -- within the age bound and from a database of well-formed networks, and that blocks some country,
  -- answers every GET of `/check` from an address that it can parse: while the list is usable, with
  -- the block status if a network of a blocked country covers the address, and with 200 if none
  -- does.
  pub cached_start :
      (open_mmdb : List ℕ → Option Traversal) (remove_fails : Bool) (started : ℕ) (cfg : Config)
      (src : Source) (w : WriteRun) (fs : FileSystem) (ns : List Network)
      → IsFresh w cfg.cache.path fs
      → (write w cfg.cache.path fs).error ≡ none
      → open_mmdb (concat_chunks w.chunks) ≡ some (record { rows = map row_of ns; complete = true })
      → sub_ℕ started w.now ≤ℤ cfg.cache.max_age
      → cfg.block.countries ≢ []
      → All IsNetwork ns
      → IsAddr a
      → is_get r ≡ true
      → extract_client_ip parse_addr r.headers ≡ some a
      → usable (
          lookup_source
            (load_disk_cache open_mmdb false remove_fails started cfg src
              (write w cfg.cache.path fs).fs).0)
        ≡ true
      → (handle_check parse_addr redacted s now
          (lookup_source
            (load_disk_cache open_mmdb false remove_fails started cfg src
              (write w cfg.cache.path fs).fs).0)
          r).1
        ≡ (if any
              (λ n. is_wanted cfg.block.countries n.country && covers (prefix_of n) (unmap a))
              ns
            then plain s.block_status
            else plain (pos 200))
  unfolding load_disk_cache after_load current_trie swap
  cached_start open_mmdb remove_fails started cfg src w fs ns fresh done opened age c wf ha g x =
      let (t, loads, found) =
        write-load open_mmdb cfg.block.countries cfg.cache.max_age started w cfg.cache.path fs ns
          fresh done opened age c wf in
      rw loads (λ u. serves t (swap src (some t)) _ refl u g x (found a ha))
