-- ===== src/Fetcher/Outcomes.antt =====
-- internal/fetcher/fetcher.go: what a `Refresh` changes, by its outcome.
use mathlib.Core.List.{append-nil}
use bitblocker.Base.{
  ℕ, ◌≡◌, ◌≢◌, inl, inr, refl, sym, ap, subst, ◌∙◌, String, true, Option, none, some, List, arith,
  Bool-cases, Option-cases,
}
use bitblocker.Base.Result.{Result, ok, err}
use bitblocker.Blocklist.Trie.{Trie}
use bitblocker.Blocklist.Source.{Source, swap, current_trie}
use bitblocker.Mmdb.{Traversal, LoadError, load_country_blocklist}
use bitblocker.Diskcache.{FileSystem, WriteRun, WriteError, write, with_temp, write_temp, clean_up}
use bitblocker.Diskcache.Writing.{IsFresh, Left, write-IsAtomic}
use bitblocker.Fetcher.Calendar.{Date}
use bitblocker.Fetcher.Download.{
  Client, Fetcher, Validators, FetchError, Fetched, downloaded, unchanged, fetch, not_loaded,
  no_validators,
}
use bitblocker.Fetcher.Refresh.{
  Outcome, outcome_updated, outcome_unchanged, State, publish, load_written, with_bytes,
  use_fetched, refresh,
}

module _ (client : Client) (open_mmdb : List ℕ → Option Traversal) (now : Date) (run : WriteRun)
    (s : State) where
  abbrev path : String
  path = s.fetcher.cache_path

  -- What a refresh leaves: after an error, the fetcher and the source as they were, and the cache, too,
  -- unless it is the new file that does not load; without a change, everything as it was; after an
  -- update, the downloaded file in the cache, its trie in the source and its validators in the fetcher.
  pub data Refreshed : State → Result FetchError Outcome → Type 0 where
    failed :
        (t : State) (e : FetchError)
        → t.fetcher ≡ s.fetcher
        → t.source ≡ s.source
        → (((x : LoadError) → e ≢ not_loaded x) → t.fs path ≡ s.fs path)
        → Refreshed t (err e)
    kept : Refreshed s (ok outcome_unchanged)
    replaced :
        (t : State) (bytes : List ℕ) (v : Validators) (trie : Trie)
        → (fetch client now s.fetcher).0 ≡ ok (downloaded bytes v)
        → t.fs path ≡ some (record { bytes = bytes; modified = run.now })
        → load_country_blocklist (open_mmdb bytes) s.fetcher.countries ≡ ok trie
        → current_trie t.source ≡ some trie
        → t.fetcher ≡ record (s.fetcher) { validators = v }
        → Refreshed t (ok outcome_updated)

  swapped : (x : Source) (t : Trie) → current_trie (swap x (some t)) ≡ some t
  unfolding current_trie swap
  swapped x t = refl

  write-copied :
      (r : WriteRun) (p : String) (fs : FileSystem) → (write r p fs).error ≡ none → r.copied ≡ true
  unfolding write with_temp write_temp clean_up
  write-copied r p fs h = elim (Bool-cases r.copied) [
    | inl c ↦ c
    | inr c ↦ elim (Option-cases r.temp_name) [ inl n ↦ ground arith | inr (t, n) ↦ ground arith ]
  ]

  publish-Refreshed :
      (fs : FileSystem) (bytes : List ℕ) (v : Validators) (x : Result LoadError Trie)
      → (fetch client now s.fetcher).0 ≡ ok (downloaded bytes v)
      → fs path ≡ some (record { bytes = bytes; modified = run.now })
      → load_country_blocklist (open_mmdb bytes) s.fetcher.countries ≡ x
      → let (t, o) = publish (record s { fs = fs }) v x in Refreshed t o
  unfolding publish
  publish-Refreshed fs bytes v (ok t) f e l = replaced _ bytes v t f e l (swapped s.source t) refl
  publish-Refreshed fs bytes v (err b) f e l = failed _ _ refl refl (λ n. absurd (n b refl))

  written_bytes :
      (fs : FileSystem) (w : Option WriteError) (bytes : List ℕ)
      → Left (with_bytes bytes run) (s.fs path) (fs path) w
      → w ≡ none
      → run.copied ≡ true
      → fs path ≡ some (record { bytes = bytes; modified = run.now })
  written_bytes fs (some e) bytes l n c = ground arith
  written_bytes fs none bytes l n c =
      l
      ∙ ap (λ (b : List ℕ). some (record { bytes = b; modified = run.now }))
          (rw c (append-nil bytes))

  load_written-Refreshed :
      (fs : FileSystem) (w : Option WriteError) (bytes : List ℕ) (v : Validators)
      → (fetch client now s.fetcher).0 ≡ ok (downloaded bytes v)
      → Left (with_bytes bytes run) (s.fs path) (fs path) w
      → (w ≡ none → run.copied ≡ true)
      → let (t, o) = load_written open_mmdb (record s { fs = fs }) v w in Refreshed t o
  unfolding load_written load_country_blocklist
  load_written-Refreshed fs (some e) bytes v f l c = failed _ _ refl refl (λ n. l)
  load_written-Refreshed fs none bytes v f l c =
      let here = written_bytes fs none bytes l refl (c refl) in
      publish-Refreshed fs bytes v _ f here (rw here refl)

  use_fetched-Refreshed :
      (x : Result FetchError Fetched)
      → IsFresh run path s.fs
      → (fetch client now s.fetcher).0 ≡ x
      → let (t, o) = use_fetched open_mmdb run s x in Refreshed t o
  unfolding use_fetched
  use_fetched-Refreshed (err e) fresh f = failed _ _ refl refl (λ n. refl)
  use_fetched-Refreshed (ok (unchanged v)) fresh f = kept
  use_fetched-Refreshed (ok (downloaded bytes v)) fresh f =
      let r = with_bytes bytes run in
      load_written-Refreshed ((write r path s.fs).fs) ((write r path s.fs).error) bytes v f
        (write-IsAtomic r path s.fs fresh).left (write-copied r path s.fs)

  load_written-publish :
      (fs : FileSystem) (w : Option WriteError) (bytes : List ℕ) (v : Validators)
      → fs path ≡ some (record { bytes = bytes; modified = run.now })
      → w ≡ none
      → load_written open_mmdb (record s { fs = fs }) v w
        ≡ publish
            (record s { fs = fs })
            v
            (load_country_blocklist (open_mmdb bytes) s.fetcher.countries)
  unfolding load_written load_country_blocklist
  load_written-publish fs (some e) bytes v h n = ground arith
  load_written-publish fs none bytes v h n = rw h refl

  use_fetched-publish :
      (bytes : List ℕ) (v : Validators)
      → IsFresh run path s.fs
      → (write (with_bytes bytes run) path s.fs).error ≡ none
      → use_fetched open_mmdb run s (ok (downloaded bytes v))
        ≡ publish
            (record s { fs = (write (with_bytes bytes run) path s.fs).fs })
            v
            (load_country_blocklist (open_mmdb bytes) s.fetcher.countries)
  unfolding use_fetched
  use_fetched-publish bytes v fresh done =
      let r = with_bytes bytes run in
      load_written-publish (write r path s.fs).fs _ bytes v
        (written_bytes (write r path s.fs).fs _ bytes (write-IsAtomic r path s.fs fresh).left done
          (write-copied r path s.fs done))
        done

  -- A download that is written without an error goes on to the load of its bytes.
  pub refresh-publish :
      (bytes : List ℕ) (v : Validators)
      → IsFresh run path s.fs
      → (fetch client now s.fetcher).0 ≡ ok (downloaded bytes v)
      → (write (with_bytes bytes run) path s.fs).error ≡ none
      → refresh client open_mmdb now run s
        ≡ publish
            (record s { fs = (write (with_bytes bytes run) path s.fs).fs })
            v
            (load_country_blocklist (open_mmdb bytes) s.fetcher.countries)
  unfolding refresh
  refresh-publish bytes v fresh f done =
      ap (use_fetched open_mmdb run s) f ∙ use_fetched-publish bytes v fresh done

  -- Every refresh, with a fresh name for its temporary file, ends in one of three ways. After an
  -- error the fetcher and the source are as they were, and so is the file at the cache path, unless
  -- the error is that the new file does not load. When the source is unchanged, nothing changes.
  -- After an update the cache path holds the downloaded bytes, the source holds the trie that they
  -- load to, and the fetcher holds the validators of the download.
  pub refresh-Refreshed :
      IsFresh run path s.fs → let (t, o) = refresh client open_mmdb now run s in Refreshed t o
  unfolding refresh
  refresh-Refreshed fresh = use_fetched-Refreshed (fetch client now s.fetcher).0 fresh refl

some-ne-none : (t : Trie) → some t ≢ none
some-ne-none t h = ground arith

-- The validators that a fetcher holds belong to a list that the server has.
abbrev pub IsBacked : State → Type 0
IsBacked s = (s.fetcher.validators ≢ no_validators) → current_trie s.source ≢ none

-- A refresh keeps the validators backed by a list: with a fresh temporary name, where a fetcher that
-- holds validators has a list before a refresh, one that holds them has a list after it, so its
-- requests are conditional only while a list is loaded.
pub refresh-IsBacked :
    (client : Client) (open_mmdb : List ℕ → Option Traversal) (now : Date) (run : WriteRun)
    (s : State)
    → IsFresh run s.fetcher.cache_path s.fs
    → IsBacked s
    → IsBacked (refresh client open_mmdb now run s).0
refresh-IsBacked client open_mmdb now run s fresh b =
    backed (refresh client open_mmdb now run s).0 (refresh client open_mmdb now run s).1
      (refresh-Refreshed client open_mmdb now run s fresh)
  where
    backed :
        (t : State) (o : Result FetchError Outcome)
        → Refreshed client open_mmdb now run s t o
        → IsBacked t
    backed _ _ (failed t e f g h) = λ v.
        subst (λ (x : Source). current_trie x ≢ none) (sym g)
          (b (subst (λ (x : Fetcher). x.validators ≢ no_validators) f v))
    backed _ _ kept = b
    backed _ _ (replaced t bytes v trie f g l c d) = λ w n. some-ne-none trie (sym c ∙ n)
