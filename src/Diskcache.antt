-- ===== src/Diskcache.antt =====
-- internal/diskcache/cache.go. The file system maps a path to the bytes and the modification time of
-- the file there; each call of the operating system that can fail has a flag that says whether it does.
pub mod Writing
pub mod Reading
mod Examples
use text.Mathlib.Text.{◌==◌ as str_eq}
use bitblocker.Base.{
  ℕ, String, Bool, true, false, Option, none, some, List, [], ◌∷◌, ◌++◌, if◌then◌else◌,
}
use bitblocker.Base.Int.{ℤ, pos, ltb_ℤ, sub_ℕ}
use bitblocker.Base.Result.{Result, ok, err}
use bitblocker.Blocklist.Trie.{Trie}
use bitblocker.Mmdb.{Traversal, LoadError, load_country_blocklist}

pub record File : Type 0 where
  pub bytes : List ℕ
  pub modified : ℕ

abbrev pub FileSystem : Type 0
FileSystem = String → Option File

abbrev pub put : String → File → FileSystem → FileSystem
put path x fs = λ p. if str_eq p path then some x else fs p

abbrev pub remove : String → FileSystem → FileSystem
remove path fs = λ p. if str_eq p path then none else fs p

-- `os.Rename` of an existing file, which takes the place of what was there.
abbrev pub rename : String → String → FileSystem → FileSystem
rename old to fs = λ p. if str_eq p to then fs old else if str_eq p old then none else fs p

abbrev pub bytes_at : String → FileSystem → List ℕ
bytes_at path fs = elim (fs path) [ none ↦ [] | some x ↦ x.bytes ]

-- What the calls of one `Write` meet: the name that `os.CreateTemp` makes, if it makes one, the
-- chunks that `io.Copy` moves before it ends and whether it ends well, and the calls that fail.
pub record WriteRun : Type 0 where
  pub now : ℕ
  pub mkdir_fails : Bool
  pub temp_name : Option String
  pub chunks : List (List ℕ)
  pub copied : Bool
  pub sync_fails : Bool
  pub close_fails : Bool
  pub rename_fails : Bool
  pub remove_fails : Bool

pub data WriteError : Type 0 where
  cannot_create_dir cannot_create_temp cannot_write cannot_sync cannot_close cannot_rename :
      WriteError

-- What a `Write` leaves: the states of the file system that it went through, the last one, and its error.
pub record Written : Type 0 where
  pub passed : List FileSystem
  pub fs : FileSystem
  pub error : Option WriteError

-- `io.Copy` into the temporary file, one chunk at a time.
unfoldable pub copy_chunks : ℕ → String → List (List ℕ) → FileSystem → List FileSystem × FileSystem
copy_chunks now tmp [] fs = ([], fs)
copy_chunks now tmp (c ∷ cs) fs =
    let fs' = put tmp (record { bytes = bytes_at tmp fs ++ c; modified = now }) fs in
    let (passed, last) = copy_chunks now tmp cs fs' in (fs' ∷ passed, last)

-- The deferred clean-up after an error.
unfoldable pub clean_up : WriteRun → String → List FileSystem → FileSystem → WriteError → Written
clean_up r tmp passed fs e = record {
  passed = passed;
  fs = if r.remove_fails then fs else remove tmp fs;
  error = some e;
}

-- `Write` from the creation of the temporary file on. `Sync` can fail, and is without an effect else: a
-- file system here forgets nothing.
unfoldable pub write_temp : WriteRun → String → String → FileSystem → Written
unfolding copy_chunks clean_up
write_temp r path tmp fs =
    let created = put tmp (record { bytes = []; modified = r.now }) fs in
    let (copying, full) = copy_chunks r.now tmp r.chunks created in
    let passed = fs ∷ created ∷ copying in
    if r.copied
    then if r.sync_fails
      then clean_up r tmp passed full cannot_sync
      else if r.close_fails
      then clean_up r tmp passed full cannot_close
      else if r.rename_fails
      then clean_up r tmp passed full cannot_rename
      else record { passed = passed; fs = rename tmp path full; error = none }
    else clean_up r tmp passed full cannot_write

-- `Write` from the result of `os.CreateTemp` on.
unfoldable pub with_temp : WriteRun → String → FileSystem → Option String → Written
unfolding write_temp
with_temp r path fs none = record { passed = fs ∷ []; fs = fs; error = some cannot_create_temp }
with_temp r path fs (some tmp) = write_temp r path tmp fs

-- `Write`.
unfoldable pub write : WriteRun → String → FileSystem → Written
unfolding with_temp
write r path fs =
    if r.mkdir_fails
    then record { passed = fs ∷ []; fs = fs; error = some cannot_create_dir }
    else with_temp r path fs r.temp_name

pub data CacheError : Type 0 where
  absent stale cannot_stat : CacheError
  unusable : LoadError → CacheError

abbrev pub wrap : Result LoadError Trie → Result CacheError Trie
wrap (ok t) = ok t
wrap (err e) = err (unusable e)

-- `Load` of a file that is there: the database reader is the parameter `open_mmdb`.
unfoldable pub load_file :
    (List ℕ → Option Traversal) → File → ℤ → ℕ → List String → Result CacheError Trie
load_file open_mmdb x max_age now countries =
    if ltb_ℤ max_age (sub_ℕ now x.modified)
    then err stale
    else wrap (load_country_blocklist (open_mmdb x.bytes) countries)

-- `Load`; the flag says whether `os.Stat` fails in another way than by finding no file.
unfoldable pub load :
    (List ℕ → Option Traversal)
    → Bool
    → FileSystem
    → String
    → ℤ
    → ℕ
    → List String
    → Result CacheError Trie
unfolding load_file
load open_mmdb stat_fails fs path max_age now countries =
    if stat_fails
    then err cannot_stat
    else elim (fs path) [ none ↦ err absent | some x ↦ load_file open_mmdb x max_age now countries ]
