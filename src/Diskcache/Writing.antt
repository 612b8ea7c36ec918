-- ===== src/Diskcache/Writing.antt =====
-- internal/diskcache/cache.go: `Write` is atomic at the path, and leaves nothing else behind.
use text.Mathlib.Text.{◌==◌ as str_eq}
use text.Mathlib.TextEquality.{eq_iff}
use mathlib.Core.List.{append_assoc, append-nil}
use bitblocker.Base.{
  ℕ, ◌≡◌, ◌≢◌, inl, inr, refl, sym, ap, ◌∙◌, String, Bool, true, false, Option, none, some, List,
  [], ◌∷◌, ◌++◌, All, arith, Bool-cases, if◌then◌else◌,
}
use bitblocker.Diskcache.{
  File, FileSystem, put, remove, rename, bytes_at, WriteRun, Written, WriteError, copy_chunks,
  clean_up, write_temp, with_temp, write, cannot_create_dir, cannot_create_temp, cannot_write,
  cannot_sync, cannot_close, cannot_rename,
}

abbrev pub concat_chunks : List (List ℕ) → List ℕ
concat_chunks [] = []
concat_chunks (c ∷ cs) = c ++ concat_chunks cs

true-ne-false : true ≢ false
true-ne-false h = ground arith

other_name : (p q : String) → p ≢ q → str_eq p q ≡ false
other_name p q n = ground (arith, eq_iff p q)

same_name : (p : String) → str_eq p p ≡ true
same_name p = (eq_iff p p).1 refl

put-elsewhere :
    (tmp p : String) (y : File) (fs : FileSystem) (x : Option File)
    → p ≢ tmp
    → fs p ≡ x
    → put tmp y fs p ≡ x
put-elsewhere tmp p y fs x n h = rw (other_name p tmp n) h

put-here : (tmp : String) (y : File) (fs : FileSystem) → put tmp y fs tmp ≡ some y
put-here tmp y fs = rw (same_name tmp) refl

-- What the copy keeps: every name but the temporary one, in each state.
copy_chunks-elsewhere :
    (now : ℕ) (tmp p : String) (cs : List (List ℕ)) (fs : FileSystem) (x : Option File)
    → p ≢ tmp
    → fs p ≡ x
    → All (λ s. s p ≡ x) (copy_chunks now tmp cs fs).0 × ((copy_chunks now tmp cs fs).1 p ≡ x)
unfolding copy_chunks
copy_chunks-elsewhere now tmp p [] fs x n h = (tt, h)
copy_chunks-elsewhere now tmp p (c ∷ cs) fs x n h =
    let kept =
      put-elsewhere tmp p (record { bytes = bytes_at tmp fs ++ c; modified = now }) fs x n h in
    let rest = copy_chunks-elsewhere now tmp p cs _ x n kept in ((kept, rest.0), rest.1)

copy_chunks-here :
    (now : ℕ) (tmp : String) (cs : List (List ℕ)) (fs : FileSystem) (b : List ℕ)
    → fs tmp ≡ some (record { bytes = b; modified = now })
    → (copy_chunks now tmp cs fs).1 tmp
      ≡ some (record { bytes = b ++ concat_chunks cs; modified = now })
unfolding copy_chunks
copy_chunks-here now tmp [] fs b h =
    h ∙ ap (λ (bs : List ℕ). some (record { bytes = bs; modified = now })) (sym (append-nil b))
copy_chunks-here now tmp (c ∷ cs) fs b h =
    copy_chunks-here now tmp cs _ (bytes_at tmp fs ++ c) (put-here tmp _ fs)
    ∙ ap (λ (bs : List ℕ). some (record { bytes = bs; modified = now }))
        (ap (λ (bs : List ℕ). (bs ++ c) ++ concat_chunks cs) (rw (h, bytes_at) refl)
          ∙ append_assoc b c (concat_chunks cs))

-- What a write may leave at the path: the file that was there, or the whole new one.
abbrev pub Left : WriteRun → Option File → Option File → Option WriteError → Type 0
Left r before after none =
    after ≡ some (record { bytes = concat_chunks r.chunks; modified = r.now })
Left r before after (some e) = after ≡ before

-- A write that never shows a partial file at the path.
pub record IsAtomic (r : WriteRun) (path : String) (fs : FileSystem) (w : Written) : Type 0 where
  pub states : All (λ s. s path ≡ fs path) w.passed
  pub left : Left r (fs path) (w.fs path) w.error
  pub tidy : r.remove_fails ≡ false → (p : String) → p ≢ path → w.fs p ≡ fs p

if-both {κ} : (P : Written → Type κ) (b : Bool) (x y : Written) → P x → P y → P (if b then x else y)
if-both P true x y h k = h
if-both P false x y h k = k

module _ (r : WriteRun) (path tmp : String) (fs : FileSystem) (fresh : path ≢ tmp)
    (unused : fs tmp ≡ none) where
  abbrev created : FileSystem
  created = put tmp (record { bytes = []; modified = r.now }) fs

  abbrev full : FileSystem
  full = (copy_chunks r.now tmp r.chunks created).1

  during :
      All (λ s. s path ≡ fs path) (copy_chunks r.now tmp r.chunks created).0 × (full path ≡ fs path)
  during =
      copy_chunks-elsewhere r.now tmp path r.chunks created (fs path) fresh
        (put-elsewhere tmp path _ fs (fs path) fresh refl)

  clean_up-keeps :
      (passed : List FileSystem) (e : WriteError) (x : Option File)
      → full path ≡ x
      → (clean_up r tmp passed full e).fs path ≡ x
  unfolding clean_up
  clean_up-keeps passed e x h = elim (Bool-cases r.remove_fails) [
    | inl b ↦ rw b h
    | inr b ↦ rw (b, other_name path tmp fresh) h
  ]

  renamed :
      rename tmp path full path ≡ some (record { bytes = concat_chunks r.chunks; modified = r.now })
  renamed = rw (same_name path) (copy_chunks-here r.now tmp r.chunks created [] (put-here tmp _ fs))

  passed_by : List FileSystem
  passed_by = fs ∷ created ∷ (copy_chunks r.now tmp r.chunks created).0

  passed-keep : All (λ s. s path ≡ fs path) passed_by
  unfolding passed_by
  passed-keep = (refl, (put-elsewhere tmp path _ fs (fs path) fresh refl, during.0))

  full-elsewhere : (p : String) → p ≢ tmp → full p ≡ fs p
  full-elsewhere p n =
      (copy_chunks-elsewhere r.now tmp p r.chunks created (fs p) n
        (put-elsewhere tmp p _ fs (fs p) n refl)).1

  removed : (p : String) → remove tmp full p ≡ fs p
  removed p = elim (Bool-cases (str_eq p tmp)) [
    | inl e ↦ rw e (sym (ap fs ((eq_iff p tmp).0 e) ∙ unused))
    | inr e ↦ rw e (full-elsewhere p (λ q. true-ne-false (sym ((eq_iff p tmp).1 q) ∙ e)))
  ]

  renamed-elsewhere : (p : String) → p ≢ path → rename tmp path full p ≡ fs p
  renamed-elsewhere p n = rw (other_name p path n) (removed p)

  clean_up-IsAtomic : (e : WriteError) → IsAtomic r path fs (clean_up r tmp passed_by full e)
  unfolding clean_up
  clean_up-IsAtomic e = record {
    states = passed-keep;
    left = clean_up-keeps passed_by e (fs path) during.1;
    tidy = λ gone p n. rw gone (removed p);
  }

  write_temp-IsAtomic : IsAtomic r path fs (write_temp r path tmp fs)
  unfolding write_temp passed_by
  write_temp-IsAtomic =
      let P = IsAtomic r path fs in
      if-both P r.copied _ _
        (if-both P r.sync_fails _ _ (clean_up-IsAtomic cannot_sync) (
          if-both P r.close_fails _ _ (clean_up-IsAtomic cannot_close) (
            if-both P r.rename_fails _ _ (clean_up-IsAtomic cannot_rename)
              (record { states = passed-keep; left = renamed; tidy = λ gone. renamed-elsewhere }))))
        (clean_up-IsAtomic cannot_write)

-- What `os.CreateTemp` ensures of the name it makes: no file has it, and it is not the path.
abbrev pub IsFresh : WriteRun → String → FileSystem → Type 0
IsFresh r path fs = (tmp : String) → r.temp_name ≡ some tmp → (path ≢ tmp) × (fs tmp ≡ none)

not_begun :
    (r : WriteRun) (path : String) (fs : FileSystem) (e : WriteError)
    → IsAtomic r path fs (record { passed = fs ∷ []; fs = fs; error = some e })
not_begun r path fs e = record { states = (refl, tt); left = refl; tidy = λ gone p n. refl }

with_temp-IsAtomic :
    (r : WriteRun) (path : String) (fs : FileSystem) (o : Option String)
    → ((tmp : String) → o ≡ some tmp → (path ≢ tmp) × (fs tmp ≡ none))
    → IsAtomic r path fs (with_temp r path fs o)
unfolding with_temp
with_temp-IsAtomic r path fs none fresh = not_begun r path fs cannot_create_temp
with_temp-IsAtomic r path fs (some tmp) fresh =
    write_temp-IsAtomic r path tmp fs (fresh tmp refl).0 (fresh tmp refl).1

-- With a fresh temporary name, whatever call fails and wherever a crash stops it, a write leaves the
-- path as it was in every state that it passes through. When it ends without an error the path holds
-- all the bytes, and when it ends with one the path is as it was; every other name is as it was, too,
-- unless the removal of the temporary file fails.
pub write-IsAtomic :
    (r : WriteRun) (path : String) (fs : FileSystem)
    → IsFresh r path fs
    → IsAtomic r path fs (write r path fs)
unfolding write
write-IsAtomic r path fs fresh =
    if-both (IsAtomic r path fs) r.mkdir_fails _ _ (not_begun r path fs cannot_create_dir)
      (with_temp-IsAtomic r path fs r.temp_name fresh)
