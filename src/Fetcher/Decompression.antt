-- ===== src/Fetcher/Decompression.antt =====
-- internal/fetcher/fetcher.go: the bound on what `decompress` returns.
use bitblocker.Base.{
  ℕ, ◌≤◌, ◌≡◌, ◌↔◌, ◌⊎◌, inl, inr, refl, ◌∙◌, true, Option, none, some, List, [], ◌∷◌, ◌==◌, length,
  arith, Bool-cases,
}
use bitblocker.Base.Result.{Result, ok, err}
use bitblocker.Fetcher.Download.{
  Stream, FetchError, decompress, max_decompressed_bytes, Client, Fetcher, Response, Reply,
  response, Got, fresh, not_modified, classify, get, replied, request_for, unpacked, Validators,
  Request, not_found, downloaded, after_current, fetch, bad_url, no_response,
}
use bitblocker.Fetcher.Calendar.{Date, days_back, format_month}

-- A body whose stream ends well within the cap.
pub data Unpacks (b : Option Stream) (bytes : List ℕ) : Type 0 where
  unpacks :
      (s : Stream)
      → b ≡ some s
      → s.bytes ≡ bytes
      → s.intact ≡ true
      → length bytes ≤ max_decompressed_bytes
      → Unpacks b bytes

decompress_iff : (b : Option Stream) (bytes : List ℕ) → (decompress b ≡ ok bytes) ↔ Unpacks b bytes
unfolding decompress
decompress_iff none bytes = (λ h. ground arith, elim [ unpacks s e f g h ↦ ground arith ])
decompress_iff (some s) bytes = (
  λ h. unpacks s refl (ground arith) (ground arith) (ground arith),
  elim [ unpacks t e f g h ↦ ground arith ],
)

-- A response from which the bytes and the validators of a download come.
pub data Delivers (c : Client) (r : Request) (bytes : List ℕ) (v : Validators) : Type 0 where
  delivers :
      (p : Response)
      → c r ≡ response p
      → p.status ≡ 200
      → Unpacks p.body bytes
      → v ≡ record { etag = p.etag; last_modified = p.last_modified }
      → Delivers c r bytes v

unpacked-fresh :
    (r : Response) (x : Result FetchError (List ℕ)) (bytes : List ℕ) (v : Validators)
    → unpacked r x ≡ ok (fresh bytes v)
    → (x ≡ ok bytes) × (v ≡ record { etag = r.etag; last_modified = r.last_modified })
unpacked-fresh r (err e) bytes v h = ground arith
unpacked-fresh r (ok b) bytes v h = (ground arith, ground arith)

classify-fresh :
    (w : Validators) (r : Response) (bytes : List ℕ) (v : Validators)
    → classify w r ≡ ok (fresh bytes v)
    → (r.status ≡ 200)
      × Unpacks r.body bytes
      × (v ≡ record { etag = r.etag; last_modified = r.last_modified })
unfolding classify
classify-fresh w r bytes v h = elim (Bool-cases (r.status == 200)) [
  | inl e ↦
      let (d, f) = unpacked-fresh r (decompress r.body) bytes v (rw (e, classify) at h) in
      (ground arith, (decompress_iff r.body bytes).0 d, f)
  | inr e ↦ ground arith
]

get-fresh :
    (c : Client) (f : Fetcher) (m : List ℕ) (bytes : List ℕ) (v : Validators)
    → get c f m ≡ ok (fresh bytes v)
    → Delivers c (request_for f m) bytes v
unfolding get replied
get-fresh c f m bytes v h = from (c (request_for f m)) refl h
  where
    from :
        (r : Reply)
        → c (request_for f m) ≡ r
        → replied f.validators r ≡ ok (fresh bytes v)
        → Delivers c (request_for f m) bytes v
    from bad_url e h = ground arith
    from no_response e h = ground arith
    from (response r) e h =
        let (s, u, w) = classify-fresh f.validators r bytes v h in delivers r e s u w

-- What a fetch downloads comes from a 200 response for one of its two months: all the bytes of a gzip
-- stream that ends well, at most 512 MiB of them, and the validators of that response.
pub fetch_downloads :
    (c : Client) (now : Date) (f : Fetcher) (bytes : List ℕ) (v : Validators)
    → (fetch c now f).0 ≡ ok (downloaded bytes v)
    → Delivers c (request_for f (format_month now)) bytes v
      ⊎ Delivers c (request_for f (format_month (days_back now.day now))) bytes v
unfolding fetch
fetch_downloads c now f bytes v h =
    let current = format_month now in
    let prior = format_month (days_back now.day now) in
    from (get c f current) (get c f prior) refl refl h
  where
    from :
        (x y : Result FetchError Got)
        → get c f (format_month now) ≡ x
        → get c f (format_month (days_back now.day now)) ≡ y
        → (after_current
            (request_for f (format_month now) ∷ [])
            (request_for f (format_month now)
              ∷ request_for f (format_month (days_back now.day now))
              ∷ [])
            x
            y).0
          ≡ ok (downloaded bytes v)
        → Delivers c (request_for f (format_month now)) bytes v
          ⊎ Delivers c (request_for f (format_month (days_back now.day now))) bytes v
    from (err e) y p q h = ground arith
    from (ok (not_modified w)) y p q h = ground arith
    from (ok (fresh b w)) y p q h =
        inl (get-fresh c f (format_month now) bytes v (p ∙ ground arith))
    from (ok not_found) (err e) p q h = ground arith
    from (ok not_found) (ok not_found) p q h = ground arith
    from (ok not_found) (ok (not_modified w)) p q h = ground arith
    from (ok not_found) (ok (fresh b w)) p q h =
        inr (get-fresh c f (format_month (days_back now.day now)) bytes v (q ∙ ground arith))
