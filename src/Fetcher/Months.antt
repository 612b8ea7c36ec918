-- ===== src/Fetcher/Months.antt =====
-- internal/fetcher/fetcher.go: which months `fetch` asks for, and when.
use bitblocker.Base.{ℕ, ◌≡◌, ◌≢◌, ◌↔◌, ◌⊎◌, List, [], ◌∷◌}
use bitblocker.Base.Result.{Result, ok, err}
use bitblocker.Fetcher.Calendar.{Date}
use bitblocker.Fetcher.Download.{Client, Fetcher, not_published, not_found, request_for, get, fetch}

-- What a fetch asks for and reports, where the two months are spelled so.
abbrev pub AsksFor : Client → Date → Fetcher → (current prior : List ℕ) → Type 0
AsksFor c now f current prior =
    (((get c f current ≡ ok not_found)
        × ((fetch c now f).1 ≡ request_for f current ∷ request_for f prior ∷ []))
      ⊎ ((get c f current ≢ ok not_found) × ((fetch c now f).1 ≡ request_for f current ∷ [])))
    × (((fetch c now f).0 ≡ err not_published)
        ↔ ((get c f current ≡ ok not_found) × (get c f prior ≡ ok not_found)))
