-- ===== src/Logging/Redaction.antt =====
-- internal/logging/logging.go: what `Redact` shows of a text.
use bitblocker.Base.{
  ℕ, ◌<◌, ◌≡◌, ◌≢◌, ◌↔◌, refl, sym, ap, ◌∙◌, ◌*◌, ◌/◌, ◌%◌, List, [], ◌∷◌, ◌++◌, length,
  length-append, drop, ◌≤◌, All, arith,
}
use bitblocker.Logging.{hex_digit, hex, first_four, opening, redact}

hex_digit-inj : (a b : ℕ) → a < 16 → b < 16 → hex_digit a ≡ hex_digit b → a ≡ b
hex_digit-inj a b ha hb h = ground arith

byte-inj :
    (a b : ℕ)
    → a < 256
    → b < 256
    → hex_digit (a / 16) ≡ hex_digit (b / 16)
    → hex_digit (a % 16) ≡ hex_digit (b % 16)
    → a ≡ b
byte-inj a b ha hb h l =
    let high : a / 16 ≡ b / 16 = hex_digit-inj (a / 16) (b / 16) (omega arith) (omega arith) h in
    let low : a % 16 ≡ b % 16 = hex_digit-inj (a % 16) (b % 16) (omega arith) (omega arith) l in
    omega arith

hex-inj :
    (xs ys : List ℕ) (z : List ℕ)
    → length xs ≡ length ys
    → All (λ b. b < 256) xs
    → All (λ b. b < 256) ys
    → (hex xs ++ z) ≡ (hex ys ++ z)
    → xs ≡ ys
unfolding hex
hex-inj [] [] z l hx hy h = refl
hex-inj [] (y ∷ ys) z l hx hy h = ground arith
hex-inj (x ∷ xs) [] z l hx hy h = ground arith
hex-inj (x ∷ xs) (y ∷ ys) z l hx hy h =
    let high : hex_digit (x / 16) ≡ hex_digit (y / 16) = cc in
    let low : hex_digit (x % 16) ≡ hex_digit (y % 16) = cc in
    let rest : (hex xs ++ z) ≡ (hex ys ++ z) = cc in
    let below : length xs ≡ length ys = omega arith in
    let tail = hex-inj xs ys z below hx.1 hy.1 rest in
    let head = byte-inj x y hx.0 hy.0 high low in ap (λ b. b ∷ xs) head ∙ ap (λ bs. y ∷ bs) tail

All-first_four {κ} : (P : ℕ → Type κ) (xs : List ℕ) → All P xs → All P (first_four xs)
All-first_four P [] h = h
All-first_four P (a ∷ []) h = h
All-first_four P (a ∷ b ∷ []) h = h
All-first_four P (a ∷ b ∷ c ∷ []) h = h
All-first_four P (a ∷ b ∷ c ∷ d ∷ xs) h = (h.0, (h.1.0, (h.1.1.0, (h.1.1.1.0, tt))))

length-first_four : (xs : List ℕ) → 4 ≤ length xs → length (first_four xs) ≡ 4
length-first_four [] h = absurd (omega arith)
length-first_four (a ∷ []) h = absurd (omega arith)
length-first_four (a ∷ b ∷ []) h = absurd (omega arith)
length-first_four (a ∷ b ∷ c ∷ []) h = absurd (omega arith)
length-first_four (a ∷ b ∷ c ∷ d ∷ xs) h = refl

length-hex : (xs : List ℕ) → length (hex xs) ≡ 2 * length xs
unfolding hex
length-hex [] = refl
length-hex (x ∷ xs) = omega (arith, length-hex xs)

module _ (sha256 : List ℕ → List ℕ) (bytes : (s : List ℕ) → All (λ b. b < 256) (sha256 s))
    (size : (s : List ℕ) → length (sha256 s) ≡ 32) where
  shown : List ℕ → List ℕ
  shown s = opening ++ (hex (first_four (sha256 s)) ++ 93 ∷ [])

  redact-shown : (s : List ℕ) → s ≢ [] → redact sha256 s ≡ shown s
  unfolding redact shown
  redact-shown [] h = absurd (h refl)
  redact-shown (c ∷ s) h = refl

  short : (s : List ℕ) → length (first_four (sha256 s)) ≡ 4
  short s = length-first_four (sha256 s) (omega (arith, size s))

  length-shown : (s : List ℕ) → length (shown s) ≡ 19
  unfolding shown
  length-shown s = omega (
    arith,
    short s,
    length-hex (first_four (sha256 s)),
    length-append (hex (first_four (sha256 s))) (93 ∷ []),
  )

  shown-inj : (s t : List ℕ) → shown s ≡ shown t → first_four (sha256 s) ≡ first_four (sha256 t)
  unfolding shown
  shown-inj s t h =
      hex-inj (first_four (sha256 s)) (first_four (sha256 t)) (93 ∷ []) (short s ∙ sym (short t))
        (All-first_four (λ b. b < 256) (sha256 s) (bytes s))
        (All-first_four (λ b. b < 256) (sha256 t) (bytes t)) (ap (drop 10) h)

  -- With a hash of 32 bytes, `Redact` shows 19 characters of a text that is not empty, and two such
  -- texts give the same ones exactly when the first four bytes of their hashes are the same; the
  -- empty text stays empty.
  pub redact_tells :
      (s t : List ℕ)
      → s ≢ []
      → t ≢ []
      → (redact sha256 [] ≡ [])
        × (length (redact sha256 s) ≡ 19)
        × ((redact sha256 s ≡ redact sha256 t) ↔ (first_four (sha256 s) ≡ first_four (sha256 t)))
  unfolding redact shown
  redact_tells s t hs ht = (
    refl,
    ap length (redact-shown s hs) ∙ length-shown s,
    (
      λ h. shown-inj s t (sym (redact-shown s hs) ∙ h ∙ redact-shown t ht),
      λ h.
          redact-shown s hs
          ∙ ap (λ (b : List ℕ). opening ++ (hex b ++ 93 ∷ [])) h
          ∙ sym (redact-shown t ht),
    ),
  )
