-- ===== src/Server/ClientIp/Rightmost.antt =====
-- Which entry of which header the client address comes from.
use bitblocker.Base.{
  ℕ, zero, suc, ◌≡◌, ◌↔◌, refl, sym, ap, ◌∙◌, Option, none, some, List, [], ◌∷◌, ◌++◌, length,
  get_or, All, ◌==◌, arith, Bool-cases, inl, inr,
}
use bitblocker.Netip.{Addr}
use bitblocker.Server.ClientIp.{
  Text, comma, onto_first, split_comma, trim_space, Headers, or_else, entry, scan_back,
  rightmost_xff, from_xff, extract_client_ip,
}

split_comma_cons : (v : Text) → (p : Text) × (ps : List Text) × (split_comma v ≡ p ∷ ps)
unfolding split_comma
split_comma_cons [] = ([], [], refl)
split_comma_cons (c ∷ cs) =
    let (p, ps, e) = split_comma_cons cs in
    elim (Bool-cases (c == comma)) [
      | inl here ↦ ([], split_comma cs, rw here)
      | inr past ↦ (c ∷ p, ps, rw (past, e))
    ]

onto_first-append :
    (c : ℕ) (p : Text) (ps qs : List Text)
    → onto_first c ((p ∷ ps) ++ qs) ≡ onto_first c (p ∷ ps) ++ qs
onto_first-append c p ps qs = refl

-- Splitting at commas distributes over a comma.
split_comma-append : (u v : Text) → split_comma (u ++ comma ∷ v) ≡ split_comma u ++ split_comma v
unfolding split_comma
split_comma-append [] v = refl
split_comma-append (c ∷ u) v =
    let (p, ps, e) = split_comma_cons u in ground (arith, e, split_comma-append u v)

or_else-none {ℓ} : {A : Type ℓ} (x : Option A) → or_else x none ≡ x
or_else-none none = refl
or_else-none (some a) = refl

or_else_assoc {ℓ} :
    {A : Type ℓ} (x y z : Option A) → or_else (or_else x y) z ≡ or_else x (or_else y z)
or_else_assoc none y z = refl
or_else_assoc (some a) y z = refl

left_wins {ℓ} : {A : Type ℓ} (x y : Option A) (a : A) → x ≡ some a → or_else x y ≡ x
left_wins none y a h = cc
left_wins (some b) y a h = refl

or_else-eq-none_iff {ℓ} :
    {A : Type ℓ} (x y : Option A) → (or_else x y ≡ none) ↔ (x ≡ none) × (y ≡ none)
or_else-eq-none_iff none y = (λ h. (refl, h), λ h. h.1)
or_else-eq-none_iff (some a) y = (λ h. cc, λ h. cc)

module _ (parse_addr : Text → Option Addr) where
  last_entry : List Text → Option Addr
  last_entry [] = none
  last_entry (p ∷ ps) = or_else (last_entry ps) (entry parse_addr p)

  scan_back-cons :
      (i : ℕ) (p : Text) (ps : List Text)
      → scan_back parse_addr (suc i) (p ∷ ps)
        ≡ or_else (scan_back parse_addr i ps) (entry parse_addr p)
  unfolding scan_back
  scan_back-cons zero p ps = or_else-none (entry parse_addr p)
  scan_back-cons (suc i) p ps =
      ap (or_else (entry parse_addr (get_or ps i []))) (scan_back-cons i p ps)
      ∙ sym (or_else_assoc (entry parse_addr (get_or ps i [])) _ _)

  scan_back-eq-last_entry :
      (parts : List Text) → scan_back parse_addr (length parts) parts ≡ last_entry parts
  unfolding last_entry
  scan_back-eq-last_entry [] = unfold scan_back in refl
  scan_back-eq-last_entry (p ∷ ps) =
      scan_back-cons (length ps) p ps ∙ rw (scan_back-eq-last_entry ps)

  last_entry-append :
      (ps qs : List Text) → last_entry (ps ++ qs) ≡ or_else (last_entry qs) (last_entry ps)
  unfolding last_entry
  last_entry-append [] qs = sym (or_else-none (last_entry qs))
  last_entry-append (p ∷ ps) qs =
      rw (last_entry-append ps qs)
        (or_else_assoc (last_entry qs) (last_entry ps) (entry parse_addr p))

  rightmost_xff-eq-last_entry : (v : Text) → rightmost_xff parse_addr v ≡ last_entry (split_comma v)
  unfolding rightmost_xff
  rightmost_xff-eq-last_entry v = scan_back-eq-last_entry (split_comma v)

  -- Entries put in front of a header value with a comma are used only if nothing behind the comma
  -- parses.
  pub rightmost_xff-append :
      (u v : Text)
      → rightmost_xff parse_addr (u ++ comma ∷ v)
        ≡ or_else (rightmost_xff parse_addr v) (rightmost_xff parse_addr u)
  rightmost_xff-append u v =
      rw
        (
          rightmost_xff-eq-last_entry (u ++ comma ∷ v),
          rightmost_xff-eq-last_entry u,
          rightmost_xff-eq-last_entry v,
          split_comma-append u v,
        )
        (last_entry-append (split_comma u) (split_comma v))

  from_xff-eq-last_entry : (v : Text) → from_xff parse_addr v ≡ last_entry (split_comma v)
  unfolding split_comma last_entry trim_space
  from_xff-eq-last_entry [] = refl
  from_xff-eq-last_entry (c ∷ v) = rightmost_xff-eq-last_entry (c ∷ v)

  last_entry-eq-none_iff :
      (ps : List Text) → (last_entry ps ≡ none) ↔ All (λ p. entry parse_addr p ≡ none) ps
  unfolding last_entry
  last_entry-eq-none_iff [] = (λ h. tt, λ h. refl)
  last_entry-eq-none_iff (p ∷ ps) =
      let (forth, back) = or_else-eq-none_iff (last_entry ps) (entry parse_addr p) in
      let (some_ps, all_ps) = last_entry-eq-none_iff ps in
      (λ h. ((forth h).1, some_ps (forth h).0), λ h. back (all_ps h.1, h.0))

  -- A parseable rightmost part decides, whatever entries a client put in front of it.
  pub extract-prepend :
      (real u v : Text) (a : Addr)
      → rightmost_xff parse_addr v ≡ some a
      → extract_client_ip parse_addr (record { x_real_ip = real; x_forwarded_for = u ++ comma ∷ v })
        ≡ extract_client_ip parse_addr (record { x_real_ip = real; x_forwarded_for = v })
  unfolding extract_client_ip
  extract-prepend real u v a h = ap (or_else (entry parse_addr real)) (
      from_xff-eq-last_entry (u ++ comma ∷ v)
      ∙ sym (rightmost_xff-eq-last_entry (u ++ comma ∷ v))
      ∙ rightmost_xff-append u v
      ∙ left_wins (rightmost_xff parse_addr v) (rightmost_xff parse_addr u) a h
      ∙ rightmost_xff-eq-last_entry v
      ∙ sym (from_xff-eq-last_entry v))

  -- The extraction fails exactly if neither X-Real-IP nor any part of X-Forwarded-For, trimmed, is a
  -- parseable address.
  pub extract-eq-none_iff :
      (h : Headers)
      → (extract_client_ip parse_addr h ≡ none)
        ↔ (entry parse_addr h.x_real_ip ≡ none)
          × All (λ p. entry parse_addr p ≡ none) (split_comma h.x_forwarded_for)
  unfolding extract_client_ip
  extract-eq-none_iff h =
      let (forth, back) =
        or_else-eq-none_iff (entry parse_addr h.x_real_ip)
          (last_entry (split_comma h.x_forwarded_for)) in
      let (one, all) = last_entry-eq-none_iff (split_comma h.x_forwarded_for) in
      rw (from_xff-eq-last_entry h.x_forwarded_for)
        (λ e. ((forth e).0, one (forth e).1), λ e. back (e.0, all e.1))
