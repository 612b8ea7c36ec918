-- ===== src/Mmdb/Loading.antt =====
-- internal/mmdb/loader.go: the trie that `LoadCountryBlocklist` builds, and when it builds one.
use bitblocker.Base.{
  ◌≡◌, ◌≢◌, inl, inr, refl, ap, ◌∙◌, String, Bool, true, false, ◌&&◌, Option, none, some, List, [],
  ◌∷◌, map, null, any, All, arith, Bool-cases, Option-cases, if◌then◌else◌,
}
use bitblocker.Base.Result.{ok, err}
use bitblocker.Netip.{Addr, IsAddr, unmap, Prefix, IsPrefix, covers}
use bitblocker.Blocklist.Trie.{Trie, new_trie, insert, contains}
use bitblocker.Blocklist.Trie.Lookup.{insert_all}
use bitblocker.Blocklist.Refinement.{contains-insert_all_new}
use bitblocker.Mmdb.{
  prefix_from_ip_net, Row, row, undecodable, Traversal, LoadError, is_wanted, inserted,
  insert_network, load_row, load_rows, load_country_blocklist, no_countries,
}
use bitblocker.Mmdb.Networks.{
  Network, IsNetwork, row_of, prefix_of, prefix_of-IsPrefix, prefix_from_ip_net-row_of,
}

module _ (countries : List String) where
  -- The prefixes of the wanted networks, in the order of the traversal.
  unfoldable pub wanted_prefixes : List Network → List Prefix
  wanted_prefixes [] = []
  wanted_prefixes (n ∷ ns) =
      let rest = wanted_prefixes ns in
      if is_wanted countries n.country then prefix_of n ∷ rest else rest

  wanted_prefixes-IsPrefix :
      (ns : List Network) → All IsNetwork ns → All IsPrefix (wanted_prefixes ns)
  unfolding wanted_prefixes
  wanted_prefixes-IsPrefix [] h = tt
  wanted_prefixes-IsPrefix (n ∷ ns) h =
      ground (arith, prefix_of-IsPrefix n h.0, wanted_prefixes-IsPrefix ns h.1)

  load_row-wanted :
      (t : Trie) (n : Network)
      → IsNetwork n
      → is_wanted countries n.country ≡ true
      → load_row countries t (row_of n) ≡ inserted (insert t (prefix_of n))
  unfolding load_row
  load_row-wanted t n h w = rw w (ap (insert_network t) (prefix_from_ip_net-row_of n h))

  load_row-unwanted :
      (t : Trie) (n : Network)
      → is_wanted countries n.country ≡ false
      → load_row countries t (row_of n) ≡ ok t
  unfolding load_row
  load_row-unwanted t n w = rw w refl

  load_rows-insert_all :
      (t : Trie) (ns : List Network)
      → All IsNetwork ns
      → load_rows countries true (ok t) (map row_of ns)
        ≡ inserted (insert_all t (wanted_prefixes ns))
  unfolding load_rows wanted_prefixes insert_all
  load_rows-insert_all t [] h = refl
  load_rows-insert_all t (n ∷ ns) h = elim (Bool-cases (is_wanted countries n.country)) [
    | inl w ↦
        ap (λ r. load_rows countries true r (map row_of ns)) (load_row-wanted t n h.0 w)
        ∙ elim (Option-cases (insert t (prefix_of n))) [
          | inl i ↦ rw (w, i, insert_all) refl
          | inr (u, i) ↦ rw (w, i, insert_all) (load_rows-insert_all u ns h.1)
        ]
    | inr w ↦
        ap (λ r. load_rows countries true r (map row_of ns)) (load_row-unwanted t n w)
        ∙ rw w (load_rows-insert_all t ns h.1)
  ]

  any-wanted_prefixes :
      (ns : List Network) (ip : Addr)
      → any (λ p. covers p ip) (wanted_prefixes ns)
        ≡ any (λ n. is_wanted countries n.country && covers (prefix_of n) ip) ns
  unfolding wanted_prefixes
  any-wanted_prefixes [] ip = refl
  any-wanted_prefixes (n ∷ ns) ip = ground (arith, any-wanted_prefixes ns ip)

  some_country : countries ≢ [] → null countries ≡ false
  some_country c =
      elim countries as (λ (l : List String). l ≢ [] → null l ≡ false) [
        | [] ↦ λ h. absurd (h refl)
        | x ∷ xs ↦ λ h. refl
      ]
        c

  -- For some wanted countries and a database of well-formed networks, each with the mask of its
  -- length, the load succeeds, and its trie contains an address, unmapped first, exactly when one of
  -- the networks of a wanted country covers it.
  pub load_networks :
      (ns : List Network)
      → countries ≢ []
      → All IsNetwork ns
      → (t : Trie) × (load_country_blocklist
            (some (record { rows = map row_of ns; complete = true }))
            countries
          ≡ ok t)
        × ((ip : Addr)
            → IsAddr ip
            → contains t ip
              ≡ any (λ n. is_wanted countries n.country && covers (prefix_of n) (unmap ip)) ns)
  unfolding load_country_blocklist
  load_networks ns c h =
      let (t, done, found) =
        contains-insert_all_new (wanted_prefixes ns) (wanted_prefixes-IsPrefix ns h) in
      (
        t,
        rw (some_country c, load_rows-insert_all new_trie ns h, done) refl,
        λ ip hip. found ip hip ∙ any-wanted_prefixes ns (unmap ip),
      )

  -- The rows that do not stop a load: those whose country is not wanted, and the wanted ones that are
  -- prefixes.
  abbrev pub IsLoadable : Row → Type 0
  IsLoadable undecodable = ⊥
  IsLoadable (row subnet code) =
      is_wanted countries code ≡ true → (p : Prefix) × (prefix_from_ip_net subnet ≡ some p)

  load_rows-err :
      (b : Bool) (e : LoadError) (rs : List Row) (t : Trie)
      → load_rows countries b (err e) rs ≢ ok t
  unfolding load_rows
  load_rows-err b e rs t h = ground arith

  load_rows-ok :
      (b : Bool) (s t : Trie) (rs : List Row)
      → load_rows countries b (ok s) rs ≡ ok t
      → (b ≡ true) × All IsLoadable rs
  unfolding load_rows load_row
  load_rows-ok b s t [] h = (ground arith, tt)
  load_rows-ok b s t (undecodable ∷ rs) h = absurd (load_rows-err b _ rs t h)
  load_rows-ok b s t (row subnet code ∷ rs) h = elim (Bool-cases (is_wanted countries code)) [
    | inl w ↦ elim (Option-cases (prefix_from_ip_net subnet)) [
      | inl n ↦ absurd (load_rows-err b _ rs t (rw (w, n, load_rows, load_row) at h))
      | inr (p, n) ↦ elim (Option-cases (insert s p)) [
        | inl i ↦ absurd (load_rows-err b _ rs t (rw (w, n, i, load_rows, load_row) at h))
        | inr (u, i) ↦
            let (complete, rest) = load_rows-ok b u t rs (rw (w, n, i, load_rows, load_row) at h) in
            (complete, (λ v. (p, n), rest))
      ]
    ]
    | inr w ↦
        let (complete, rest) = load_rows-ok b s t rs (rw (w, load_rows, load_row) at h) in
        (complete, (λ v. ground arith, rest))
  ]

  -- No trie comes of a database that does not open, of a traversal that ends early, of an empty set of
  -- countries, of a row that does not decode, or of a wanted network that is not a prefix.
  pub load_complete :
      (opened : Option Traversal) (t : Trie)
      → load_country_blocklist opened countries ≡ ok t
      → (countries ≢ [])
        × ((n : Traversal) × (opened ≡ some n) × (n.complete ≡ true) × All IsLoadable n.rows)
  unfolding load_country_blocklist load_rows
  load_complete none t h = ground arith
  load_complete (some n) t h = elim (Bool-cases (null countries)) [
    | inl e ↦ absurd (load_rows-err true no_countries [] t (rw (e, load_country_blocklist) at h))
    | inr e ↦
        let rows_ok =
          load_rows-ok n.complete new_trie t n.rows (rw (e, load_country_blocklist) at h) in
        (λ c. ground arith, (n, refl, rows_ok.0, rows_ok.1))
  ]
