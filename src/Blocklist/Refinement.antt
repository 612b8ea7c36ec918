-- ===== src/Blocklist/Refinement.antt =====
-- internal/blocklist/trie.go against its contract: the trie is the set of the prefixes put in.
use native.Mathlib.Nat.{zero-add}
use bitblocker.Base.{◌≡◌, ◌∙◌, Bool, false, ◌||◌, some, List, [], All, any, arith}
use bitblocker.Netip.{Addr, IsAddr, unmap, Prefix, IsPrefix, covers}
use bitblocker.Blocklist.Trie.{Trie, new_trie, contains, len}
use bitblocker.Blocklist.Trie.Lookup.{insert_all, contains-insert_all, contains-new_trie}
use bitblocker.Blocklist.Trie.Size.{IsWf-new_trie, insert_all_total}
use bitblocker.Blocklist.Trie.Distinct.{distinct, len-insert_all, Holds-new_trie, len-new_trie}

-- Whatever valid or invalid prefixes are inserted into a new trie, no insertion dereferences nil, and
-- the lookup of any address, unmapped first, answers whether one of the prefixes covers it.
pub contains-insert_all_new :
    (ps : List Prefix)
    → All IsPrefix ps
    → (t : Trie) × (insert_all new_trie ps ≡ some t)
      × ((ip : Addr) → IsAddr ip → contains t ip ≡ any (λ p. covers p (unmap ip)) ps)
contains-insert_all_new ps h =
    let (t, done, _) = insert_all_total new_trie ps h IsWf-new_trie in
    (
      t,
      done,
      λ ip hip.
          contains-insert_all new_trie t ps ip h hip done
          ∙ rw contains-new_trie (or-false (any (λ p. covers p (unmap ip)) ps)),
    )
  where
    or-false : (b : Bool) → (b || false) ≡ b
    or-false b = ground arith

-- The trie that the insertion of a list of prefixes into a new trie gives counts each stored prefix
-- once, whatever its host bits and however often it is repeated.
pub len-insert_all_new :
    (ps : List Prefix) (t : Trie)
    → All IsPrefix ps
    → insert_all new_trie ps ≡ some t
    → len t ≡ distinct [] ps
len-insert_all_new ps t h done =
    len-insert_all [] new_trie t ps Holds-new_trie h done
    ∙ rw len-new_trie (zero-add (distinct [] ps))
