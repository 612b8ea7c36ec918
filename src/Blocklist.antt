-- ===== src/Blocklist.antt =====
-- internal/blocklist: the CIDR trie and the pointer that publishes it.
pub mod Trie
pub mod Source
pub mod Refinement
pub mod Canonical
mod Examples
