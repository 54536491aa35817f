-- ===== src/Sublist.antt =====
-- server/sublist.go: the trie of subscriptions with its cache.
pub mod Subject
pub mod Trie
pub mod Occurs
pub mod Hits
pub mod Child
pub mod Removal
pub mod Insert
pub mod Prune
pub mod Remove
pub mod Store
pub mod Split
pub mod Literal
pub mod Spec
pub mod SpecRemove
pub mod SpecMatch
pub mod Validity
mod Tests
