-- ===== src/RuleCache/Dmhc.antt =====
-- The hashed rule cache, validator/rule_cache/dmhc_rule_cache.
pub mod State
pub mod Cells
pub mod Lookup
pub mod Evict
pub mod Insert
pub mod Cache
pub mod Fit
pub mod CellsFit
pub mod Candidates
pub mod Safe
pub mod SafePlace
pub mod SafeInsert
pub mod Address
pub mod Hit
pub mod Stores
pub mod Fresh
pub mod Hash
pub mod HashBounds
