-- ===== src/RuleCache.antt =====
-- The rule caches, validator/rule_cache: what the validator asks of a cache, and its implementations.
pub mod Table
pub mod Keys
pub mod Run
pub mod Interface
pub mod Ideal
pub mod Finite
pub mod Dmhc
