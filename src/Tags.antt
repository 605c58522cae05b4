-- ===== src/Tags.antt =====
-- Tags of memory and canonical metadata: validator/include/tag_utils.h and validator/riscv/meta_cache.
pub mod Provider
pub mod Bus
pub mod MetaCache
