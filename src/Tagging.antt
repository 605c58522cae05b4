-- ===== src/Tagging.antt =====
-- The tagging tools, tagging_tools: ranges of addresses, and the numbers of the tag file.
pub mod SymbolTable
pub mod RangeMap
pub mod Uleb
pub mod TagFile
pub mod MemoryMap
pub mod MetadataFile
pub mod IndexMap
