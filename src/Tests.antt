-- ===== src/Tests.antt =====
-- The theorems at concrete inputs.
mod Demo
mod Session
mod Components
pub mod Dmhc
pub mod TagFile
pub mod Opgroup
pub mod MemoryMap
pub mod MetadataFile
pub mod IndexMap
pub mod Simulator
pub mod Apply
pub mod Factory
pub mod Soc
pub mod Symbols
