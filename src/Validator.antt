-- ===== src/Validator.antt =====
-- The RISC-V validator, validator/riscv/rv_validator.cc.
pub mod State
pub mod Prepare
pub mod Validate
pub mod Commit
pub mod Outcomes
pub mod Safety
pub mod CommitParts
pub mod CommitSafety
pub mod Soundness
pub mod Session
pub mod Construct
pub mod Opgroup
pub mod Live
pub mod ApplyMetadata
