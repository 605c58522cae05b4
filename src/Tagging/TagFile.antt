-- ===== src/Tagging/TagFile.antt =====
-- The tag file of a program image, tagging_tools/tag_file.cc, as the list of its bytes.
pub mod Write
pub mod Read
pub mod Names
pub mod Metadata
pub mod Save
pub mod Load
pub mod Sequences
pub mod Int32
pub mod Distinct
pub mod RoundTrip
pub mod Entries
pub mod LoadSave
pub mod Coalesce
