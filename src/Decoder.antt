-- ===== src/Decoder.antt =====
-- The instruction decoder, validator/riscv/inst_decoder.cc.
pub mod Switch
pub mod Builders
pub mod Register
pub mod Immediate
pub mod FloatConvert
pub mod Float
pub mod System
pub mod CompressedStack
pub mod CompressedMemory
pub mod CompressedControl
pub mod Decode
pub mod Range
