-- ===== src/Machine.antt =====
-- What the code takes from its platform: llvm::APInt, and the bytes of an object in memory.
pub mod ApInt
pub mod Bytes
pub mod Signed
