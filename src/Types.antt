-- ===== src/Types.antt =====
-- types.h, types.cpp and enums.h: the values of the interpreted program and their types.
pub mod Enums
pub mod QualType
pub mod NumType
pub mod EmuNum
pub mod EmuPtr
pub mod EmuVal
