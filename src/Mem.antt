-- ===== src/Mem.antt =====
-- mem.h and mem.cpp: memory blocks with their tags, block ids, and the stack of variables.
pub mod Tag
pub mod TagUpdate
pub mod Block
pub mod Stack
