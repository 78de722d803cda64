-- ===== src/Tests.antt =====
-- Runs of the model on concrete inputs. The operations of llvm::APInt are `sample_ops`.
pub mod Values
pub mod Blocks
pub mod Stack
pub mod Cast
pub mod Tags
pub mod Programs
pub mod Runs
pub mod Frames
pub mod Driver
