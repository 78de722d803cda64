-- ===== src/Types/EmuNum/Copy.antt =====
-- Bytes that pass through the interpreter as a number: the constructor that reads memory, followed
-- by EmuNum::dump_repr.
use ctutor.Base.{ℕ, ◌+◌, ◌*◌, List, [], ◌∷◌}
use ctutor.Types.Enums.{NumType}
use ctutor.Types.EmuNum.{EmuNum}

-- The number that bytes stand for, highest first.
abbrev fold_be : ℕ → List ℕ → ℕ
fold_be v [] = v
fold_be v (b ∷ bs) = fold_be (0x100 * v + b) bs
