-- ===== src/Debug.antt =====
-- debug.cpp, and the print functions of types.h and types.cpp: what is written, as a list of pieces.
-- An output stream is what was written to it.
pub mod Layout
pub mod Record
pub mod Heap
pub mod Dump
pub mod Silent
use Prim.Native.String.{String}
use ctutor.Base.{ℕ, Bool, Option, none, some, List, [], ◌∷◌, ◌++◌}
use ctutor.Outcome.{Outcome, ok, undefined, ◌>>=◌}
use ctutor.Machine.ApInt.{ApInt}
use ctutor.Types.Enums.{Status, uninitialized, defined}
use ctutor.Types.QualType.{QualType}
use ctutor.Types.EmuNum.{EmuNum}
use ctutor.Types.EmuPtr.{EmuPtr, Target, block}
use ctutor.Types.EmuVal
use ctutor.Types.EmuVal.{EmuVal, EmuStackPos, num, ptr, func, void, stackpos, struct}
use ctutor.Mem.Block.{Memory, deref}
use ctutor.Exec.{State}

pub data Piece : Type 0 where
  text : String → Piece
  nat : ℕ → Piece

-- What is not in the repository: QualType::getAsString, the digits of an llvm::APInt, and the orders in
-- which the unordered maps local_vars[main_source] and active_mem are walked.
pub record Console : Type 0 where
  pub type_name : QualType → String
  pub digits : ApInt → String
  pub locals : State → List String
  pub blocks : State → List ℕ

-- ptr.u.block->id
unfoldable pub id_of : Memory → Target → Outcome ℕ
unfolding deref
id_of m (block i) = deref m i >>= λ b. ok b.id
id_of m _ = undefined

-- EmuPtr::print_impl
unfoldable pub print_ptr : Memory → EmuPtr → Outcome (List Piece)
unfolding id_of
print_ptr m p = id_of m p.target >>= λ i.
    ok (text "<ptr to block " ∷ nat i ∷ text " offset " ∷ nat p.offset ∷ text ">" ∷ [])

-- EmuFunc::print_impl
unfoldable pub print_func : List Piece
print_func = text "<function machine code>" ∷ []

-- EmuVoid::print_impl
unfoldable pub print_void : List Piece
print_void = text "<void>" ∷ []

-- EmuStackPos::print_impl
unfoldable pub print_stackpos : EmuStackPos → List Piece
print_stackpos p =
    text "(reference to variable at stack frame "
    ∷ nat p.level
    ∷ text " number "
    ∷ nat p.num
    ∷ text "\n"
    ∷ []

-- EmuStruct::print_impl
unfoldable pub print_struct : List Piece
print_struct = text "<struct>" ∷ []

module _ (console : Console) where
  -- EmuNum::print_impl
  unfoldable pub print_num : EmuNum → List Piece
  print_num n = text (console.digits n.val) ∷ []

  module _ (m : Memory) where
    -- EmuVal::print_impl
    unfoldable pub print_impl : EmuVal → Outcome (List Piece)
    unfolding print_num print_ptr print_func print_void print_stackpos print_struct
    print_impl (num n) = ok (print_num n)
    print_impl (ptr p) = print_ptr m p
    print_impl (func f) = ok print_func
    print_impl void = ok print_void
    print_impl (stackpos p) = ok (print_stackpos p)
    print_impl (struct s qt id vs) = ok print_struct

    -- EmuVal::print
    unfoldable pub print : EmuVal → Outcome (List Piece)
    unfolding print_impl
    print v = elim (EmuVal.status v) [
      | Status.undefined ↦ ok (text "(undefined)" ∷ [])
      | uninitialized ↦ ok (text "(uninitialized)" ∷ [])
      | defined ↦ print_impl v
    ]
