-- ===== src/Tests/Values.antt =====
-- The values of types.cpp on concrete inputs.
use ctutor.Base.{ℕ, ◌^◌, ◌<◌, ◌≡◌, refl, Bool, List, [], ◌∷◌, ◌++◌, arith, ◌==◌}
use ctutor.Outcome.{ok, exits, Error, ◌>>=◌}
use ctutor.Machine.ApInt.{sample_ops, sample_laws}
use ctutor.Machine.Bytes.{IsBytes, le_value, le_bytes}
use ctutor.Types.Enums.{Status, NumType, emu_type_int_id, emu_type_char_id, emu_type_ptr_id}
use ctutor.Types.QualType.{int_type}
use ctutor.Types.NumType.{
  bits_in_num_type, id_from_num_type, type_from_num_type, get_num_type, is_num_type_signed,
}
use ctutor.Types.EmuNum
use ctutor.Types.EmuNum.{EmuNum, add, sub, mul, div, neg, bitwise_or, bitwise_and, generic}
use ctutor.Types.EmuNum.Repr.{Fits, of_memory-dump_repr_own}
use ctutor.Types.EmuNum.Arith.{IsDefined, Operands, rank, binary_status, wrapping, generic_dispatch}
use ctutor.Types.EmuNum.Cast.{cast_to-cast_to, cast_to_never_negative}
use ctutor.Types.EmuPtr
use ctutor.Types.EmuPtr.{block, nullptr, of_mem_ptr, block_id_null, repr}
use ctutor.Types.EmuPtr.Repr.{
  of_memory-dump_repr_block, of_memory-dump_repr_null, dump_repr-of_memory_ptr,
}
use ctutor.Types.EmuVal
use ctutor.Types.EmuVal.{EmuVal, num}
use ctutor.Types.EmuVal.Size.{size-dump_repr}

-- The int 1000.
abbrev thousand : EmuNum
thousand = record {
  num_type = NumType.int;
  status = Status.defined;
  val = record { width = 32; bits = 1000 };
  repr_type_id = emu_type_int_id;
}

-- The int -1.
abbrev minus_one : EmuNum
minus_one = record {
  num_type = NumType.int;
  status = Status.defined;
  val = record { width = 32; bits = 4294967295 };
  repr_type_id = emu_type_int_id;
}

-- The char -1.
abbrev minus_char : EmuNum
minus_char = record {
  num_type = NumType.char;
  status = Status.defined;
  val = record { width = 8; bits = 255 };
  repr_type_id = emu_type_char_id;
}

thousand-Fits : Fits thousand
unfolding bits_in_num_type
thousand-Fits = record { width = refl; range = omega arith }

minus_one-Fits : Fits minus_one
unfolding bits_in_num_type
minus_one-Fits = record { width = refl; range = omega arith }

minus_char-Fits : Fits minus_char
unfolding bits_in_num_type
minus_char-Fits = record { width = refl; range = omega arith }

thousand-IsDefined : IsDefined thousand
unfolding id_from_num_type
thousand-IsDefined = record { status = refl; own = refl }

minus_one-IsDefined : IsDefined minus_one
unfolding id_from_num_type
minus_one-IsDefined = record { status = refl; own = refl }

both : Operands thousand minus_one
both = record {
  left = thousand-IsDefined;
  right = minus_one-IsDefined;
  left_fits = thousand-Fits;
  right_fits = minus_one-Fits;
  same = refl;
}

of_memory-dump_repr_own_example :
    EmuNum.of_memory sample_ops NumType.char (EmuNum.dump_repr sample_ops minus_char ++ [])
    ≡ ok (record minus_char { status = Status.undefined })
unfolding id_from_num_type
of_memory-dump_repr_own_example =
    of_memory-dump_repr_own sample_ops sample_laws minus_char [] minus_char-Fits refl refl

abbrev stored_thousand : List ℕ
stored_thousand = 67 ∷ 67 ∷ 67 ∷ 67 ∷ 0 ∷ 0 ∷ 3 ∷ 232 ∷ []

binary_status_example :
    (rank (add sample_ops thousand minus_one).status ≡ 2)
    × (rank (sub sample_ops thousand minus_one).status ≡ 2)
    × (rank (mul sample_ops thousand minus_one).status ≡ 2)
    × (rank (bitwise_or sample_ops thousand minus_one).status ≡ 2)
    × (rank (bitwise_and sample_ops thousand minus_one).status ≡ 2)
    × (rank (div sample_ops thousand minus_one).status ≡ 2)
binary_status_example = binary_status sample_ops thousand minus_one

wrapping_example :
    (Fits (add sample_ops thousand minus_one)
      × ((add sample_ops thousand minus_one).val.bits ≡ 999))
    × (Fits (sub sample_ops thousand minus_one)
        × ((sub sample_ops thousand minus_one).val.bits ≡ 1001))
    × (Fits (mul sample_ops thousand minus_one)
        × ((mul sample_ops thousand minus_one).val.bits ≡ 4294966296))
unfolding bits_in_num_type
wrapping_example = wrapping sample_ops sample_laws thousand minus_one both

generic_dispatch_example : generic (add sample_ops) minus_char minus_char ≡ exits Error.cant_cast
generic_dispatch_example = generic_dispatch (add sample_ops) minus_char minus_char

cast_to-cast_to_example :
    (EmuNum.cast_to sample_ops minus_one (type_from_num_type NumType.longlong) >>= λ m.
    EmuNum.cast_to sample_ops m (EmuNum.obj_type minus_one))
    ≡ ok minus_one
unfolding get_num_type type_from_num_type is_num_type_signed bits_in_num_type
cast_to-cast_to_example =
    cast_to-cast_to sample_ops sample_laws minus_one (type_from_num_type NumType.longlong)
      NumType.longlong minus_one-IsDefined minus_one-Fits refl refl (omega arith)

cast_to_never_negative_example :
    (m : EmuNum) × (EmuNum.cast_to sample_ops minus_char (type_from_num_type NumType.int) ≡ ok m)
    × (m.num_type ≡ NumType.int)
    × (m.val.bits ≡ 255)
    × (m.val.bits < 2 ^ 31)
unfolding get_num_type type_from_num_type is_num_type_signed bits_in_num_type
cast_to_never_negative_example =
    cast_to_never_negative sample_ops sample_laws minus_char (type_from_num_type NumType.int)
      NumType.int minus_char-Fits refl refl refl (omega arith)

abbrev one_block : ℕ → Bool
one_block b = b == 3

of_memory-dump_repr_block_example :
    let p = of_mem_ptr (block 3) 12 int_type in
    (bytes : List ℕ) × (EmuPtr.dump_repr one_block p ≡ ok bytes)
    × (EmuPtr.of_memory one_block (bytes ++ []) int_type ≡ ok p)
of_memory-dump_repr_block_example =
    of_memory-dump_repr_block one_block one_block 3 12 int_type [] (omega arith) (omega arith) refl
      refl

of_memory-dump_repr_null_example :
    (bytes : List ℕ) × (EmuPtr.dump_repr one_block (of_mem_ptr nullptr 0 int_type) ≡ ok bytes)
    × (EmuPtr.of_memory one_block (bytes ++ []) int_type
        ≡ ok (record {
          status = Status.undefined;
          obj_type = int_type;
          target = repr emu_type_ptr_id block_id_null;
          offset = 0;
        }))
of_memory-dump_repr_null_example =
    of_memory-dump_repr_null one_block one_block 0 int_type [] (omega arith) refl

abbrev stored_pointer : List ℕ
stored_pointer = 96 ∷ 96 ∷ 96 ∷ 96 ∷ 3 ∷ 0 ∷ 0 ∷ 0 ∷ 12 ∷ 0 ∷ 0 ∷ 0 ∷ 0 ∷ 0 ∷ 0 ∷ 0 ∷ []

stored_pointer-IsBytes : IsBytes stored_pointer
stored_pointer-IsBytes = omega arith

dump_repr-of_memory_ptr_example :
    (p : EmuPtr.EmuPtr) × (EmuPtr.of_memory one_block stored_pointer int_type ≡ ok p)
    × (EmuPtr.dump_repr one_block p ≡ ok stored_pointer)
unfolding le_value
dump_repr-of_memory_ptr_example =
    dump_repr-of_memory_ptr one_block one_block stored_pointer int_type stored_pointer-IsBytes refl
      (λ e. omega (arith, e)) (λ b h. h)

stored_bytes : EmuVal.dump_repr sample_ops one_block (num thousand) ≡ ok stored_thousand
unfolding EmuVal.dump_repr EmuNum.dump_repr le_bytes EmuNum.dump_val EmuNum.val_bytes
stored_bytes = refl

size-dump_repr_example : EmuVal.size (num thousand) ≡ ok 8
size-dump_repr_example =
    size-dump_repr sample_ops one_block (num thousand) stored_thousand stored_bytes
