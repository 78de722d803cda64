-- ===== src/Tests/Cast.antt =====
-- getSizeOf and zero_init on a structure of an int, a pointer and an array of three chars.
use ctutor.Base.{ℕ, ◌%◌, ◌≡◌, refl, arith}
use ctutor.Outcome.{ok}
use ctutor.Machine.ApInt.{sample_ops}
use ctutor.Types.QualType.{
  Kind, QualType, builtin, pointer, constant_array, structure, end, field, int_type,
}
use ctutor.Types.EmuVal
use ctutor.Types.EmuVal.{EmuVal}
use ctutor.Mem.Tag.{size_t}
use ctutor.Cast.{get_size_of, zero_init}
use ctutor.Cast.Size.{zero_init-get_size_of}

abbrev entry_type : QualType
entry_type =
    structure 0 (
      field int_type
        (field (pointer int_type) (field (constant_array 3 (builtin Kind.char_s)) end)))

entry_size : get_size_of entry_type ≡ ok 47
unfolding get_size_of
entry_size = refl

zero_init-get_size_of_example :
    (v : EmuVal) × (k : ℕ) × (zero_init sample_ops entry_type ≡ ok v)
    × (EmuVal.size v ≡ ok k)
    × (47 ≡ k % size_t)
zero_init-get_size_of_example =
    zero_init-get_size_of sample_ops entry_type 47 (tt, (tt, ((omega arith, tt), tt))) entry_size
