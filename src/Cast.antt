-- ===== src/Cast.antt =====
-- getSizeOf and zero_init of cast.cpp: how many bytes an object of a type takes, and its value where
-- it has static storage.
pub mod Size
pub mod Load
pub mod FromLvalue
pub mod Obeys
pub mod Typed
pub mod Gone
pub mod Assigned
use ctutor.Base.{ℕ, zero, suc, ◌+◌, ◌*◌, ◌%◌, ◌^◌, Bool, true, false, ltb, ◌==◌, if◌then◌else◌}
use ctutor.Outcome.{Outcome, ok, exits, undefined, cant_cast, ◌>>=◌}
use ctutor.Machine.ApInt.{ApIntOps}
use ctutor.Types.Enums.{Status, defined}
use ctutor.Types.QualType.{
  QualType, builtin, pointer, constant_array, structure, union, Fields, end, field, is_integer_type,
}
use ctutor.Types.NumType.{bits_in_num_type, bytes_in_num_type, is_num_type_signed, get_num_type}
use ctutor.Types.EmuNum.{of_apint}
use ctutor.Types.EmuPtr.{emu_size_ptr, nullptr, of_mem_ptr}
use ctutor.Types.EmuVal.{EmuVal, num, ptr, struct, Members, nil, cons}
use ctutor.Mem.Tag.{add_size, mul_size}

-- getSizeOf, its first case
unfoldable pub size_of_integer : QualType → Outcome ℕ
unfolding bytes_in_num_type get_num_type
size_of_integer qt = get_num_type qt >>= λ t. ok (4 + bytes_in_num_type t)

-- getSizeOf. The loops over a record's declarations start from `ans`.
unfoldable mutual
  unfolding size_of_integer is_integer_type

  pub get_size_of : QualType → Outcome ℕ
  get_size_of (builtin k) =
      let n = size_of_integer (builtin k) in
      if is_integer_type (builtin k) then n else exits cant_cast
  get_size_of (pointer t) = ok emu_size_ptr
  get_size_of (constant_array n t) = get_size_of t >>= λ sub. ok (add_size (mul_size n sub) 4)
  get_size_of (structure d fs) = add_fields 4 fs
  get_size_of (union d fs) = max_fields 0 fs
  get_size_of _ = exits cant_cast

  pub add_fields : (ans : ℕ) → Fields → Outcome ℕ
  add_fields ans end = ok ans
  add_fields ans (field t fs) = get_size_of t >>= λ n. add_fields (add_size ans n) fs

  pub max_fields : (ans : ℕ) → Fields → Outcome ℕ
  max_fields ans end = ok ans
  max_fields ans (field t fs) =
      get_size_of t >>= λ temp. max_fields (if ltb ans temp then temp else ans) fs

-- The array of `n` values that the loop of zero_init fills with the same one.
unfoldable pub copies : ℕ → EmuVal → Members
copies zero v = nil
copies (suc n) v = cons v (copies n v)

module _ (o : ApIntOps) where
  -- zero_init, its first case
  unfoldable pub zero_integer : QualType → Outcome EmuVal
  unfolding get_num_type bits_in_num_type is_num_type_signed of_apint
  zero_integer qt = get_num_type qt >>= λ t.
      ok (num (of_apint o t (o.make (bits_in_num_type t) 0 (is_num_type_signed t))))

  -- zero_init. The count of an array is an unsigned int, and the type tag of the array or record is
  -- set to 0. A union without members has no first one.
  unfoldable mutual
    unfolding zero_integer copies is_integer_type of_mem_ptr

    pub zero_init : QualType → Outcome EmuVal
    zero_init (builtin k) =
        let z = zero_integer (builtin k) in
        if is_integer_type (builtin k) then z else exits cant_cast
    zero_init (pointer t) = ok (ptr (of_mem_ptr nullptr 0 (pointer t)))
    zero_init (constant_array n t) =
        let filled =
          zero_init t >>= λ z. ok (struct defined (constant_array n t) 0 (copies (n % 2 ^ 32) z)) in
        let none_made = ok (struct defined (constant_array n t) 0 nil) in
        if n % 2 ^ 32 == 0 then none_made else filled
    zero_init (structure d fs) = zero_fields fs >>= λ m. ok (struct defined (structure d fs) 0 m)
    zero_init (union d end) = undefined
    zero_init (union d (field t fs)) = zero_init t
    zero_init _ = exits cant_cast

    pub zero_fields : Fields → Outcome Members
    zero_fields end = ok nil
    zero_fields (field t fs) = zero_init t >>= λ z. zero_fields fs >>= λ m. ok (cons z m)
