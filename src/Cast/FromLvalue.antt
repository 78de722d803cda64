-- ===== src/Cast/FromLvalue.antt =====
-- The constructor EmuStruct(lvalue) of types.cpp, and from_lvalue and is_scalar_zero of cast.cpp.
use ctutor.Base.{ℕ, zero, suc, Bool, Option, none, some, ltb, ◌==◌, if◌then◌else◌}
use ctutor.Outcome.{ok, undefined, cant_handle, err_exit}
use ctutor.Machine.Bytes.{le_value, read}
use ctutor.Types.Enums.{Status, uninitialized, defined, emu_type_struct_id, uninit_id}
use ctutor.Types.QualType.{
  QualType, builtin, pointer, constant_array, variable_array, function, structure, union, va_list,
  Fields, end, field, is_integer_type,
}
use ctutor.Types.EmuPtr
use ctutor.Types.EmuPtr.{EmuPtr}
use ctutor.Types.EmuVal
use ctutor.Types.EmuVal.{EmuVal, ptr, struct, Members, nil, cons}
use ctutor.Mem.Tag.{add_size, sub_size}
use ctutor.Mem.Stack.{Lvalue}
use ctutor.Exec.{Host, Exec, pure, raise, lift, ◌>>=◌}
use ctutor.Exec.Blocks.{block_at, bytes_at}
use ctutor.Cast.Load.{
  as_num, if_int, room, load_num, load_ptr, load_func, newarr, array_count, load_array,
}

-- The status that the tag of a struct stands for.
unfoldable pub tag_status : (tag : ℕ) → Status
tag_status tag =
    if tag == uninit_id emu_type_struct_id
    then uninitialized
    else if tag == emu_type_struct_id
    then defined
    else Status.undefined

-- The first four bytes of a block; EmuStruct(lvalue) reads them there wherever the struct lies.
unfoldable pub struct_tag : Option ℕ → (offset : ℕ) → Exec (ℕ × Status)
unfolding tag_status
struct_tag none offset = pure (uninit_id emu_type_struct_id, uninitialized)
struct_tag (some i) offset = do
  b ← block_at (some i)
  if ltb (sub_size b.size offset) 4 then raise (err_exit "Tried to read undefined memory") else do
    bytes ← bytes_at (some i) 0
    front ← lift (elim (read 4 bytes) [ none ↦ undefined | some bs ↦ ok bs ])
    pure (le_value front, tag_status (le_value front))

-- The state of a struct from the one so far and the one of a member.
unfoldable pub merge : (temp s : Status) → Status
merge Status.undefined s = Status.undefined
merge temp Status.undefined = Status.undefined
merge temp uninitialized = uninitialized
merge temp defined = temp

-- The loop of EmuStruct(lvalue). Its iterator stays at the first member, and so does the offset.
unfoldable pub load_members : (rounds : ℕ) → Exec EmuVal → Status → Exec (Members × Status)
unfolding merge
load_members zero first temp = pure (nil, temp)
load_members (suc n) first temp = do
  v ← first
  (m, s) ← load_members n first (merge temp (EmuVal.status v))
  pure (cons v m, s)

unfoldable pub count_fields : Fields → ℕ
count_fields end = 0
count_fields (field t fs) = suc (count_fields fs)

-- EmuStruct(lvalue), given the number of its members and the command that loads the first.
unfoldable pub load_struct :
    QualType → (fields : ℕ) → (first : Exec EmuVal) → Option ℕ → (offset : ℕ) → Exec EmuVal
unfolding struct_tag load_members
load_struct qt fields first p offset = do
  (tag, temp) ← struct_tag p offset
  (m, s) ← load_members fields first temp
  pure (struct s qt tag m)

-- is_scalar_zero
unfoldable pub is_scalar_zero : EmuVal → Exec Bool
unfolding as_num if_int
is_scalar_zero v = if_int (EmuVal.obj_type v) (lift (as_num v) >>= λ n. pure (n.val.bits == 0))

module _ (h : Host) (eval_size : ℕ → Exec EmuVal) where
  -- The part of from_lvalue behind its tests on the place. `eval_size` evaluates the size expression
  -- of a variable array type.
  unfoldable mutual
    unfolding load_num load_ptr load_func load_array newarr array_count count_fields load_struct
        is_integer_type room

    pub load_at : QualType → Option ℕ → (offset : ℕ) → Option ℕ → Exec EmuVal
    load_at (builtin k) p offset space =
        if is_integer_type (builtin k)
        then load_num h (builtin k) p offset space
        else raise cant_handle
    load_at (pointer t) p offset none = pure (ptr (EmuPtr.of_status uninitialized (pointer t)))
    load_at (pointer t) p offset (some space) = load_ptr h (pointer t) p offset space
    load_at (constant_array n t) p offset space =
        load_array h (constant_array n t) (newarr h (constant_array n t) (load_at t none 0 none) n)
          p offset space
    load_at (variable_array d t) p offset space =
        load_array h (variable_array d t)
          (eval_size d >>= λ v.
            array_count h v >>= λ n. newarr h (variable_array d t) (load_at t none 0 none) n)
          p offset space
    load_at (function g) p offset space = load_func h (function g) p offset space
    load_at (structure d fs) p offset space =
        load_struct (structure d fs) (count_fields fs) (load_first fs p (add_size offset 4)) p
          offset
    load_at (union d fs) p offset space =
        load_struct (union d fs) (count_fields fs) (load_first fs p (add_size offset 4)) p offset
    load_at va_list p offset space = raise cant_handle

    -- from_lvalue of the first member, which exists where a member is loaded
    pub load_first : Fields → Option ℕ → (offset : ℕ) → Exec EmuVal
    load_first end p offset = lift undefined
    load_first (field t fs) p offset = room p offset >>= λ space. load_at t p offset space

  unfoldable pub from_lvalue : Lvalue → Exec EmuVal
  unfolding room load_at
  from_lvalue l = room l.block l.offset >>= λ space. load_at l.type l.block l.offset space
