-- ===== src/Types/EmuVal.antt =====
-- The class EmuVal of types.h with its subclasses EmuFunc, EmuVoid, EmuStackPos and EmuStruct, and
-- the virtual functions size, dump_repr and cast_to of all of them.
pub mod Size
pub mod Typed
use ctutor.Base.{
  ℕ, ◌+◌, ◌^◌, Bool, true, false, none, some, List, [], ◌++◌, ◌==◌, if◌then◌else◌, take, drop,
}
use ctutor.Outcome.{Outcome, ok, exits, undefined, Error, cant_cast, err_exit, ◌>>=◌}
use ctutor.Machine.ApInt.{ApIntOps}
use ctutor.Machine.Bytes.{le_bytes, le_value, read}
use ctutor.Types.Enums.{
  Status, uninitialized, defined, emu_type_func_id, emu_type_stackpos_id, emu_type_struct_id,
  emu_type_invalid_id, uninit_id,
}
use ctutor.Types.QualType.{QualType, va_list, void_type, raw_type, is_function_type, same_type}
use ctutor.Types.EmuNum
use ctutor.Types.EmuNum.{EmuNum}
use ctutor.Types.EmuPtr
use ctutor.Types.EmuPtr.{EmuPtr, emu_size_ptr}

pub record EmuFunc : Type 0 where
  pub status : Status
  pub obj_type : QualType
  pub repr_type_id : ℕ
  pub func_id : ℕ

pub record EmuStackPos : Type 0 where
  pub status : Status
  pub repr_type_id : ℕ
  pub level : ℕ
  pub num : ℕ

mutual
  pub data EmuVal : Type 0 where
    num : EmuNum → EmuVal
    ptr : EmuPtr → EmuVal
    func : EmuFunc → EmuVal
    void : EmuVal
    stackpos : EmuStackPos → EmuVal
    struct : Status → QualType → (repr_type_id : ℕ) → Members → EmuVal

  pub data Members : Type 0 where
    nil : Members
    cons : EmuVal → Members → Members

abbrev pub emu_size_func : ℕ
emu_size_func = 4 + 4

abbrev pub emu_size_stackpos : ℕ
emu_size_stackpos = 4 + 4 + 4

-- EmuFunc(status_t, QualType)
unfoldable pub func_of_status : Status → QualType → EmuFunc
func_of_status uninitialized t = record {
  status = uninitialized;
  obj_type = t;
  repr_type_id = uninit_id emu_type_func_id;
  func_id = 0;
}
func_of_status s t = record {
  status = s;
  obj_type = t;
  repr_type_id = emu_type_func_id;
  func_id = 0;
}

-- EmuFunc(uint32_t, QualType)
unfoldable pub func_of_id : ℕ → QualType → EmuFunc
func_of_id f t = record {
  status = defined;
  obj_type = t;
  repr_type_id = emu_type_func_id;
  func_id = f;
}

-- The switch of EmuFunc(const void*, QualType). `known` tells the keys of global_functions.
unfoldable pub func_status : (known : ℕ → Bool) → (tag id : ℕ) → Status
func_status known tag id =
    if tag == uninit_id emu_type_func_id
    then uninitialized
    else if tag == emu_type_func_id
    then (if known id then defined else Status.undefined)
    else Status.undefined

-- EmuFunc(const void*, QualType)
unfoldable pub func_of_memory : (known : ℕ → Bool) → List ℕ → QualType → Outcome EmuFunc
func_of_memory known mem qt = elim (read emu_size_func mem) [
  | none ↦ undefined
  | some bytes ↦
      let tag = le_value (take 4 bytes) in
      let id = le_value (drop 4 bytes) in
      ok (record {
        status = func_status known tag id;
        obj_type = qt;
        repr_type_id = tag;
        func_id = id;
      })
]

-- EmuStackPos(unsigned int, unsigned int)
unfoldable pub stackpos_of : (level num : ℕ) → EmuStackPos
stackpos_of l n = record {
  status = defined;
  repr_type_id = emu_type_stackpos_id;
  level = l;
  num = n;
}

unfoldable pub stackpos_status : (tag : ℕ) → Status
stackpos_status tag =
    if tag == uninit_id emu_type_stackpos_id
    then uninitialized
    else if tag == emu_type_stackpos_id
    then defined
    else Status.undefined

-- EmuStackPos(const void*)
unfoldable pub stackpos_of_memory : List ℕ → Outcome EmuStackPos
stackpos_of_memory mem = elim (read emu_size_stackpos mem) [
  | none ↦ undefined
  | some bytes ↦
      let tag = le_value (take 4 bytes) in
      ok (record {
        status = stackpos_status tag;
        repr_type_id = tag;
        level = le_value (take 4 (drop 4 bytes));
        num = le_value (drop 8 bytes);
      })
]

-- EmuStruct(status_t, QualType, unsigned int, const EmuVal**)
unfoldable pub struct_of : Status → QualType → Members → EmuVal
struct_of defined qt m = struct defined qt emu_type_struct_id m
struct_of uninitialized qt m = struct uninitialized qt (uninit_id emu_type_struct_id) m
struct_of Status.undefined qt m = struct Status.undefined qt emu_type_invalid_id m

-- The member obj_type of EmuVal.
unfoldable pub obj_type : EmuVal → QualType
unfolding EmuNum.obj_type
obj_type (num n) = EmuNum.obj_type n
obj_type (ptr p) = p.obj_type
obj_type (func f) = f.obj_type
obj_type void = void_type
obj_type (stackpos p) = va_list
obj_type (struct s qt id m) = qt

-- The member status of EmuVal.
unfoldable pub status : EmuVal → Status
status (num n) = n.status
status (ptr p) = p.status
status (func f) = f.status
status void = defined
status (stackpos p) = p.status
status (struct s qt id m) = s

-- EmuVal::size
unfoldable mutual
  unfolding EmuNum.size

  pub size : EmuVal → Outcome ℕ
  size (num n) = ok (EmuNum.size n.num_type)
  size (ptr p) = ok emu_size_ptr
  size (func f) = ok emu_size_func
  size void = exits (err_exit "Tried to get size of void")
  size (stackpos p) = ok emu_size_stackpos
  size (struct s qt id m) = sum_sizes m >>= λ n. ok (4 + n)

  pub sum_sizes : Members → Outcome ℕ
  sum_sizes nil = ok 0
  sum_sizes (cons v m) = size v >>= λ a. sum_sizes m >>= λ b. ok (a + b)

module _ (o : ApIntOps) (alive : ℕ → Bool) where
  -- EmuVal::dump_repr
  unfoldable mutual
    unfolding EmuNum.dump_repr EmuPtr.dump_repr

    pub dump_repr : EmuVal → Outcome (List ℕ)
    dump_repr (num n) = ok (EmuNum.dump_repr o n)
    dump_repr (ptr p) = EmuPtr.dump_repr alive p
    dump_repr (func f) = ok (le_bytes 4 f.repr_type_id ++ le_bytes 4 f.func_id)
    dump_repr void = exits (err_exit "Tried to write void to memory")
    dump_repr (stackpos p) =
        ok (le_bytes 4 p.repr_type_id ++ (le_bytes 4 p.level ++ le_bytes 4 p.num))
    dump_repr (struct s qt id m) = dump_members m >>= λ bs. ok (le_bytes 4 id ++ bs)

    pub dump_members : Members → Outcome (List ℕ)
    dump_members nil = ok []
    dump_members (cons v m) = dump_repr v >>= λ a. dump_members m >>= λ b. ok (a ++ b)

module _ (o : ApIntOps) where
  -- EmuFunc::cast_to
  unfoldable pub cast_func : EmuFunc → QualType → Outcome EmuVal
  unfolding func_of_id is_function_type
  cast_func f t = if is_function_type t then ok (func (func_of_id f.func_id t)) else exits cant_cast

  -- EmuVal::cast_to. A struct is only cast to its own type, each member to the member's.
  unfoldable mutual
    unfolding cast_func struct_of obj_type same_type EmuNum.cast_to EmuPtr.cast_to

    pub cast_to : EmuVal → QualType → Outcome EmuVal
    cast_to (num n) t = EmuNum.cast_to o n t >>= λ m. ok (num m)
    cast_to (ptr p) t = EmuPtr.cast_to p t >>= λ q. ok (ptr q)
    cast_to (func f) t = cast_func f t
    cast_to void t = exits (err_exit "Tried to cast void")
    cast_to (stackpos p) t = exits cant_cast
    cast_to (struct s qt id m) t =
        let copied = cast_members m >>= λ m'. ok (struct_of s t m') in
        if same_type t qt then copied else exits cant_cast

    pub cast_members : Members → Outcome Members
    cast_members nil = ok nil
    cast_members (cons v m) = cast_to v (obj_type v) >>= λ a. cast_members m >>= λ b. ok (cons a b)
