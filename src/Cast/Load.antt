-- ===== src/Cast/Load.antt =====
-- from_lvalue and newarr of cast.cpp, and the constructor EmuStruct(lvalue) of types.cpp: the value
-- at a place, or, for a null pointer, a fresh value of the type.
use ctutor.Base.{
  ℕ, zero, suc, ◌+◌, ◌*◌, ◌/◌, ◌%◌, Bool, true, false, Option, none, some, ltb, ◌==◌, if◌then◌else◌,
}
use ctutor.Outcome.{Outcome, ok, undefined, cant_handle, bad_memread, err_exit}
use ctutor.Types.Enums.{uninitialized, MemType, freed, stack, global}
use ctutor.Types.QualType.{QualType, Kind, builtin}
use ctutor.Types.NumType.{get_num_type, bytes_in_num_type}
use ctutor.Types.EmuNum
use ctutor.Types.EmuNum.{EmuNum}
use ctutor.Types.EmuPtr
use ctutor.Types.EmuPtr.{emu_size_ptr, block, of_mem_ptr, size_max}
use ctutor.Types.EmuVal
use ctutor.Types.EmuVal.{
  EmuVal, num, ptr, func, void, stackpos, struct, Members, nil, cons, emu_size_func, func_of_status,
  func_of_memory,
}
use ctutor.Mem.Tag.{size_t, sub_size}
use ctutor.Exec.{Host, Exec, pure, raise, asks, lift, ◌>>=◌, ◌>>◌}
use ctutor.Exec.Blocks.{block_at, bytes_at, alloc, write}

-- The object behind a pointer to EmuVal that the code takes for an EmuNum.
unfoldable pub as_num : EmuVal → Outcome EmuNum
as_num (num n) = ok n
as_num _ = undefined

-- What is done for an int only.
unfoldable pub if_int : {A : Type 0} → QualType → Exec A → Exec A
if_int (builtin Kind.int) m = m
if_int _ m = raise cant_handle

abbrev pub is_freed : MemType → Bool
is_freed freed = true
is_freed _ = false

-- The tests of from_lvalue on the place, and the room behind it; `none` for a null pointer.
unfoldable pub room : Option ℕ → (offset : ℕ) → Exec (Option ℕ)
room none offset = pure none
room (some i) offset = do
  b ← block_at (some i)
  if is_freed b.memtype
      then raise (err_exit "Tried to load from freed memory\n")
      else if ltb b.size offset
      then raise (err_exit "Tried to read from invalid location\n")
      else pure (some (sub_size b.size offset))

module _ (h : Host) where
  unfoldable pub load_num : QualType → Option ℕ → (offset : ℕ) → Option ℕ → Exec EmuVal
  load_num qt p offset none = do
    t ← lift (get_num_type qt)
    pure (num (EmuNum.of_status h.ops t uninitialized))
  load_num qt p offset (some space) = do
    t ← lift (get_num_type qt)
    if ltb space (bytes_in_num_type t)
        then raise bad_memread
        else do bytes ← bytes_at p offset; n ← lift (EmuNum.of_memory h.ops t bytes); pure (num n)

  -- new EmuPtr(loc, l.type) behind its test, for pointers and for arrays that are there
  unfoldable pub load_ptr : QualType → Option ℕ → (offset space : ℕ) → Exec EmuVal
  load_ptr qt p offset space = if ltb space emu_size_ptr then raise bad_memread else do
    bytes ← bytes_at p offset
    active ← asks (λ s. ok s.memory.active)
    q ← lift (EmuPtr.of_memory active bytes qt)
    pure (ptr q)

  unfoldable pub load_func : QualType → Option ℕ → (offset : ℕ) → Option ℕ → Exec EmuVal
  load_func qt p offset none = pure (func (func_of_status uninitialized qt))
  load_func qt p offset (some space) = if ltb space emu_size_func then raise bad_memread else do
    bytes ← bytes_at p offset
    known ← asks (λ s. ok (λ id. elim (s.global_functions id) [ none ↦ false | some _ ↦ true ]))
    f ← lift (func_of_memory known bytes qt)
    pure (func f)

  -- The loop of newarr.
  unfoldable pub write_copies : (rounds : ℕ) → (block : ℕ) → EmuVal → (size i : ℕ) → Exec (Unit {0})
  write_copies zero b sub s i = pure tt
  write_copies (suc n) b sub s i = do write h (some b) sub i; write_copies n b sub s (i + s)

  -- newarr, given the command that makes an element
  unfoldable pub newarr : QualType → Exec EmuVal → (count : ℕ) → Exec EmuVal
  unfolding write_copies
  newarr arrtype element count = do
    sub ← element
    n ← lift (EmuVal.size sub)
    let s = n % size_t
    if s == 0
        then raise (err_exit "Tried to create array of zero-size objects")
        else if ltb (size_max / s) count
        then raise (err_exit "Array size overflow")
        else do
          t ← asks (λ st. ok (if st.static_init then global else stack))
          b ← alloc h t (s * count)
          write_copies count b sub s 0
          pure (ptr (of_mem_ptr (block b) 0 arrtype))

  -- The tests on the size of a variable array.
  unfoldable pub array_count : EmuVal → Exec ℕ
  unfolding as_num if_int
  array_count v = if_int (EmuVal.obj_type v) (do
    n ← lift (as_num v)
    if h.ops.is_negative n.val
        then raise (err_exit "Tried to create negative length array\n")
        else if ltb size_max n.val.bits
        then raise (err_exit "Requested array size too big\n")
        else pure n.val.bits)

  unfoldable pub load_array :
      QualType → Exec EmuVal → Option ℕ → (offset : ℕ) → Option ℕ → Exec EmuVal
  unfolding load_ptr
  load_array qt fresh p offset none = fresh
  load_array qt fresh p offset (some space) = load_ptr qt p offset space
