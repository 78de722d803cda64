-- ===== src/External.antt =====
-- external.cpp: the functions that the interpreter implements itself.
use Prim.Native.String.{String}
use text.Mathlib.Text.{◌==◌ as str_eq}
use ctutor.Base.{
  ℕ, Bool, true, false, Option, none, some, [], ◌∷◌, length, ltb, ◌==◌, if◌then◌else◌,
}
use ctutor.Outcome.{Outcome, ok, exits, undefined, err_exit, err_undef}
use ctutor.Types.Enums.{Status, defined, heap}
use ctutor.Types.QualType.{QualType, Kind, builtin, pointer, same_type, is_pointer_type, void_type}
use ctutor.Types.EmuPtr.{EmuPtr, block, nullptr, of_mem_ptr}
use ctutor.Types.EmuVal
use ctutor.Types.EmuVal.{
  EmuVal, ptr, func, void, EmuFunc, EmuStackPos, stackpos, func_of_id, stackpos_of_memory,
  emu_size_stackpos,
}
use ctutor.Mem.Tag.{add_size}
use ctutor.Mem.Stack.{Lvalue, Frame, at, var_at}
use ctutor.Exec.{Host, Exec, pure, raise, asks, lift, on_memory, ◌>>=◌, ◌>>◌}
use ctutor.Exec.Blocks.{block_at, bytes_at, store_bytes, delete_in, alloc, dump}
use ctutor.Cast.Load.{as_num}
use ctutor.Cast.FromLvalue.{from_lvalue}

abbrev pub num_external_functions : ℕ
num_external_functions = 3

-- impl_ids
unfoldable pub impl_id : String → Option ℕ
impl_id s =
    if str_eq s "malloc"
    then some 0
    else if str_eq s "free"
    then some 1
    else if str_eq s "__builtin_va_start"
    then some 2
    else none

unfoldable pub get_external_func : String → QualType → Outcome EmuFunc
unfolding impl_id func_of_id
get_external_func s qt = elim (impl_id s) [
  | none ↦ exits (err_exit "External function not implemented")
  | some id ↦ ok (func_of_id id qt)
]

-- impl_list[id].second
unfoldable pub is_lvalue_based_macro : ℕ → Outcome Bool
is_lvalue_based_macro id = if ltb id 2 then ok false else if id == 2 then ok true else undefined

-- stack_vars.back()
unfoldable pub top_frame : Exec Frame
unfolding asks
top_frame = asks (λ s. elim s.scopes.stack_vars [ [] ↦ undefined | frame ∷ _ ↦ ok frame ])

-- vars[n].second, the variable declared after `n` others
unfoldable pub nth_var : Frame → ℕ → Outcome Lvalue
nth_var vars n = elim (at vars n) [ none ↦ undefined | some (name, loc) ↦ ok loc ]

-- The object behind a pointer to EmuVal that the code takes for an EmuPtr.
unfoldable pub as_ptr : EmuVal → Outcome EmuPtr
as_ptr (ptr p) = ok p
as_ptr _ = undefined

-- u.block, undefined where the union holds something else.
unfoldable pub pointee_block : EmuPtr → Outcome (Option ℕ)
pointee_block p = elim p.target [ block i ↦ ok (some i) | nullptr ↦ ok none | _ ↦ undefined ]

abbrev is_defined : Status → Bool
is_defined defined = true
is_defined _ = false

-- delete block
unfoldable pub delete_pointed : Option ℕ → Exec (Unit {0})
unfolding on_memory delete_in
delete_pointed none = pure tt
delete_pointed (some i) = on_memory (delete_in i)

-- EmuStackPos(&data[offset])
unfoldable pub stackpos_at : Lvalue → Exec EmuStackPos
stackpos_at l = do bytes ← bytes_at l.block l.offset; lift (stackpos_of_memory bytes)

module _ (h : Host) where
  unfoldable pub emu_va_start : Exec EmuVal
  unfolding top_frame nth_var stackpos_at
  emu_va_start = do
    vars ← top_frame
    if ltb (length vars) 2 then raise (err_exit "va_start requires 2 arguments") else do
      to_loc ← lift (nth_var vars 0)
      from_loc ← lift (nth_var vars 1)
      to ← stackpos_at to_loc
      from ← stackpos_at from_loc
      storage ← asks (λ s. var_at s.scopes.stack_vars (to.level, to.num))
      b ← block_at storage.block
      if ltb b.size (add_size storage.offset emu_size_stackpos)
          then raise (err_exit "Not enough size for va_list storage")
          else do
            bytes ← dump h (stackpos from)
            store_bytes storage.block storage.offset bytes
            pure void

module _ (h : Host) (eval_size : ℕ → Exec EmuVal) where
  unfoldable pub emu_malloc : Exec EmuVal
  unfolding top_frame nth_var from_lvalue as_num
  emu_malloc = do
    vars ← top_frame
    if length vars == 0 then raise (err_exit "Malloc requires an argument") else do
      loc ← lift (nth_var vars 0)
      arg ← from_lvalue h eval_size loc
      if same_type (EmuVal.obj_type arg) (builtin Kind.ulong)
          then (do
            n ← lift (as_num arg)
            if is_defined n.status
                then (do
                  b ← alloc h heap n.val.bits
                  pure (ptr (of_mem_ptr (block b) 0 (pointer void_type))))
                else raise err_undef)
          else raise (err_exit "Malloc requires an unsigned long\n")

  unfoldable pub emu_free : Exec EmuVal
  unfolding top_frame nth_var from_lvalue as_ptr pointee_block delete_pointed
  emu_free = do
    vars ← top_frame
    if length vars == 0 then raise (err_exit "Free requires an argument") else do
      loc ← lift (nth_var vars 0)
      arg ← from_lvalue h eval_size loc
      if is_pointer_type (EmuVal.obj_type arg)
          then (do
            p ← lift (as_ptr arg)
            if is_defined p.status
                then (do b ← lift (pointee_block p); delete_pointed b; pure void)
                else raise err_undef)
          else raise (err_exit "Free requires a pointer")

  -- call_external
  unfoldable pub call_external : ℕ → Exec EmuVal
  unfolding emu_malloc emu_free emu_va_start
  call_external id =
      if id == 0
      then emu_malloc
      else if id == 1
      then emu_free
      else if id == 2
      then emu_va_start h
      else lift undefined
