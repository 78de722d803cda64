-- ===== src/Types/EmuPtr.antt =====
-- EmuPtr of types.h and types.cpp: pointers as a segment, which is a block, and an offset.
pub mod Repr
use ctutor.Base.{
  ℕ, ◌+◌, ◌-◌, ◌^◌, Bool, true, false, ◌||◌, none, some, List, ◌++◌, ◌==◌, if◌then◌else◌, take,
  drop,
}
use ctutor.Outcome.{Outcome, ok, exits, undefined, Error}
use ctutor.Machine.Bytes.{le_bytes, le_value, read}
use ctutor.Types.Enums.{Status, uninitialized, defined, emu_type_ptr_id, uninit_id}
use ctutor.Types.QualType.{QualType, is_pointer_type, is_array_type}

abbrev pub block_id_null : ℕ
block_id_null = 1

abbrev pub block_id_invalid : ℕ
block_id_invalid = 2

abbrev pub size_max : ℕ
size_max = 2 ^ 64 - 1

-- The union `u`: a block, known by its id, the null pointer, the tag and the id of an undefined
-- pointer, or nothing, where no constructor assigned it.
pub data Target : Type 0 where
  block : ℕ → Target
  nullptr : Target
  repr : (type_id block_id : ℕ) → Target
  unset : Target

pub record EmuPtr : Type 0 where
  pub status : Status
  pub obj_type : QualType
  pub target : Target
  pub offset : ℕ

-- EMU_SIZE_PTR
abbrev pub emu_size_ptr : ℕ
emu_size_ptr = 4 + 4 + 8

-- EmuPtr(status_t, QualType)
unfoldable pub of_status : Status → QualType → EmuPtr
of_status s t = record { status = s; obj_type = t; target = unset; offset = 0 }

-- EmuPtr(mem_ptr, QualType)
unfoldable pub of_mem_ptr : Target → (offset : ℕ) → QualType → EmuPtr
of_mem_ptr b o t = record { status = defined; obj_type = t; target = b; offset = o }

-- EmuPtr(const void*, QualType) on the tag, the id and the offset that it reads. `active` tells
-- which ids are keys of active_mem.
unfoldable pub decode : (active : ℕ → Bool) → (tag id offset : ℕ) → QualType → EmuPtr
decode active tag id offset qt =
    if tag == uninit_id emu_type_ptr_id
    then record { status = uninitialized; obj_type = qt; target = repr tag id; offset = offset }
    else if tag == emu_type_ptr_id
    then (if active id
        then record { status = defined; obj_type = qt; target = block id; offset = offset }
        else record {
          status = Status.undefined;
          obj_type = qt;
          target = repr tag id;
          offset = offset;
        })
    else record { status = Status.undefined; obj_type = qt; target = repr tag id; offset = offset }

unfoldable pub of_memory : (active : ℕ → Bool) → List ℕ → QualType → Outcome EmuPtr
of_memory active mem qt = elim (read emu_size_ptr mem) [
  | none ↦ undefined
  | some bytes ↦ ok (
      decode active (le_value (take 4 bytes)) (le_value (take 4 (drop 4 bytes)))
        (le_value (drop 8 bytes)) qt)
]

unfoldable pub stored : (tag id offset : ℕ) → List ℕ
stored tag id offset = le_bytes 4 tag ++ (le_bytes 4 id ++ le_bytes 8 offset)

-- The bytes that dump_repr stores for each state and union member. `alive` tells which blocks are
-- not deleted: block->id of a deleted one is undefined, and so is a member never assigned.
unfoldable pub dump_as : (alive : ℕ → Bool) → Status → Target → (offset : ℕ) → Outcome (List ℕ)
dump_as alive uninitialized u offset =
    ok (stored (uninit_id emu_type_ptr_id) block_id_invalid size_max)
dump_as alive defined nullptr offset = ok (stored emu_type_ptr_id block_id_null offset)
dump_as alive defined (block b) offset =
    if alive b then ok (stored emu_type_ptr_id b offset) else undefined
dump_as alive Status.undefined (repr t b) offset = ok (stored t b offset)
dump_as alive _ _ offset = undefined

-- EmuPtr::dump_repr
unfoldable pub dump_repr : (alive : ℕ → Bool) → EmuPtr → Outcome (List ℕ)
unfolding dump_as
dump_repr alive p = dump_as alive p.status p.target p.offset

-- EmuPtr::cast_to. It reads u.block, which only a pointer to a block or a null pointer has.
unfoldable pub cast_target : Target → (offset : ℕ) → QualType → Outcome EmuPtr
unfolding of_mem_ptr
cast_target (block b) offset t = ok (of_mem_ptr (block b) offset t)
cast_target nullptr offset t = ok (of_mem_ptr nullptr offset t)
cast_target _ offset t = undefined

unfoldable pub cast_to : EmuPtr → QualType → Outcome EmuPtr
unfolding cast_target is_pointer_type is_array_type
cast_to p t =
    if is_pointer_type t || is_array_type t
    then cast_target p.target p.offset t
    else exits Error.cant_cast
