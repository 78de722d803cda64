-- ===== src/Types/EmuPtr/Repr.antt =====
-- The stored form of pointers.
use ctutor.Base.{
  ℕ, ◌^◌, ◌<◌, ◌≡◌, ◌≢◌, refl, sym, ap, ap₂, ◌∙◌, Bool, true, false, List, ◌++◌, arith, take, drop,
  length, length-drop, take-append-drop, drop-drop,
}
use ctutor.Outcome.{ok}
use ctutor.Machine.Bytes.{
  le_bytes, le_value, read, read-append, read-length, IsBytes, IsBytes-drop, le_bytes-take,
  le_bytes-whole, le_value-le_bytes_four, le_value-le_bytes_eight,
}
use ctutor.Types.Enums.{Status, emu_type_ptr_id, uninit_id}
use ctutor.Types.QualType.{QualType}
use ctutor.Types.EmuPtr.{
  EmuPtr, block, nullptr, repr, emu_size_ptr, block_id_null, stored, decode, of_memory, of_mem_ptr,
  dump_repr,
}

-- What is read from the stored form of a tag, an id and an offset.
of_memory-stored :
    (active : ℕ → Bool) (tag id offset : ℕ) (rest : List ℕ) (qt : QualType)
    → tag < 2 ^ 32
    → id < 2 ^ 32
    → offset < 2 ^ 64
    → of_memory active (stored tag id offset ++ rest) qt ≡ ok (decode active tag id offset qt)
unfolding of_memory stored le_bytes
of_memory-stored active tag id offset rest qt ht hi ho =
    rw (read-append 16 (stored tag id offset) rest refl, of_memory)
      (rw
        (
          le_value-le_bytes_four tag ht,
          le_value-le_bytes_four id hi,
          le_value-le_bytes_eight offset ho,
        )
        refl)

-- A pointer to a block that is alive and registered, with an id of 32 bits and an offset of 64,
-- can be stored, and read back at its type it is the same pointer.
pub of_memory-dump_repr_block :
    (active alive : ℕ → Bool) (b offset : ℕ) (qt : QualType) (rest : List ℕ)
    → b < 2 ^ 32
    → offset < 2 ^ 64
    → alive b ≡ true
    → active b ≡ true
    → let p = of_mem_ptr (block b) offset qt in
      (bytes : List ℕ) × (dump_repr alive p ≡ ok bytes)
      × (of_memory active (bytes ++ rest) qt ≡ ok p)
unfolding dump_repr of_mem_ptr decode
of_memory-dump_repr_block active alive b offset qt rest hb ho live found = (
  stored emu_type_ptr_id b offset,
  rw live,
  of_memory-stored active emu_type_ptr_id b offset rest qt (omega arith) hb ho ∙ rw found,
)

-- A null pointer with an offset of 64 bits can be stored, and read back it comes out undefined,
-- with the offset that it had, as long as no registered block has the id of the null pointer.
pub of_memory-dump_repr_null :
    (active alive : ℕ → Bool) (offset : ℕ) (qt : QualType) (rest : List ℕ)
    → offset < 2 ^ 64
    → active block_id_null ≡ false
    → (bytes : List ℕ) × (dump_repr alive (of_mem_ptr nullptr offset qt) ≡ ok bytes)
      × (of_memory active (bytes ++ rest) qt
          ≡ ok (record {
            status = Status.undefined;
            obj_type = qt;
            target = repr emu_type_ptr_id block_id_null;
            offset = offset;
          }))
unfolding dump_repr of_mem_ptr decode
of_memory-dump_repr_null active alive offset qt rest ho unused = (
  stored emu_type_ptr_id block_id_null offset,
  refl,
  of_memory-stored active emu_type_ptr_id block_id_null offset rest qt (omega arith) (omega arith)
        ho
      ∙ rw unused,
)

decode-dump :
    (active alive : ℕ → Bool) (tag id offset : ℕ) (qt : QualType)
    → tag ≢ uninit_id emu_type_ptr_id
    → ((b : ℕ) → active b ≡ true → alive b ≡ true)
    → dump_repr alive (decode active tag id offset qt) ≡ ok (stored tag id offset)
unfolding dump_repr decode
decode-dump active alive tag id offset qt known live = ground (arith, live id)

stored-le_value :
    (mem : List ℕ)
    → IsBytes mem
    → length mem ≡ emu_size_ptr
    → stored (le_value (take 4 mem)) (le_value (take 4 (drop 4 mem))) (le_value (drop 8 mem)) ≡ mem
unfolding stored
stored-le_value mem h len =
    let rest = drop 4 mem in
    let four : length rest ≡ 12 = omega (arith, length-drop {0} 4 mem) in
    let eight : length (drop 8 mem) ≡ 8 = omega (arith, length-drop {0} 8 mem) in
    let offset : le_bytes 8 (le_value (drop 8 mem)) ≡ drop 4 rest =
      le_bytes-whole 8 (drop 8 mem) (IsBytes-drop 8 mem h) eight ∙ sym (drop-drop 4 4 mem) in
    ap₂ (λ x y. x ++ y) (le_bytes-take 4 mem h (omega arith))
      (ap₂ (λ x y. x ++ y) (le_bytes-take 4 rest (IsBytes-drop 4 mem h) (omega arith)) offset
        ∙ take-append-drop 4 rest)
    ∙ take-append-drop 4 mem

-- Where every registered block is alive, a pointer is read from any bytes that are as many as its
-- size, and unless they carry the tag of an uninitialized pointer, storing it gives those bytes
-- again, whether or not they point at a block.
pub dump_repr-of_memory_ptr :
    (active alive : ℕ → Bool) (mem : List ℕ) (qt : QualType)
    → IsBytes mem
    → length mem ≡ emu_size_ptr
    → le_value (take 4 mem) ≢ uninit_id emu_type_ptr_id
    → ((b : ℕ) → active b ≡ true → alive b ≡ true)
    → (p : EmuPtr) × (of_memory active mem qt ≡ ok p) × (dump_repr alive p ≡ ok mem)
unfolding of_memory
dump_repr-of_memory_ptr active alive mem qt h len known live =
    let tag = le_value (take 4 mem) in
    let id = le_value (take 4 (drop 4 mem)) in
    let offset = le_value (drop 8 mem) in
    (
      decode active tag id offset qt,
      rw (ap (λ k. read k mem) (sym len) ∙ read-length mem, of_memory),
      decode-dump active alive tag id offset qt known live ∙ ap ok (stored-le_value mem h len),
    )
