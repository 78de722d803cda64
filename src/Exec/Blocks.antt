-- ===== src/Exec/Blocks.antt =====
-- The operations of mem.cpp on blocks, and reads and writes through pointers to bytes, as commands.
use ctutor.Base.{ℕ, ◌+◌, ◌%◌, Option, none, some, List, length, splice, drop, leb, if◌then◌else◌}
use ctutor.Outcome.{Outcome, ok, undefined, ◌>>=◌}
use ctutor.Types.Enums.{MemType}
use ctutor.Types.EmuVal
use ctutor.Types.EmuVal.{EmuVal}
use ctutor.Mem.Tag.{size_t}
use ctutor.Mem.Block
use ctutor.Mem.Block.{
  Block, Memory, alive, deref, data_of, put, new_block, new_block_with, delete_block,
}
use ctutor.Exec.{Host, Exec, asks, on_memory}

-- The block behind a pointer, undefined for a null pointer and for a deleted block.
unfoldable pub block_of : Option ℕ → Memory → Outcome Block
unfolding deref
block_of none m = undefined
block_of (some i) m = deref m i

unfoldable pub block_at : Option ℕ → Exec Block
unfolding asks block_of
block_at p = asks (λ s. block_of p s.memory)

-- The bytes from data[offset] on, undefined where the block or its bytes are gone, or the offset lies
-- outside of them.
unfoldable pub bytes_in : Block → ℕ → Outcome (List ℕ)
unfolding data_of
bytes_in b offset =
    data_of b >>= λ bytes. if leb offset (length bytes) then ok (drop offset bytes) else undefined

unfoldable pub bytes_at : Option ℕ → (offset : ℕ) → Exec (List ℕ)
unfolding asks block_of bytes_in
bytes_at p offset = asks (λ s. block_of p s.memory >>= λ b. bytes_in b offset)

-- Bytes stored at data[offset] without mem_block::write; undefined outside of the block.
unfoldable pub poke : Block → (offset : ℕ) → List ℕ → Outcome Block
unfolding data_of
poke b offset new = data_of b >>= λ bytes.
    if leb (offset + length new) (length bytes)
    then ok (record b { bytes = some (splice bytes offset new) })
    else undefined

unfoldable pub store_in : ℕ → (offset : ℕ) → List ℕ → Memory → Outcome (Unit {0} × Memory)
unfolding deref poke
store_in i offset new m = deref m i >>= λ b. poke b offset new >>= λ b'. ok (tt, put m i (some b'))

unfoldable pub store_bytes : Option ℕ → (offset : ℕ) → List ℕ → Exec (Unit {0})
unfolding on_memory store_in
store_bytes none offset new = asks (λ _. undefined)
store_bytes (some i) offset new = on_memory (store_in i offset new)

-- block->memtype = t
unfoldable pub set_memtype_in : ℕ → MemType → Memory → Outcome (Unit {0} × Memory)
unfolding deref
set_memtype_in i t m = deref m i >>= λ b. ok (tt, put m i (some (record b { memtype = t })))

unfoldable pub set_memtype : ℕ → MemType → Exec (Unit {0})
unfolding on_memory set_memtype_in
set_memtype i t = on_memory (set_memtype_in i t)

-- delete block; nothing happens for a null pointer.
unfoldable pub delete_in : ℕ → Memory → Outcome (Unit {0} × Memory)
delete_in i m = delete_block i m >>= λ m'. ok (tt, m')

module _ (h : Host) where
  -- new mem_block(t, size); the size is a size_t.
  unfoldable pub alloc : MemType → (size : ℕ) → Exec ℕ
  unfolding on_memory
  alloc t size = on_memory (new_block h.fill t (size % size_t))

  -- new mem_block(t, obj)
  unfoldable pub alloc_with : MemType → EmuVal → Exec ℕ
  unfolding on_memory
  alloc_with t obj = on_memory (new_block_with h.ops h.fill t obj)

  unfoldable pub write_in : ℕ → EmuVal → (offset : ℕ) → Memory → Outcome (Unit {0} × Memory)
  write_in i obj offset m = Block.write h.ops i obj offset m >>= λ m'. ok (tt, m')

  -- block->write(obj, offset)
  unfoldable pub write : Option ℕ → EmuVal → (offset : ℕ) → Exec (Unit {0})
  unfolding on_memory write_in
  write none obj offset = asks (λ _. undefined)
  write (some i) obj offset = on_memory (write_in i obj offset)

  -- obj->dump_repr
  unfoldable pub dump : EmuVal → Exec (List ℕ)
  unfolding asks
  dump v = asks (λ s. EmuVal.dump_repr h.ops (alive s.memory) v)
