-- ===== src/Mem/Block.antt =====
-- mem_block and active_mem of mem.h and mem.cpp, and the block ids.
pub mod Invariant
pub mod Write
pub mod Lifetime
pub mod First
use ctutor.Base.{
  ℕ, suc, ◌+◌, ◌-◌, ◌%◌, ◌^◌, Bool, true, false, Option, none, some, List, length, splice, tabulate,
  ltb, ◌==◌, if◌then◌else◌,
}
use ctutor.Outcome.{Outcome, ok, exits, undefined, out_of_fuel, bad_memwrite, err_exit, ◌>>=◌}
use ctutor.Machine.ApInt.{ApIntOps}
use ctutor.Rbtree.Heap
use ctutor.Rbtree.Heap.{Ptr, null, Tree}
use ctutor.Types.Enums.{MemType, freed}
use ctutor.Types.EmuVal
use ctutor.Types.EmuVal.{EmuVal}
use ctutor.Mem.Tag.{MemTag, sub_size, size_t}
use ctutor.Mem.TagUpdate.{update_tag_write}

-- `bytes` is `none` once the array is deleted.
pub record Block : Type 0 where
  pub id : ℕ
  pub size : ℕ
  pub memtype : MemType
  pub bytes : Option (List ℕ)
  pub firsttag : Ptr
  pub tags : Tree MemTag

-- The mem_block objects, each at an address that is its id: an id is given out once.
-- `active` holds the keys of active_mem.
pub record Memory : Type 0 where
  pub id_counter : ℕ
  pub blocks : ℕ → Option Block
  pub active : ℕ → Bool

abbrev pub block_id_start : ℕ
block_id_start = 3

-- The state before the program runs.
abbrev pub initial : Memory
initial = record { id_counter = block_id_start; blocks = λ _. none; active = λ _. false }

abbrev pub put : Memory → ℕ → Option Block → Memory
put m i b = record m { blocks = λ j. if i == j then b else m.blocks j }

-- new_block_id
unfoldable pub new_block_id : Memory → Outcome (ℕ × Memory)
new_block_id m =
    if m.id_counter == 0
    then exits (err_exit "Too many allocations")
    else ok (m.id_counter, record m { id_counter = (m.id_counter + 1) % 2 ^ 32 })

-- mem_block::mem_block(mem_type_t, size_t). `fill` is what the new bytes happen to hold.
unfoldable pub new_block : (fill : ℕ → ℕ) → MemType → (size : ℕ) → Memory → Outcome (ℕ × Memory)
new_block fill t s m = do
  (id, m') ← new_block_id m
  let b : Block = record {
    id = id;
    size = s;
    memtype = t;
    bytes = some (tabulate s fill);
    firsttag = null;
    tags = Heap.empty;
  }
  ok (id, record (put m' id (some b)) { active = λ j. if id == j then true else m.active j })

-- The block behind a pointer, undefined for one that is deleted.
unfoldable pub deref : Memory → ℕ → Outcome Block
deref m i = elim (m.blocks i) [ none ↦ undefined | some b ↦ ok b ]

abbrev pub alive : Memory → ℕ → Bool
alive m i = elim (m.blocks i) [ none ↦ false | some _ ↦ true ]

-- The bytes of a block, undefined once they are deleted.
unfoldable pub data_of : Block → Outcome (List ℕ)
data_of b = elim b.bytes [ none ↦ undefined | some bytes ↦ ok bytes ]

-- The tag update of a block, as a computation on the block.
unfoldable pub tagged : Outcome (Ptr × Tree MemTag) → Block → Outcome Block
tagged (ok (first, tags)) b = ok (record b { firsttag = first; tags = tags })
tagged (exits e) b = exits e
tagged undefined b = undefined
tagged out_of_fuel b = out_of_fuel

module _ (o : ApIntOps) where
  -- The part of mem_block::write behind its tests: the bytes, then the tags.
  unfoldable pub store : (alive : ℕ → Bool) → Block → EmuVal → (size offset : ℕ) → Outcome Block
  store alive b obj size offset = do
    bytes ← data_of b
    new ← EmuVal.dump_repr o alive obj
    tagged
        (update_tag_write (suc (suc b.tags.fresh)) (EmuVal.obj_type obj) size offset b.firsttag
          b.tags)
        (record b { bytes = some (splice bytes offset new) })

  -- mem_block::write
  unfoldable pub write_block : (alive : ℕ → Bool) → Block → EmuVal → (offset : ℕ) → Outcome Block
  write_block alive b obj offset = if ltb b.size offset then exits bad_memwrite else do
    size ← EmuVal.size obj
    let stored = store alive b obj size offset
    if ltb (sub_size b.size offset) size then exits bad_memwrite else stored

  unfoldable pub write : (block : ℕ) → EmuVal → (offset : ℕ) → Memory → Outcome Memory
  write i obj offset m = do
    b ← deref m i
    b' ← write_block (alive m) b obj offset
    ok (put m i (some b'))

  -- mem_block::mem_block(mem_type_t, const EmuVal*). The size that it hands on is a size_t.
  unfoldable pub new_block_with : (fill : ℕ → ℕ) → MemType → EmuVal → Memory → Outcome (ℕ × Memory)
  new_block_with fill t obj m = do
    s ← EmuVal.size obj
    (id, m') ← new_block fill t (s % size_t) m
    m'' ← write id obj 0 m'
    ok (id, m'')

-- mem_block::free; a second delete of the bytes is undefined.
unfoldable pub free : (block : ℕ) → Memory → Outcome Memory
free i m = do
  b ← deref m i
  _ ← data_of b
  ok (put m i (some (record b { memtype = freed; bytes = none })))

-- mem_block::~mem_block, on `delete block`
unfoldable pub delete_block : (block : ℕ) → Memory → Outcome Memory
delete_block i m = do
  b ← deref m i
  _ ← data_of b
  ok (record (put m i none) { active = λ j. if i == j then false else m.active j })
