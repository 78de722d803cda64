-- ===== src/Tests/Blocks.antt =====
-- The blocks of mem.cpp on concrete inputs: a block of eight bytes is made, an int is written into
-- it, its bytes are freed, and it is deleted.
use ctutor.Base.{
  ℕ, ◌+◌, ◌≤◌, ◌≡◌, refl, true, false, none, some, List, [], ◌∷◌, splice, inl, ap, eq_of_some,
  slice, drop, arith, length, ◌==◌, if◌then◌else◌, tabulate,
}
use ctutor.Outcome.{ok, ◌>>=◌}
use ctutor.Machine.ApInt.{sample_ops, sample_laws}
use ctutor.Types.Enums.{Status, NumType, heap, emu_type_int_id}
use ctutor.Types.NumType.{bits_in_num_type, id_from_num_type}
use ctutor.Types.EmuNum
use ctutor.Types.EmuNum.{EmuNum}
use ctutor.Types.EmuNum.Repr.{Fits}
use ctutor.Types.EmuVal
use ctutor.Types.EmuVal.{EmuVal, num}
use ctutor.Rbtree.Heap
use ctutor.Mem.Block.{
  Block, Memory, initial, put, new_block, new_block_id, deref, write, write_block, delete_block,
  alive,
}
use ctutor.Mem.Block.Invariant.{IsValid, limit, initial-IsValid, new_block-IsValid}
use ctutor.Mem.Block.Write.{write_block_frame, of_memory-write_block}
use ctutor.Mem.Block.First.{write_block_first, data_of-ok}
use ctutor.Machine.Bytes.{le_bytes}
use ctutor.Mem.Block.Lifetime.{
  Reach, here, next, allocates, writes, deletes, Reach-IsValid, IsDead, Reach-IsDead,
}

abbrev number : EmuNum
number = record {
  num_type = NumType.int;
  status = Status.defined;
  val = record { width = 32; bits = 1000 };
  repr_type_id = emu_type_int_id;
}

number-Fits : Fits number
unfolding bits_in_num_type
number-Fits = record { width = refl; range = omega arith }

abbrev made_block : Block
made_block = record {
  id = 3;
  size = 8;
  memtype = heap;
  bytes = some (tabulate 8 (λ k. k));
  firsttag = Heap.null;
  tags = Heap.empty;
}

abbrev made : Memory
made = record {
  id_counter = 4;
  blocks = λ j. if 3 == j then some made_block else none;
  active = λ j. if 3 == j then true else false;
}

made_ok : new_block (λ k. k) heap 8 initial ≡ ok (3, made)
unfolding new_block new_block_id
made_ok = refl

abbrev old_bytes : List ℕ
old_bytes = 0 ∷ 1 ∷ 2 ∷ 3 ∷ 4 ∷ 5 ∷ 6 ∷ 7 ∷ []

abbrev new_bytes : List ℕ
new_bytes = 67 ∷ 67 ∷ 67 ∷ 67 ∷ 0 ∷ 0 ∷ 3 ∷ 232 ∷ []

stored_bytes : EmuVal.dump_repr sample_ops (alive made) (num number) ≡ ok new_bytes
unfolding EmuVal.dump_repr EmuNum.dump_repr le_bytes EmuNum.dump_val EmuNum.val_bytes
stored_bytes = refl

write_block_first_example :
    (b' : Block) × (write_block sample_ops (alive made) made_block (num number) 0 ≡ ok b')
    × (b'.bytes ≡ some (splice old_bytes 0 new_bytes))
write_block_first_example =
    write_block_first sample_ops (alive made) made_block (num number) 0 old_bytes new_bytes
      (omega arith) refl refl refl stored_bytes (omega arith)

first_write :
    (b' : Block) × (write_block sample_ops (alive made) made_block (num number) 0 ≡ ok b')
    × (b'.bytes ≡ some (splice old_bytes 0 new_bytes))
first_write =
    write_block_first sample_ops (alive made) made_block (num number) 0 old_bytes new_bytes
      (omega arith) refl refl refl stored_bytes (omega arith)

abbrev written_block : Block
written_block = first_write.0

written_ok : write_block sample_ops (alive made) made_block (num number) 0 ≡ ok written_block
written_ok = first_write.1

write_block_frame_example :
    (old new bytes : List ℕ) × (made_block.bytes ≡ some old)
    × (EmuVal.dump_repr sample_ops (alive made) (num number) ≡ ok new)
    × (written_block.bytes ≡ some bytes)
    × ((n p : ℕ) → p + n ≤ 0 → slice n p bytes ≡ slice n p old)
    × ((p : ℕ) → 0 + length new ≤ p → drop p bytes ≡ drop p old)
    × (written_block.id ≡ 3)
    × (written_block.size ≡ 8)
    × (written_block.memtype ≡ heap)
write_block_frame_example =
    write_block_frame sample_ops (alive made) made_block written_block (num number) 0 (omega arith)
      written_ok

size_of_number : EmuVal.size (num number) ≡ ok 8
unfolding EmuVal.size EmuNum.size bits_in_num_type
size_of_number = refl

of_memory-write_block_example :
    (bytes : List ℕ) × (written_block.bytes ≡ some bytes)
    × (EmuNum.of_memory sample_ops NumType.int (drop 0 bytes) ≡ ok number)
unfolding id_from_num_type
of_memory-write_block_example =
    of_memory-write_block sample_ops sample_laws (alive made) made_block written_block number 0
      (omega arith) (λ old e. omega (arith, ap length (eq_of_some e))) number-Fits refl refl
      written_ok

abbrev written : Memory
written = put made 3 (some written_block)

written_memory : write sample_ops 3 (num number) 0 made ≡ ok written
unfolding write deref
written_memory = ap (λ r. r >>= λ b. ok (put made 3 (some b))) written_ok

-- The state after the block is deleted.
abbrev gone : Memory
gone = record {
  id_counter = 4;
  blocks = λ j. if 3 == j then none else written.blocks j;
  active = λ j. if 3 == j then false else made.active j;
}

gone_ok : delete_block 3 written ≡ ok gone
unfolding delete_block deref
gone_ok = ap (λ r. r >>= λ _. ok gone) (data_of-ok written_block _ first_write.2)

run : Reach sample_ops initial gone
run =
    next
      (next (next here (allocates (λ k. k) heap 8 3 (omega arith) made_ok))
        (writes 3 (num number) 0 written_memory))
      (deletes 3 gone_ok)

Reach-IsValid_example : IsValid gone
Reach-IsValid_example = Reach-IsValid run initial-IsValid

gone-IsValid : IsValid gone
gone-IsValid = Reach-IsValid run initial-IsValid

-- The state after a second block is made.
abbrev again : Memory
again = record {
  id_counter = 5;
  blocks = λ j. if 4 == j then some (record made_block { id = 4 }) else gone.blocks j;
  active = λ j. if 4 == j then true else gone.active j;
}

again_ok : new_block (λ k. k) heap 8 gone ≡ ok (4, again)
unfolding new_block new_block_id
again_ok = refl

gone-IsDead : IsDead gone 3
gone-IsDead = record { given = omega arith; dead = refl }

later_run : Reach sample_ops gone again
later_run = next here (allocates (λ k. k) heap 8 4 (omega arith) again_ok)

Reach-IsDead_example : IsDead again 3
Reach-IsDead_example = Reach-IsDead 3 later_run gone-IsValid gone-IsDead

new_block-IsValid_example :
    IsValid again
    × (4 ≡ limit gone)
    × (limit again ≡ 5)
    × (alive gone 4 ≡ false)
    × (alive again 4 ≡ true)
new_block-IsValid_example =
    new_block-IsValid (λ k. k) heap 8 gone again 4 gone-IsValid (omega arith) again_ok

-- The state in which every id has been given out.
abbrev full : Memory
full = record { id_counter = 0; blocks = λ _. none; active = λ _. false }

full-IsValid : IsValid full
full-IsValid = record {
  counter = inl refl;
  word = omega arith;
  stored = λ i b e. cc;
  registered = λ i. refl;
}
