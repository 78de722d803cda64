-- ===== src/Mem/Block/Write.antt =====
-- What mem_block::write does to a block.
use ctutor.Base.{
  ℕ, ◌+◌, ◌≤◌, ◌<◌, ◌≡◌, sym, ◌∙◌, Bool, true, false, some, List, length, splice, slice, drop,
  arith, ltb, if◌then◌else◌, ◌==◌, ap, ◌++◌, inl, inr, ltb-cases, drop-splice_self,
  slice-splice_below, drop-splice_above,
}
use ctutor.Types.Enums.{Status, defined, emu_type_int_id}
use ctutor.Types.NumType.{id_from_num_type}
use ctutor.Types.EmuNum
use ctutor.Types.EmuNum.{EmuNum, of_memory}
use ctutor.Types.EmuNum.Repr.{Fits, of_memory-dump_repr_own}
use ctutor.Outcome.{
  Outcome, ok, exits, undefined, out_of_fuel, bad_memwrite, >>=-ok_parts, guard-ok, ok-injective,
}
use ctutor.Machine.ApInt.{ApIntOps, ApIntLaws}
use ctutor.Rbtree.Heap.{Ptr, Tree}
use ctutor.Types.EmuVal
use ctutor.Types.EmuVal.{EmuVal, num}
use ctutor.Types.EmuVal.Size.{size-dump_repr}
use ctutor.Mem.Tag.{MemTag, sub_size, size_t}
use ctutor.Mem.Block.{Block, tagged, store, write_block, data_of}

-- A write that completes: what it stored, and over which bytes.
pub record Written (o : ApIntOps) (alive : ℕ → Bool) (b : Block) (obj : EmuVal) (offset : ℕ)
    (b' : Block) : Type 0 where
  pub old : List ℕ
  pub new : List ℕ
  pub had : b.bytes ≡ some old
  pub dumped : EmuVal.dump_repr o alive obj ≡ ok new
  pub inside : offset + length new ≤ b.size
  pub bytes : b'.bytes ≡ some (splice old offset new)
  pub id : b'.id ≡ b.id
  pub size : b'.size ≡ b.size
  pub memtype : b'.memtype ≡ b.memtype

tagged-bytes :
    (r : Outcome (Ptr × Tree MemTag)) (b b' : Block)
    → tagged r b ≡ ok b'
    → (b'.bytes ≡ b.bytes) × (b'.id ≡ b.id) × (b'.size ≡ b.size) × (b'.memtype ≡ b.memtype)
unfolding tagged
tagged-bytes (ok (first, tags)) b b' e = ground arith
tagged-bytes (exits err) b b' e = cc
tagged-bytes undefined b b' e = cc
tagged-bytes out_of_fuel b b' e = cc

pub data_of-some : (b : Block) (bytes : List ℕ) → data_of b ≡ ok bytes → b.bytes ≡ some bytes
unfolding data_of
data_of-some b bytes e = ground arith

inside_of_tests :
    (s offset n k : ℕ)
    → s < size_t
    → ltb s offset ≡ false
    → ltb (sub_size s offset) n ≡ false
    → n ≡ k
    → offset + k ≤ s
inside_of_tests s offset n k small start end e = ground arith

module _ (o : ApIntOps) (alive : ℕ → Bool) where
  -- A write that completes stored the bytes of the object inside a block whose bytes are not
  -- deleted, and changed nothing else of the block but its tags.
  pub write_block-Written :
      (b b' : Block) (obj : EmuVal) (offset : ℕ)
      → b.size < size_t
      → write_block o alive b obj offset ≡ ok b'
      → Written o alive b obj offset b'
  unfolding write_block store
  write_block-Written b b' obj offset small e =
      let (start, checked) = guard-ok (ltb b.size offset) _ _ e in
      let (n, sized, rest) = >>=-ok_parts (EmuVal.size obj) _ checked in
      let (end, stored) = guard-ok (ltb (sub_size b.size offset) n) _ _ rest in
      let (old, had, more) = >>=-ok_parts (data_of b) _ stored in
      let (new, dumped, last) = >>=-ok_parts (EmuVal.dump_repr o alive obj) _ more in
      let kept = tagged-bytes _ _ b' last in
      let measured : n ≡ length new =
        ok-injective (sym sized ∙ size-dump_repr o alive obj new dumped) in
      record {
        old = old;
        new = new;
        had = data_of-some b old had;
        dumped = dumped;
        inside = inside_of_tests b.size offset n (length new) small start end measured;
        bytes = kept.0;
        id = kept.1;
        size = kept.2;
        memtype = kept.3;
      }

  -- A write that completes, into a block whose size is a size_t, changes no byte in front of the
  -- object and none behind it, and leaves the id, the size and the kind of the block.
  pub write_block_frame :
      (b b' : Block) (obj : EmuVal) (offset : ℕ)
      → b.size < size_t
      → write_block o alive b obj offset ≡ ok b'
      → (old new bytes : List ℕ) × (b.bytes ≡ some old)
        × (EmuVal.dump_repr o alive obj ≡ ok new)
        × (b'.bytes ≡ some bytes)
        × ((n p : ℕ) → p + n ≤ offset → slice n p bytes ≡ slice n p old)
        × ((p : ℕ) → offset + length new ≤ p → drop p bytes ≡ drop p old)
        × (b'.id ≡ b.id)
        × (b'.size ≡ b.size)
        × (b'.memtype ≡ b.memtype)
  write_block_frame b b' obj offset small e =
      let w = write_block-Written b b' obj offset small e in
      (
        w.old,
        w.new,
        splice w.old offset w.new,
        w.had,
        w.dumped,
        w.bytes,
        slice-splice_below w.old offset w.new,
        drop-splice_above w.old offset w.new,
        w.id,
        w.size,
        w.memtype,
      )

  -- An object that has a size and would not end inside the block, whose own size is a size_t, is
  -- refused with bad_memwrite, whatever else the block holds.
  pub write_block_outside :
      (b : Block) (obj : EmuVal) (offset n : ℕ)
      → b.size < size_t
      → EmuVal.size obj ≡ ok n
      → b.size < offset + n
      → write_block o alive b obj offset ≡ exits bad_memwrite
  unfolding write_block
  write_block_outside b obj offset n small sized out = elim (ltb-cases b.size offset) [
    | inl (behind, _) ↦ rw behind
    | inr (start, le) ↦
        let long : ltb (sub_size b.size offset) n ≡ true = ground arith in
        rw start (rw sized (rw long))
  ]

-- A defined number that fits its type and carries the tag of it is written into a block whose
-- size is a size_t and whose bytes, if it has them, are as many as that. Where the write
-- completes, the number is read back from the same offset: as itself if its tag is that of int,
-- and otherwise with the same value but undefined.
pub of_memory-write_block :
    (o : ApIntOps) (laws : ApIntLaws o) (alive : ℕ → Bool) (b b' : Block) (n : EmuNum) (offset : ℕ)
    → b.size < size_t
    → ((old : List ℕ) → b.bytes ≡ some old → length old ≡ b.size)
    → Fits n
    → n.status ≡ defined
    → n.repr_type_id ≡ id_from_num_type n.num_type
    → write_block o alive b (num n) offset ≡ ok b'
    → (bytes : List ℕ) × (b'.bytes ≡ some bytes)
      × (of_memory o n.num_type (drop offset bytes)
          ≡ ok (record n {
            status =
                if id_from_num_type n.num_type == emu_type_int_id
                then defined
                else Status.undefined;
          }))
unfolding EmuVal.dump_repr
of_memory-write_block o laws alive b b' n offset small sized f def own e =
    let w = write_block-Written o alive b b' (num n) offset small e in
    let dumped : EmuNum.dump_repr o n ≡ w.new = ok-injective w.dumped in
    let fit : offset + length w.new ≤ length w.old = omega (arith, sized w.old w.had, w.inside) in
    (
      splice w.old offset w.new,
      w.bytes,
      ap (of_memory o n.num_type) (drop-splice_self w.old offset w.new fit)
          ∙ ap (λ bs. of_memory o n.num_type (bs ++ drop (length w.new) (drop offset w.old)))
              (sym dumped)
          ∙ of_memory-dump_repr_own o laws n _ f def own,
    )
