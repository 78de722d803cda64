-- ===== src/Mem/Block/First.antt =====
-- The first write into a block: with no tags yet, it completes.
use ctutor.Base.{
  ℕ, suc, ◌+◌, ◌≤◌, ◌<◌, ◌≡◌, refl, Bool, false, some, List, length, splice, arith, ltb,
}
use ctutor.Outcome.{Outcome, ok}
use ctutor.Machine.ApInt.{ApIntOps}
use ctutor.Rbtree.{find_below, insert}
use ctutor.Rbtree.Heap
use ctutor.Rbtree.Heap.{Ptr, null, Tree}
use ctutor.Types.QualType.{QualType}
use ctutor.Types.EmuVal
use ctutor.Types.EmuVal.{EmuVal}
use ctutor.Types.EmuVal.Size.{size-dump_repr}
use ctutor.Mem.Tag.{MemTag, sub_size, size_t}
use ctutor.Mem.TagUpdate.{update_tag_write, insert_tag, deal_with_end, set_next}
use ctutor.Mem.Block.{Block, store, tagged, write_block, data_of}

-- Where there are no tags, the tag of the object becomes the only one.
tags_of_first : QualType → (size offset : ℕ) → Outcome (Ptr × Tree MemTag)
tags_of_first t size offset = update_tag_write 3 t size offset null Heap.empty

first_tag :
    (fuel : ℕ) (t : QualType) (size offset : ℕ)
    → (p : Ptr) × (tags : Tree MemTag) × (update_tag_write (suc fuel) t size offset null Heap.empty
        ≡ ok (p, tags))
unfolding update_tag_write find_below Heap.empty insert_tag insert Heap.alloc Heap.modify
    Heap.set_head deal_with_end set_next
first_tag fuel t size offset = (_, _, refl)

fits_tests :
    (s offset n k : ℕ)
    → s < size_t
    → n ≡ k
    → offset + k ≤ s
    → (ltb s offset ≡ false) × (ltb (sub_size s offset) n ≡ false)
fits_tests s offset n k small e fit = ground arith

pub data_of-ok : (b : Block) (bytes : List ℕ) → b.bytes ≡ some bytes → data_of b ≡ ok bytes
unfolding data_of
data_of-ok b bytes e = ground (arith, e)

-- A value that dump_repr stores is written at an offset where it ends inside a block, whose size
-- is a size_t and which has its bytes and no tags yet: the write completes, and the bytes of the
-- block are the old ones with the stored form of the value put in.
pub write_block_first :
    (o : ApIntOps) (alive : ℕ → Bool) (b : Block) (obj : EmuVal) (offset : ℕ) (old new : List ℕ)
    → b.size < size_t
    → b.firsttag ≡ null
    → b.tags ≡ Heap.empty
    → b.bytes ≡ some old
    → EmuVal.dump_repr o alive obj ≡ ok new
    → offset + length new ≤ b.size
    → (b' : Block) × (write_block o alive b obj offset ≡ ok b')
      × (b'.bytes ≡ some (splice old offset new))
unfolding write_block store tagged
write_block_first o alive b obj offset old new small untagged empty had dumped fit =
    let n = length new in
    let (start, end) = fits_tests b.size offset n n small refl fit in
    let (p, tags, tag) =
      first_tag (suc (Heap.empty {T = MemTag}).fresh) (EmuVal.obj_type obj) n offset in
    (
      record b { bytes = some (splice old offset new); firsttag = p; tags = tags },
      rw (
        start,
        size-dump_repr o alive obj new dumped,
        end,
        data_of-ok b old had,
        dumped,
        untagged,
        empty,
        tag,
      ),
      refl,
    )
