-- ===== src/Tests/Tags.antt =====
-- deal_with_end on a block whose one tag, of four bytes at offset 4, is covered by a write that
-- ends at 8.
use ctutor.Base.{ℕ, ◌≢◌, refl, none, some, false, ◌==◌, if◌then◌else◌, arith}
use ctutor.Outcome.{ok}
use ctutor.Rbtree.Heap.{Node, Tree}
use ctutor.Types.QualType.{int_type}
use ctutor.Mem.Tag.{MemTag}
use ctutor.Mem.TagUpdate.{deal_with_end}
use ctutor.Mem.TagUpdate.Covered.{deal_with_end_covered}

abbrev tag_at : ℕ → ℕ → Node MemTag
tag_at offset next = record {
  value = record {
    offset = offset;
    type = int_type;
    prev = 0;
    next = some next;
    typesize = 4;
    count = 1;
  };
  col = some false;
  left = 0;
  right = 0;
  parent = 0;
}

abbrev tags : Tree MemTag
tags = record {
  head = 1;
  cell = λ p. if p == 1 then some (tag_at 0 2) else if p == 2 then some (tag_at 4 0) else none;
  fresh = 3;
}

deal_with_end_covered_example : deal_with_end 5 1 2 8 tags ≢ ok (tt, tags)
deal_with_end_covered_example =
    deal_with_end_covered 5 1 2 8 tags (tag_at 4 0) (tt, tags) (omega arith) refl (omega arith)
      (omega arith)
