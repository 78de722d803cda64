-- ===== src/Mem/Tag.antt =====
-- The class mem_tag of mem.h: a run of objects of one type in a block.
use ctutor.Base.{ℕ, ◌+◌, ◌-◌, ◌*◌, ◌%◌, ◌^◌, Option, none, if◌then◌else◌}
use ctutor.Rbtree.Heap.{Ptr}
use ctutor.Types.QualType.{QualType, raw_type, same_type}

-- `next` is `none` until it is assigned: the constructor leaves it indeterminate.
pub record MemTag : Type 0 where
  pub offset : ℕ
  pub type : QualType
  pub prev : Ptr
  pub next : Option Ptr
  pub typesize : ℕ
  pub count : ℕ

-- mem_tag::mem_tag
unfoldable pub new_tag : (offset size : ℕ) → (prev : Ptr) → QualType → MemTag
unfolding same_type
new_tag o s p t =
    if same_type t raw_type
    then record { offset = o; type = t; prev = p; next = none; typesize = 1; count = s }
    else record { offset = o; type = t; prev = p; next = none; typesize = s; count = 1 }

-- mem_tag::sortval
abbrev pub sortval : MemTag → ℕ
sortval t = t.offset

-- The arithmetic of size_t.
abbrev pub size_t : ℕ
size_t = 2 ^ 64

abbrev pub add_size : ℕ → ℕ → ℕ
add_size a b = (a + b) % size_t

abbrev pub sub_size : ℕ → ℕ → ℕ
sub_size a b = (a + size_t - b) % size_t

abbrev pub mul_size : ℕ → ℕ → ℕ
mul_size a b = a * b % size_t
