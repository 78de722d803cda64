-- ===== src/Mem/TagUpdate.antt =====
-- mem_block::update_tag_write and mem_block::deal_with_end of mem.cpp, over the tree of tags.
pub mod Covered
use ctutor.Base.{ℕ, zero, suc, ◌/◌, ◌&&◌, none, some, ltb, leb, ◌==◌, if◌then◌else◌}
use ctutor.Outcome.{undefined, out_of_fuel}
use ctutor.Rbtree.Heap.{Ptr, null, Cmd, ◌>>=◌, ◌>>◌, pure, load, modify, delete}
use ctutor.Rbtree.{find_below, insert}
use ctutor.Rbtree.Remove.{remove}
use ctutor.Types.QualType.{QualType, raw_type, same_type}
use ctutor.Types.EmuPtr.{size_max}
use ctutor.Mem.Tag.{MemTag, new_tag, sortval, add_size, sub_size, mul_size}

-- tags.insert(mem_tag(offset, size, prev, type))
unfoldable pub insert_tag : (offset size : ℕ) → (prev : Ptr) → QualType → Cmd MemTag Ptr
insert_tag o s p t = insert sortval (new_tag o s p t)

-- An assignment to a member of node->value.
unfoldable pub modify_tag : Ptr → (MemTag → MemTag) → Cmd MemTag (Unit {0})
modify_tag p f = modify p (λ n. record n { value = f n.value })

unfoldable pub set_next : Ptr → (next : Ptr) → Cmd MemTag (Unit {0})
unfolding modify_tag
set_next p q = modify_tag p (λ t. record t { next = some q })

-- node->value.next, undefined while it is indeterminate
unfoldable pub get_next : Ptr → Cmd MemTag Ptr
get_next p = do n ← load p; elim n.value.next [ none ↦ λ _. undefined | some q ↦ pure q ]

-- The number of objects of the affected tag that the write touches.
first_valid : (offset typesize endpos : ℕ) → ℕ
first_valid offset typesize endpos =
    let n = sub_size (add_size (sub_size endpos offset) typesize) 1 / typesize in
    if n == 0 then size_max / typesize else n

-- The branch of deal_with_end that cuts a tag at `endpos`.
cut : (extended affected : Ptr) → (tag : MemTag) → (endpos : ℕ) → Cmd MemTag (Unit {0})
unfolding first_valid
cut extended affected tag endpos = do
  let firstvalid = first_valid tag.offset tag.typesize endpos
  let invalidbytes = mul_size firstvalid tag.typesize
  let alignbytes = sub_size (add_size tag.offset invalidbytes) endpos
  let newcount = sub_size tag.count firstvalid
  modify_tag affected (λ t. record t { offset = endpos })
  let to_raw =
      modify_tag affected
        (λ t. record t { type = raw_type; typesize = 1; count = mul_size newcount tag.typesize })
  let split = (do
    newtag ← insert_tag (add_size tag.offset invalidbytes) newcount affected raw_type
    modify_tag affected (λ t. record t {
      type = raw_type;
      prev = extended;
      next = some newtag;
      typesize = 1;
      count = alignbytes;
    }))
  if alignbytes == 0
      then modify_tag affected (λ t. record t { count = newcount })
      else if newcount == 0
      then to_raw
      else split

-- mem_block::deal_with_end. The loop's body ends in tags.remove(affected) and delete affected, and
-- its increment reads affected->value.next after that.
unfoldable pub deal_with_end :
    (fuel : ℕ) → (extended affected : Ptr) → (endpos : ℕ) → Cmd MemTag (Unit {0})
unfolding cut
deal_with_end zero extended affected endpos = λ _. out_of_fuel
deal_with_end (suc f) extended affected endpos =
    let further = deal_with_end f extended in
    let drop_tag = (do
      remove affected
      delete affected
      next ← get_next affected
      further next endpos) in
    let merge_or_stop = λ (tag : MemTag). (do
      e ← load extended
      let merge = (do
        modify_tag extended (λ t. record t { count = add_size t.count tag.count })
        drop_tag)
      let stop = (do
        modify_tag affected (λ t. record t { prev = extended })
        set_next extended affected)
      if tag.offset == endpos && same_type e.value.type tag.type then merge else stop) in
    let inside = λ (tag : MemTag).
      if ltb endpos (add_size tag.offset (mul_size tag.typesize tag.count))
      then cut extended affected tag endpos >> set_next extended affected
      else drop_tag in
    let one_tag = (do
      n ← load affected
      if leb endpos n.value.offset then merge_or_stop n.value else inside n.value) in
    if affected == null then set_next extended null else one_tag

module _ (fuel : ℕ) (qtype : QualType) (size : ℕ) (offset : ℕ) where
  -- No tag begins at or below the write.
  write_first : (firsttag : Ptr) → Cmd MemTag Ptr
  write_first firsttag = do
    newtag ← insert_tag offset size null qtype
    deal_with_end fuel newtag firsttag (add_size offset size)
    pure newtag

  -- The write begins right behind `start`, which is of the same type.
  extend : (start : Ptr) → (tag : MemTag) → (endpos : ℕ) → Cmd MemTag (Unit {0})
  extend start tag endpos = do
    modify_tag start (λ t. record t { count = add_size tag.count 1 })
    next ← get_next start
    deal_with_end fuel start next (add_size endpos tag.typesize)

  -- The write begins in a range that no tag covers.
  append_tag : (start : Ptr) → Cmd MemTag (Unit {0})
  append_tag start = do
    newtag ← insert_tag offset size start qtype
    next ← get_next start
    deal_with_end fuel newtag next (add_size offset size)
    set_next start newtag

  -- The write begins where `start` begins.
  overwrite : (start : Ptr) → (tag : MemTag) → (endpos : ℕ) → Cmd MemTag (Unit {0})
  overwrite start tag endpos =
      let whole = (do
        modify_tag start (λ t. record t { type = qtype; typesize = size; count = 1 })
        next ← get_next start
        deal_with_end fuel start next (add_size offset size)) in
      let front = (do
        newtag ← insert_tag (add_size offset size) tag.typesize start tag.type
        next ← get_next start
        set_next newtag next
        modify_tag start
            (λ t. record t { type = qtype; next = some newtag; typesize = size; count = 1 })) in
      if leb endpos (add_size offset size) then whole else front

  -- The write begins inside `start`, at object `lastvalid`; `validbytes` of it stay in front.
  split_tag :
      (start : Ptr) → (tag : MemTag) → (lastvalid validbytes alignbytes : ℕ) → Cmd MemTag (Unit {0})
  split_tag start tag lastvalid validbytes alignbytes =
      let misaligned = (do
        rawtag ← insert_tag (add_size tag.offset validbytes) alignbytes start raw_type
        set_next start rawtag
        start_next ← get_next start
        newtag ← insert_tag offset size rawtag qtype
        set_next rawtag newtag
        set_next newtag start_next
        deal_with_end fuel newtag start_next (add_size offset size)) in
      let aligned = (do
        start_next ← get_next start
        newtag ← insert_tag offset size start qtype
        set_next newtag start_next
        set_next start newtag
        deal_with_end fuel newtag start_next (add_size offset size)) in
      modify_tag start (λ t. record t { count = lastvalid })
      >> (if alignbytes == 0 then aligned else misaligned)

  -- The write begins before the end of `start`.
  write_inside : (start : Ptr) → (tag : MemTag) → (endpos : ℕ) → Cmd MemTag (Unit {0})
  unfolding overwrite split_tag
  write_inside start tag endpos =
      let lastvalid = sub_size offset tag.offset / tag.typesize in
      let validbytes = mul_size lastvalid tag.typesize in
      let alignbytes = sub_size offset (add_size tag.offset validbytes) in
      let over = overwrite start tag endpos in
      let split = split_tag start tag lastvalid validbytes alignbytes in
      if alignbytes == 0 && same_type qtype tag.type
      then pure tt
      else if tag.offset == offset
      then over
      else split

  -- The rest of update_tag_write, with a tag at or below the write.
  write_after : (start : Ptr) → Cmd MemTag (Unit {0})
  unfolding extend append_tag write_inside
  write_after start = do
    n ← load start
    let tag = n.value
    let endpos = add_size tag.offset (mul_size tag.count tag.typesize)
    if offset == endpos && same_type qtype tag.type
        then extend start tag endpos
        else if leb endpos offset
        then append_tag start
        else write_inside start tag endpos

-- mem_block::update_tag_write for an object of type `qtype` and `size` bytes. It returns the
-- block's first tag.
unfoldable pub update_tag_write :
    (fuel : ℕ) → QualType → (size offset : ℕ) → (firsttag : Ptr) → Cmd MemTag Ptr
unfolding write_first write_after
update_tag_write fuel qtype size offset firsttag = do
  start ← find_below sortval offset
  let first = write_first fuel qtype size offset firsttag
  let after = write_after fuel qtype size offset start >> pure firsttag
  if start == null then first else after
