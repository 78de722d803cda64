-- ===== src/Mem/Block/Invariant.antt =====
-- The invariant of the store of blocks, and the ids that it gives out.
use ctutor.Base.{
  ℕ, suc, ◌+◌, ◌%◌, ◌^◌, ◌≤◌, ◌<◌, ◌≡◌, ◌≢◌, refl, sym, ap, subst, ◌∙◌, ◌⊎◌, inl, inr, true, false,
  none, some, Option, List, length, tabulate, length-tabulate, length-splice, arith, ◌==◌,
  if◌then◌else◌, ==_cases, ==_self, Option-cases, ap₂, eq_of_some,
}
use ctutor.Outcome.{ok, exits, err_exit, >>=-ok_parts, ok-injective}
use ctutor.Machine.ApInt.{ApIntOps}
use ctutor.Rbtree.Heap
use ctutor.Rbtree.Heap.{null}
use ctutor.Types.Enums.{MemType}
use ctutor.Types.EmuVal.{EmuVal}
use ctutor.Mem.Tag.{size_t}
use ctutor.Mem.Block.{
  Block, Memory, initial, put, block_id_start, new_block_id, new_block, deref, alive, data_of,
  write, write_block, free, delete_block,
}
use ctutor.Mem.Block.Write.{write_block-Written}

-- The ids from 3 up to this one have been given out. A counter of 0 has wrapped around.
abbrev limit_of : ℕ → ℕ
limit_of c = if c == 0 then 2 ^ 32 else c

abbrev pub limit : Memory → ℕ
limit m = limit_of m.id_counter

-- A block that is stored under its id, an id that was given out, and whose bytes, while it has
-- them, are as many as its size says.
pub record IsStored (end i : ℕ) (b : Block) : Type 0 where
  pub id : b.id ≡ i
  pub above : block_id_start ≤ i
  pub below : i < end
  pub small : b.size < size_t
  pub sized : (bytes : List ℕ) → b.bytes ≡ some bytes → length bytes ≡ b.size

pub record IsValid (m : Memory) : Type 0 where
  pub counter : (m.id_counter ≡ 0) ⊎ (block_id_start ≤ m.id_counter)
  pub word : m.id_counter < 2 ^ 32
  pub stored : (i : ℕ) (b : Block) → m.blocks i ≡ some b → IsStored (limit m) i b
  -- active_mem has the blocks that are not deleted, and no others
  pub registered : (i : ℕ) → m.active i ≡ alive m i

pub initial-IsValid : IsValid initial
initial-IsValid = record {
  counter = inr (omega arith);
  word = omega arith;
  stored = λ i b e. cc;
  registered = λ i. refl;
}

-- An assignment to one address keeps what holds of all stored blocks.
put-stored :
    (m : Memory) (end i : ℕ) (c : Option Block)
    → ((j : ℕ) (b : Block) → m.blocks j ≡ some b → IsStored end j b)
    → ((b : Block) → c ≡ some b → IsStored end i b)
    → (j : ℕ) (b : Block) → (put m i c).blocks j ≡ some b
    → IsStored end j b
put-stored m end i c all new j b e = elim (==_cases i j) [
  | inl (here, same) ↦
      subst (λ k. IsStored end k b) same
        (new b (sym (ap (λ t. if t then c else m.blocks j) here) ∙ e))
  | inr (there, _) ↦ all j b (sym (ap (λ t. if t then c else m.blocks j) there) ∙ e)
]

IsStored-mono : (a z i : ℕ) (b : Block) → a ≤ z → IsStored a i b → IsStored z i b
IsStored-mono a z i b le s = record {
  id = s.id;
  above = s.above;
  below = omega arith;
  small = s.small;
  sized = s.sized;
}

-- Replacing a stored block by one that is stored as well keeps the invariant.
pub replace-IsValid :
    (m : Memory) (i : ℕ) (b b' : Block)
    → IsValid m
    → m.blocks i ≡ some b
    → IsStored (limit m) i b'
    → IsValid (put m i (some b'))
replace-IsValid m i b b' v e s = record {
  counter = v.counter;
  word = v.word;
  stored =
      put-stored m (limit m) i (some b') v.stored
        (λ c h. subst (IsStored (limit m) i) (eq_of_some h) s);
  registered = λ j. ground (arith, v.registered j);
}

pub deref-some : (m : Memory) (i : ℕ) (b : Block) → deref m i ≡ ok b → m.blocks i ≡ some b
unfolding deref
deref-some m i b e = ground arith

-- A write that completes keeps the invariant.
pub write-IsValid :
    (o : ApIntOps) (i : ℕ) (obj : EmuVal) (offset : ℕ) (m m' : Memory)
    → IsValid m
    → write o i obj offset m ≡ ok m'
    → IsValid m'
unfolding write
write-IsValid o i obj offset m m' v e =
    let (b, found, rest) = >>=-ok_parts (deref m i) _ e in
    let (b', done, last) = >>=-ok_parts (write_block o (alive m) b obj offset) _ rest in
    let s = v.stored i b (deref-some m i b found) in
    let w = write_block-Written o (alive m) b b' obj offset s.small done in
    subst IsValid (ok-injective last) (
      replace-IsValid m i b b' v (deref-some m i b found) (record {
        id = w.id ∙ s.id;
        above = s.above;
        below = s.below;
        small = rw w.size s.small;
        sized = λ bytes h.
            ap length (eq_of_some (sym h ∙ w.bytes))
            ∙ length-splice w.old offset w.new
            ∙ s.sized w.old w.had
            ∙ sym w.size;
      }))

pub free-IsValid : (i : ℕ) (m m' : Memory) → IsValid m → free i m ≡ ok m' → IsValid m'
unfolding free
free-IsValid i m m' v e =
    let (b, found, rest) = >>=-ok_parts (deref m i) _ e in
    let (bytes, had, last) = >>=-ok_parts (data_of b) _ rest in
    let s = v.stored i b (deref-some m i b found) in
    subst IsValid (ok-injective last) (
      replace-IsValid m i b _ v (deref-some m i b found) (record {
        id = s.id;
        above = s.above;
        below = s.below;
        small = s.small;
        sized = λ bytes h. cc;
      }))

pub delete_block-IsValid :
    (i : ℕ) (m m' : Memory) → IsValid m → delete_block i m ≡ ok m' → IsValid m'
unfolding delete_block
delete_block-IsValid i m m' v e =
    let (b, found, rest) = >>=-ok_parts (deref m i) _ e in
    let (bytes, had, last) = >>=-ok_parts (data_of b) _ rest in
    subst IsValid (ok-injective last) (record {
      counter = v.counter;
      word = v.word;
      stored = put-stored m (limit m) i none v.stored (λ c h. cc);
      registered = λ j. ground (arith, v.registered j);
    })

-- The store after a new block at the counter.
new_at : (fill : ℕ → ℕ) → MemType → (size id : ℕ) → Block
new_at fill t s i = record {
  id = i;
  size = s;
  memtype = t;
  bytes = some (tabulate s fill);
  firsttag = null;
  tags = Heap.empty;
}

limit_of-now : (c : ℕ) → c ≢ 0 → limit_of c ≡ c
limit_of-now c ne = ground arith

limit_of-next : (c : ℕ) → c < 2 ^ 32 → limit_of ((c + 1) % 2 ^ 32) ≡ suc c
limit_of-next c word = ground arith

after_counter :
    (c : ℕ)
    → block_id_start ≤ c
    → c < 2 ^ 32
    → ((c + 1) % 2 ^ 32 ≡ 0) ⊎ (block_id_start ≤ (c + 1) % 2 ^ 32)
after_counter c start word = ground arith

added : (fill : ℕ → ℕ) → MemType → (size : ℕ) → Memory → Memory
added fill t s m =
    let i = m.id_counter in
    let b = new_at fill t s i in
    record {
      id_counter = (i + 1) % 2 ^ 32;
      blocks = λ j. if i == j then some b else m.blocks j;
      active = λ j. if i == j then true else m.active j;
    }

new_block-added :
    (fill : ℕ → ℕ) (t : MemType) (s : ℕ) (m m' : Memory) (id : ℕ)
    → new_block fill t s m ≡ ok (id, m')
    → (m.id_counter ≢ 0) × (id ≡ m.id_counter) × (added fill t s m ≡ m')
unfolding new_block new_block_id added new_at
new_block-added fill t s m m' id e = elim (==_cases m.id_counter 0) [
  | inl (wrapped, _) ↦ cc (rw (wrapped, new_block_id) at e)
  | inr (fresh, ne) ↦
      let h = rw (fresh, new_block_id) at e in
      (
        ne,
        ap (λ (r : ℕ × Memory). r.0) (sym (ok-injective h)),
        ap (λ (r : ℕ × Memory). r.1) (ok-injective h),
      )
]

added-IsValid :
    (fill : ℕ → ℕ) (t : MemType) (s : ℕ) (m : Memory)
    → IsValid m
    → m.id_counter ≢ 0
    → s < size_t
    → IsValid (added fill t s m)
unfolding added new_at
added-IsValid fill t s m v ne small =
    let start : block_id_start ≤ m.id_counter = omega (arith, v.counter) in
    let end = limit (added fill t s m) in
    let b : Block = new_at fill t s m.id_counter in
    let next : limit m ≤ end =
      omega (arith, limit_of-now m.id_counter ne, limit_of-next m.id_counter v.word) in
    let here : m.id_counter < end = omega (arith, limit_of-next m.id_counter v.word) in
    record {
      counter = after_counter m.id_counter start v.word;
      word = omega arith;
      stored =
          put-stored m end m.id_counter (some b)
            (λ j b e. IsStored-mono (limit m) end j b next (v.stored j b e))
            (λ b e. subst (IsStored end m.id_counter) (eq_of_some e) (record {
              id = refl;
              above = start;
              below = here;
              small = small;
              sized = λ bytes h. ap length (eq_of_some (sym h)) ∙ length-tabulate s fill;
            }));
      registered = λ j. ground (arith, v.registered j);
    }

unused : (m : Memory) → IsValid m → m.id_counter ≢ 0 → alive m m.id_counter ≡ false
unused m v ne = elim (Option-cases (m.blocks m.id_counter)) [
  | inl empty ↦ rw (empty, alive)
  | inr (b, e) ↦
      let s = v.stored m.id_counter b e in
      absurd (omega (arith, s.below, limit_of-now m.id_counter ne))
]

-- In a state with the invariant of the blocks, a new block whose size is a size_t gets the id
-- behind all that were given out, which has no block, is alive under it, keeps the invariant and
-- moves the limit of the ids by one.
pub new_block-IsValid :
    (fill : ℕ → ℕ) (t : MemType) (s : ℕ) (m m' : Memory) (id : ℕ)
    → IsValid m
    → s < size_t
    → new_block fill t s m ≡ ok (id, m')
    → IsValid m'
      × (id ≡ limit m)
      × (limit m' ≡ suc id)
      × (alive m id ≡ false)
      × (alive m' id ≡ true)
unfolding added
new_block-IsValid fill t s m m' id v small e =
    let (ne, named, reached) = new_block-added fill t s m m' id e in
    let c = m.id_counter in
    (
      subst IsValid reached (added-IsValid fill t s m v ne small),
      named ∙ sym (limit_of-now c ne),
      ap limit (sym reached) ∙ limit_of-next c v.word ∙ ap suc (sym named),
      ap (alive m) named ∙ unused m v ne,
      ap₂ (λ r i. alive r i) (sym reached) named ∙ rw (==_self c, alive),
    )

-- A new block leaves every other id as it was.
pub new_block-only :
    (fill : ℕ → ℕ) (t : MemType) (s : ℕ) (m m' : Memory) (id j : ℕ)
    → new_block fill t s m ≡ ok (id, m')
    → id ≢ j
    → alive m' j ≡ alive m j
unfolding added
new_block-only fill t s m m' id j e ne =
    let (_, named, reached) = new_block-added fill t s m m' id e in
    ap (λ r. alive r j) (sym reached) ∙ ground (arith, named)

-- In a state with the invariant of the blocks in which every id of 32 bits was given out, no
-- block can be made: the interpreter exits.
pub new_block_exhausted :
    (fill : ℕ → ℕ) (t : MemType) (s : ℕ) (m : Memory)
    → limit m ≡ 2 ^ 32
    → IsValid m
    → new_block fill t s m ≡ exits (err_exit "Too many allocations")
unfolding new_block new_block_id
new_block_exhausted fill t s m full v = ground arith

-- A new block leaves the blocks under other ids as they were.
pub new_block-elsewhere :
    (fill : ℕ → ℕ) (t : MemType) (s : ℕ) (m m' : Memory) (id j : ℕ)
    → new_block fill t s m ≡ ok (id, m')
    → id ≢ j
    → m'.blocks j ≡ m.blocks j
unfolding added
new_block-elsewhere fill t s m m' id j e ne =
    let (_, named, reached) = new_block-added fill t s m m' id e in
    ap (λ r. r.blocks j) (sym reached) ∙ ground (arith, named)
