-- ===== src/Mem/Block/Lifetime.antt =====
-- Runs of the operations on blocks, in any order: the invariant holds throughout, and a pointer to
-- a deleted block never comes to point at another one.
use ctutor.Base.{ℕ, ◌<◌, ◌≡◌, subst, ◌∙◌, false, some, arith}
use ctutor.Outcome.{ok, >>=-ok_parts, ok-injective}
use ctutor.Machine.ApInt.{ApIntOps}
use ctutor.Types.Enums.{MemType}
use ctutor.Types.EmuVal.{EmuVal}
use ctutor.Mem.Tag.{size_t}
use ctutor.Mem.Block.{
  Block, Memory, put, new_block, deref, alive, data_of, write, write_block, free, delete_block,
}
use ctutor.Mem.Block.Invariant.{
  limit, IsValid, write-IsValid, free-IsValid, delete_block-IsValid, new_block-IsValid, deref-some,
  new_block-only,
}

-- One completed operation on the blocks.
pub data Step (o : ApIntOps) : Memory → Memory → Type 0 where
  allocates :
      {m m' : Memory} (fill : ℕ → ℕ) (t : MemType) (s id : ℕ)
      → s < size_t
      → new_block fill t s m ≡ ok (id, m')
      → Step o m m'
  writes :
      {m m' : Memory} (i : ℕ) (obj : EmuVal) (offset : ℕ)
      → write o i obj offset m ≡ ok m'
      → Step o m m'
  expires : {m m' : Memory} (i : ℕ) → free i m ≡ ok m' → Step o m m'
  deletes : {m m' : Memory} (i : ℕ) → delete_block i m ≡ ok m' → Step o m m'

pub data Reach (o : ApIntOps) (m : Memory) : Memory → Type 0 where
  here : Reach o m m
  next : {a b : Memory} → Reach o m a → Step o a b → Reach o m b

Step-IsValid : {o : ApIntOps} {m m' : Memory} → Step o m m' → IsValid m → IsValid m'
Step-IsValid (allocates {m} {m'} fill t s id small e) v =
    (new_block-IsValid fill t s m m' id v small e).0
Step-IsValid {o} (writes {m} {m'} i obj offset e) v = write-IsValid o i obj offset m m' v e
Step-IsValid (expires {m} {m'} i e) v = free-IsValid i m m' v e
Step-IsValid (deletes {m} {m'} i e) v = delete_block-IsValid i m m' v e

-- The invariant of the blocks holds in every state that completed operations reach from one where
-- it holds: each block that is not deleted lies under its own id, an id that was given out, has
-- as many bytes as its size says until they are deleted, and active_mem has exactly those blocks.
pub Reach-IsValid : {o : ApIntOps} {m m' : Memory} → Reach o m m' → IsValid m → IsValid m'
Reach-IsValid here v = v
Reach-IsValid (next r st) v = Step-IsValid st (Reach-IsValid r v)

-- An id that was given out and has no block.
pub record IsDead (m : Memory) (i : ℕ) : Type 0 where
  pub given : i < limit m
  pub dead : alive m i ≡ false

put-IsDead :
    (m : Memory) (i j : ℕ) (b b' : Block)
    → m.blocks j ≡ some b
    → IsDead m i
    → IsDead (put m j (some b')) i
put-IsDead m i j b b' e d = record { given = d.given; dead = ground (arith, d.dead) }

module _ (i j : ℕ) (m m' : Memory) where
  write-IsDead :
      (o : ApIntOps) (obj : EmuVal) (offset : ℕ)
      → write o j obj offset m ≡ ok m'
      → IsDead m i
      → IsDead m' i
  unfolding write
  write-IsDead o obj offset e d =
      let (b, found, rest) = >>=-ok_parts (deref m j) _ e in
      let (b', done, last) = >>=-ok_parts (write_block o (alive m) b obj offset) _ rest in
      subst (λ r. IsDead r i) (ok-injective last) (put-IsDead m i j b b' (deref-some m j b found) d)

  free-IsDead : free j m ≡ ok m' → IsDead m i → IsDead m' i
  unfolding free
  free-IsDead e d =
      let (b, found, rest) = >>=-ok_parts (deref m j) _ e in
      let (bytes, had, last) = >>=-ok_parts (data_of b) _ rest in
      subst (λ r. IsDead r i) (ok-injective last) (put-IsDead m i j b _ (deref-some m j b found) d)

  delete-IsDead : delete_block j m ≡ ok m' → IsDead m i → IsDead m' i
  unfolding delete_block
  delete-IsDead e d =
      let (b, found, rest) = >>=-ok_parts (deref m j) _ e in
      let (bytes, had, last) = >>=-ok_parts (data_of b) _ rest in
      subst (λ r. IsDead r i) (ok-injective last)
        (record { given = d.given; dead = ground (arith, d.dead) })

Step-IsDead :
    {o : ApIntOps} {m m' : Memory} (i : ℕ) → Step o m m' → IsValid m → IsDead m i → IsDead m' i
Step-IsDead i (allocates {m} {m'} fill t s id small e) v d =
    let (valid, at_end, moved, unused, made) = new_block-IsValid fill t s m m' id v small e in
    record {
      given = omega (arith, moved, at_end, d.given);
      dead = new_block-only fill t s m m' id i e (omega (arith, at_end, d.given)) ∙ d.dead;
    }
Step-IsDead {o} i (writes {m} {m'} j obj offset e) v d = write-IsDead i j m m' o obj offset e d
Step-IsDead i (expires {m} {m'} j e) v d = free-IsDead i j m m' e d
Step-IsDead i (deletes {m} {m'} j e) v d = delete-IsDead i j m m' e d

-- From a state with the invariant of the blocks, an id that was given out and has no block has
-- none after any completed operations either: a deleted block is never replaced.
pub Reach-IsDead :
    {o : ApIntOps} {m m' : Memory} (i : ℕ) → Reach o m m' → IsValid m → IsDead m i → IsDead m' i
Reach-IsDead i here v d = d
Reach-IsDead i (next r st) v d = Step-IsDead i st (Reach-IsValid r v) (Reach-IsDead i r v d)
