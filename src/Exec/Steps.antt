-- ===== src/Exec/Steps.antt =====
-- The changes that the operations on blocks make to the memory, seen as changes of one block.
use ctutor.Base.{
  ℕ, ◌+◌, ◌≡◌, refl, sym, ap, subst, ◌∙◌, inl, inr, Bool-cases, some, List, length, length-splice,
  eq_of_some, leb,
}
use ctutor.Outcome.{ok, >>=-ok_parts, ok-injective}
use ctutor.Types.Enums.{MemType}
use ctutor.Types.EmuVal.{EmuVal}
use ctutor.Machine.ApInt.{ApIntOps}
use ctutor.Mem.Block
use ctutor.Mem.Block.{
  Block, Memory, put, deref, alive, data_of, write_block, new_block, new_block_with, delete_block,
  free,
}
use ctutor.Mem.Block.Invariant.{IsValid, deref-some}
use ctutor.Mem.Block.Write.{write_block-Written, data_of-some}
use ctutor.Exec.Blocks.{poke, store_in, set_memtype_in}

-- `b'` has as many bytes as `b`, or none.
pub record Changed (b b' : Block) : Type 0 where
  pub id : b'.id ≡ b.id
  pub size : b'.size ≡ b.size
  pub bytes :
      (new : List ℕ)
      → b'.bytes ≡ some new
      → (old : List ℕ) × (b.bytes ≡ some old) × (length new ≡ length old)

-- A memory that differs from `m` in a change of one block.
abbrev pub Step : Memory → Memory → Type 0
Step m m' =
    (i : ℕ) × (b b' : Block) × (m.blocks i ≡ some b) × Changed b b' × (put m i (some b') ≡ m')

pub write-Step :
    (o : ApIntOps) (i : ℕ) (v : EmuVal) (n : ℕ) (m m' : Memory)
    → IsValid m
    → Block.write o i v n m ≡ ok m'
    → Step m m'
unfolding Block.write
write-Step o i v n m m' valid e =
    let (b, found, rest) = >>=-ok_parts (deref m i) _ e in
    let (b', done, last) = >>=-ok_parts (write_block o (alive m) b v n) _ rest in
    let here = deref-some m i b found in
    let w = write_block-Written o (alive m) b b' v n (valid.stored i b here).small done in
    (
      i,
      b,
      b',
      here,
      record {
        id = w.id;
        size = w.size;
        bytes = λ new h.
            (w.old, w.had, ap length (eq_of_some (sym h ∙ w.bytes)) ∙ length-splice w.old n w.new);
      },
      ok-injective last,
    )

pub free-Step : (i : ℕ) (m m' : Memory) → free i m ≡ ok m' → Step m m'
unfolding free
free-Step i m m' e =
    let (b, found, rest) = >>=-ok_parts (deref m i) _ e in
    let (bytes, had, last) = >>=-ok_parts (data_of b) _ rest in
    (
      i,
      b,
      _,
      deref-some m i b found,
      record { id = refl; size = refl; bytes = λ new h. cc },
      ok-injective last,
    )

poke-Changed : (b b' : Block) (n : ℕ) (new : List ℕ) → poke b n new ≡ ok b' → Changed b b'
unfolding poke
poke-Changed b b' n new e =
    let (old, had, rest) = >>=-ok_parts (data_of b) _ e in
    elim (Bool-cases (leb (n + length new) (length old))) [
      | inl inside ↦ subst (Changed b) (ok-injective (rw inside at rest)) (record {
        id = refl;
        size = refl;
        bytes = λ z h.
            (old, data_of-some b old had, ap length (eq_of_some (sym h)) ∙ length-splice old n new);
      })
      | inr outside ↦ cc (rw outside at rest)
    ]

pub store_in-Step :
    (i n : ℕ) (new : List ℕ) (m m' : Memory) → store_in i n new m ≡ ok (tt, m') → Step m m'
unfolding store_in
store_in-Step i n new m m' e =
    let (b, found, rest) = >>=-ok_parts (deref m i) _ e in
    let (b', done, last) = >>=-ok_parts (poke b n new) _ rest in
    (
      i,
      b,
      b',
      deref-some m i b found,
      poke-Changed b b' n new done,
      ap (λ (r : Unit {0} × Memory). r.1) (ok-injective last),
    )

pub set_memtype_in-Step :
    (i : ℕ) (t : MemType) (m m' : Memory) → set_memtype_in i t m ≡ ok (tt, m') → Step m m'
unfolding set_memtype_in
set_memtype_in-Step i t m m' e =
    let (b, found, last) = >>=-ok_parts (deref m i) _ e in
    (
      i,
      b,
      _,
      deref-some m i b found,
      record { id = refl; size = refl; bytes = λ new h. (new, h, refl) },
      ap (λ (r : Unit {0} × Memory). r.1) (ok-injective last),
    )
