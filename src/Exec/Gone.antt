-- ===== src/Exec/Gone.antt =====
-- Two predicates on memories that every operation of mem.cpp keeps: none beyond the invariant of the
-- blocks, and that the bytes of a certain block are gone, since it was freed or deleted.
use ctutor.Base.{
  ℕ, ◌<◌, ◌≡◌, ◌≢◌, sym, ap, subst, ◌∙◌, inl, inr, none, some, arith, ==_cases, Option-cases,
  eq_of_some,
}
use ctutor.Outcome.{ok, >>=-ok_parts, ok-injective}
use ctutor.Types.Enums.{MemType}
use ctutor.Mem.Tag.{size_t}
use ctutor.Mem.Block.{Block, Memory, put, deref, data_of, new_block, delete_block}
use ctutor.Mem.Block.Invariant.{IsValid, limit, new_block-IsValid, new_block-elsewhere}
use ctutor.Exec.{Host}
use ctutor.Exec.Steps.{Changed}
use ctutor.Exec.Invariants.{MemoryInvariant}

-- The invariant of the blocks, and that the map of names agrees with the frames.
abbrev pub validity : (h : Host) → MemoryInvariant h
validity h = record {
  Holds = λ m. Unit {0};
  created = λ t n i m m' small v g e. tt;
  changed = λ m i b b' v g here c. tt;
  deleted = λ i m m' v g e. tt;
}

-- A block whose id was given out, and that is deleted or has no bytes any more.
pub record IsGone (i : ℕ) (m : Memory) : Type 0 where
  pub given : i < limit m
  pub empty : (b : Block) → m.blocks i ≡ some b → b.bytes ≡ none

pub new_block-IsGone :
    (fill : ℕ → ℕ) (k : ℕ) (t : MemType) (n i : ℕ) (m m' : Memory)
    → n < size_t
    → IsValid m
    → IsGone k m
    → new_block fill t n m ≡ ok (i, m')
    → IsGone k m'
new_block-IsGone fill k t n i m m' small v g e =
    let (_, named, moved, _, _) = new_block-IsValid fill t n m m' i v small e in
    let other : i ≢ k = λ same. absurd (omega (arith, g.given, named, same)) in
    record {
      given = omega (arith, g.given, named, moved);
      empty = λ b here. g.empty b (sym (new_block-elsewhere fill t n m m' i k e other) ∙ here);
    }

no_bytes : (b' d b : Block) → Changed b b' → b.bytes ≡ none → b' ≡ d → d.bytes ≡ none
no_bytes b' d b c gone e = elim (Option-cases b'.bytes) [
  | inl empty ↦ ap (λ (x : Block). x.bytes) (sym e) ∙ empty
  | inr (new, had) ↦ let (old, was, _) = c.bytes new had in cc (sym gone ∙ was)
]

pub Changed-IsGone :
    (k : ℕ) (m : Memory) (i : ℕ) (b b' : Block)
    → IsGone k m
    → m.blocks i ≡ some b
    → Changed b b'
    → IsGone k (put m i (some b'))
Changed-IsGone k m i b b' g here c = record {
  given = g.given;
  empty = λ d there. elim (==_cases i k) [
    | inl (same, e) ↦
        let mine : b' ≡ d = eq_of_some (rw same at there) in
        let none_old : b.bytes ≡ none = g.empty b (ap m.blocks (sym e) ∙ here) in
        no_bytes b' d b c none_old mine
    | inr (other, _) ↦ g.empty d (rw other at there)
  ];
}

pub delete-IsGone : (k i : ℕ) (m m' : Memory) → IsGone k m → delete_block i m ≡ ok m' → IsGone k m'
unfolding delete_block
delete-IsGone k i m m' g e =
    let (b, found, rest) = >>=-ok_parts (deref m i) _ e in
    let (bytes, had, last) = >>=-ok_parts (data_of b) _ rest in
    subst (IsGone k) (ok-injective last) (record {
      given = g.given;
      empty = λ d there. elim (==_cases i k) [
        | inl (same, _) ↦ cc (rw same at there)
        | inr (other, _) ↦ g.empty d (rw other at there)
      ];
    })

abbrev pub stays_gone : (h : Host) → ℕ → MemoryInvariant h
stays_gone h k = record {
  Holds = IsGone k;
  created = λ t n i m m' small v g e. new_block-IsGone h.fill k t n i m m' small v g e;
  changed = λ m i b b' v g here c. Changed-IsGone k m i b b' g here c;
  deleted = λ i m m' v g e. delete-IsGone k i m m' g e;
}
