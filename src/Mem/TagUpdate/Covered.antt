-- ===== src/Mem/TagUpdate/Covered.antt =====
-- What deal_with_end does with a tag that the write covers.
use ctutor.Base.{
  ℕ, zero, suc, ◌≤◌, ◌<◌, ◌≡◌, ◌≢◌, refl, ◌∙◌, false, some, arith, ltb, leb, ◌==◌, ==_self, sym,
  Option-cases, inl, inr,
}
use ctutor.Outcome.{Outcome, ok, exits, undefined, out_of_fuel}
use ctutor.Rbtree.Heap.{Ptr, null, Node, Tree, Cmd, and_then, ◌>>=◌, load, delete}
use ctutor.Rbtree.Remove.{remove}
use ctutor.Mem.Tag.{MemTag, add_size, mul_size}
use ctutor.Mem.TagUpdate.{get_next, deal_with_end}

load-ok : (p : Ptr) (t : Tree MemTag) (n : Node MemTag) → t.cell p ≡ some n → load p t ≡ ok (n, t)
unfolding load
load-ok p t n e = rw (e, load)

module _ {A : Type 0} (p : Ptr) (k : Ptr → Cmd MemTag A) where
  -- `next` of a deleted tag cannot be read.
  delete-get_next :
      (t : Tree MemTag) → p ≢ null → (delete p >>= λ _. get_next p >>= k) t ≡ undefined
  unfolding delete get_next load
  delete-get_next t ne =
      let other : (p == null) ≡ false = ground arith in
      elim (Option-cases (t.cell p)) [
        | inl gone ↦ rw (other, gone, delete)
        | inr (n, there) ↦ rw (other, there, delete) (rw (==_self p, load))
      ]

  after :
      (x : Outcome (Unit {0} × Tree MemTag)) (r : A × Tree MemTag)
      → p ≢ null
      → and_then x (λ _. delete p >>= λ _. get_next p >>= k) ≢ ok r
  after (ok (u, t)) r ne e = cc (delete-get_next t ne, e)
  after (exits err) r ne e = cc
  after undefined r ne e = cc
  after out_of_fuel r ne e = cc

  remove-get_next :
      (t : Tree MemTag) (r : A × Tree MemTag)
      → p ≢ null
      → (remove p >>= λ _. delete p >>= λ _. get_next p >>= k) t ≢ ok r
  remove-get_next t r ne e = after (remove p t) r ne e

-- Where the tag `affected` is there, begins before the end of the write, and ends with it or
-- before, deal_with_end never completes, whatever its fuel and whichever tag is extended.
pub deal_with_end_covered :
    (fuel : ℕ) (extended affected : Ptr) (endpos : ℕ) (t : Tree MemTag) (n : Node MemTag)
    (r : Unit {0} × Tree MemTag)
    → affected ≢ null
    → t.cell affected ≡ some n
    → n.value.offset < endpos
    → add_size n.value.offset (mul_size n.value.typesize n.value.count) ≤ endpos
    → deal_with_end fuel extended affected endpos t ≢ ok r
unfolding deal_with_end
deal_with_end_covered zero extended affected endpos t n r ne found before inside e = cc
deal_with_end_covered (suc f) extended affected endpos t n r ne found before inside e =
    let other : (affected == null) ≡ false = ground arith in
    let starts : leb endpos n.value.offset ≡ false = ground arith in
    let ends : ltb endpos (add_size n.value.offset (mul_size n.value.typesize n.value.count))
        ≡ false =
      ground arith in
    let next = λ (q : Ptr). deal_with_end f extended q endpos in
    let covered : deal_with_end (suc f) extended affected endpos t
        ≡ (remove affected >>= λ _. delete affected >>= λ _. get_next affected >>= next) t =
      rw other (rw (load-ok affected t n found) (rw starts (rw ends refl))) in
    remove-get_next affected next t r ne (sym covered ∙ e)
