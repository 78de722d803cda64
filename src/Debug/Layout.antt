-- ===== src/Debug/Layout.antt =====
-- The layout of a block as debug_dump shows it: the runs of objects that the tags describe, and the
-- bytes that it takes for uninitialized.
use ctutor.Base.{
  false, ℕ, zero, suc, ◌+◌, ◌-◌, ◌*◌, ◌%◌, ◌≤◌, ◌<◌, ◌≡◌, refl, ap, ◌∙◌, none, some, List, [], ◌∷◌,
  ◌++◌, map, length, ltb, ◌==◌, if◌then◌else◌, ltb-false, arith,
}
use ctutor.Outcome.{Outcome, ok, undefined, out_of_fuel, ◌>>=◌}
use ctutor.Rbtree.Heap.{Ptr, null, Node, Tree}
use ctutor.Mem.Tag.{MemTag, size_t, add_size, mul_size}

-- The tags from a node on, in the order of their `next` pointers. A list that comes back to one of its
-- nodes would never end; each node of another one is met once.
unfoldable pub tags_from : (fuel : ℕ) → Ptr → Tree MemTag → Outcome (List MemTag)
tags_from zero p t = out_of_fuel
tags_from (suc n) p t = if p == null then ok [] else elim (t.cell p) [
  | none ↦ undefined
  | some node ↦ elim node.value.next [
    | none ↦ undefined
    | some q ↦ tags_from n q t >>= λ rest. ok (node.value ∷ rest)
  ]
]

-- The tags that the `next` pointers of a tree lead to from a node on.
pub data Chain (t : Tree MemTag) : Ptr → List MemTag → Type 0 where
  chain_end : Chain t null []
  chain_node :
      (p q : Ptr) (node : Node MemTag) (ts : List MemTag)
      → (p == null) ≡ false
      → t.cell p ≡ some node
      → node.value.next ≡ some q
      → Chain t q ts
      → Chain t p (node.value ∷ ts)

-- Fuel for one round more than there are tags is enough.
pub tags_from-Chain :
    (n : ℕ) (p : Ptr) (t : Tree MemTag) (ts : List MemTag)
    → Chain t p ts
    → length ts < n
    → tags_from n p t ≡ ok ts
unfolding tags_from
tags_from-Chain zero p t ts c enough = absurd (omega (arith, enough))
tags_from-Chain (suc n) _ t _ chain_end enough = refl
tags_from-Chain (suc n) _ t _ (chain_node p q node ts other here next c) enough =
    rw (other, here)
      (ap
          (λ o. elim o [
            | none ↦ undefined
            | some r ↦ tags_from n r t >>= λ rest. ok (node.value ∷ rest)
          ])
          next
        ∙ ap (λ r. r >>= λ rest. ok (node.value ∷ rest))
            (tags_from-Chain n q t ts c (omega (arith, enough))))

pub data Entry : Type 0 where
  gap : (bytes : ℕ) → Entry
  objects : (pos : ℕ) → Entry

-- The bytes between two positions, where there are any.
unfoldable pub gap_between : (from to : ℕ) → List Entry
gap_between a b = if ltb a b then gap (b - a) ∷ [] else []

-- The loop over the tags of a block, with its `currpos`.
unfoldable pub entries : (size currpos : ℕ) → List MemTag → List Entry
unfolding gap_between
entries size currpos [] = gap_between currpos size
entries size currpos (t ∷ ts) =
    gap_between currpos t.offset
    ++ (objects t.offset ∷ entries size (add_size currpos (mul_size t.typesize t.count)) ts)

-- Tags that lie one behind the other, from a position on to an end.
unfoldable pub Contiguous : (from : ℕ) → List MemTag → (end : ℕ) → Type 0
Contiguous p [] e = p ≡ e
Contiguous p (t ∷ ts) e = (t.offset ≡ p) × Contiguous (p + t.typesize * t.count) ts e

Contiguous-forward : (p : ℕ) (ts : List MemTag) (e : ℕ) → Contiguous p ts e → p ≤ e
unfolding Contiguous
Contiguous-forward p [] e c = omega (arith, c)
Contiguous-forward p (t ∷ ts) e (_, c) =
    omega (arith, Contiguous-forward (p + t.typesize * t.count) ts e c)

gap_between-same : (p q : ℕ) → q ≡ p → gap_between p q ≡ []
unfolding gap_between
gap_between-same p q e = rw (ltb-false p q (omega (arith, e))) refl

add_size-small : (p n : ℕ) → p + n < size_t → add_size p (n % size_t) ≡ p + n
add_size-small p n small = omega arith

-- Where the tags of a block lie one behind the other from its start on, the dump shows each run of
-- objects at its offset, and then the bytes between the last one's end and the end of the block, if there
-- are any.
pub entries-Contiguous :
    (size p e : ℕ) (ts : List MemTag)
    → size < size_t
    → e ≤ size
    → Contiguous p ts e
    → entries size p ts ≡ map (λ (t : MemTag). objects t.offset) ts ++ gap_between e size
unfolding entries Contiguous
entries-Contiguous size p e [] small le c = ap (λ q. gap_between q size) c
entries-Contiguous size p e (t ∷ ts) small le (at, c) =
    let q = p + t.typesize * t.count in
    let end = Contiguous-forward q ts e c in
    let moved : add_size p (mul_size t.typesize t.count) ≡ q =
      add_size-small p (t.typesize * t.count) (omega (arith, end, le, small)) in
    ap (λ g. g ++ (objects t.offset ∷ entries size (add_size p (mul_size t.typesize t.count)) ts))
      (gap_between-same p t.offset at)
    ∙ ap (λ r. objects t.offset ∷ entries size r ts) moved
    ∙ ap (λ r. objects t.offset ∷ r) (entries-Contiguous size q e ts small le c)
