-- ===== src/Debug/Heap.antt =====
-- The description of a block in the record that debug_dump writes.
use Prim.Native.String.{String}
use ctutor.Base.{
  eq_of_some, ℕ, suc, ◌<◌, ◌≤◌, ◌≡◌, ap, ◌∙◌, Option, none, some, List, [], ◌∷◌, ◌++◌, map, length,
  arith,
}
use ctutor.Outcome.{ok, undefined}
use ctutor.Mem.Tag.{MemTag, size_t}
use ctutor.Mem.Block.{Block, deref}
use ctutor.Exec.{State, pure, asks, lift, ◌>>=◌, Exec, returned, continue, then_do}
use ctutor.Exec.Blocks.{block_at, block_of}
use ctutor.Debug.{text, nat}
use ctutor.Debug.Layout.{
  Entry, objects, entries, gap_between, Chain, tags_from-Chain, Contiguous, entries-Contiguous,
}
use ctutor.Debug.Record.{Pieces, joined, typedesc, entry_pieces, block_tags, heap_items}

block_at-alive :
    (i : ℕ) (b : Block) (s : State) → s.memory.blocks i ≡ some b → block_at (some i) s ≡ ok (b, s)
unfolding block_at block_of deref asks
block_at-alive i b s here = ap (λ o. returned (elim o [ none ↦ undefined | some c ↦ ok c ]) s) here

block_tags-Chain :
    (b : Block) (ts : List MemTag) (s : State)
    → Chain b.tags b.firsttag ts
    → length ts ≤ b.tags.fresh
    → block_tags b s ≡ ok (ts, s)
unfolding block_tags lift
block_tags-Chain b ts s chain few =
    ap (λ r. returned r s)
      (tags_from-Chain (suc b.tags.fresh) b.firsttag b.tags ts chain (omega (arith, few)))

-- The description of a block from its parts.
abbrev pub block_item : (id : ℕ) (desc : String) → List Entry → Pieces
block_item id desc parts =
    (text "\"" ∷ nat id ∷ text "\": [\"CLASS\", \"" ∷ text desc ∷ text "\", []" ∷ [])
    ++ (joined (map (entry_pieces id) parts) ++ (text "] " ∷ []))

-- The loop at its last block.
abbrev last_block : Option String → Block → Exec (List Pieces)
last_block o b = elim o [
  | none ↦ heap_items []
  | some d ↦ do
    tags ← block_tags b
    rest ← heap_items []
    pure (block_item b.id d (entries b.size 0 tags) ∷ rest)
]

last_block-described :
    (o : Option String) (b : Block) (desc : String) (ts : List MemTag) (s : State)
    → o ≡ some desc
    → block_tags b s ≡ ok (ts, s)
    → last_block o b s ≡ ok (block_item b.id desc (entries b.size 0 ts) ∷ [], s)
unfolding heap_items pure ◌>>=◌
last_block-described none b desc ts s kind found = cc
last_block-described (some d) b desc ts s kind found =
    ap (λ r. continue r (λ tags st. ok (block_item b.id d (entries b.size 0 tags) ∷ [], st))) found
    ∙ ap (λ k. ok (block_item b.id k (entries b.size 0 ts) ∷ [], s)) (eq_of_some kind)

-- Let a block be alive and of a kind that is dumped, let its tags be a list that ends, no longer than the
-- nodes that were ever allocated, and let them lie one behind the other from the start of the block on.
-- Then the loop of debug_dump over that block completes and leaves the state, and describes the block by a
-- reference to each run of objects at its offset, in order, and behind them by the number of bytes up to
-- the end of the block, if there are any.
pub heap_items-Contiguous :
    (i e : ℕ) (b : Block) (desc : String) (ts : List MemTag) (s : State)
    → s.memory.blocks i ≡ some b
    → typedesc b.memtype ≡ some desc
    → Chain b.tags b.firsttag ts
    → length ts ≤ b.tags.fresh
    → b.size < size_t
    → e ≤ b.size
    → Contiguous 0 ts e
    → heap_items (i ∷ []) s
      ≡ ok (
        block_item b.id desc (map (λ (t : MemTag). objects t.offset) ts ++ gap_between e b.size)
            ∷ [],
        s,
      )
unfolding heap_items
heap_items-Contiguous i e b desc ts s here kind chain few small inside c =
    then_do (block_at (some i)) _ b s s (block_at-alive i b s here)
    ∙ last_block-described (typedesc b.memtype) b desc ts s kind (block_tags-Chain b ts s chain few)
    ∙ ap (λ parts. ok (block_item b.id desc parts ∷ [], s))
        (entries-Contiguous b.size 0 e ts small inside c)
