-- ===== src/Tests/Driver.antt =====
-- The theorems on main and on debug_dump, at small inputs.
use ctutor.Base.{
  ◌==◌, if◌then◌else◌, ℕ, ◌≡◌, refl, none, some, List, [], ◌∷◌, ◌++◌, map, Bool, true, arith,
}
use ctutor.Outcome.{ok, undefined}
use ctutor.Ast.{TopDecl}
use ctutor.Types.EmuVal.{EmuVal}
use ctutor.Mem.Tag.{MemTag}
use ctutor.Exec.{State, Exec}
use ctutor.Debug.{Console}
use ctutor.Debug.Layout.{
  gap, objects, gap_between, entries, Contiguous, Chain, chain_end, chain_node,
}
use ctutor.Debug.Heap.{block_item, heap_items-Contiguous}
use ctutor.Rbtree.Heap.{Node, Tree}
use ctutor.Types.Enums.{heap}
use ctutor.Mem.Block.{Block, put}
use ctutor.Debug.Record.{typedesc, heap_items}
use ctutor.Debug.Dump.{Output, location}
use ctutor.Program.{start}
use ctutor.Program.Driver.{Files, is_ast}
use ctutor.Tests.Programs.{int_t, main_decl}

abbrev console : Console
console = record { type_name = λ t. "int"; digits = λ n. "42"; locals = λ s. []; blocks = λ s. [] }

abbrev no_sizes : ℕ → Exec EmuVal
no_sizes d = λ s. undefined

abbrev said : Output
said = record { outs = []; errs = location "a.c" 3 (some "failed") }

-- An int.
abbrev int_tag : ℕ → MemTag
int_tag offset = record {
  offset = offset;
  type = int_t;
  prev = 0;
  next = some 0;
  typesize = 4;
  count = 1;
}

abbrev node_of : MemTag → Node MemTag
node_of t = record { value = t; col = none; left = 0; right = 0; parent = 0 }

abbrev first_tag : MemTag
first_tag = record (int_tag 0) { next = some 2 }

-- The tags at the addresses 1 and 2.
abbrev two_nodes : Tree MemTag
two_nodes = record {
  head = 1;
  cell = λ p.
      if p == 1
      then some (node_of first_tag)
      else if p == 2
      then some (node_of (int_tag 4))
      else none;
  fresh = 3;
}

abbrev held : Block
held = record { id = 5; size = 12; memtype = heap; bytes = none; firsttag = 1; tags = two_nodes }

abbrev with_block : State
with_block = record start { memory = put start.memory 5 (some held) }

abbrev both_tags : List MemTag
both_tags = first_tag ∷ int_tag 4 ∷ []

both_tags-Chain : Chain two_nodes 1 both_tags
both_tags-Chain =
    chain_node 1 2 (node_of first_tag) _ refl refl refl
      (chain_node 2 0 (node_of (int_tag 4)) _ refl refl refl chain_end)

both_tags-Contiguous : Contiguous 0 both_tags 8
unfolding Contiguous
both_tags-Contiguous = (refl, (refl, refl))

held_on_heap : typedesc held.memtype ≡ some "HEAP"
unfolding typedesc
held_on_heap = refl

heap_items-Contiguous_example :
    heap_items (5 ∷ []) with_block
    ≡ ok (
      block_item 5 "HEAP" (map (λ (t : MemTag). objects t.offset) both_tags ++ gap_between 8 12)
          ∷ [],
      with_block,
    )
heap_items-Contiguous_example =
    heap_items-Contiguous 5 8 held "HEAP" both_tags with_block refl held_on_heap both_tags-Chain
      (omega arith) (omega arith) (omega arith) both_tags-Contiguous

-- An int behind four bytes without a tag, in a block of 12 bytes: the bytes in front of it are counted
-- again behind it.
counted_twice : entries 12 0 (int_tag 4 ∷ []) ≡ gap 4 ∷ objects 4 ∷ gap 8 ∷ []
unfolding entries gap_between
counted_twice = refl

-- A directory with an AST file and another file.
abbrev units : List TopDecl
units = TopDecl.function main_decl ∷ []

abbrev files : Files
files = record {
  listing = λ dir. some ("a.ast" ∷ "notes" ∷ []);
  load_ast = λ dir name. some [];
  load_source = λ arg. some units;
}

abbrev bad_files : Files
bad_files = record files { load_ast = λ dir name. none }

names_known : (is_ast "a.ast" ≡ true) × (is_ast "notes" ≡ Bool.false)
unfolding is_ast
names_known = (refl, refl)
