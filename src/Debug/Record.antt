-- ===== src/Debug/Record.antt =====
-- The parts of the record that debug_dump writes of the state of the interpreter.
use Prim.Native.String.{String}
use mathlib.Core.List.{reverse}
use ctutor.Base.{
  ℕ, zero, suc, Bool, true, false, ◌&&◌, ◌||◌, Option, none, some, List, [], ◌∷◌, ◌++◌, map,
  if◌then◌else◌,
}
use ctutor.Outcome.{ok, undefined}
use ctutor.Types.Enums.{MemType, static, global, stack, heap, extern, invalid, freed}
use ctutor.Types.QualType.{is_pointer_type, is_array_type}
use ctutor.Types.EmuVal
use ctutor.Types.EmuVal.{EmuVal}
use ctutor.Mem.Tag.{MemTag, add_size, mul_size}
use ctutor.Mem.Block.{Block}
use ctutor.Mem.Stack.{Lvalue, Frame}
use ctutor.External.{as_ptr}
use ctutor.Cast.FromLvalue.{from_lvalue}
use ctutor.Exec.{Host, Exec, pure, asks, lift, ◌>>=◌}
use ctutor.Exec.Blocks.{block_at}
use ctutor.Eval.Casts.{is_defined}
use ctutor.Debug.{Console, Piece, text, nat, id_of, print}
use ctutor.Debug.Layout.{Entry, gap, objects, entries, tags_from}

abbrev pub Pieces : Type 0
Pieces = List Piece

-- The items of a loop with a flag for the first one, which has no separator in front.
unfoldable pub separated : List Pieces → Pieces
separated [] = []
separated (x ∷ []) = x
separated (x ∷ y ∷ ys) = x ++ (text ",\n" ∷ separated (y ∷ ys))

unfoldable pub joined : List Pieces → Pieces
joined [] = []
joined (x ∷ xs) = x ++ joined xs

abbrev is_invalid : MemType → Bool
is_invalid invalid = true
is_invalid _ = false

-- The switches for `typedesc`; `none` where they go on to the next block.
unfoldable pub typedesc : MemType → Option String
typedesc static = some "STATIC"
typedesc global = some "GLOBAL"
typedesc heap = some "HEAP"
typedesc stack = some "STACK"
typedesc extern = some "EXTERN"
typedesc invalid = none
typedesc freed = none

-- The variables of a source whose blocks are in use, with the ids of the blocks.
unfoldable pub used_locals : (source : ℕ) → List String → Exec (List (String × ℕ))
used_locals source [] = pure []
used_locals source (name ∷ names) = do
  found ← asks (λ s. ok (s.local_vars source name))
  l ← lift (elim found [ none ↦ undefined | some l ↦ ok l ])
  b ← block_at l.block
  rest ← used_locals source names
  pure (if is_invalid b.memtype then rest else (name, b.id) ∷ rest)

unfoldable pub local_name : String × ℕ → Pieces
local_name (name, id) = text "\"" ∷ text name ∷ text "\"" ∷ []

unfoldable pub local_ref : String × ℕ → Pieces
local_ref (name, id) = text "\"" ∷ text name ∷ text "\": [\"REF\", " ∷ nat id ∷ text "]" ∷ []

-- A run of objects, or bytes without any, in the description of a block.
unfoldable pub entry_pieces : (id : ℕ) → Entry → Pieces
entry_pieces id (gap n) = text ",[\"\",\"" ∷ nat n ∷ text " bytes uninitialized\"]\n" ∷ []
entry_pieces id (objects pos) =
    text ",[\"\",[\"REF\",\"" ∷ nat id ∷ text "O" ∷ nat pos ∷ text "\"]]\n" ∷ []

unfoldable pub block_tags : Block → Exec (List MemTag)
unfolding tags_from
block_tags b = lift (tags_from (suc b.tags.fresh) b.firsttag b.tags)

-- The blocks of the first loop over active_mem.
unfoldable pub heap_items : List ℕ → Exec (List Pieces)
unfolding typedesc block_tags entry_pieces entries joined
heap_items [] = pure []
heap_items (i ∷ is) = do
  b ← block_at (some i)
  elim (typedesc b.memtype) [
    | none ↦ heap_items is
    | some desc ↦ do
      tags ← block_tags b
      rest ← heap_items is
      let head = text "\"" ∷ nat b.id ∷ text "\": [\"CLASS\", \"" ∷ text desc ∷ text "\", []" ∷ []
      pure (
          (head ++ (joined (map (entry_pieces b.id) (entries b.size 0 tags)) ++ (text "] " ∷ [])))
          ∷ rest)
  ]

module _ (console : Console) where
  unfoldable pub var_name : String × Lvalue → Pieces
  var_name (name, l) =
      text "\"" ∷ text (console.type_name l.type) ∷ text " " ∷ text name ∷ text "\"" ∷ []

  -- The variables of a frame with the ids of their blocks.
  unfoldable pub var_refs : Frame → Exec (List Pieces)
  var_refs [] = pure []
  var_refs ((name, l) ∷ vs) = do
    b ← block_at l.block
    rest ← var_refs vs
    pure (
        (text "\""
          ∷ text (console.type_name l.type)
          ∷ text " "
          ∷ text name
          ∷ text "\": [\"REF\", "
          ∷ nat b.id
          ∷ text "]"
          ∷ [])
        ∷ rest)

  -- A frame, from its first variable on. Its hash has the number that the next frame gets.
  unfoldable pub frame_item : (frame_id : ℕ) → Frame → Exec Pieces
  unfolding var_refs var_name separated
  frame_item id vs = do
    refs ← var_refs vs
    let head =
        text "{\n"
        ∷ text "\"frame_id\": "
        ∷ nat id
        ∷ text ",\n"
        ∷ text "\"encoded_locals\": {\n"
        ∷ []
    let middle =
        text
          "\n},\n\"is_highlighted\": false,\n\"is_parent\": false,\n\"func_name\": \"unnamed\",\n\"is_zombie\": false,\n\"parent_frame_id_list\": [],\n\"unique_hash\": \"func_"
        ∷ nat (suc id)
        ∷ text "\",\n\"ordered_varnames\": [\n"
        ∷ []
    pure (
        head
        ++ (separated refs ++ (middle ++ (separated (map var_name vs) ++ (text "\n]\n}" ∷ [])))))

  -- The frames that have variables, numbered from the oldest one on.
  unfoldable pub frame_items : (frame_id : ℕ) → List Frame → Exec (List Pieces)
  unfolding frame_item
  frame_items id [] = pure []
  frame_items id ([] ∷ fs) = frame_items id fs
  frame_items id ((v ∷ vs) ∷ fs) = do
    item ← frame_item id (reverse (v ∷ vs))
    rest ← frame_items (suc id) fs
    pure (item ∷ rest)

  -- An object of a run, as a reference or as its value.
  unfoldable pub element : EmuVal → Exec Pieces
  unfolding as_ptr id_of print
  element v =
      let t = EmuVal.obj_type v in
      if (is_pointer_type t || is_array_type t) && is_defined (EmuVal.status v)
      then (do
        p ← lift (as_ptr v)
        id ← asks (λ s. id_of s.memory p.target)
        pure (text ", [\"REF\",\"" ∷ nat id ∷ text "O" ∷ nat p.offset ∷ text "\"]" ∷ []))
      else (do
        shown ← asks (λ s. print console s.memory v)
        pure (text ", \"" ∷ (shown ++ (text "\"" ∷ []))))

  module _ (h : Host) (size : ℕ → Exec EmuVal) where
    -- The objects of a run, from the one with number `i` on.
    unfoldable pub elements : (rounds i : ℕ) → (block : ℕ) → MemTag → Exec Pieces
    unfolding element
    elements zero i block t = pure []
    elements (suc n) i block t = do
      let offset = add_size t.offset (mul_size i t.typesize)
      v ← from_lvalue h size (record { block = some block; type = t.type; offset = offset })
      shown ← element v
      rest ← elements n (suc i) block t
      pure (shown ++ rest)

    unfoldable pub run_items : (block id : ℕ) → List MemTag → Exec Pieces
    unfolding elements
    run_items block id [] = pure []
    run_items block id (t ∷ ts) = do
      values ← elements t.count 0 block t
      rest ← run_items block id ts
      let head = text ", \"" ∷ nat id ∷ text "O" ∷ nat t.offset ∷ text "\": [\"LIST\"" ∷ []
      pure (head ++ (values ++ (text "]" ∷ rest)))

    -- The second loop over active_mem.
    unfoldable pub block_runs : List ℕ → Exec Pieces
    unfolding typedesc block_tags run_items
    block_runs [] = pure []
    block_runs (i ∷ is) = do
      b ← block_at (some i)
      elim (typedesc b.memtype) [
        | none ↦ block_runs is
        | some desc ↦ do
          tags ← block_tags b
          runs ← run_items i b.id tags
          rest ← block_runs is
          pure (runs ++ rest)
      ]
