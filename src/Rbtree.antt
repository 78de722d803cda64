-- ===== src/Rbtree.antt =====
-- rbtree.cpp, statement for statement over nodes at addresses. Each loop runs on fuel and is
-- given as many rounds as nodes were ever allocated, plus one.
pub mod Heap
pub mod Remove
pub mod Single
use ctutor.Base.{
  ℕ, zero, suc, ◌+◌, ◌%◌, ◌^◌, ◌≡◌, Bool, true, false, not, ◌&&◌, ◌||◌, Option, none, some, ltb,
  ◌==◌, if◌then◌else◌,
}
use ctutor.Outcome.{Outcome, ok, undefined, out_of_fuel}
use Heap.{
  Ptr, null, Node, Tree, child, with_child, with_col, Cmd, and_then, ◌>>=◌, ◌>>◌, pure, load,
  modify, get_col, is_red, set_head, alloc, delete,
}

-- A `size_t` given to an `int`: the low 32 bits, shifted so that the order of the signed values
-- is the order of these numbers.
abbrev pub to_int : ℕ → ℕ
to_int x = (x + 2 ^ 31) % 2 ^ 32

same : Bool → Bool → Bool
same true b = b
same false b = not b

-- Where a recolouring ends: with the tree done, or at a node below which it must rotate.
pub data Recolour : Type 0 where
  done : Recolour
  turn : (curr parent grandparent : Ptr) → (parentright : Bool) → Recolour

module _ {ℓ} {T : Type ℓ} (sortval : T → ℕ) where
  -- rbtree<T>::findBelow, its loop
  find_below_loop : ℕ → ℕ → (best curr : Ptr) → Cmd T Ptr
  find_below_loop zero v best curr = λ _. out_of_fuel
  find_below_loop (suc f) v best curr = if curr == null then pure best else do
    n ← load curr
    let comp = to_int (sortval n.value)
    let above = find_below_loop f v curr n.right
    let below = find_below_loop f v best n.left
    if v == comp then pure curr else if ltb comp v then above else below

  unfoldable pub find_below : ℕ → Cmd T Ptr
  unfolding find_below_loop load
  find_below value t = find_below_loop (suc t.fresh) (to_int value) null t.head t

  -- rbtree<T>::findAbove
  find_above_loop : ℕ → ℕ → (best curr : Ptr) → Cmd T Ptr
  find_above_loop zero v best curr = λ _. out_of_fuel
  find_above_loop (suc f) v best curr = if curr == null then pure best else do
    n ← load curr
    let comp = to_int (sortval n.value)
    let below = find_above_loop f v curr n.left
    let above = find_above_loop f v best n.right
    if v == comp then pure curr else if ltb v comp then below else above

  unfoldable pub find_above : ℕ → Cmd T Ptr
  unfolding find_above_loop load
  find_above value t = find_above_loop (suc t.fresh) (to_int value) null t.head t

  -- The do-while loop of rbtree<T>::insert that finds the place of the new node: grandparent,
  -- parent and side.
  descend : ℕ → T → (parent curr : Ptr) → Cmd T (Ptr × Ptr × Bool)
  descend zero obj parent curr = λ _. out_of_fuel
  descend (suc f) obj parent curr = do
    n ← load curr
    let right = ltb (sortval n.value) (sortval obj)
    let deeper = descend f obj curr (child right n)
    if child right n == null then pure (parent, curr, right) else deeper

-- child[1] == p
is_right {ℓ} : {T : Type ℓ} → Ptr → Node T → Bool
is_right p n = n.right == p

module _ {ℓ} {T : Type ℓ} where
  -- The do-while loop of rbtree<T>::insert that recolours upwards.
  recolour : ℕ → (grandparent parent uncle : Ptr) → Cmd T Recolour
  recolour zero grandparent parent uncle = λ _. out_of_fuel
  recolour (suc f) grandparent parent uncle = do
    modify parent (with_col false)
    modify uncle (with_col false)
    n ← load grandparent
    if n.parent == null then pure done else do
      pcol ← get_col n.parent
      if not pcol then (modify grandparent (with_col true) >> pure done) else do
        p ← load n.parent
        g ← load p.parent
        let parentright = is_right n.parent g
        let uncle' = child (not parentright) g
        let again = recolour f p.parent n.parent uncle'
        red ← is_red uncle'
        if red then again else pure (turn grandparent n.parent p.parent parentright)

  -- child[1] == node of greatgrandparent; the variable is not read where there is none.
  side_of : (greatgrandparent node : Ptr) → Cmd T Bool
  unfolding is_right
  side_of greatgrandparent node =
      let found = (do n ← load greatgrandparent; pure (is_right node n)) in
      if greatgrandparent == null then pure false else found

  -- right != parentright: `curr` moves above its parent and its grandparent.
  rotate_inner : (curr parent grandparent : Ptr) → (right parentright : Bool) → Cmd T Ptr
  rotate_inner curr parent grandparent right parentright = do
    c ← load curr
    modify parent (with_child right (child (not right) c))
    modify grandparent (with_child parentright (child right c))
    modify curr (with_child parentright parent)
    modify curr (with_child (not parentright) grandparent)
    modify curr (with_col false)
    pure curr

  -- right == parentright: `parent` moves above its parent.
  rotate_outer : (parent grandparent : Ptr) → (right parentright : Bool) → Cmd T Ptr
  rotate_outer parent grandparent right parentright = do
    p ← load parent
    modify grandparent (with_child parentright (child (not right) p))
    modify parent (with_child (not right) grandparent)
    modify parent (with_col false)
    pure parent

  -- Where the rotated subtree is hung: under the great-grandparent, or at the head.
  hang : (greatgrandparent : Ptr) → (right : Bool) → (top : Ptr) → Cmd T (Unit {0})
  hang greatgrandparent right top =
      if greatgrandparent == null
      then set_head top
      else modify greatgrandparent (with_child right top)

  -- The rotation at the end of rbtree<T>::insert.
  rotate : (curr parent grandparent : Ptr) → (parentright : Bool) → Cmd T (Unit {0})
  unfolding is_right same side_of rotate_inner rotate_outer hang
  rotate curr parent grandparent parentright = do
    p ← load parent
    let right = is_right curr p
    g ← load grandparent
    grandparentright ← side_of g.parent grandparent
    let outer = rotate_outer parent grandparent right parentright
    let inner = rotate_inner curr parent grandparent right parentright
    top ← if same right parentright then outer else inner
    modify grandparent (with_col true)
    hang g.parent grandparentright top

  finish : Recolour → Cmd T (Unit {0})
  unfolding rotate
  finish done = pure tt
  finish (turn curr parent grandparent parentright) = rotate curr parent grandparent parentright

  -- The new node is red, and linked once more.
  place : (curr parent : Ptr) → (right : Bool) → Cmd T (Unit {0})
  place curr parent right = do modify curr (with_col true); modify parent (with_child right curr)

  -- The part of rbtree<T>::insert below a red parent.
  rebalance : ℕ → (curr grandparent parent : Ptr) → (right : Bool) → Cmd T (Unit {0})
  unfolding recolour finish place is_right
  rebalance fuel curr grandparent parent right = do
    g ← load grandparent
    let parentright = is_right parent g
    let uncle = child (not parentright) g
    red ← is_red uncle
    let up = place curr parent right >> (recolour fuel grandparent parent uncle >>= finish)
    if red then up else rotate curr parent grandparent parentright

  -- rbtree<T>::insert once the place of the new node is known.
  attach : ℕ → T → (grandparent parent : Ptr) → (right : Bool) → Cmd T Ptr
  unfolding place rebalance
  attach fuel obj grandparent parent right = do
    curr ← alloc obj
    modify parent (with_child right curr)
    pcol ← get_col parent
    let below_red = rebalance fuel curr grandparent parent right
    if pcol then below_red else place curr parent right
    pure curr

  -- rbtree<T>::insert into a tree with no node.
  plant : T → Cmd T Ptr
  plant obj = do curr ← alloc obj; modify curr (with_col false); set_head curr; pure curr

-- rbtree<T>::insert
unfoldable pub insert {ℓ} : {T : Type ℓ} → (T → ℕ) → T → Cmd T Ptr
unfolding descend attach plant
insert sortval obj t =
    let fuel = suc t.fresh in
    let below = descend sortval fuel obj null t.head >>= λ (grandparent, parent, right).
    attach fuel obj grandparent parent right in
    if t.head == null then plant obj t else below t
