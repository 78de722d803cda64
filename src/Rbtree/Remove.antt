-- ===== src/Rbtree/Remove.antt =====
-- rbtree<T>::remove and rbtree<T>::balance_blacks of rbtree.cpp.
use ctutor.Base.{ℕ, zero, suc, Bool, true, false, not, ◌&&◌, ◌==◌, if◌then◌else◌}
use ctutor.Outcome.{undefined, out_of_fuel}
use ctutor.Rbtree.Heap.{
  Ptr, null, child, with_child, with_col, Cmd, ◌>>=◌, ◌>>◌, pure, load, modify, get_col, is_red,
  set_head, delete,
}

module _ {ℓ} {T : Type ℓ} where
  -- `top` takes the place of `old` under the grandparent, or at the head.
  replace_below : (grandparent old top : Ptr) → Cmd T (Unit {0})
  replace_below grandparent old top =
      let under = (do
        g ← load grandparent
        modify grandparent (with_child (not (child false g == old)) top)) in
      if grandparent == null then set_head top else under

  -- The rotation about a red sibling: the parent and the sibling that it leaves.
  red_sibling : (parent sibling : Ptr) → (sright : Bool) → Cmd T (Ptr × Ptr)
  unfolding replace_below
  red_sibling parent sibling sright = do
    modify parent (with_col true)
    modify sibling (with_col false)
    s ← load sibling
    let newsib = child (not sright) s
    modify parent (with_child sright newsib)
    modify sibling (with_child (not sright) parent)
    p ← load parent
    replace_below p.parent parent sibling
    pure (p.parent, newsib)

  -- Where the far nephew is black, the near one is turned up first: sibling, near and far.
  near_up : (parent sibling sl : Ptr) → (sright : Bool) → Cmd T (Ptr × Ptr × Ptr)
  near_up parent sibling sl sright = do
    l ← load sl
    modify sibling (with_child (not sright) (child sright l))
    modify parent (with_child sright sl)
    modify sl (with_child sright sibling)
    modify sibling (with_col true)
    modify sl (with_col false)
    l' ← load sl
    pure (sl, child (not sright) l', sibling)

  -- The last rotation.
  far_up : (parent sibling sl sr : Ptr) → (sright pcol : Bool) → Cmd T (Unit {0})
  unfolding replace_below
  far_up parent sibling sl sr sright pcol = do
    modify sibling (with_col pcol)
    modify parent (with_col false)
    modify sr (with_col false)
    modify parent (with_child sright sl)
    p ← load parent
    replace_below p.parent parent sibling

  -- The sibling beside `node`, and whether it is the right child.
  sibling_of : (parent node : Ptr) → Cmd T (Ptr × Bool)
  sibling_of parent node = do
    p ← load parent
    let sright = child false p == node
    pure (if sright then child true p else child false p, sright)

  recolour_pair : (sibling parent : Ptr) → Cmd T (Unit {0})
  recolour_pair sibling parent = do modify sibling (with_col true); modify parent (with_col false)

  -- The part of balance_blacks that needs no red sibling any more. `up` is the recursive call.
  settle :
      (up : Cmd T (Unit {0}))
      → (b : Bool) → (parent sibling : Ptr) → (sright : Bool) → Cmd T (Unit {0})
  unfolding near_up far_up recolour_pair
  settle up b parent sibling sright = do
    s ← load sibling
    let sl = child (not sright) s
    let sr = child sright s
    pcol ← get_col parent
    lcol ← is_red sl
    rcol ← is_red sr
    let turn_near = near_up parent sibling sl sright
    let rotated =
        ((if rcol then pure (sibling, sl, sr) else turn_near) >>= λ (sib, l, r).
        far_up parent sib l r sright pcol)
    if not b && not pcol && not lcol && not rcol
        then modify sibling (with_col true) >> up
        else if pcol && not lcol && not rcol
        then recolour_pair sibling parent
        else rotated

  balance_blacks : ℕ → (node kid : Ptr) → Cmd T (Unit {0})
  unfolding red_sibling sibling_of settle
  balance_blacks zero node kid = λ _. out_of_fuel
  balance_blacks (suc f) node kid = do
    col ← get_col node
    let again = balance_blacks f
    let balance = (do
      n ← load node
      let with_parent = (do
        (sibling, sright) ← sibling_of n.parent node
        b ← get_col sibling
        let turned = red_sibling n.parent sibling sright
        (parent, sib) ← if b then turned else pure (n.parent, sibling)
        settle (again parent node) b parent sib sright)
      if n.parent == null then pure tt else with_parent)
    let black = (do kid_col ← get_col kid; if kid_col then modify kid (with_col false) else balance)
    if col then pure tt else black

  -- The walk to the leftmost node below `ch2`.
  leftmost : ℕ → (ch2 : Ptr) → Cmd T Ptr
  leftmost zero ch2 = λ _. out_of_fuel
  leftmost (suc f) ch2 = do
    n ← load ch2
    let deeper = leftmost f (child false n)
    if child false n == null then pure ch2 else deeper

  -- The node to unlink, and its child. With a left child and no right one the source reads its
  -- local variable `parent` before any assignment.
  choose : ℕ → (node : Ptr) → Cmd T (Ptr × Ptr)
  unfolding leftmost
  choose fuel node = do
    n ← load node
    let below = (do
      p ← leftmost fuel (child true n)
      s ← load p
      modify node (λ m. record m { value = s.value })
      pure (p, child true s))
    if child false n == null
        then pure (node, child true n)
        else if child true n == null
        then (λ _. undefined)
        else below

-- rbtree<T>::remove
unfoldable pub remove {ℓ} : {T : Type ℓ} → (node : Ptr) → Cmd T (Unit {0})
unfolding balance_blacks choose
remove node t =
    (do (gone, kid) ← choose (suc t.fresh) node; balance_blacks (suc t.fresh) gone kid; delete gone)
      t
