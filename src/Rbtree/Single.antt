-- ===== src/Rbtree/Single.antt =====
-- The constructor of rbtree.cpp that makes a tree of one value.
use ctutor.Base.{ℕ, ◌≡◌, refl, false}
use ctutor.Outcome.{Outcome, ok, ◌>>=◌ as ◌|>◌}
use ctutor.Rbtree.{insert, plant}
use ctutor.Rbtree.Heap.{Tree, ◌>>=◌, ◌>>◌, alloc, modify, set_head, with_col, new_node, empty}

-- rbtree<T>::rbtree(T obj)
unfoldable pub of_value {ℓ} : {T : Type ℓ} → T → Outcome (Unit {0} × Tree T)
unfolding alloc modify set_head with_col empty
of_value obj = (alloc obj >>= λ newnode. modify newnode (with_col false) >> set_head newnode) empty

-- The tree is the one that insert makes of a tree with no node.
pub insert-empty {ℓ} :
    {T : Type ℓ} (sortval : T → ℕ) (obj : T)
    → insert sortval obj empty ≡ (of_value obj |> λ (u, t). ok (t.head, t))
unfolding insert plant of_value alloc modify set_head with_col empty new_node
insert-empty sortval obj = refl
