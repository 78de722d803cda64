-- ===== src/Rbtree/Heap.antt =====
-- rbtree.h: nodes, trees, and the reads and writes through node pointers.
use ctutor.Base.{ℕ, suc, Bool, false, Option, none, some, ◌==◌, if◌then◌else◌}
use ctutor.Outcome.{Outcome, ok, undefined}

-- An address of a node; 0 is `nullptr`.
abbrev pub Ptr : Type 0
Ptr = ℕ

abbrev pub null : Ptr
null = 0

-- `col` is `none` until it is assigned: the constructor leaves it indeterminate.
pub record Node {ℓ} (T : Type ℓ) : Type ℓ where
  pub value : T
  pub col : Option Bool
  pub left : Ptr
  pub right : Ptr
  pub parent : Ptr

-- A tree with the nodes that it owns. `fresh` is the next address that `new` returns.
pub record Tree {ℓ} (T : Type ℓ) : Type ℓ where
  pub head : Ptr
  pub cell : Ptr → Option (Node T)
  pub fresh : Ptr

-- rbnode<T>::rbnode(T v)
unfoldable pub new_node {ℓ} : {T : Type ℓ} → T → Node T
new_node v = record { value = v; col = none; left = null; right = null; parent = null }

-- rbtree<T>::rbtree(void)
unfoldable pub empty {ℓ} : {T : Type ℓ} → Tree T
empty = record { head = null; cell = λ _. none; fresh = 1 }

-- node->child[right?1:0]
unfoldable pub child {ℓ} : {T : Type ℓ} → Bool → Node T → Ptr
child right n = if right then n.right else n.left

unfoldable pub with_child {ℓ} : {T : Type ℓ} → Bool → Ptr → Node T → Node T
with_child right c n = if right then record n { right = c } else record n { left = c }

unfoldable pub with_col {ℓ} : {T : Type ℓ} → Bool → Node T → Node T
with_col b n = record n { col = some b }

abbrev pub update {ℓ} :
    {T : Type ℓ} → (Ptr → Option (Node T)) → Ptr → Option (Node T) → Ptr → Option (Node T)
update f p c q = if p == q then c else f q

-- A command on a tree: what it returns, and the tree that it leaves.
abbrev pub Cmd {ℓ κ} : Type ℓ → Type κ → Type (ℓ ⊔ κ)
Cmd T A = Tree T → Outcome (A × Tree T)

abbrev pub and_then {ℓ κ ι} :
    {T : Type ℓ} {A : Type κ} {B : Type ι}
    → Outcome (A × Tree T)
    → (A → Cmd T B)
    → Outcome (B × Tree T)
and_then (ok (a, t)) k = k a t
and_then (Outcome.exits e) k = Outcome.exits e
and_then undefined k = undefined
and_then Outcome.out_of_fuel k = Outcome.out_of_fuel

infixl 5 ◌>>=◌ ◌>>◌
abbrev pub ◌>>=◌ {ℓ κ ι} :
    {T : Type ℓ} {A : Type κ} {B : Type ι} → Cmd T A → (A → Cmd T B) → Cmd T B
m >>= k = λ t. and_then (m t) k

abbrev pub ◌>>◌ {ℓ κ ι} : {T : Type ℓ} {A : Type κ} {B : Type ι} → Cmd T A → Cmd T B → Cmd T B
m >> n = m >>= λ _. n

abbrev pub pure {ℓ κ} : {T : Type ℓ} {A : Type κ} → A → Cmd T A
pure a t = ok (a, t)

-- `*p`, undefined at `nullptr` and at a deleted node.
unfoldable pub load {ℓ} : {T : Type ℓ} → Ptr → Cmd T (Node T)
load p t = elim (t.cell p) [ none ↦ undefined | some n ↦ ok (n, t) ]

-- An assignment to a member of `*p`.
unfoldable pub modify {ℓ} : {T : Type ℓ} → Ptr → (Node T → Node T) → Cmd T (Unit {0})
modify p f t = elim (t.cell p) [
  | none ↦ undefined
  | some n ↦ ok (tt, record t { cell = update t.cell p (some (f n)) })
]

-- node->col, undefined while it is indeterminate
unfoldable pub get_col {ℓ} : {T : Type ℓ} → Ptr → Cmd T Bool
unfolding load
get_col p = do n ← load p; elim n.col [ none ↦ λ _. undefined | some b ↦ pure b ]

-- node != nullptr && node->col
unfoldable pub is_red {ℓ} : {T : Type ℓ} → Ptr → Cmd T Bool
unfolding get_col
is_red p = if p == null then pure false else get_col p

unfoldable pub set_head {ℓ} : {T : Type ℓ} → Ptr → Cmd T (Unit {0})
set_head p t = ok (tt, record t { head = p })

-- new rbnode<T>(obj)
unfoldable pub alloc {ℓ} : {T : Type ℓ} → T → Cmd T Ptr
unfolding new_node
alloc v t =
    ok (t.fresh, record t { cell = update t.cell t.fresh (some (new_node v)); fresh = suc t.fresh })

-- delete node; undefined for a node that is gone
unfoldable pub delete {ℓ} : {T : Type ℓ} → Ptr → Cmd T (Unit {0})
delete p t = if p == null then ok (tt, t) else elim (t.cell p) [
  | none ↦ undefined
  | some _ ↦ ok (tt, record t { cell = update t.cell p none })
]
