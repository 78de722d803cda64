-- ===== src/Exec/Refines.antt =====
-- What holds of every command that is built from the operations of the interpreter: with more fuel
-- it does the same, and it keeps an invariant of the memory and the variables in scope. One rule for
-- each way to build a command.
pub mod Instance
use Prim.Native.String.{String}
use ctutor.Base.{
  ℕ, ◌≡◌, ◌≢◌, refl, ap, sym, subst, ◌⊎◌, inl, inr, Bool, true, false, Option, none, some, List,
  if◌then◌else◌,
}
use ctutor.Outcome.{Outcome, ok, exits, undefined, out_of_fuel, Error}
use ctutor.Types.Enums.{MemType}
use ctutor.Types.EmuVal.{EmuVal}
use ctutor.Mem.Block.{Memory}
use ctutor.Mem.Stack.{Lvalue, Scopes}
use ctutor.Exec.{
  State, Host, Exec, pure, raise, no_fuel, asks, lift, push_frame, pop_frame, declare, set_source,
  on_memory, ◌>>=◌, returned, continue,
}
use ctutor.Exec.Blocks.{delete_in, store_bytes, set_memtype, alloc, alloc_with, write}

-- What holds of the state that a run leaves, where it leaves one.
unfoldable pub Leaves : {A : Type 0} → (State → Type 0) → Outcome (A × State) → Type 0
Leaves P (ok (a, s)) = P s
Leaves P (exits e) = Unit {0}
Leaves P undefined = Unit {0}
Leaves P out_of_fuel = Unit {0}

-- A predicate of the memory and the variables in scope, and a proof for each operation of mem.cpp
-- that it keeps the predicate.
pub record Invariant (h : Host) : Type 1 where
  pub Holds : Memory → Scopes → Type 0
  pub alloc :
      (t : MemType) (n : ℕ) (s : State)
      → Holds s.memory s.scopes
      → Leaves (λ s'. Holds s'.memory s'.scopes) (alloc h t n s)
  pub alloc_with :
      (t : MemType) (v : EmuVal) (s : State)
      → Holds s.memory s.scopes
      → Leaves (λ s'. Holds s'.memory s'.scopes) (alloc_with h t v s)
  pub write :
      (b : Option ℕ) (v : EmuVal) (n : ℕ) (s : State)
      → Holds s.memory s.scopes
      → Leaves (λ s'. Holds s'.memory s'.scopes) (write h b v n s)
  pub store :
      (b : Option ℕ) (n : ℕ) (bytes : List ℕ) (s : State)
      → Holds s.memory s.scopes
      → Leaves (λ s'. Holds s'.memory s'.scopes) (store_bytes b n bytes s)
  pub memtype :
      (b : ℕ) (t : MemType) (s : State)
      → Holds s.memory s.scopes
      → Leaves (λ s'. Holds s'.memory s'.scopes) (set_memtype b t s)
  pub delete :
      (b : ℕ) (s : State)
      → Holds s.memory s.scopes
      → Leaves (λ s'. Holds s'.memory s'.scopes) (on_memory (delete_in b) s)
  pub push :
      (s : State)
      → Holds s.memory s.scopes
      → Leaves (λ s'. Holds s'.memory s'.scopes) (push_frame s)
  pub pop :
      (s : State) → Holds s.memory s.scopes → Leaves (λ s'. Holds s'.memory s'.scopes) (pop_frame s)
  pub declare :
      (name : String) (l : Lvalue) (s : State)
      → Holds s.memory s.scopes
      → Leaves (λ s'. Holds s'.memory s'.scopes) (declare name l s)

-- The result `r'` of a run with more fuel than that of `r`.
abbrev pub Extends :
    {A : Type 0} → (State → Type 0) → Outcome (A × State) → Outcome (A × State) → Type 0
Extends P r r' = (r ≡ out_of_fuel) ⊎ ((r' ≡ r) × Leaves P r)

module _ {h : Host} (inv : Invariant h) where
  abbrev pub Good : State → Type 0
  Good s = inv.Holds s.memory s.scopes

  -- `m'` does what `m` does wherever `m` has enough fuel, and keeps the invariant there.
  pub record Refines {A : Type 0} (m m' : Exec A) : Type 0 where
    pub at : (s : State) → Good s → Extends Good (m s) (m' s)

returned-Leaves :
    {A : Type 0} (P : State → Type 0) (r : Outcome A) (s : State) → P s → Leaves P (returned r s)
unfolding Leaves
returned-Leaves P (ok a) s g = g
returned-Leaves P (exits e) s g = tt
returned-Leaves P undefined s g = tt
returned-Leaves P out_of_fuel s g = tt

module _ {h : Host} {inv : Invariant h} {A : Type 0} where
  -- A command without fuel refines itself where it keeps the invariant.
  pub Refines-same :
      (m : Exec A) → ((s : State) → Good inv s → Leaves (Good inv) (m s)) → Refines inv m m
  Refines-same m keeps = record { at = λ s g. inr (refl, keeps s g) }

  pub Refines-pure : (a : A) → Refines inv (pure a) (pure a)
  unfolding pure Leaves
  Refines-pure a = Refines-same _ (λ s g. g)

  pub Refines-raise : (e : Error) → Refines inv (raise {A = A} e) (raise e)
  unfolding raise Leaves
  Refines-raise e = Refines-same _ (λ s g. tt)

  pub Refines-no_fuel : (m : Exec A) → Refines inv no_fuel m
  unfolding no_fuel
  Refines-no_fuel m = record { at = λ s g. inl refl }

  pub Refines-lift : (r : Outcome A) → Refines inv (lift r) (lift r)
  unfolding lift
  Refines-lift r = Refines-same _ (returned-Leaves (Good inv) r)

  pub Refines-asks : (f : State → Outcome A) → Refines inv (asks f) (asks f)
  unfolding asks
  Refines-asks f = Refines-same _ (λ s g. returned-Leaves (Good inv) (f s) s g)

  pub Refines-if :
      (b : Bool) (m m' n n' : Exec A)
      → Refines inv m m'
      → Refines inv n n'
      → Refines inv (if b then m else n) (if b then m' else n')
  Refines-if true m m' n n' r q = r
  Refines-if false m m' n n' r q = q

  pub Refines-option :
      {X : Type 0} (o : Option X) (m m' : Exec A) (k k' : X → Exec A)
      → Refines inv m m'
      → ((x : X) → Refines inv (k x) (k' x))
      → Refines inv (elim o [ none ↦ m | some x ↦ k x ]) (elim o [ none ↦ m' | some x ↦ k' x ])
  Refines-option none m m' k k' r q = r
  Refines-option (some x) m m' k k' r q = q x

module _ {h : Host} {inv : Invariant h} {A B : Type 0} where
  continue_lem :
      (r r' : Outcome (A × State)) (f f' : A → Exec B)
      → Extends (Good inv) r r'
      → ((a : A) → Refines inv (f a) (f' a))
      → Extends (Good inv) (continue r f) (continue r' f')
  unfolding Leaves
  continue_lem r r' f f' (inl e) k = inl (ap (λ x. continue x f) e)
  continue_lem (ok (a, s)) r' f f' (inr (e, g)) k =
      subst (λ x. Extends (Good inv) (f a s) (continue x f')) (sym e) ((k a).at s g)
  continue_lem (exits x) r' f f' (inr (e, g)) k = inr (ap (λ x. continue x f') e, tt)
  continue_lem undefined r' f f' (inr (e, g)) k = inr (ap (λ x. continue x f') e, tt)
  continue_lem out_of_fuel r' f f' (inr (e, g)) k = inr (ap (λ x. continue x f') e, tt)

  pub Refines-bind :
      (m m' : Exec A) (f f' : A → Exec B)
      → Refines inv m m'
      → ((a : A) → Refines inv (f a) (f' a))
      → Refines inv (m >>= f) (m' >>= f')
  unfolding ◌>>=◌
  Refines-bind m m' f f' r k = record { at = λ s g. continue_lem (m s) (m' s) f f' (r.at s g) k }

module _ {h : Host} {inv : Invariant h} where
  pub Refines-alloc : (t : MemType) (n : ℕ) → Refines inv (alloc h t n) (alloc h t n)
  Refines-alloc t n = Refines-same _ (inv.alloc t n)

  pub Refines-alloc_with :
      (t : MemType) (v : EmuVal) → Refines inv (alloc_with h t v) (alloc_with h t v)
  Refines-alloc_with t v = Refines-same _ (inv.alloc_with t v)

  pub Refines-write :
      (b : Option ℕ) (v : EmuVal) (n : ℕ) → Refines inv (write h b v n) (write h b v n)
  Refines-write b v n = Refines-same _ (inv.write b v n)

  pub Refines-store_bytes :
      (b : Option ℕ) (n : ℕ) (bytes : List ℕ)
      → Refines inv (store_bytes b n bytes) (store_bytes b n bytes)
  Refines-store_bytes b n bytes = Refines-same _ (inv.store b n bytes)

  pub Refines-set_memtype : (b : ℕ) (t : MemType) → Refines inv (set_memtype b t) (set_memtype b t)
  Refines-set_memtype b t = Refines-same _ (inv.memtype b t)

  pub Refines-delete : (b : ℕ) → Refines inv (on_memory (delete_in b)) (on_memory (delete_in b))
  Refines-delete b = Refines-same _ (inv.delete b)

  pub Refines-push_frame : Refines inv push_frame push_frame
  Refines-push_frame = Refines-same _ inv.push

  pub Refines-pop_frame : Refines inv pop_frame pop_frame
  Refines-pop_frame = Refines-same _ inv.pop

  pub Refines-declare : (name : String) (l : Lvalue) → Refines inv (declare name l) (declare name l)
  Refines-declare name l = Refines-same _ (inv.declare name l)

  pub Refines-set_source : (n : ℕ) → Refines inv (set_source n) (set_source n)
  unfolding set_source Leaves
  Refines-set_source n = Refines-same _ (λ s g. g)

pub ruleset refines_rules = (
  Refines-pure, Refines-raise, Refines-no_fuel, Refines-lift, Refines-asks, Refines-if,
  Refines-option, Refines-bind, Refines-alloc, Refines-alloc_with, Refines-write,
  Refines-store_bytes, Refines-set_memtype, Refines-delete, Refines-push_frame, Refines-pop_frame,
  Refines-declare, Refines-set_source,
)

pub any-Leaves : {A : Type 0} (r : Outcome (A × State)) → Leaves (λ s. Unit {0}) r
unfolding Leaves
any-Leaves (ok (a, s)) = tt
any-Leaves (exits e) = tt
any-Leaves undefined = tt
any-Leaves out_of_fuel = tt

-- The predicate that holds of all states.
abbrev pub no_invariant : (h : Host) → Invariant h
no_invariant h = record {
  Holds = λ m c. Unit {0};
  alloc = λ t n s g. any-Leaves _;
  alloc_with = λ t v s g. any-Leaves _;
  write = λ b v n s g. any-Leaves _;
  store = λ b n bytes s g. any-Leaves _;
  memtype = λ b t s g. any-Leaves _;
  delete = λ b s g. any-Leaves _;
  push = λ s g. any-Leaves _;
  pop = λ s g. any-Leaves _;
  declare = λ name l s g. any-Leaves _;
}

-- A run that is not out of fuel does the same with more fuel.
pub Refines-result :
    {h : Host} {inv : Invariant h} {A : Type 0} (m m' : Exec A) (s : State)
    → Refines inv m m'
    → Good inv s
    → m s ≢ out_of_fuel
    → m' s ≡ m s
Refines-result m m' s r g ne = elim (r.at s g) [ inl e ↦ absurd (ne e) | inr (e, _) ↦ e ]

Extends-Leaves :
    {A : Type 0} (P : State → Type 0) (r r' : Outcome (A × State)) (a : A) (s : State)
    → Extends P r r'
    → r ≡ ok (a, s)
    → P s
unfolding Leaves
Extends-Leaves P r r' a s (inl e) h = cc
Extends-Leaves P r r' a s (inr (_, g)) h = subst (Leaves P) h g

-- A run that leaves a state leaves one with the invariant.
pub Refines-kept :
    {h : Host} {inv : Invariant h} {A : Type 0} (m m' : Exec A) (a : A) (s s' : State)
    → Refines inv m m'
    → Good inv s
    → m s ≡ ok (a, s')
    → Good inv s'
Refines-kept {inv = inv} m m' a s s' r g e =
    Extends-Leaves (Good inv) (m s) (m' s) a s' (r.at s g) e
