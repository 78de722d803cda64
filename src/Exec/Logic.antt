-- ===== src/Exec/Logic.antt =====
-- What is shown of all commands that the evaluator is built from, at once: a relation of two commands
-- with one rule for each way to build a command. An evaluator of the same shape obeys every such logic.
use Prim.Native.String.{String}
use ctutor.Base.{ℕ, Bool, true, false, Option, none, some, List, if◌then◌else◌}
use ctutor.Outcome.{Outcome, Error}
use ctutor.Types.Enums.{MemType}
use ctutor.Types.EmuVal.{EmuVal}
use ctutor.Mem.Stack.{Lvalue}
use ctutor.Exec.{
  State, Host, Exec, pure, raise, no_fuel, asks, lift, declare, on_memory, in_frame, in_source,
  ◌>>=◌,
}
use ctutor.Exec.Blocks.{delete_in, store_bytes, alloc, alloc_with, write}

-- Whether a command may declare variables in the newest frame.
pub data Mode : Type 0 where
  quiet : Mode
  loud : Mode

pub record Logic (h : Host) : Type 1 where
  pub Rel : Mode → {A : Type 0} → Exec A → Exec A → Type 0
  pub of_pure : (q : Mode) {A : Type 0} (a : A) → Rel q (pure a) (pure a)
  pub of_raise : (q : Mode) {A : Type 0} (e : Error) → Rel q (raise {A = A} e) (raise e)
  pub of_no_fuel : (q : Mode) {A : Type 0} (m : Exec A) → Rel q no_fuel m
  pub of_lift : (q : Mode) {A : Type 0} (r : Outcome A) → Rel q (lift r) (lift r)
  pub of_asks : (q : Mode) {A : Type 0} (f : State → Outcome A) → Rel q (asks f) (asks f)
  pub of_bind :
      (q : Mode) {A B : Type 0} (m m' : Exec A) (f f' : A → Exec B)
      → Rel q m m'
      → ((a : A) → Rel q (f a) (f' a))
      → Rel q (m >>= f) (m' >>= f')
  pub of_alloc : (q : Mode) (t : MemType) (n : ℕ) → Rel q (alloc h t n) (alloc h t n)
  pub of_alloc_with :
      (q : Mode) (t : MemType) (v : EmuVal) → Rel q (alloc_with h t v) (alloc_with h t v)
  pub of_write :
      (q : Mode) (b : Option ℕ) (v : EmuVal) (n : ℕ) → Rel q (write h b v n) (write h b v n)
  pub of_store :
      (q : Mode) (b : Option ℕ) (n : ℕ) (bytes : List ℕ)
      → Rel q (store_bytes b n bytes) (store_bytes b n bytes)
  pub of_delete : (q : Mode) (b : ℕ) → Rel q (on_memory (delete_in b)) (on_memory (delete_in b))
  pub of_declare : (name : String) (l : Lvalue) → Rel loud (declare name l) (declare name l)
  pub of_in_frame :
      (q : Mode) {A : Type 0} (m m' : Exec A) → Rel loud m m' → Rel q (in_frame m) (in_frame m')
  pub of_in_source :
      (q : Mode) {A : Type 0} (source : ℕ) (m m' : Exec A)
      → Rel q m m'
      → Rel q (in_source source m) (in_source source m')

-- The relation of a logic on two commands.
pub record Obeys {h : Host} (logic : Logic h) (q : Mode) {A : Type 0} (m m' : Exec A) : Type 0 where
  pub holds : logic.Rel q m m'

module _ {h : Host} {logic : Logic h} {q : Mode} {A : Type 0} where
  pub Obeys-pure : (a : A) → Obeys logic q (pure a) (pure a)
  Obeys-pure a = record { holds = logic.of_pure q a }

  pub Obeys-raise : (e : Error) → Obeys logic q (raise {A = A} e) (raise e)
  Obeys-raise e = record { holds = logic.of_raise q e }

  pub Obeys-no_fuel : (m : Exec A) → Obeys logic q no_fuel m
  Obeys-no_fuel m = record { holds = logic.of_no_fuel q m }

  pub Obeys-lift : (r : Outcome A) → Obeys logic q (lift r) (lift r)
  Obeys-lift r = record { holds = logic.of_lift q r }

  pub Obeys-asks : (f : State → Outcome A) → Obeys logic q (asks f) (asks f)
  Obeys-asks f = record { holds = logic.of_asks q f }

  pub Obeys-if :
      (b : Bool) (m m' n n' : Exec A)
      → Obeys logic q m m'
      → Obeys logic q n n'
      → Obeys logic q (if b then m else n) (if b then m' else n')
  Obeys-if true m m' n n' r s = r
  Obeys-if false m m' n n' r s = s

  pub Obeys-option :
      {X : Type 0} (o : Option X) (m m' : Exec A) (k k' : X → Exec A)
      → Obeys logic q m m'
      → ((x : X) → Obeys logic q (k x) (k' x))
      → Obeys logic q (elim o [ none ↦ m | some x ↦ k x ]) (elim o [ none ↦ m' | some x ↦ k' x ])
  Obeys-option none m m' k k' r s = r
  Obeys-option (some x) m m' k k' r s = s x

  pub Obeys-in_frame :
      (m m' : Exec A) → Obeys logic loud m m' → Obeys logic q (in_frame m) (in_frame m')
  Obeys-in_frame m m' r = record { holds = logic.of_in_frame q m m' r.holds }

  pub Obeys-in_source :
      (source : ℕ) (m m' : Exec A)
      → Obeys logic q m m'
      → Obeys logic q (in_source source m) (in_source source m')
  Obeys-in_source source m m' r = record { holds = logic.of_in_source q source m m' r.holds }

module _ {h : Host} {logic : Logic h} {q : Mode} where
  pub Obeys-bind :
      {A B : Type 0} (m m' : Exec A) (f f' : A → Exec B)
      → Obeys logic q m m'
      → ((a : A) → Obeys logic q (f a) (f' a))
      → Obeys logic q (m >>= f) (m' >>= f')
  Obeys-bind m m' f f' r k = record { holds = logic.of_bind q m m' f f' r.holds (λ a. (k a).holds) }

  pub Obeys-alloc : (t : MemType) (n : ℕ) → Obeys logic q (alloc h t n) (alloc h t n)
  Obeys-alloc t n = record { holds = logic.of_alloc q t n }

  pub Obeys-alloc_with :
      (t : MemType) (v : EmuVal) → Obeys logic q (alloc_with h t v) (alloc_with h t v)
  Obeys-alloc_with t v = record { holds = logic.of_alloc_with q t v }

  pub Obeys-write :
      (b : Option ℕ) (v : EmuVal) (n : ℕ) → Obeys logic q (write h b v n) (write h b v n)
  Obeys-write b v n = record { holds = logic.of_write q b v n }

  pub Obeys-store_bytes :
      (b : Option ℕ) (n : ℕ) (bytes : List ℕ)
      → Obeys logic q (store_bytes b n bytes) (store_bytes b n bytes)
  Obeys-store_bytes b n bytes = record { holds = logic.of_store q b n bytes }

  pub Obeys-delete : (b : ℕ) → Obeys logic q (on_memory (delete_in b)) (on_memory (delete_in b))
  Obeys-delete b = record { holds = logic.of_delete q b }

pub Obeys-declare :
    {h : Host} {logic : Logic h} (name : String) (place : Lvalue)
    → Obeys logic loud (declare name place) (declare name place)
Obeys-declare {logic = logic} name place = record { holds = logic.of_declare name place }

pub ruleset obeys_rules = (
  Obeys-pure, Obeys-raise, Obeys-no_fuel, Obeys-lift, Obeys-asks, Obeys-if, Obeys-option,
  Obeys-bind, Obeys-alloc, Obeys-alloc_with, Obeys-write, Obeys-store_bytes, Obeys-delete,
  Obeys-declare, Obeys-in_frame, Obeys-in_source,
)
