-- ===== src/Cast/Typed.antt =====
-- The types of the values that from_lvalue gives.
use ctutor.Base.{
  ℕ, ◌/◌, ◌%◌, ltb, ◌==◌, ◌≡◌, refl, ap, subst, Bool, true, false, Option, none, some,
  if◌then◌else◌,
}
use ctutor.Outcome.{Outcome, ok, exits, undefined, out_of_fuel, Error}
use ctutor.Types.QualType.{
  QualType, builtin, pointer, constant_array, variable_array, function, structure, union, va_list,
}
use ctutor.Types.NumType.{get_num_type}
use ctutor.Types.EmuNum
use ctutor.Types.EmuPtr
use ctutor.Types.EmuPtr.{of_mem_ptr, size_max}
use ctutor.Types.EmuVal
use ctutor.Types.EmuVal.{EmuVal, ptr, func_of_status, func_of_memory}
use ctutor.Types.EmuVal.Typed.{
  stored_type, number-type, num_of_memory-type, ptr_of_memory-type, func_of_memory-type,
}
use ctutor.Mem.Tag.{size_t}
use ctutor.Mem.Stack.{Lvalue}
use ctutor.Exec.{State, Host, Exec, pure, raise, lift, ◌>>=◌, returned}
use ctutor.Exec.Frames.{bind_parts}
use ctutor.Cast.Load.{load_num, load_ptr, load_func, newarr, load_array}
use ctutor.Cast.FromLvalue.{load_struct, load_at, from_lvalue}

-- A command whose results have a property.
pub record Gives {A : Type 0} (P : A → Type 0) (m : Exec A) : Type 0 where
  pub at : (s s' : State) (a : A) → m s ≡ ok (a, s') → P a

lifted :
    {A : Type 0} (P : A → Type 0) (r : Outcome A) (s s' : State) (a : A)
    → ((b : A) → r ≡ ok b → P b)
    → returned r s ≡ ok (a, s')
    → P a
lifted P (ok b) s s' a k e = k a (cc e)
lifted P (exits x) s s' a k e = cc
lifted P undefined s s' a k e = cc
lifted P out_of_fuel s s' a k e = cc

module _ {A : Type 0} {P : A → Type 0} where
  pub Gives-lift : (r : Outcome A) → ((a : A) → r ≡ ok a → P a) → Gives P (lift r)
  unfolding lift
  Gives-lift r k = record { at = λ s s' a. lifted P r s s' a k }

  pub Gives-pure : (a : A) → P a → Gives P (pure a)
  unfolding pure
  Gives-pure a p = record { at = λ s s' b. lifted P (ok a) s s' b (λ c e. subst P (cc e) p) }

  pub Gives-raise : (e : Error) → Gives P (raise e)
  unfolding raise
  Gives-raise e = record { at = λ s s' a h. cc }

  pub Gives-if : (b : Bool) (m n : Exec A) → Gives P m → Gives P n → Gives P (if b then m else n)
  Gives-if true m n g k = g
  Gives-if false m n g k = k

module _ {A B : Type 0} {P : B → Type 0} where
  -- The property of a first result that the rest needs.
  pub Gives-bind :
      (Q : A → Type 0) (m : Exec A) (f : A → Exec B)
      → Gives Q m
      → ((a : A) → Q a → Gives P (f a))
      → Gives P (m >>= f)
  Gives-bind Q m f g k = record {
    at = λ s s' b e.
        let (a, s1, first, second) = bind_parts m f s s' b e in
        (k a (g.at s s1 a first)).at s1 s' b second;
  }

  pub Gives-then : (m : Exec A) (f : A → Exec B) → ((a : A) → Gives P (f a)) → Gives P (m >>= f)
  Gives-then m f k = record {
    at =
        λ s s' b e. let (a, s1, first, second) = bind_parts m f s s' b e in (k a).at s1 s' b second;
  }

-- The type of a value, up to the types that stand for the same kind of number.
abbrev pub HasType : QualType → EmuVal → Type 0
HasType t v = stored_type (EmuVal.obj_type v) ≡ stored_type t

module _ (h : Host) where
  load_num-HasType :
      (t : QualType) (p : Option ℕ) (offset : ℕ) (space : Option ℕ)
      → Gives (HasType t) (load_num h t p offset space)
  unfolding load_num EmuVal.obj_type EmuNum.obj_type EmuNum.of_status
  load_num-HasType t p offset none =
      Gives-bind (λ k. get_num_type t ≡ ok k) _ _ (Gives-lift _ (λ k e. e))
        λ k found. Gives-pure _ (number-type t k _ found refl)
  load_num-HasType t p offset (some n) =
      Gives-bind (λ k. get_num_type t ≡ ok k) _ _ (Gives-lift _ (λ k e. e))
        λ k found. Gives-if _ _ _ (Gives-raise _) (
          Gives-then _ _ λ bytes.
            Gives-bind (λ n. EmuNum.of_memory h.ops k bytes ≡ ok n) _ _ (Gives-lift _ (λ n e. e))
              λ n read.
                Gives-pure _ (number-type t k _ found (num_of_memory-type h.ops k bytes n read)))

  load_ptr-HasType :
      (t : QualType) (p : Option ℕ) (offset space : ℕ)
      → Gives (HasType t) (load_ptr h t p offset space)
  unfolding load_ptr EmuVal.obj_type
  load_ptr-HasType t p offset space = Gives-if _ _ _ (Gives-raise _) (
      Gives-then _ _ λ bytes. Gives-then _ _ λ active.
        Gives-bind (λ q. EmuPtr.of_memory active bytes t ≡ ok q) _ _ (Gives-lift _ (λ q e. e))
          λ q read. Gives-pure _ (ap stored_type (ptr_of_memory-type active bytes t q read)))

  load_func-HasType :
      (t : QualType) (p : Option ℕ) (offset : ℕ) (space : Option ℕ)
      → Gives (HasType t) (load_func h t p offset space)
  unfolding load_func func_of_status EmuVal.obj_type
  load_func-HasType t p offset none = Gives-pure _ refl
  load_func-HasType t p offset (some n) = Gives-if _ _ _ (Gives-raise _) (
      Gives-then _ _ λ bytes. Gives-then _ _ λ known.
        Gives-bind (λ f. func_of_memory known bytes t ≡ ok f) _ _ (Gives-lift _ (λ f e. e))
          λ f read. Gives-pure _ (ap stored_type (func_of_memory-type known bytes t f read)))

  newarr-HasType :
      (t : QualType) (element : Exec EmuVal) (count : ℕ)
      → Gives (HasType t) (newarr h t element count)
  unfolding newarr of_mem_ptr EmuVal.obj_type
  newarr-HasType t element count = Gives-then _ _ λ sub. Gives-then _ _ λ n.
      Gives-if (n % size_t == 0) _ _ (Gives-raise _) (
        Gives-if (ltb (size_max / (n % size_t)) count) _ _ (Gives-raise _)
          (Gives-then _ _ λ kind. Gives-then _ _ λ b. Gives-then _ _ λ _. Gives-pure _ refl))

  load_array-HasType :
      (t : QualType) (fresh : Exec EmuVal) (p : Option ℕ) (offset : ℕ) (space : Option ℕ)
      → Gives (HasType t) fresh
      → Gives (HasType t) (load_array h t fresh p offset space)
  unfolding load_array
  load_array-HasType t fresh p offset none g = g
  load_array-HasType t fresh p offset (some n) g = load_ptr-HasType t p offset n

  load_struct-HasType :
      (t : QualType) (n : ℕ) (first : Exec EmuVal) (p : Option ℕ) (offset : ℕ)
      → Gives (HasType t) (load_struct t n first p offset)
  unfolding load_struct EmuVal.obj_type
  load_struct-HasType t n first p offset =
      Gives-then _ _ λ (tag, temp). Gives-then _ _ λ (m, s). Gives-pure _ refl

  module _ (size : ℕ → Exec EmuVal) where
    load_at-HasType :
        (t : QualType) (p : Option ℕ) (offset : ℕ) (space : Option ℕ)
        → Gives (HasType t) (load_at h size t p offset space)
    unfolding load_at EmuPtr.of_status EmuVal.obj_type
    load_at-HasType (builtin k) p offset space =
        Gives-if _ _ _ (load_num-HasType (builtin k) p offset space) (Gives-raise _)
    load_at-HasType (pointer t) p offset none = Gives-pure _ refl
    load_at-HasType (pointer t) p offset (some n) = load_ptr-HasType (pointer t) p offset n
    load_at-HasType (constant_array n t) p offset space =
        load_array-HasType _ _ p offset space (newarr-HasType _ _ n)
    load_at-HasType (variable_array d t) p offset space =
        load_array-HasType _ _ p offset space
          (Gives-then _ _ λ v. Gives-then _ _ λ n. newarr-HasType _ _ n)
    load_at-HasType (function g) p offset space = load_func-HasType (function g) p offset space
    load_at-HasType (structure d fs) p offset space = load_struct-HasType _ _ _ p offset
    load_at-HasType (union d fs) p offset space = load_struct-HasType _ _ _ p offset
    load_at-HasType va_list p offset space = Gives-raise _

    -- What from_lvalue gives, from a block or fresh, has the type of the place.
    pub from_lvalue-HasType : (l : Lvalue) → Gives (HasType l.type) (from_lvalue h size l)
    unfolding from_lvalue
    from_lvalue-HasType l = Gives-then _ _ λ space. load_at-HasType l.type l.block l.offset space
