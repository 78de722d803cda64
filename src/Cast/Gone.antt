-- ===== src/Cast/Gone.antt =====
-- Loads from a block whose bytes are gone.
use ctutor.Base.{
  ℕ, ◌≡◌, ◌≢◌, refl, sym, ap, ◌∙◌, inl, inr, true, false, Bool, Option, Option-cases, none, some,
  if◌then◌else◌, leb, length, drop,
}
use ctutor.Outcome.{◌>>=◌ as ◌|>◌, Error, Outcome, ok, exits, undefined, out_of_fuel}
use ctutor.Types.QualType.{
  QualType, builtin, pointer, constant_array, variable_array, function, structure, union, va_list,
}
use ctutor.Types.EmuVal.{EmuVal}
use ctutor.Mem.Block.{Block, Memory, deref, data_of}
use ctutor.Exec.{State, Host, Exec, pure, raise, asks, lift, returned, continue, ◌>>=◌}
use ctutor.Exec.Blocks.{block_of, block_at, bytes_at, bytes_in}
use ctutor.Exec.Gone.{IsGone}
use ctutor.Cast.Load.{room, load_num, load_ptr, load_func, load_array}
use ctutor.Cast.FromLvalue.{struct_tag, load_struct, load_at, from_lvalue}

-- A command that gives no result in a state where block `k` is gone.
record Blocked (k : ℕ) {A : Type 0} (m : Exec A) : Type 0 where
  at : (s : State) → IsGone k s.memory → (r : A × State) → m s ≢ ok r

Blocked-raise : {k : ℕ} {A : Type 0} (e : Error) → Blocked k (raise {A = A} e)
unfolding raise
Blocked-raise e = record { at = λ s g r h. cc }

Blocked-if :
    {k : ℕ} {A : Type 0} (b : Bool) (m n : Exec A)
    → Blocked k m
    → Blocked k n
    → Blocked k (if b then m else n)
Blocked-if true m n x y = x
Blocked-if false m n x y = y

module _ {A B : Type 0} where
  stop :
      (r : Outcome (A × State)) (f : A → Exec B) (q : B × State)
      → ((a : A × State) → r ≢ ok a)
      → continue r f ≢ ok q
  stop (ok a) f q fails h = fails a refl
  stop (exits e) f q fails h = cc
  stop undefined f q fails h = cc
  stop out_of_fuel f q fails h = cc

  skip :
      (r : Outcome A) (s : State) (f : A → Exec B) (q : B × State)
      → ((a : A) → f a s ≢ ok q)
      → continue (returned r s) f ≢ ok q
  skip (ok a) s f q fails h = fails a h
  skip (exits e) s f q fails h = cc
  skip undefined s f q fails h = cc
  skip out_of_fuel s f q fails h = cc

module _ {k : ℕ} {A B : Type 0} where
  Blocked-first : (m : Exec A) (f : A → Exec B) → Blocked k m → Blocked k (m >>= f)
  unfolding ◌>>=◌
  Blocked-first m f x = record { at = λ s g q. stop (m s) f q (x.at s g) }

  Blocked-lift :
      (r : Outcome A) (f : A → Exec B) → ((a : A) → Blocked k (f a)) → Blocked k (lift r >>= f)
  unfolding ◌>>=◌ lift
  Blocked-lift r f x = record { at = λ s g q. skip r s f q (λ a. (x a).at s g q) }

  Blocked-asks :
      (r : State → Outcome A) (f : A → Exec B)
      → ((a : A) → Blocked k (f a))
      → Blocked k (asks r >>= f)
  unfolding ◌>>=◌ asks
  Blocked-asks r f x = record { at = λ s g q. skip (r s) s f q (λ a. (x a).at s g q) }

Blocked-block_at :
    {k : ℕ} {B : Type 0} (p : Option ℕ) (f : Block → Exec B)
    → ((b : Block) → Blocked k (f b))
    → Blocked k (block_at p >>= f)
unfolding block_at
Blocked-block_at p f x = Blocked-asks _ f x

data_gone : (b : Block) → b.bytes ≡ none → data_of b ≡ undefined
unfolding data_of
data_gone b e = rw e

bytes_gone :
    (m : Memory) (k n : ℕ) → IsGone k m → (block_of (some k) m |> λ b. bytes_in b n) ≡ undefined
unfolding block_of deref bytes_in
bytes_gone m k n g = elim (Option-cases (m.blocks k)) [
  | inl none_there ↦ rw (none_there, block_of, deref)
  | inr (b, e) ↦
      rw (e, block_of, deref, bytes_in)
        (ap (λ r. r |> λ bytes. if leb n (length bytes) then ok (drop n bytes) else undefined)
          (data_gone b (g.empty b e)))
]

Blocked-bytes_at : {k : ℕ} (n : ℕ) → Blocked k (bytes_at (some k) n)
unfolding bytes_at asks
Blocked-bytes_at n = record { at = λ s g r h. cc (bytes_gone s.memory _ n g, h) }

module _ {A B C : Type 0} where
  regroup :
      (r : Outcome (A × State)) (f : A → Exec B) (g : B → Exec C)
      → continue (continue r f) g ≡ continue r (λ a s. continue (f a s) g)
  regroup (ok a) f g = refl
  regroup (exits e) f g = refl
  regroup undefined f g = refl
  regroup out_of_fuel f g = refl

  Blocked-grouped :
      {k : ℕ} (m : Exec A) (f : A → Exec B) (g : B → Exec C)
      → Blocked k (m >>= λ a. f a >>= g)
      → Blocked k (m >>= f >>= g)
  unfolding ◌>>=◌
  Blocked-grouped m f g x = record { at = λ s h r e. x.at s h r (sym (regroup (m s) f g) ∙ e) }

module _ {k : ℕ} {A B : Type 0} where
  Blocked-if_first :
      (b : Bool) (m n : Exec A) (f : A → Exec B)
      → Blocked k (m >>= f)
      → Blocked k (n >>= f)
      → Blocked k ((if b then m else n) >>= f)
  Blocked-if_first true m n f x y = x
  Blocked-if_first false m n f x y = y

  Blocked-pure : (a : A) (f : A → Exec B) → Blocked k (f a) → Blocked k (pure a >>= f)
  unfolding ◌>>=◌ pure
  Blocked-pure a f x = record { at = λ s. x.at s }

ruleset blocked_rules = (
  Blocked-raise, Blocked-if, Blocked-first, Blocked-lift, Blocked-asks, Blocked-block_at,
  Blocked-bytes_at,
)

module _ (h : Host) (k : ℕ) where
  load_ptr-Blocked : (t : QualType) (n space : ℕ) → Blocked k (load_ptr h t (some k) n space)
  unfolding load_ptr
  load_ptr-Blocked t n space = search blocked_rules

  load_num-Blocked : (t : QualType) (n space : ℕ) → Blocked k (load_num h t (some k) n (some space))
  unfolding load_num
  load_num-Blocked t n space = search blocked_rules

  load_func-Blocked :
      (t : QualType) (n space : ℕ) → Blocked k (load_func h t (some k) n (some space))
  unfolding load_func
  load_func-Blocked t n space = search blocked_rules

  load_struct-Blocked :
      (t : QualType) (fields n : ℕ) (first : Exec EmuVal)
      → Blocked k (load_struct t fields first (some k) n)
  unfolding load_struct struct_tag
  load_struct-Blocked t fields n first = search blocked_rules depth 20

  module _ (size : ℕ → Exec EmuVal) where
    load_at-Blocked :
        (t : QualType) (n space : ℕ) → Blocked k (load_at h size t (some k) n (some space))
    unfolding load_at load_array
    load_at-Blocked (builtin b) n space = search (blocked_rules, load_num-Blocked)
    load_at-Blocked (pointer t) n space = load_ptr-Blocked _ n space
    load_at-Blocked (constant_array c t) n space = load_ptr-Blocked _ n space
    load_at-Blocked (variable_array d t) n space = load_ptr-Blocked _ n space
    load_at-Blocked (function g) n space = load_func-Blocked _ n space
    load_at-Blocked (structure d fs) n space = load_struct-Blocked _ _ n _
    load_at-Blocked (union d fs) n space = load_struct-Blocked _ _ n _
    load_at-Blocked va_list n space = search blocked_rules

    -- A load of whatever type and at whatever offset, from a block that was freed or deleted, gives no
    -- value.
    pub from_lvalue_gone :
        (t : QualType) (n : ℕ) (s : State) (r : EmuVal × State)
        → IsGone k s.memory
        → from_lvalue h size (record { block = some k; type = t; offset = n }) s ≢ ok r
    unfolding from_lvalue room
    from_lvalue_gone t n s r g =
        let x : Blocked k (from_lvalue h size (record { block = some k; type = t; offset = n })) =
          Blocked-grouped _ _ _ (
            Blocked-block_at _ _
              λ b. search (blocked_rules, Blocked-if_first, Blocked-pure, load_at-Blocked)) in
        x.at s g r
