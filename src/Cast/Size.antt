-- ===== src/Cast/Size.antt =====
-- getSizeOf against the values of zero_init.
use ctutor.Base.{
  ℕ, zero, suc, ◌+◌, ◌*◌, ◌%◌, ◌^◌, ◌<◌, ◌≡◌, refl, sym, ap, ◌∙◌, arith, ==_cases, inl, inr,
}
use native.Mathlib.Nat.{mod-eq_of_lt}
use ctutor.Outcome.{Outcome, ok, >>=-ok_parts, ok-injective}
use ctutor.Machine.ApInt.{ApIntOps}
use ctutor.Types.Enums.{defined}
use ctutor.Types.QualType.{
  Kind, QualType, builtin, pointer, constant_array, structure, union, Fields, end, field,
}
use ctutor.Types.EmuVal
use ctutor.Types.EmuVal.{EmuVal, Members, struct, nil, cons, sum_sizes}
use ctutor.Mem.Tag.{size_t, add_size, mul_size}
use ctutor.Cast.{get_size_of, add_fields, copies, zero_init, zero_fields}

-- A type without unions in it, whose arrays have counts that an unsigned int holds.
abbrev mutual
  pub IsPlain : QualType → Type 0
  IsPlain (constant_array n t) = (n < 2 ^ 32) × IsPlain t
  IsPlain (structure d fs) = ArePlain fs
  IsPlain (union d fs) = ⊥
  IsPlain _ = Unit

  pub ArePlain : Fields → Type 0
  ArePlain end = Unit
  ArePlain (field t fs) = IsPlain t × ArePlain fs

mul-mod_wrap : (n k : ℕ) → n * (k % size_t) % size_t ≡ n * k % size_t
mul-mod_wrap zero k = omega arith
mul-mod_wrap (suc n) k = omega (arith, mul-mod_wrap n k)

sum_sizes-copies :
    (n k : ℕ) (v : EmuVal) → EmuVal.size v ≡ ok k → sum_sizes (copies n v) ≡ ok (n * k)
unfolding copies sum_sizes
sum_sizes-copies zero k v e = let nothing : 0 ≡ 0 * k = omega arith in ap ok nothing
sum_sizes-copies (suc n) k v e =
    let more : k + n * k ≡ suc n * k = omega arith in rw (e, sum_sizes-copies n k v e) (ap ok more)

whole : (n : ℕ) → n < size_t → n ≡ (n + 0) % size_t
whole n h = omega arith

fields_wrap :
    (ans a b k : ℕ) → k ≡ a % size_t → (add_size ans k + b) % size_t ≡ (ans + (a + b)) % size_t
fields_wrap ans a b k e = omega arith

array_wrap : (c a k : ℕ) → k ≡ a % size_t → add_size (mul_size c k) 4 ≡ (4 + c * a) % size_t
array_wrap c a k e = rw e (omega (arith, mul-mod_wrap c a))

-- A value that zero_init makes and its size.
abbrev Sized : Outcome EmuVal → ℕ → Type 0
Sized z n = (v : EmuVal) × (k : ℕ) × (z ≡ ok v) × (EmuVal.size v ≡ ok k) × (n ≡ k % size_t)

module _ (o : ApIntOps) where
  integer-Sized :
      (k : Kind) (n : ℕ) → get_size_of (builtin k) ≡ ok n → Sized (zero_init o (builtin k)) n
  unfolding get_size_of zero_init EmuVal.size
  integer-Sized Kind.bool n e = (_, _, refl, refl, sym (ok-injective e))
  integer-Sized Kind.char_s n e = (_, _, refl, refl, sym (ok-injective e))
  integer-Sized Kind.schar n e = (_, _, refl, refl, sym (ok-injective e))
  integer-Sized Kind.char_u n e = (_, _, refl, refl, sym (ok-injective e))
  integer-Sized Kind.uchar n e = (_, _, refl, refl, sym (ok-injective e))
  integer-Sized Kind.short n e = (_, _, refl, refl, sym (ok-injective e))
  integer-Sized Kind.ushort n e = (_, _, refl, refl, sym (ok-injective e))
  integer-Sized Kind.int n e = (_, _, refl, refl, sym (ok-injective e))
  integer-Sized Kind.uint n e = (_, _, refl, refl, sym (ok-injective e))
  integer-Sized Kind.long n e = (_, _, refl, refl, sym (ok-injective e))
  integer-Sized Kind.ulong n e = (_, _, refl, refl, sym (ok-injective e))
  integer-Sized Kind.longlong n e = (_, _, refl, refl, sym (ok-injective e))
  integer-Sized Kind.ulonglong n e = (_, _, refl, refl, sym (ok-injective e))
  integer-Sized _ n e = cc

  mutual
    unfolding get_size_of zero_init EmuVal.size

    zero_init-Sized :
        (t : QualType) (n : ℕ) → IsPlain t → get_size_of t ≡ ok n → Sized (zero_init o t) n
    zero_init-Sized (builtin k) n h e = integer-Sized k n e
    zero_init-Sized (pointer t) n h e = (_, _, refl, refl, sym (ok-injective e))
    zero_init-Sized (constant_array c t) n h e =
        let (k, inner, last) = >>=-ok_parts (get_size_of t) _ e in
        let (v, a, made, size, wrapped) = zero_init-Sized t k h.1 inner in
        let count : c % 2 ^ 32 ≡ c = mod-eq_of_lt h.0 in
        let total : n ≡ (4 + c * a) % size_t = sym (ok-injective last) ∙ array_wrap c a k wrapped in
        elim (==_cases c 0) [
          | inl (zero_count, empty) ↦
              let four : n ≡ (4 + 0 * a) % size_t = total ∙ ap (λ x. (4 + x * a) % size_t) empty in
              (
                struct defined (constant_array c t) 0 nil,
                4,
                rw (count, zero_count),
                refl,
                omega arith,
              )
          | inr (counted, _) ↦ (
            struct defined (constant_array c t) 0 (copies c v),
            4 + c * a,
            rw (count, counted, made),
            rw (sum_sizes-copies c a v size),
            total,
          )
        ]
    zero_init-Sized (structure d fs) n h e =
        let (m, k, made, sizes, total) = zero_fields-Sized fs 4 n h (omega arith) e in
        (struct defined (structure d fs) 0 m, 4 + k, rw made, rw sizes, total)
    zero_init-Sized (union d fs) n h e = elim h [ ]
    zero_init-Sized _ n h e = cc

    zero_fields-Sized :
        (fs : Fields) (ans n : ℕ)
        → ArePlain fs
        → ans < size_t
        → add_fields ans fs ≡ ok n
        → (m : Members) × (k : ℕ) × (zero_fields o fs ≡ ok m)
          × (sum_sizes m ≡ ok k)
          × (n ≡ (ans + k) % size_t)
    zero_fields-Sized end ans n h lt e = (nil, 0, refl, refl, sym (ok-injective e) ∙ whole ans lt)
    zero_fields-Sized (field t fs) ans n h lt e =
        let (k, first, rest) = >>=-ok_parts (get_size_of t) _ e in
        let (v, a, made, size, wrapped) = zero_init-Sized t k h.0 first in
        let (m, b, others, sizes, total) =
          zero_fields-Sized fs (add_size ans k) n h.1 (omega arith) rest in
        (
          cons v m,
          a + b,
          rw (made, others),
          rw (size, sizes),
          total ∙ fields_wrap ans a b k wrapped,
        )

-- Where getSizeOf gives a size for a type without unions in it, whose array counts an unsigned int
-- holds, zero_init gives a value, and the size of that value, cut to a size_t, is the one that
-- getSizeOf gives.
pub zero_init-get_size_of :
    (o : ApIntOps) (t : QualType) (n : ℕ)
    → IsPlain t
    → get_size_of t ≡ ok n
    → (v : EmuVal) × (k : ℕ) × (zero_init o t ≡ ok v) × (EmuVal.size v ≡ ok k) × (n ≡ k % size_t)
zero_init-get_size_of o t n h e = zero_init-Sized o t n h e
