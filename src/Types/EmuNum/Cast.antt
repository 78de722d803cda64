-- ===== src/Types/EmuNum/Cast.antt =====
-- EmuNum::cast_to: conversions between the integer types.
use ctutor.Base.{ℕ, ◌-◌, ◌%◌, ◌^◌, ◌≤◌, ◌<◌, ◌≡◌, refl, sym, ap, ◌∙◌, true, false, not, ◌&&◌, arith}
use native.Mathlib.Nat.{mod-eq_of_lt, pow-le-pow_right}
use ctutor.Outcome.{ok, ◌>>=◌}
use ctutor.Machine.ApInt.{ApInt, ApIntOps, ApIntLaws}
use ctutor.Types.Enums.{NumType, bool}
use ctutor.Types.QualType.{QualType}
use ctutor.Types.NumType.{bits_in_num_type, is_num_type_signed, type_from_num_type, get_num_type}
use ctutor.Types.EmuNum.{EmuNum, of_apint, cast_to, obj_type}
use ctutor.Types.EmuNum.Repr.{Fits, ApInt-eq}
use ctutor.Types.EmuNum.Arith.{IsDefined, of_apint-val}

-- Every number type is the one that getNumType finds for its QualType.
pub get_num_type-type_from_num_type : (t : NumType) → get_num_type (type_from_num_type t) ≡ ok t
unfolding get_num_type type_from_num_type
get_num_type-type_from_num_type bool = refl
get_num_type-type_from_num_type _ = refl

widen :
    (s t : NumType) (x : ℕ)
    → bits_in_num_type s ≤ bits_in_num_type t
    → x < 2 ^ bits_in_num_type s
    → x < 2 ^ bits_in_num_type t
widen s t x h lt = omega (arith, pow-le-pow_right {n = 2} (omega arith) h)

-- A wider type has twice the room at least.
widen_strictly : (v w x : ℕ) → v < w → x < 2 ^ v → x < 2 ^ (w - 1)
widen_strictly v w x h lt =
    let below : v ≤ w - 1 = omega arith in
    omega (arith, pow-le-pow_right {n = 2} (omega arith) below)

signs-agree :
    (s t : NumType)
    → is_num_type_signed s ≡ is_num_type_signed t
    → (is_num_type_signed s && not (is_num_type_signed t)) ≡ false
signs-agree s t e = ground arith

module _ (o : ApIntOps) where
  cast_to-ok :
      (n : EmuNum) (qt : QualType) (t : NumType)
      → get_num_type qt ≡ ok t
      → is_num_type_signed n.num_type ≡ is_num_type_signed t
      → cast_to o n qt
        ≡ ok (of_apint o t (o.make (bits_in_num_type t) n.val.bits (is_num_type_signed t)))
  unfolding cast_to
  cast_to-ok n qt t found sign = rw (found, signs-agree n.num_type t sign)

module _ (o : ApIntOps) (laws : ApIntLaws o) where
  abbrev converted : EmuNum → NumType → ApInt
  converted n t = o.make (bits_in_num_type t) n.val.bits (is_num_type_signed t)

  converted-bits :
      (n : EmuNum) (t : NumType)
      → Fits n
      → bits_in_num_type n.num_type ≤ bits_in_num_type t
      → (converted n t).bits ≡ n.val.bits
  converted-bits n t f wider =
      laws.make-bits _ n.val.bits _ ∙ mod-eq_of_lt (widen n.num_type t n.val.bits wider f.range)

  -- A defined number that fits its type and carries the tag of it, converted to a type of the
  -- same signedness that is at least as wide, and converted back to its own type, is the number
  -- itself.
  pub cast_to-cast_to :
      (n : EmuNum) (qt : QualType) (t : NumType)
      → IsDefined n
      → Fits n
      → get_num_type qt ≡ ok t
      → is_num_type_signed n.num_type ≡ is_num_type_signed t
      → bits_in_num_type n.num_type ≤ bits_in_num_type t
      → (cast_to o n qt >>= λ m. cast_to o m (obj_type n)) ≡ ok n
  unfolding of_apint obj_type
  cast_to-cast_to n qt t d f found sign wider =
      let s = n.num_type in
      let there = of_apint o t (converted n t) in
      let back = o.make (bits_in_num_type s) there.val.bits (is_num_type_signed s) in
      let kept : back.bits ≡ n.val.bits =
        laws.make-bits _ _ _
        ∙ ap (λ x. x % 2 ^ bits_in_num_type s) (converted-bits n t f wider)
        ∙ mod-eq_of_lt f.range in
      ap (λ r. r >>= λ m. cast_to o m (obj_type n)) (cast_to-ok o n qt t found sign)
      ∙ cast_to-ok o there (obj_type n) s (get_num_type-type_from_num_type s) (sym sign)
      ∙ ap ok (of_apint-val o n d (ApInt-eq _ _ (laws.make-width _ _ _ ∙ sym f.width) kept))

  -- A number that fits its signed type, converted to a wider signed type, keeps its bits and
  -- gains zeros above them: the result lies in the lower half of the wider type, so it is never
  -- negative, also where the number was.
  pub cast_to_never_negative :
      (n : EmuNum) (qt : QualType) (t : NumType)
      → Fits n
      → get_num_type qt ≡ ok t
      → is_num_type_signed n.num_type ≡ true
      → is_num_type_signed t ≡ true
      → bits_in_num_type n.num_type < bits_in_num_type t
      → (m : EmuNum) × (cast_to o n qt ≡ ok m)
        × (m.num_type ≡ t)
        × (m.val.bits ≡ n.val.bits)
        × (m.val.bits < 2 ^ (bits_in_num_type t - 1))
  unfolding of_apint
  cast_to_never_negative n qt t f found signed signed' wider =
      let kept = converted-bits n t f (omega arith) in
      (
        of_apint o t (converted n t),
        cast_to-ok o n qt t found (signed ∙ sym signed'),
        refl,
        kept,
        rw kept (widen_strictly (bits_in_num_type n.num_type) (bits_in_num_type t) _ wider f.range),
      )
