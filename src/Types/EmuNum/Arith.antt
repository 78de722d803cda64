-- ===== src/Types/EmuNum/Arith.antt =====
-- The arithmetic of EmuNum: states of the results, ranges, and the laws of wrapping arithmetic.
use ctutor.Base.{
  ℕ, ◌+◌, ◌-◌, ◌*◌, ◌%◌, ◌^◌, ◌<◌, ◌≡◌, refl, sym, ap, ◌∙◌, Bool, true, false, not, ◌&&◌, arith,
  min, ◌==◌, if◌then◌else◌, Bool-cases, inl, inr,
}
use native.Mathlib.Nat.{mod-eq_of_lt, mod-lt}
use ctutor.Outcome.{ok, exits, Error, ◌>>=◌}
use ctutor.Machine.ApInt.{ApInt, ApIntOps, ApIntLaws}
use ctutor.Types.Enums.{
  Status, undefined, uninitialized, defined, NumType, bool, char, uchar, short, ushort, int, uint,
  long, ulong, longlong, ulonglong,
}
use ctutor.Types.NumType.{
  bits_in_num_type, type_from_num_type, id_from_num_type, is_num_type_signed,
}
use ctutor.Types.EmuNum.{
  EmuNum, binary, guarded, guarded_unary, of_apint, add, sub, mul, div, bitwise_or, bitwise_and,
  neg, generic, get_gen_kind, is_dispatched,
}
use ctutor.Types.EmuNum.Repr.{Fits, ApInt-eq}

-- The states in order, the worst first.
abbrev pub rank : Status → ℕ
rank undefined = 0
rank uninitialized = 1
rank defined = 2

-- A defined number that carries the tag of its type.
pub record IsDefined (n : EmuNum) : Type 0 where
  pub status : n.status ≡ defined
  pub own : n.repr_type_id ≡ id_from_num_type n.num_type

pow-pos : (t : NumType) → 0 < 2 ^ bits_in_num_type t
unfolding bits_in_num_type
pow-pos bool = omega arith
pow-pos _ = omega arith

module _ (o : ApIntOps) where
  rank-guarded :
      (t : NumType) (s1 s2 : Status) (r : EmuNum)
      → r.status ≡ defined
      → rank (guarded o t s1 s2 r).status ≡ min (rank s1) (rank s2)
  unfolding guarded
  rank-guarded t undefined s2 r e = omega arith
  rank-guarded t uninitialized undefined r e = omega arith
  rank-guarded t uninitialized uninitialized r e = omega arith
  rank-guarded t uninitialized defined r e = omega arith
  rank-guarded t defined undefined r e = omega arith
  rank-guarded t defined uninitialized r e = omega arith
  rank-guarded t defined defined r e = rw e (omega arith)

  rank-guarded_undefined :
      (t : NumType) (s1 s2 : Status) (r : EmuNum)
      → r.status ≡ undefined
      → rank (guarded o t s1 s2 r).status
        ≡ (if min (rank s1) (rank s2) == 2 then 0 else min (rank s1) (rank s2))
  unfolding guarded
  rank-guarded_undefined t undefined undefined r e = refl
  rank-guarded_undefined t undefined uninitialized r e = refl
  rank-guarded_undefined t undefined defined r e = refl
  rank-guarded_undefined t uninitialized undefined r e = refl
  rank-guarded_undefined t uninitialized uninitialized r e = refl
  rank-guarded_undefined t uninitialized defined r e = refl
  rank-guarded_undefined t defined undefined r e = refl
  rank-guarded_undefined t defined uninitialized r e = refl
  rank-guarded_undefined t defined defined r e = rw e

  rank-binary :
      (op : ApInt → ApInt → ApInt) (a b : EmuNum)
      → rank (binary o op a b).status ≡ min (rank a.status) (rank b.status)
  unfolding binary
  rank-binary op a b = rank-guarded a.num_type a.status b.status _ refl

  rank-div :
      (a b : EmuNum)
      → rank (div o a b).status ≡ (
          if b.val.bits == 0 && min (rank a.status) (rank b.status) == 2
          then 0
          else min (rank a.status) (rank b.status))
  unfolding div
  rank-div a b = elim (Bool-cases (b.val.bits == 0)) [
    | inl zero_divisor ↦
        rw zero_divisor (rank-guarded_undefined a.num_type a.status b.status _ refl)
    | inr nonzero ↦ rw nonzero (rank-guarded a.num_type a.status b.status _ refl)
  ]

  -- The state of a sum, difference, product, disjunction or conjunction is the worse one of its
  -- operands' states, where undefined is worse than uninitialized and that worse than defined.
  -- So it is for a quotient, but a quotient of defined numbers by zero is undefined.
  pub binary_status :
      (a b : EmuNum)
      → let worse = min (rank a.status) (rank b.status) in
        (rank (add o a b).status ≡ worse)
        × (rank (sub o a b).status ≡ worse)
        × (rank (mul o a b).status ≡ worse)
        × (rank (bitwise_or o a b).status ≡ worse)
        × (rank (bitwise_and o a b).status ≡ worse)
        × (rank (div o a b).status ≡ (if b.val.bits == 0 && worse == 2 then 0 else worse))
  unfolding add sub mul bitwise_or bitwise_and
  binary_status a b = (
    rank-binary o.add a b,
    rank-binary o.sub a b,
    rank-binary o.mul a b,
    rank-binary o.or a b,
    rank-binary o.and a b,
    rank-div a b,
  )

  binary_defined :
      (op : ApInt → ApInt → ApInt) (a b : EmuNum)
      → a.status ≡ defined
      → b.status ≡ defined
      → binary o op a b ≡ of_apint o a.num_type (op a.val b.val)
  unfolding binary guarded
  binary_defined op a b p q = rw (p, q, guarded)

-- Two defined numbers of one type that fit it.
pub record Operands (a b : EmuNum) : Type 0 where
  pub left : IsDefined a
  pub right : IsDefined b
  pub left_fits : Fits a
  pub right_fits : Fits b
  pub same : a.num_type ≡ b.num_type

wrap_cancel : (x y m : ℕ) → x < m → y < m → ((x + y) % m + m - y % m) % m ≡ x
wrap_cancel x y m hx hy = grind (arith, mod-eq_of_lt hy)

module _ (o : ApIntOps) where
  pub of_apint-val :
      (a : EmuNum) {i : ApInt} → IsDefined a → i ≡ a.val → of_apint o a.num_type i ≡ a
  unfolding of_apint
  of_apint-val a d p = λ i. record {
    num_type = a.num_type;
    status = sym d.status i;
    val = p i;
    repr_type_id = sym d.own i;
  }

module _ (o : ApIntOps) (laws : ApIntLaws o) where
  -- A number that fits type `t` and has the value `v`, wrapped.
  abbrev Wraps : EmuNum → NumType → ℕ → Type 0
  Wraps n t v = Fits n × (n.val.bits ≡ v % 2 ^ bits_in_num_type t)

  of_apint-Wraps :
      (t : NumType) (i : ApInt) (v : ℕ)
      → i.width ≡ bits_in_num_type t
      → i.bits ≡ v % 2 ^ bits_in_num_type t
      → Wraps (of_apint o t i) t v
  unfolding of_apint
  of_apint-Wraps t i v w b = (record { width = w; range = rw b (mod-lt v (pow-pos t)) }, b)

  binary-Wraps :
      (op : ApInt → ApInt → ApInt) (a b : EmuNum) (v : ℕ)
      → Operands a b
      → (op a.val b.val).width ≡ a.val.width
      → (op a.val b.val).bits ≡ v % 2 ^ bits_in_num_type a.num_type
      → Wraps (binary o op a b) a.num_type v
  binary-Wraps op a b v h w e =
      rw (binary_defined o op a b h.left.status h.right.status)
        (of_apint-Wraps a.num_type (op a.val b.val) v (w ∙ h.left_fits.width) e)

  -- On defined numbers of one type that fit it and carry its tag, sums, differences and products
  -- are numbers that fit the type, and their values are those of wrapping arithmetic at its
  -- width.
  pub wrapping :
      (a b : EmuNum)
      → Operands a b
      → let x = a.val.bits in
        let y = b.val.bits in
        let m = 2 ^ bits_in_num_type a.num_type in
        (Fits (add o a b) × ((add o a b).val.bits ≡ (x + y) % m))
        × (Fits (sub o a b) × ((sub o a b).val.bits ≡ (x + m - y) % m))
        × (Fits (mul o a b) × ((mul o a b).val.bits ≡ x * y % m))
  unfolding add sub mul
  wrapping a b h =
      let x = a.val.bits in
      let y = b.val.bits in
      let w = bits_in_num_type a.num_type in
      let width = h.left_fits.width in
      let below : y < 2 ^ w = rw h.same h.right_fits.range in
      (
        binary-Wraps o.add a b (x + y) h (laws.add-width _ _)
            (rw (← width) (laws.add-bits a.val b.val)),
        binary-Wraps o.sub a b (x + 2 ^ w - y) h (laws.sub-width _ _) (
            laws.sub-bits a.val b.val
            ∙ rw width (ap (λ k. (x + 2 ^ w - k) % 2 ^ w) (mod-eq_of_lt below))),
        binary-Wraps o.mul a b (x * y) h (laws.mul-width _ _)
            (rw (← width) (laws.mul-bits a.val b.val)),
      )

  -- On defined numbers of one type that fit it and carry its tag, adding one and subtracting it
  -- again gives back the other, wrap-around included.
  pub sub-add : (a b : EmuNum) → Operands a b → sub o (add o a b) b ≡ a
  unfolding add sub of_apint
  sub-add a b h =
      let x = a.val.bits in
      let y = b.val.bits in
      let w = bits_in_num_type a.num_type in
      let below : y < 2 ^ w = rw h.same h.right_fits.range in
      let sum = o.add a.val b.val in
      let sum_width : sum.width ≡ w = laws.add-width a.val b.val ∙ h.left_fits.width in
      let sum_bits : sum.bits ≡ (x + y) % 2 ^ w =
        rw (← h.left_fits.width) (laws.add-bits a.val b.val) in
      let back : (o.sub sum b.val).bits ≡ x =
        laws.sub-bits sum b.val
        ∙ rw (sum_width, sum_bits) (wrap_cancel x y (2 ^ w) h.left_fits.range below) in
      let back_width : (o.sub sum b.val).width ≡ a.val.width =
        laws.sub-width sum b.val ∙ laws.add-width a.val b.val in
      ap (λ n. binary o o.sub n b) (binary_defined o o.add a b h.left.status h.right.status)
      ∙ binary_defined o o.sub (of_apint o a.num_type sum) b refl h.right.status
      ∙ of_apint-val o a h.left (ApInt-eq _ _ back_width back)

  minus_cancel :
      (t : NumType) (x : ℕ)
      → x < 2 ^ bits_in_num_type t
      → (2 ^ 64 - (2 ^ 64 - x) % 2 ^ 64 % 2 ^ bits_in_num_type t) % 2 ^ 64 % 2 ^ bits_in_num_type t
        ≡ x
  unfolding bits_in_num_type
  minus_cancel bool x h = omega arith
  minus_cancel _ x h = omega arith

  guarded_unary-defined :
      (t : NumType) (s : Status) (r : EmuNum) → s ≡ defined → guarded_unary o t s r ≡ r
  unfolding guarded_unary
  guarded_unary-defined t s r e = rw (e, guarded_unary)

  abbrev negated : NumType → ℕ → ApInt
  negated t x = o.make (bits_in_num_type t) ((2 ^ 64 - x) % 2 ^ 64) (is_num_type_signed t)

  neg_defined :
      (a : EmuNum)
      → a.status ≡ defined
      → neg o a ≡ of_apint o a.num_type (negated a.num_type a.val.bits)
  unfolding neg
  neg_defined a e = guarded_unary-defined a.num_type a.status _ e

  -- Negating a defined number that fits its type and carries the tag of it, and negating the
  -- result, gives the number back, the least one of a signed type included.
  pub neg-neg : (a : EmuNum) → IsDefined a → Fits a → neg o (neg o a) ≡ a
  unfolding of_apint
  neg-neg a d f =
      let t = a.num_type in
      let x = a.val.bits in
      let once = (negated t x).bits in
      let once_bits : once ≡ (2 ^ 64 - x) % 2 ^ 64 % 2 ^ bits_in_num_type t =
        laws.make-bits _ _ _ in
      let back : (negated t once).bits ≡ x =
        laws.make-bits _ _ _ ∙ rw once_bits (minus_cancel t x f.range) in
      ap (neg o) (neg_defined a d.status)
      ∙ neg_defined (of_apint o t (negated t x)) refl
      ∙ of_apint-val o a d (ApInt-eq _ _ (laws.make-width _ _ _ ∙ sym f.width) back)

abbrev pub num_code : NumType → ℕ
num_code bool = 0
num_code char = 1
num_code uchar = 2
num_code short = 3
num_code ushort = 4
num_code int = 5
num_code uint = 6
num_code long = 7
num_code ulong = 8
num_code longlong = 9
num_code ulonglong = 10

abbrev pub is_char : NumType → Bool
is_char char = true
is_char _ = false

dispatch_types :
    (s t : NumType) (r : EmuNum)
    → (get_gen_kind (type_from_num_type s) (type_from_num_type t) >>= λ k.
        if is_dispatched k then ok r else exits Error.cant_cast)
      ≡ (if num_code s == num_code t && not (is_char s) then ok r else exits Error.cant_cast)
unfolding get_gen_kind type_from_num_type is_dispatched
dispatch_types s t r = ground arith

-- The functions of EmuNumGeneric make an operation on two numbers of one type other than char, and
-- refuse any other pair of operands, two chars among them.
pub generic_dispatch :
    (op : EmuNum → EmuNum → EmuNum) (a b : EmuNum)
    → generic op a b ≡ (
        if num_code a.num_type == num_code b.num_type && not (is_char a.num_type)
        then ok (op a b)
        else exits Error.cant_cast)
unfolding generic
generic_dispatch op a b = dispatch_types a.num_type b.num_type (op a b)
