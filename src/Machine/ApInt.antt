-- ===== src/Machine/ApInt.antt =====
-- llvm::APInt is no part of the repository: its operations are a parameter, and its documented
-- behaviour is a record of hypotheses. A value shows its width and its zero-extended content,
-- which is what getBitWidth, getZExtValue and getLimitedValue return for at most 64 bits.
use ctutor.Base.{
  ℕ, ◌+◌, ◌-◌, ◌*◌, ◌/◌, ◌%◌, ◌^◌, ◌<◌, ◌≡◌, refl, Bool, not, bit_and, bit_or, ltb, leb, ◌==◌,
  if◌then◌else◌,
}

pub record ApInt : Type 0 where
  pub width : ℕ
  pub bits : ℕ

pub record ApIntOps : Type 0 where
  -- APInt()
  pub uninit : ApInt
  -- APInt(numBits, val, isSigned)
  pub make : ℕ → ℕ → Bool → ApInt
  -- operator=(uint64_t)
  pub assign : ApInt → ℕ → ApInt
  pub add : ApInt → ApInt → ApInt
  pub sub : ApInt → ApInt → ApInt
  pub mul : ApInt → ApInt → ApInt
  pub sdiv : ApInt → ApInt → ApInt
  pub udiv : ApInt → ApInt → ApInt
  pub or : ApInt → ApInt → ApInt
  pub and : ApInt → ApInt → ApInt
  pub lshr : ApInt → ℕ → ApInt
  -- isNegative, getSExtValue as the bits of an int64_t, and the comparisons
  pub is_negative : ApInt → Bool
  pub sext : ApInt → ℕ
  pub slt : ApInt → ApInt → Bool
  pub sgt : ApInt → ApInt → Bool
  pub sle : ApInt → ApInt → Bool
  pub sge : ApInt → ApInt → Bool
  pub ult : ApInt → ApInt → Bool
  pub ugt : ApInt → ApInt → Bool
  pub ule : ApInt → ApInt → Bool
  pub uge : ApInt → ApInt → Bool
  pub eq : ApInt → ApInt → Bool
  pub ne : ApInt → ApInt → Bool

-- The content with the sign bit turned: its order is the signed order.
abbrev pub signed_key : ApInt → ℕ
signed_key a = (a.bits + 2 ^ (a.width - 1)) % 2 ^ a.width

-- The documented behaviour, for widths up to 64.
pub record ApIntLaws (o : ApIntOps) : Type 0 where
  pub make-width : (w v : ℕ) (s : Bool) → (o.make w v s).width ≡ w
  pub make-bits : (w v : ℕ) (s : Bool) → (o.make w v s).bits ≡ v % 2 ^ w
  pub assign-width : (a : ApInt) (v : ℕ) → (o.assign a v).width ≡ a.width
  pub assign-bits : (a : ApInt) (v : ℕ) → (o.assign a v).bits ≡ v % 2 ^ a.width
  pub add-width : (a b : ApInt) → (o.add a b).width ≡ a.width
  pub add-bits : (a b : ApInt) → (o.add a b).bits ≡ (a.bits + b.bits) % 2 ^ a.width
  pub sub-width : (a b : ApInt) → (o.sub a b).width ≡ a.width
  pub sub-bits :
      (a b : ApInt) → (o.sub a b).bits ≡ (a.bits + 2 ^ a.width - b.bits % 2 ^ a.width) % 2 ^ a.width
  pub mul-width : (a b : ApInt) → (o.mul a b).width ≡ a.width
  pub mul-bits : (a b : ApInt) → (o.mul a b).bits ≡ a.bits * b.bits % 2 ^ a.width
  pub udiv-width : (a b : ApInt) → (o.udiv a b).width ≡ a.width
  pub udiv-bits : (a b : ApInt) → 0 < b.bits → (o.udiv a b).bits ≡ a.bits / b.bits
  pub lshr-width : (a : ApInt) (k : ℕ) → (o.lshr a k).width ≡ a.width
  pub lshr-bits : (a : ApInt) (k : ℕ) → (o.lshr a k).bits ≡ a.bits / 2 ^ k
  pub is_negative-bits : (a : ApInt) → o.is_negative a ≡ leb (2 ^ (a.width - 1)) a.bits
  pub sext-bits :
      (a : ApInt)
      → o.sext a
        ≡ (if leb (2 ^ (a.width - 1)) a.bits then 2 ^ 64 + a.bits - 2 ^ a.width else a.bits)
  pub slt-key : (a b : ApInt) → o.slt a b ≡ ltb (signed_key a) (signed_key b)
  pub sgt-key : (a b : ApInt) → o.sgt a b ≡ ltb (signed_key b) (signed_key a)
  pub sle-key : (a b : ApInt) → o.sle a b ≡ leb (signed_key a) (signed_key b)
  pub sge-key : (a b : ApInt) → o.sge a b ≡ leb (signed_key b) (signed_key a)
  pub ult-bits : (a b : ApInt) → o.ult a b ≡ ltb a.bits b.bits
  pub ugt-bits : (a b : ApInt) → o.ugt a b ≡ ltb b.bits a.bits
  pub ule-bits : (a b : ApInt) → o.ule a b ≡ leb a.bits b.bits
  pub uge-bits : (a b : ApInt) → o.uge a b ≡ leb b.bits a.bits
  pub eq-bits : (a b : ApInt) → o.eq a b ≡ (a.bits == b.bits)
  pub ne-bits : (a b : ApInt) → o.ne a b ≡ not (a.bits == b.bits)

-- Operations that behave as documented, for the tests.
abbrev word : ℕ → ℕ → ApInt
word w v = record { width = w; bits = v % 2 ^ w }

abbrev pub sample_ops : ApIntOps
sample_ops = record {
  uninit = word 1 0;
  make = λ w v s. word w v;
  assign = λ a v. word a.width v;
  add = λ a b. word a.width (a.bits + b.bits);
  sub = λ a b. word a.width (a.bits + 2 ^ a.width - b.bits % 2 ^ a.width);
  mul = λ a b. word a.width (a.bits * b.bits);
  sdiv = λ a b. word a.width (a.bits / b.bits);
  udiv = λ a b. record { width = a.width; bits = a.bits / b.bits };
  or = λ a b. record { width = a.width; bits = bit_or a.bits b.bits };
  and = λ a b. record { width = a.width; bits = bit_and a.bits b.bits };
  lshr = λ a k. record { width = a.width; bits = a.bits / 2 ^ k };
  is_negative = λ a. leb (2 ^ (a.width - 1)) a.bits;
  sext = λ a. if leb (2 ^ (a.width - 1)) a.bits then 2 ^ 64 + a.bits - 2 ^ a.width else a.bits;
  slt = λ a b. ltb (signed_key a) (signed_key b);
  sgt = λ a b. ltb (signed_key b) (signed_key a);
  sle = λ a b. leb (signed_key a) (signed_key b);
  sge = λ a b. leb (signed_key b) (signed_key a);
  ult = λ a b. ltb a.bits b.bits;
  ugt = λ a b. ltb b.bits a.bits;
  ule = λ a b. leb a.bits b.bits;
  uge = λ a b. leb b.bits a.bits;
  eq = λ a b. a.bits == b.bits;
  ne = λ a b. not (a.bits == b.bits);
}

pub sample_laws : ApIntLaws sample_ops
sample_laws = record {
  make-width = λ w v s. refl;
  make-bits = λ w v s. refl;
  assign-width = λ a v. refl;
  assign-bits = λ a v. refl;
  add-width = λ a b. refl;
  add-bits = λ a b. refl;
  sub-width = λ a b. refl;
  sub-bits = λ a b. refl;
  mul-width = λ a b. refl;
  mul-bits = λ a b. refl;
  udiv-width = λ a b. refl;
  udiv-bits = λ a b h. refl;
  lshr-width = λ a k. refl;
  lshr-bits = λ a k. refl;
  is_negative-bits = λ a. refl;
  sext-bits = λ a. refl;
  slt-key = λ a b. refl;
  sgt-key = λ a b. refl;
  sle-key = λ a b. refl;
  sge-key = λ a b. refl;
  ult-bits = λ a b. refl;
  ugt-bits = λ a b. refl;
  ule-bits = λ a b. refl;
  uge-bits = λ a b. refl;
  eq-bits = λ a b. refl;
  ne-bits = λ a b. refl;
}
