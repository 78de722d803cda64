-- ===== src/Eval/Operators/Compare.antt =====
-- The comparisons of ints are those of the signed values.
use ctutor.Base.{
  ℕ, ◌+◌, ◌%◌, ◌^◌, ◌<◌, ◌≡◌, Bool, true, false, not, ltb, leb, ◌==◌, if◌then◌else◌, arith,
}
use ctutor.Machine.ApInt.{ApInt, ApIntOps, ApIntLaws, signed_key}
use ctutor.Ast.{BinaryOp}
use ctutor.Eval.Operators.{yes_or_no, is_comparison, compare_ints}

-- The comparison that an operator means, of numbers in order.
unfoldable pub ordered : BinaryOp → ℕ → ℕ → Bool
ordered BinaryOp.lt a b = ltb a b
ordered BinaryOp.gt a b = ltb b a
ordered BinaryOp.le a b = leb a b
ordered BinaryOp.ge a b = leb b a
ordered BinaryOp.eq a b = a == b
ordered BinaryOp.ne a b = not (a == b)
ordered _ a b = false

abbrev key : ℕ → ℕ
key a = (a + 2 ^ 31) % 2 ^ 32

-- The shape of every comparison: `s` is the signed test, `u` the unsigned one.
abbrev by_sign : (l r s mixed u : ℕ) → ℕ
by_sign l r s mixed u = if leb (2 ^ 31) l then s else if leb (2 ^ 31) r then mixed else u

lt-key :
    (a b : ℕ)
    → a < 2 ^ 32
    → b < 2 ^ 32
    → by_sign a b (yes_or_no (ltb (key a) (key b))) 0 (yes_or_no (ltb a b))
      ≡ yes_or_no (ltb (key a) (key b))
lt-key a b s t = ground arith

gt-key :
    (a b : ℕ)
    → a < 2 ^ 32
    → b < 2 ^ 32
    → by_sign a b (yes_or_no (ltb (key b) (key a))) 1 (yes_or_no (ltb b a))
      ≡ yes_or_no (ltb (key b) (key a))
gt-key a b s t = ground arith

le-key :
    (a b : ℕ)
    → a < 2 ^ 32
    → b < 2 ^ 32
    → by_sign a b (yes_or_no (leb (key a) (key b))) 0 (yes_or_no (leb a b))
      ≡ yes_or_no (leb (key a) (key b))
le-key a b s t = ground arith

ge-key :
    (a b : ℕ)
    → a < 2 ^ 32
    → b < 2 ^ 32
    → by_sign a b (yes_or_no (leb (key b) (key a))) 1 (yes_or_no (leb b a))
      ≡ yes_or_no (leb (key b) (key a))
ge-key a b s t = ground arith

eq-key :
    (a b : ℕ)
    → a < 2 ^ 32
    → b < 2 ^ 32
    → by_sign a b (yes_or_no (a == b)) 0 (yes_or_no (a == b)) ≡ yes_or_no ((key a) == (key b))
eq-key a b s t = ground arith

ne-key :
    (a b : ℕ)
    → a < 2 ^ 32
    → b < 2 ^ 32
    → by_sign a b (yes_or_no (not (a == b))) 1 (yes_or_no (not (a == b)))
      ≡ yes_or_no (not ((key a) == (key b)))
ne-key a b s t = ground arith

-- For an APInt as documented and two ints of 32 bits, each of the six comparison operators gives 1 or 0
-- as the order of the signed values is, although the code compares as unsigned where the left int is
-- not negative.
pub compare_ints-ordered :
    (o : ApIntOps) (op : BinaryOp) (l r : ApInt)
    → ApIntLaws o
    → is_comparison op ≡ true
    → l.width ≡ 32
    → r.width ≡ 32
    → l.bits < 2 ^ 32
    → r.bits < 2 ^ 32
    → compare_ints o op l r ≡ yes_or_no (ordered op (signed_key l) (signed_key r))
unfolding compare_ints ordered
compare_ints-ordered o BinaryOp.lt l r laws c wl wr bl br =
    rw
      (
        laws.is_negative-bits l,
        laws.is_negative-bits r,
        laws.slt-key l r,
        laws.ult-bits l r,
        wl,
        wr,
      )
      (lt-key l.bits r.bits bl br)
compare_ints-ordered o BinaryOp.gt l r laws c wl wr bl br =
    rw
      (
        laws.is_negative-bits l,
        laws.is_negative-bits r,
        laws.sgt-key l r,
        laws.ugt-bits l r,
        wl,
        wr,
      )
      (gt-key l.bits r.bits bl br)
compare_ints-ordered o BinaryOp.le l r laws c wl wr bl br =
    rw
      (
        laws.is_negative-bits l,
        laws.is_negative-bits r,
        laws.sle-key l r,
        laws.ule-bits l r,
        wl,
        wr,
      )
      (le-key l.bits r.bits bl br)
compare_ints-ordered o BinaryOp.ge l r laws c wl wr bl br =
    rw
      (
        laws.is_negative-bits l,
        laws.is_negative-bits r,
        laws.sge-key l r,
        laws.uge-bits l r,
        wl,
        wr,
      )
      (ge-key l.bits r.bits bl br)
compare_ints-ordered o BinaryOp.eq l r laws c wl wr bl br =
    rw (laws.is_negative-bits l, laws.is_negative-bits r, laws.eq-bits l r, wl, wr)
      (eq-key l.bits r.bits bl br)
compare_ints-ordered o BinaryOp.ne l r laws c wl wr bl br =
    rw (laws.is_negative-bits l, laws.is_negative-bits r, laws.ne-bits l r, wl, wr)
      (ne-key l.bits r.bits bl br)
compare_ints-ordered o _ l r laws c wl wr bl br = cc
