-- ===== src/Types/EmuNum.antt =====
-- types.h, EmuNumGeneric and EmuNum<NumType>: the numbers of the interpreted program. The template
-- argument is the field `num_type`.
pub mod Repr
pub mod Copy
pub mod Arith
pub mod Cast
use ctutor.Base.{
  ℕ, zero, suc, ◌+◌, ◌-◌, ◌*◌, ◌/◌, ◌%◌, ◌^◌, Bool, true, false, not, ◌&&◌, none, some, List, [],
  ◌∷◌, ◌++◌, ltb, ◌==◌, if◌then◌else◌, take, drop, bit_and,
}
use ctutor.Outcome.{Outcome, ok, exits, Error, undefined, ◌>>=◌}
use ctutor.Machine.ApInt.{ApInt, ApIntOps}
use ctutor.Machine.Bytes.{le_bytes, le_value, read}
use ctutor.Types.Enums.{
  Status, uninitialized, defined, NumType, emu_type_zero_id, emu_type_invalid_id, emu_type_int_id,
  uninit_id,
}
use ctutor.Types.QualType.{QualType, builtin, kind_code, is_integer_type, Kind}
use ctutor.Types.NumType.{
  bits_in_num_type, type_from_num_type, id_from_num_type, is_num_type_signed, get_num_type,
}

pub record EmuNum : Type 0 where
  pub num_type : NumType
  pub status : Status
  pub val : ApInt
  pub repr_type_id : ℕ

unfoldable pub obj_type : EmuNum → QualType
unfolding type_from_num_type
obj_type n = type_from_num_type n.num_type

-- (vbits+7)/8
unfoldable pub val_bytes : NumType → ℕ
unfolding bits_in_num_type
val_bytes t = (bits_in_num_type t + 7) / 8

-- EmuNum::size
unfoldable pub size : NumType → ℕ
unfolding val_bytes
size t = 4 + val_bytes t

-- The loop that reads the value, highest byte first.
unfoldable pub read_val : (bitsleft v : ℕ) → List ℕ → ℕ
read_val bitsleft v [] = v
read_val bitsleft v (b ∷ bs) =
    let rest = read_val (bitsleft - 8) (0x100 * v + b) bs in
    if bitsleft == 0
    then v
    else if ltb bitsleft 8
    then 0x100 * v + bit_and b (0xff / 2 ^ (8 - bitsleft))
    else rest

-- The switch on the tag of a stored number.
unfoldable pub stored_status : (id v : ℕ) → Status
stored_status id v =
    if id == uninit_id emu_type_int_id
    then uninitialized
    else if id == emu_type_int_id
    then defined
    else if id == emu_type_zero_id && (v == 0)
    then defined
    else Status.undefined

module _ (o : ApIntOps) where
  -- EmuNum(status_t)
  unfoldable pub of_status : NumType → Status → EmuNum
  unfolding id_from_num_type
  of_status t s = record {
    num_type = t;
    status = s;
    val = o.uninit;
    repr_type_id = id_from_num_type t;
  }

  -- EmuNum(llvm::APInt)
  unfoldable pub of_apint : NumType → ApInt → EmuNum
  unfolding id_from_num_type
  of_apint t i = record {
    num_type = t;
    status = defined;
    val = i;
    repr_type_id = id_from_num_type t;
  }

  -- The object that EmuNum(const void*) makes of a tag and the bytes behind it.
  unfoldable pub decode : NumType → (id : ℕ) → (bytes : List ℕ) → EmuNum
  unfolding bits_in_num_type is_num_type_signed read_val stored_status
  decode t id bytes =
      let bits = bits_in_num_type t in
      let v = read_val bits 0 bytes in
      record {
        num_type = t;
        status = stored_status id v;
        val = o.assign (o.make bits v (is_num_type_signed t)) v;
        repr_type_id = id;
      }

  -- EmuNum(const void*), at the bytes from the pointer to the end of the block. A read past the
  -- end is undefined.
  unfoldable pub of_memory : NumType → List ℕ → Outcome EmuNum
  of_memory t mem = elim (read (size t) mem) [
    | none ↦ undefined
    | some bytes ↦ ok (decode t (le_value (take 4 bytes)) (drop 4 bytes))
  ]

  -- The loop of dump_repr, which fills the value from its last byte on.
  unfoldable pub dump_val : ℕ → ApInt → List ℕ → List ℕ
  dump_val zero t bytes = bytes
  dump_val (suc n) t bytes = dump_val n (o.lshr t 8) ((t.bits % 256) ∷ bytes)

  -- The loop of dump_repr for an uninitialized number.
  unfoldable pub invalid_bytes : ℕ → List ℕ
  invalid_bytes zero = []
  invalid_bytes (suc n) = (emu_type_invalid_id % 256) ∷ invalid_bytes n

  -- The switch of dump_repr.
  unfoldable pub dump_as : Status → EmuNum → List ℕ
  dump_as uninitialized n =
      le_bytes 4 (uninit_id (id_from_num_type n.num_type)) ++ invalid_bytes (val_bytes n.num_type)
  dump_as _ n = le_bytes 4 n.repr_type_id ++ dump_val (val_bytes n.num_type) n.val []

  -- EmuNum::dump_repr: the bytes that it stores.
  unfoldable pub dump_repr : EmuNum → List ℕ
  unfolding dump_as
  dump_repr n = dump_as n.status n

  -- EmuNum::cast_to
  unfoldable pub cast_to : EmuNum → QualType → Outcome EmuNum
  unfolding of_status of_apint is_num_type_signed bits_in_num_type get_num_type
  cast_to n qt = do
    t ← get_num_type qt
    let invalid = is_num_type_signed n.num_type && not (is_num_type_signed t)
    ok (
        if invalid
        then of_status t Status.undefined
        else of_apint t (o.make (bits_in_num_type t) n.val.bits (is_num_type_signed t)))

  -- The tests on the operands' states with which every binary operation begins.
  unfoldable pub guarded : NumType → (s1 s2 : Status) → EmuNum → EmuNum
  unfolding of_status
  guarded t Status.undefined s2 result = of_status t Status.undefined
  guarded t s1 Status.undefined result = of_status t Status.undefined
  guarded t uninitialized s2 result = of_status t uninitialized
  guarded t s1 uninitialized result = of_status t uninitialized
  guarded t defined defined result = result

  unfoldable pub binary : (ApInt → ApInt → ApInt) → EmuNum → EmuNum → EmuNum
  unfolding of_apint
  binary op a b = guarded a.num_type a.status b.status (of_apint a.num_type (op a.val b.val))

  -- EmuNum::add, sub, mul, _or, _and
  unfoldable pub add : EmuNum → EmuNum → EmuNum
  unfolding binary
  add = binary o.add

  unfoldable pub sub : EmuNum → EmuNum → EmuNum
  unfolding binary
  sub = binary o.sub

  unfoldable pub mul : EmuNum → EmuNum → EmuNum
  unfolding binary
  mul = binary o.mul

  unfoldable pub bitwise_or : EmuNum → EmuNum → EmuNum
  unfolding binary
  bitwise_or = binary o.or

  unfoldable pub bitwise_and : EmuNum → EmuNum → EmuNum
  unfolding binary
  bitwise_and = binary o.and

  -- EmuNum::div
  unfoldable pub div : EmuNum → EmuNum → EmuNum
  unfolding of_apint of_status
  div a b =
      let t = a.num_type in
      let quotient = if is_num_type_signed t then o.sdiv a.val b.val else o.udiv a.val b.val in
      guarded t a.status b.status
        (if b.val.bits == 0 then of_status t Status.undefined else of_apint t quotient)

  -- The tests on the operand's state in lnot and neg.
  unfoldable pub guarded_unary : NumType → Status → EmuNum → EmuNum
  unfolding of_status
  guarded_unary t Status.undefined result = of_status t Status.undefined
  guarded_unary t uninitialized result = of_status t uninitialized
  guarded_unary t defined result = result

  unfoldable pub lnot : EmuNum → EmuNum
  unfolding of_apint
  lnot a =
      let t = a.num_type in
      let b : ℕ = if a.val.bits == 0 then 1 else 0 in
      guarded_unary t a.status (of_apint t (o.make (bits_in_num_type t) b (is_num_type_signed t)))

  -- The negation is made on a uint64_t, and cut to the type's width.
  unfoldable pub neg : EmuNum → EmuNum
  unfolding of_apint
  neg a =
      let t = a.num_type in
      let minus = (2 ^ 64 - a.val.bits) % 2 ^ 64 in
      guarded_unary t a.status
        (of_apint t (o.make (bits_in_num_type t) minus (is_num_type_signed t)))

-- EmuNumGeneric::equals; the comparison of two APInts of one width.
unfoldable pub equals : EmuNum → EmuNum → Bool
equals a b = a.val.bits == b.val.bits

-- The kinds that the switch of DOOP names. Char_S, the kind of CharTy, is not among them.
unfoldable pub is_dispatched : Kind → Bool
is_dispatched Kind.char_s = false
is_dispatched Kind.char_u = false
is_dispatched Kind.int128 = false
is_dispatched Kind.floating = false
is_dispatched Kind.void = false
is_dispatched Kind.unknown_any = false
is_dispatched _ = true

-- get_gen_kind of types.cpp
unfoldable pub get_gen_kind : QualType → QualType → Outcome Kind
unfolding is_integer_type kind_code
get_gen_kind (builtin ka) (builtin kb) =
    if is_integer_type (builtin ka) && (kind_code ka == kind_code kb)
    then ok ka
    else exits Error.cant_cast
get_gen_kind _ _ = exits Error.cant_cast

-- The functions that DOOP defines on EmuNumGeneric.
unfoldable pub generic : (EmuNum → EmuNum → EmuNum) → EmuNum → EmuNum → Outcome EmuNum
unfolding obj_type
generic op a b = do
  k ← get_gen_kind (obj_type a) (obj_type b)
  if is_dispatched k then ok (op a b) else exits Error.cant_cast
