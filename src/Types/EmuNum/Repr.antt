-- ===== src/Types/EmuNum/Repr.antt =====
-- The stored form of numbers: EmuNum::dump_repr and the constructor that reads memory.
use ctutor.Base.{
  ℕ, zero, suc, ◌+◌, ◌/◌, ◌%◌, ◌^◌, ◌<◌, ◌≡◌, ◌≢◌, refl, sym, ap, ◌∙◌, Bool, true, false, List, [],
  ◌∷◌, arith, bit_and, ◌==◌, if◌then◌else◌, ◌++◌, length,
}
use native.Mathlib.Nat.{mod-eq_of_lt}
use ctutor.Outcome.{ok}
use ctutor.Machine.ApInt.{ApInt, ApIntOps, ApIntLaws}
use ctutor.Machine.Bytes.{le_bytes, read-append, le_value-le_bytes_four}
use ctutor.Types.Enums.{
  Status, uninitialized, defined, undefined, NumType, bool, char, uchar, short, ushort, int, uint,
  long, ulong, longlong, ulonglong, emu_type_int_id,
}
use ctutor.Types.NumType.{bits_in_num_type, id_from_num_type, is_num_type_signed}
use ctutor.Types.EmuNum.{
  EmuNum, val_bytes, size, read_val, stored_status, decode, of_memory, dump_val, dump_as, dump_repr,
}

-- A number whose value has the width of its type.
pub record Fits (n : EmuNum) : Type 0 where
  pub width : n.val.width ≡ bits_in_num_type n.num_type
  pub range : n.val.bits < 2 ^ bits_in_num_type n.num_type

-- The bytes of dump_val, from the content of the APInt.
abbrev pub dump_bits : ℕ → ℕ → List ℕ → List ℕ
dump_bits zero x bytes = bytes
dump_bits (suc n) x bytes = dump_bits n (x / 256) ((x % 256) ∷ bytes)

-- The mask of a bool keeps the lowest bit, as a table of all bytes shows.
odd_table : ℕ → Bool
odd_table zero = true
odd_table (suc b) = if bit_and b 1 == b % 2 then odd_table b else false

table_entry : (b len : ℕ) → b < len → odd_table len ≡ true → bit_and b 1 ≡ b % 2
unfolding odd_table
table_entry b zero inside whole = elim inside [ ]
table_entry b (suc len) inside whole = ground (arith, table_entry b len)

odd_table_whole : odd_table 256 ≡ true
unfolding odd_table
odd_table_whole = refl

mask_one : (x : ℕ) → x < 256 → bit_and x 1 ≡ x % 2
mask_one x h = table_entry x 256 h odd_table_whole

-- Reading back what was dumped gives the value cut to the width, for each width.
read_val-dump_bits :
    (t : NumType) (x : ℕ)
    → read_val (bits_in_num_type t) 0 (dump_bits (val_bytes t) x []) ≡ x % 2 ^ bits_in_num_type t
unfolding read_val val_bytes
read_val-dump_bits bool x = omega (arith, mask_one (x % 256) (omega arith))
read_val-dump_bits char x = omega arith
read_val-dump_bits uchar x = omega arith
read_val-dump_bits short x = omega arith
read_val-dump_bits ushort x = omega arith
read_val-dump_bits int x = omega arith
read_val-dump_bits uint x = omega arith
read_val-dump_bits long x = omega arith
read_val-dump_bits ulong x = omega arith
read_val-dump_bits longlong x = omega arith
read_val-dump_bits ulonglong x = omega arith

length-dump_bits : (n x : ℕ) (bytes : List ℕ) → length (dump_bits n x bytes) ≡ n + length bytes
length-dump_bits zero x bytes = omega arith
length-dump_bits (suc n) x bytes = omega (arith, length-dump_bits n (x / 256) ((x % 256) ∷ bytes))

pub ApInt-eq : (a b : ApInt) → a.width ≡ b.width → a.bits ≡ b.bits → a ≡ b
ApInt-eq a b p q = λ i. record { width = p i; bits = q i }

id_small : (t : NumType) → id_from_num_type t < 2 ^ 32
unfolding id_from_num_type
id_small bool = omega arith
id_small _ = omega arith

-- Of the tags that dump_repr writes for defined numbers, the switch knows that of int alone.
stored_status-own :
    (t : NumType) (v : ℕ)
    → stored_status (id_from_num_type t) v
      ≡ (if id_from_num_type t == emu_type_int_id then defined else undefined)
unfolding id_from_num_type stored_status
stored_status-own bool v = refl
stored_status-own _ v = refl

module _ (o : ApIntOps) (laws : ApIntLaws o) where
  pub dump_val-dump_bits :
      (n : ℕ) (a : ApInt) (bytes : List ℕ) → dump_val o n a bytes ≡ dump_bits n a.bits bytes
  unfolding dump_val
  dump_val-dump_bits zero a bytes = refl
  dump_val-dump_bits (suc n) a bytes =
      dump_val-dump_bits n (o.lshr a 8) ((a.bits % 256) ∷ bytes)
      ∙ ap (λ x. dump_bits n x ((a.bits % 256) ∷ bytes)) (laws.lshr-bits a 8)

  -- A fresh APInt of the right width, assigned the content of `a`, is `a`.
  rebuild :
      (w : ℕ) (sign : Bool) (a : ApInt)
      → a.width ≡ w
      → a.bits < 2 ^ w
      → o.assign (o.make w a.bits sign) a.bits ≡ a
  rebuild w sign a width range =
      let made = o.make w a.bits sign in
      let same_width : made.width ≡ w = laws.make-width w a.bits sign in
      ApInt-eq _ a (laws.assign-width made a.bits ∙ same_width ∙ sym width)
        (laws.assign-bits made a.bits ∙ ap (λ k. a.bits % 2 ^ k) same_width ∙ mod-eq_of_lt range)

  read_val-dump_val :
      (n : EmuNum)
      → Fits n
      → read_val (bits_in_num_type n.num_type) 0 (dump_val o (val_bytes n.num_type) n.val [])
        ≡ n.val.bits
  read_val-dump_val n f =
      ap (read_val (bits_in_num_type n.num_type) 0) (dump_val-dump_bits _ n.val [])
      ∙ read_val-dump_bits n.num_type n.val.bits
      ∙ mod-eq_of_lt f.range

  decode-dump :
      (n : EmuNum) (id : ℕ)
      → Fits n
      → decode o n.num_type id (dump_val o (val_bytes n.num_type) n.val [])
        ≡ record n { status = stored_status id n.val.bits; repr_type_id = id }
  unfolding decode
  decode-dump n id f = rw (read_val-dump_val n f) (
      ap (λ v. record n { status = stored_status id n.val.bits; repr_type_id = id; val = v })
        (rebuild _ (is_num_type_signed n.num_type) n.val f.width f.range))

  length-dump_val :
      (n : EmuNum) → length (dump_val o (val_bytes n.num_type) n.val []) ≡ val_bytes n.num_type
  length-dump_val n =
      ap length (dump_val-dump_bits (val_bytes n.num_type) n.val [])
      ∙ length-dump_bits (val_bytes n.num_type) n.val.bits []
      ∙ omega arith

  of_memory-tagged :
      (n : EmuNum) (id : ℕ) (rest : List ℕ)
      → Fits n
      → id < 2 ^ 32
      → of_memory o n.num_type
          ((le_bytes 4 id ++ dump_val o (val_bytes n.num_type) n.val []) ++ rest)
        ≡ ok (record n { status = stored_status id n.val.bits; repr_type_id = id })
  unfolding of_memory size le_bytes
  of_memory-tagged n id rest f small =
      let value = dump_val o (val_bytes n.num_type) n.val [] in
      let whole =
        read-append (size n.num_type) (le_bytes 4 id ++ value) rest
          (omega (arith, length-dump_val n)) in
      rw (whole, of_memory) (rw (le_value-le_bytes_four id small) (ap ok (decode-dump n id f)))

  pub dump_as-tagged :
      (s : Status) (n : EmuNum)
      → s ≢ uninitialized
      → dump_as o s n ≡ le_bytes 4 n.repr_type_id ++ dump_val o (val_bytes n.num_type) n.val []
  unfolding dump_as
  dump_as-tagged uninitialized n h = absurd (h refl)
  dump_as-tagged _ n h = refl

  pub of_memory-dump_repr :
      (n : EmuNum) (rest : List ℕ)
      → Fits n
      → n.repr_type_id < 2 ^ 32
      → n.status ≢ uninitialized
      → of_memory o n.num_type (dump_repr o n ++ rest)
        ≡ ok (record n { status = stored_status n.repr_type_id n.val.bits })
  unfolding dump_repr
  of_memory-dump_repr n rest f small set =
      rw (dump_as-tagged n.status n set) (of_memory-tagged n n.repr_type_id rest f small)

  -- A defined number that fits its type and carries the tag of it, stored and read back, is the
  -- same number where that tag is the tag of int, and the same number in the state `undefined`
  -- where it is any other.
  pub of_memory-dump_repr_own :
      (n : EmuNum) (rest : List ℕ)
      → Fits n
      → n.status ≡ defined
      → n.repr_type_id ≡ id_from_num_type n.num_type
      → of_memory o n.num_type (dump_repr o n ++ rest)
        ≡ ok (record n {
          status = if id_from_num_type n.num_type == emu_type_int_id then defined else undefined;
        })
  of_memory-dump_repr_own n rest f def own =
      of_memory-dump_repr n rest f (rw own (id_small n.num_type)) (λ e. cc (sym def ∙ e))
      ∙ ap (λ s. ok (record n { status = s }))
          (ap (λ id. stored_status id n.val.bits) own ∙ stored_status-own n.num_type n.val.bits)
