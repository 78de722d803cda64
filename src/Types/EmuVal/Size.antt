-- ===== src/Types/EmuVal/Size.antt =====
-- The space that a value takes: size and dump_repr agree.
use ctutor.Base.{
  ℕ, zero, suc, ◌+◌, ◌≡◌, refl, sym, ◌%◌, ap, ap₂, Bool, true, false, ◌∙◌, List, [], ◌∷◌, ◌++◌,
  arith, length, length-append, if◌then◌else◌,
}
use ctutor.Outcome.{ok, undefined, ◌>>=◌, >>=-ok_parts, ok-injective}
use ctutor.Machine.ApInt.{ApInt, ApIntOps}
use ctutor.Machine.Bytes.{le_bytes}
use ctutor.Types.Enums.{Status, uninitialized, defined}
use ctutor.Types.EmuNum
use ctutor.Types.EmuNum.{EmuNum, val_bytes, dump_val, invalid_bytes, dump_as}
use ctutor.Types.EmuPtr
use ctutor.Types.EmuPtr.{EmuPtr, Target, block, nullptr, repr, stored, emu_size_ptr}
use ctutor.Types.EmuVal.{
  EmuVal, num, ptr, func, void, stackpos, struct, Members, nil, cons, size, sum_sizes, dump_repr,
  dump_members,
}

length-dump_val :
    (o : ApIntOps) (n : ℕ) (a : ApInt) (bytes : List ℕ)
    → length (dump_val o n a bytes) ≡ n + length bytes
unfolding dump_val
length-dump_val o zero a bytes = omega arith
length-dump_val o (suc n) a bytes =
    omega (arith, length-dump_val o n (o.lshr a 8) ((a.bits % 256) ∷ bytes))

length-invalid_bytes : (o : ApIntOps) (n : ℕ) → length (invalid_bytes o n) ≡ n
unfolding invalid_bytes
length-invalid_bytes o zero = refl
length-invalid_bytes o (suc n) = ap suc (length-invalid_bytes o n)

length-dump_num :
    (o : ApIntOps) (s : Status) (n : EmuNum) → length (dump_as o s n) ≡ EmuNum.size n.num_type
unfolding dump_as EmuNum.size le_bytes
length-dump_num o uninitialized n = omega (arith, length-invalid_bytes o (val_bytes n.num_type))
length-dump_num o _ n = omega (arith, length-dump_val o (val_bytes n.num_type) n.val [])

stored-length :
    (tag id offset : ℕ) (bs : List ℕ) → ok (stored tag id offset) ≡ ok bs → emu_size_ptr ≡ length bs
unfolding stored le_bytes
stored-length tag id offset bs h = ap length (ok-injective h)

stored-length_if :
    (b : Bool) (tag id offset : ℕ) (bs : List ℕ)
    → (if b then ok (stored tag id offset) else undefined) ≡ ok bs
    → emu_size_ptr ≡ length bs
stored-length_if true tag id offset bs h = stored-length tag id offset bs h
stored-length_if false tag id offset bs h = cc

length-dump_ptr :
    (alive : ℕ → Bool) (s : Status) (u : Target) (offset : ℕ) (bs : List ℕ)
    → EmuPtr.dump_as alive s u offset ≡ ok bs
    → emu_size_ptr ≡ length bs
unfolding EmuPtr.dump_as
length-dump_ptr alive uninitialized u offset bs e = stored-length _ _ _ bs e
length-dump_ptr alive defined nullptr offset bs e = stored-length _ _ _ bs e
length-dump_ptr alive defined (block b) offset bs e = stored-length_if (alive b) _ _ _ bs e
length-dump_ptr alive Status.undefined (repr t b) offset bs e = stored-length _ _ _ bs e
length-dump_ptr alive _ _ offset bs e = cc

length-tagged : (id : ℕ) (ms : List ℕ) → 4 + length ms ≡ length (le_bytes 4 id ++ ms)
unfolding le_bytes
length-tagged id ms = omega arith

module _ (o : ApIntOps) (alive : ℕ → Bool) where
  mutual
    unfolding dump_repr size EmuNum.dump_repr le_bytes

    dump-size : (v : EmuVal) (bs : List ℕ) → dump_repr o alive v ≡ ok bs → size v ≡ ok (length bs)
    dump-size (num n) bs e = ap ok (sym (length-dump_num o n.status n) ∙ ap length (ok-injective e))
    dump-size (ptr p) bs e = ap ok (length-dump_ptr alive p.status p.target p.offset bs e)
    dump-size (func f) bs e = ap (λ b. ok (length b)) (ok-injective e)
    dump-size void bs e = cc
    dump-size (stackpos p) bs e = ap (λ b. ok (length b)) (ok-injective e)
    dump-size (struct s qt id m) bs e =
        let (ms, found, built) = >>=-ok_parts (dump_members o alive m) _ e in
        ap (λ r. r >>= λ n. ok (4 + n)) (dump_members-sizes m ms found)
        ∙ ap ok (length-tagged id ms ∙ ap length (ok-injective built))

    dump_members-sizes :
        (m : Members) (bs : List ℕ) → dump_members o alive m ≡ ok bs → sum_sizes m ≡ ok (length bs)
    dump_members-sizes nil bs e = ap (λ b. ok (length b)) (ok-injective e)
    dump_members-sizes (cons v m) bs e =
        let (xs, first, rest) = >>=-ok_parts (dump_repr o alive v) _ e in
        let (ys, others, built) = >>=-ok_parts (dump_members o alive m) _ rest in
        ap₂ (λ r q. r >>= λ a. q >>= λ b. ok (a + b)) (dump-size v xs first)
          (dump_members-sizes m ys others)
        ∙ ap ok (sym (length-append xs ys) ∙ ap length (ok-injective built))

-- Where dump_repr stores a value it stores exactly as many bytes as size says, for every kind of
-- value, structs of structs included.
pub size-dump_repr :
    (o : ApIntOps) (alive : ℕ → Bool) (v : EmuVal) (bs : List ℕ)
    → dump_repr o alive v ≡ ok bs
    → size v ≡ ok (length bs)
size-dump_repr o alive v bs e = dump-size o alive v bs e
