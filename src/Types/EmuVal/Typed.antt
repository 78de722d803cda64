-- ===== src/Types/EmuVal/Typed.antt =====
-- The types of values: what a value made for a type says of its type.
use ctutor.Base.{
  ℕ, ◌≡◌, refl, sym, ap, Bool, Option, ◌==◌, ◌∙◌, inl, inr, ◌||◌, ◌&&◌, not, Bool-cases, none, some,
  List,
}
use ctutor.Outcome.{ok, undefined, >>=-ok_parts, ok-injective}
use ctutor.Machine.Bytes.{read}
use ctutor.Machine.ApInt.{ApIntOps}
use ctutor.Types.Enums.{Status, NumType, uninitialized, defined, uninit_id, emu_type_ptr_id}
use ctutor.Types.QualType.{
  QualType, Kind, builtin, is_function_type, is_pointer_type, is_array_type, same_type,
}
use ctutor.Types.NumType.{get_num_type, type_from_num_type, is_num_type_signed}
use ctutor.Types.EmuNum
use ctutor.Types.EmuNum.{EmuNum, of_status, of_apint}
use ctutor.Types.EmuPtr
use ctutor.Types.EmuPtr.{
  EmuPtr, Target, block, nullptr, repr, unset, of_mem_ptr, cast_target, emu_size_ptr,
}
use ctutor.Types.EmuVal
use ctutor.Types.EmuVal.{
  EmuVal, EmuFunc, num, ptr, func, void, stackpos, struct, Members, struct_of, cast_func,
  func_of_id, func_of_memory, emu_size_func,
}

-- The type that a value of a type has: signed char and an unsigned plain char are the types of the two
-- kinds of number that stand for them.
abbrev pub stored_type : QualType → QualType
stored_type (builtin Kind.schar) = builtin Kind.char_s
stored_type (builtin Kind.char_u) = builtin Kind.uchar
stored_type t = t

pub get_num_type-stored_type :
    (qt : QualType) (t : NumType) → get_num_type qt ≡ ok t → type_from_num_type t ≡ stored_type qt
unfolding get_num_type type_from_num_type
get_num_type-stored_type (builtin Kind.bool) t e = ap type_from_num_type (ok-injective (sym e))
get_num_type-stored_type (builtin Kind.char_s) t e = ap type_from_num_type (ok-injective (sym e))
get_num_type-stored_type (builtin Kind.schar) t e = ap type_from_num_type (ok-injective (sym e))
get_num_type-stored_type (builtin Kind.char_u) t e = ap type_from_num_type (ok-injective (sym e))
get_num_type-stored_type (builtin Kind.uchar) t e = ap type_from_num_type (ok-injective (sym e))
get_num_type-stored_type (builtin Kind.short) t e = ap type_from_num_type (ok-injective (sym e))
get_num_type-stored_type (builtin Kind.ushort) t e = ap type_from_num_type (ok-injective (sym e))
get_num_type-stored_type (builtin Kind.int) t e = ap type_from_num_type (ok-injective (sym e))
get_num_type-stored_type (builtin Kind.uint) t e = ap type_from_num_type (ok-injective (sym e))
get_num_type-stored_type (builtin Kind.long) t e = ap type_from_num_type (ok-injective (sym e))
get_num_type-stored_type (builtin Kind.ulong) t e = ap type_from_num_type (ok-injective (sym e))
get_num_type-stored_type (builtin Kind.longlong) t e = ap type_from_num_type (ok-injective (sym e))
get_num_type-stored_type (builtin Kind.ulonglong) t e = ap type_from_num_type (ok-injective (sym e))
get_num_type-stored_type _ t e = cc

-- What a read of enough bytes gives is made of them.
read_parts :
    {X Y : Type 0} (bytes : Option X) (make : X → Y) (y : Y)
    → elim bytes [ none ↦ undefined | some x ↦ ok (make x) ] ≡ ok y
    → (x : X) × (make x ≡ y)
read_parts none make y e = cc
read_parts (some x) make y e = (x, ok-injective e)

pub num_of_memory-type :
    (o : ApIntOps) (t : NumType) (bytes : List ℕ) (n : EmuNum)
    → EmuNum.of_memory o t bytes ≡ ok n
    → EmuVal.obj_type (num n) ≡ type_from_num_type t
unfolding EmuNum.of_memory EmuNum.decode EmuVal.obj_type EmuNum.obj_type
num_of_memory-type o t bytes n e =
    let (own, made) = read_parts (read (EmuNum.size t) bytes) _ n e in
    ap (λ (x : EmuNum). type_from_num_type x.num_type) (sym made)

decode-type :
    (active : ℕ → Bool) (tag id offset : ℕ) (t : QualType)
    → (EmuPtr.decode active tag id offset t).obj_type ≡ t
unfolding EmuPtr.decode
decode-type active tag id offset t = elim (Bool-cases (tag == uninit_id emu_type_ptr_id)) [
  | inl e ↦ rw e refl
  | inr e ↦ elim (Bool-cases (tag == emu_type_ptr_id)) [
    | inl d ↦ elim (Bool-cases (active id)) [
      | inl a ↦ rw (e, d, a) refl
      | inr a ↦ rw (e, d, a) refl
    ]
    | inr d ↦ rw (e, d) refl
  ]
]

pub ptr_of_memory-type :
    (active : ℕ → Bool) (bytes : List ℕ) (t : QualType) (p : EmuPtr)
    → EmuPtr.of_memory active bytes t ≡ ok p
    → p.obj_type ≡ t
unfolding EmuPtr.of_memory
ptr_of_memory-type active bytes t p e =
    let (own, made) = read_parts (read emu_size_ptr bytes) _ p e in
    ap (λ (x : EmuPtr). x.obj_type) (sym made) ∙ decode-type active _ _ _ t

pub func_of_memory-type :
    (known : ℕ → Bool) (bytes : List ℕ) (t : QualType) (f : EmuFunc)
    → func_of_memory known bytes t ≡ ok f
    → f.obj_type ≡ t
unfolding func_of_memory
func_of_memory-type known bytes t f e =
    let (own, made) = read_parts (read emu_size_func bytes) _ f e in
    ap (λ (x : EmuFunc). x.obj_type) (sym made)

cast_target-type :
    (u : Target) (offset : ℕ) (t : QualType) (p : EmuPtr)
    → cast_target u offset t ≡ ok p
    → p.obj_type ≡ t
unfolding cast_target of_mem_ptr
cast_target-type (block b) offset t p e = ap (λ (x : EmuPtr). x.obj_type) (sym (ok-injective e))
cast_target-type nullptr offset t p e = ap (λ (x : EmuPtr). x.obj_type) (sym (ok-injective e))
cast_target-type (repr a b) offset t p e = cc
cast_target-type unset offset t p e = cc

stored_type-stored_type : (t : QualType) → stored_type (stored_type t) ≡ stored_type t
stored_type-stored_type (builtin Kind.schar) = refl
stored_type-stored_type (builtin Kind.char_u) = refl
stored_type-stored_type _ = refl

-- A number made for a type that getNumType knows.
pub number-type :
    (t : QualType) (k : NumType) (u : QualType)
    → get_num_type t ≡ ok k
    → u ≡ type_from_num_type k
    → stored_type u ≡ stored_type t
number-type t k u found e =
    ap stored_type (e ∙ get_num_type-stored_type t k found) ∙ stored_type-stored_type t

cast_num-type :
    (o : ApIntOps) (n m : EmuNum) (t : QualType)
    → EmuNum.cast_to o n t ≡ ok m
    → stored_type (EmuNum.obj_type m) ≡ stored_type t
unfolding EmuNum.cast_to EmuNum.obj_type of_status of_apint
cast_num-type o n m t e =
    let (k, found, made) = >>=-ok_parts (get_num_type t) _ e in
    number-type t k _ found (
      ap (λ (x : EmuNum). type_from_num_type x.num_type) (sym (ok-injective made))
      ∙ elim (Bool-cases (is_num_type_signed n.num_type && not (is_num_type_signed k))) [
        | inl c ↦ rw c refl
        | inr c ↦ rw c refl
      ])

cast_ptr-type : (p q : EmuPtr) (t : QualType) → EmuPtr.cast_to p t ≡ ok q → q.obj_type ≡ t
unfolding EmuPtr.cast_to
cast_ptr-type p q t e = elim (Bool-cases (is_pointer_type t || is_array_type t)) [
  | inl c ↦ cast_target-type p.target p.offset t q (rw c at e)
  | inr c ↦ cc (rw c at e)
]

cast_func-type :
    (o : ApIntOps) (f : EmuFunc) (w : EmuVal) (t : QualType)
    → cast_func o f t ≡ ok w
    → EmuVal.obj_type w ≡ t
unfolding cast_func func_of_id EmuVal.obj_type
cast_func-type o f w t e = elim (Bool-cases (is_function_type t)) [
  | inl c ↦ ap EmuVal.obj_type (sym (ok-injective (rw c at e)))
  | inr c ↦ cc (rw c at e)
]

struct_of-type : (s : Status) (t : QualType) (m : Members) → EmuVal.obj_type (struct_of s t m) ≡ t
unfolding struct_of EmuVal.obj_type
struct_of-type defined t m = refl
struct_of-type uninitialized t m = refl
struct_of-type Status.undefined t m = refl

-- What a cast gives has the type of the cast.
pub cast_to-type :
    (o : ApIntOps) (v w : EmuVal) (t : QualType)
    → EmuVal.cast_to o v t ≡ ok w
    → stored_type (EmuVal.obj_type w) ≡ stored_type t
unfolding EmuVal.cast_to EmuVal.obj_type
cast_to-type o (num n) w t e =
    let (m, cast, last) = >>=-ok_parts (EmuNum.cast_to o n t) _ e in
    ap (λ v. stored_type (EmuVal.obj_type v)) (sym (ok-injective last)) ∙ cast_num-type o n m t cast
cast_to-type o (ptr p) w t e =
    let (q, cast, last) = >>=-ok_parts (EmuPtr.cast_to p t) _ e in
    ap (λ v. stored_type (EmuVal.obj_type v)) (sym (ok-injective last))
    ∙ ap stored_type (cast_ptr-type p q t cast)
cast_to-type o (func f) w t e = ap stored_type (cast_func-type o f w t e)
cast_to-type o void w t e = cc
cast_to-type o (stackpos p) w t e = cc
cast_to-type o (struct s qt id m) w t e = elim (Bool-cases (same_type t qt)) [
  | inl c ↦
      let (m', copied, last) = >>=-ok_parts (EmuVal.cast_members o m) _ (rw c at e) in
      ap (λ v. stored_type (EmuVal.obj_type v)) (sym (ok-injective last))
      ∙ ap stored_type (struct_of-type s t m')
  | inr c ↦ cc (rw c at e)
]
