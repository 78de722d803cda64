-- ===== src/Types/QualType.antt =====
-- clang::QualType as far as this code looks into it: a canonical type by the answers that it
-- gives to isIntegerType, isPointerType, getPointeeType, getSize, decls_begin and their like.
use ctutor.Base.{ℕ, Bool, true, false, ◌&&◌, ◌==◌}

-- BuiltinType::Kind. `int128` and `floating` stand for the kinds that no switch names.
pub data Kind : Type 0 where
  bool char_s schar char_u uchar short ushort int uint long ulong longlong ulonglong int128 floating
        void unknown_any :
      Kind

mutual
  -- A record is known by its declaration, a number, and shows its fields' types. `dims` names the
  -- size expression of a variable array, and `signature` a function type.
  pub data QualType : Type 0 where
    builtin : Kind → QualType
    pointer : (pointee : QualType) → QualType
    constant_array : (size : ℕ) → (element : QualType) → QualType
    variable_array : (dims : ℕ) → (element : QualType) → QualType
    function : (signature : ℕ) → QualType
    structure : (decl : ℕ) → Fields → QualType
    union : (decl : ℕ) → Fields → QualType
    va_list : QualType

  pub data Fields : Type 0 where
    end : Fields
    field : QualType → Fields → Fields

unfoldable pub kind_code : Kind → ℕ
kind_code Kind.bool = 0
kind_code Kind.char_s = 1
kind_code Kind.schar = 2
kind_code Kind.char_u = 3
kind_code Kind.uchar = 4
kind_code Kind.short = 5
kind_code Kind.ushort = 6
kind_code Kind.int = 7
kind_code Kind.uint = 8
kind_code Kind.long = 9
kind_code Kind.ulong = 10
kind_code Kind.longlong = 11
kind_code Kind.ulonglong = 12
kind_code Kind.int128 = 13
kind_code Kind.floating = 14
kind_code Kind.void = 15
kind_code Kind.unknown_any = 16

-- Equality of canonical types.
unfoldable pub same_type : QualType → QualType → Bool
unfolding kind_code
same_type (builtin k) (builtin j) = kind_code k == kind_code j
same_type (pointer a) (pointer b) = same_type a b
same_type (constant_array n a) (constant_array m b) = n == m && same_type a b
same_type (variable_array n a) (variable_array m b) = n == m && same_type a b
same_type (function f) (function g) = f == g
same_type (structure d _) (structure e _) = d == e
same_type (union d _) (union e _) = d == e
same_type va_list va_list = true
same_type _ _ = false

unfoldable pub is_integer_type : QualType → Bool
is_integer_type (builtin Kind.floating) = false
is_integer_type (builtin Kind.void) = false
is_integer_type (builtin Kind.unknown_any) = false
is_integer_type (builtin _) = true
is_integer_type _ = false

unfoldable pub is_pointer_type : QualType → Bool
is_pointer_type (pointer _) = true
is_pointer_type _ = false

unfoldable pub is_array_type : QualType → Bool
is_array_type (constant_array _ _) = true
is_array_type (variable_array _ _) = true
is_array_type _ = false

unfoldable pub is_function_type : QualType → Bool
is_function_type (function _) = true
is_function_type _ = false

-- The global type objects of types.cpp.
abbrev pub raw_type : QualType
raw_type = builtin Kind.unknown_any

abbrev pub void_type : QualType
void_type = builtin Kind.void

abbrev pub int_type : QualType
int_type = builtin Kind.int
