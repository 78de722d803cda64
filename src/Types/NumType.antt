-- ===== src/Types/NumType.antt =====
-- types.h: the tables on num_type_t.
use ctutor.Base.{ℕ, ◌+◌, ◌/◌, Bool, true, false}
use ctutor.Outcome.{Outcome, ok, exits, Error}
use ctutor.Types.Enums.{
  NumType, bool, char, uchar, short, ushort, int, uint, long, ulong, longlong, ulonglong,
  emu_type_bool_id, emu_type_char_id, emu_type_short_id, emu_type_int_id, emu_type_long_id,
  emu_type_longlong_id,
}
use ctutor.Types.QualType.{QualType, Kind, builtin}

unfoldable pub bits_in_num_type : NumType → ℕ
bits_in_num_type bool = 1
bits_in_num_type char = 8
bits_in_num_type uchar = 8
bits_in_num_type short = 16
bits_in_num_type ushort = 16
bits_in_num_type int = 32
bits_in_num_type uint = 32
bits_in_num_type long = 32
bits_in_num_type ulong = 32
bits_in_num_type longlong = 64
bits_in_num_type ulonglong = 64

unfoldable pub bytes_in_num_type : NumType → ℕ
unfolding bits_in_num_type
bytes_in_num_type t = (bits_in_num_type t + 7) / 8

-- On a target whose plain char is signed, CharTy is of kind Char_S.
unfoldable pub type_from_num_type : NumType → QualType
type_from_num_type bool = builtin Kind.bool
type_from_num_type char = builtin Kind.char_s
type_from_num_type uchar = builtin Kind.uchar
type_from_num_type short = builtin Kind.short
type_from_num_type ushort = builtin Kind.ushort
type_from_num_type int = builtin Kind.int
type_from_num_type uint = builtin Kind.uint
type_from_num_type long = builtin Kind.long
type_from_num_type ulong = builtin Kind.ulong
type_from_num_type longlong = builtin Kind.longlong
type_from_num_type ulonglong = builtin Kind.ulonglong

unfoldable pub id_from_num_type : NumType → ℕ
id_from_num_type bool = emu_type_bool_id
id_from_num_type char = emu_type_char_id
id_from_num_type uchar = emu_type_char_id
id_from_num_type short = emu_type_short_id
id_from_num_type ushort = emu_type_short_id
id_from_num_type int = emu_type_int_id
id_from_num_type uint = emu_type_int_id
id_from_num_type long = emu_type_long_id
id_from_num_type ulong = emu_type_long_id
id_from_num_type longlong = emu_type_longlong_id
id_from_num_type ulonglong = emu_type_longlong_id

unfoldable pub is_num_type_signed : NumType → Bool
is_num_type_signed bool = false
is_num_type_signed uchar = false
is_num_type_signed ushort = false
is_num_type_signed uint = false
is_num_type_signed ulong = false
is_num_type_signed ulonglong = false
is_num_type_signed char = true
is_num_type_signed short = true
is_num_type_signed int = true
is_num_type_signed long = true
is_num_type_signed longlong = true

unfoldable pub get_num_type : QualType → Outcome NumType
get_num_type (builtin Kind.bool) = ok bool
get_num_type (builtin Kind.char_s) = ok char
get_num_type (builtin Kind.schar) = ok char
get_num_type (builtin Kind.char_u) = ok uchar
get_num_type (builtin Kind.uchar) = ok uchar
get_num_type (builtin Kind.short) = ok short
get_num_type (builtin Kind.ushort) = ok ushort
get_num_type (builtin Kind.int) = ok int
get_num_type (builtin Kind.uint) = ok uint
get_num_type (builtin Kind.long) = ok long
get_num_type (builtin Kind.ulong) = ok ulong
get_num_type (builtin Kind.longlong) = ok longlong
get_num_type (builtin Kind.ulonglong) = ok ulonglong
get_num_type _ = exits Error.cant_cast
