-- ===== src/Types/Enums.antt =====
-- enums.h: the states of a value, the kinds of a block, and the tags of stored objects.
use ctutor.Base.{ℕ, bit_or}

pub data Status : Type 0 where
  undefined uninitialized defined : Status

pub data MemType : Type 0 where
  static global stack heap extern invalid freed : MemType

pub data NumType : Type 0 where
  bool char uchar short ushort int uint long ulong longlong ulonglong : NumType

abbrev pub emu_type_zero_id : ℕ
emu_type_zero_id = 0x00000000

abbrev pub emu_type_invalid_id : ℕ
emu_type_invalid_id = 0x01010101

abbrev pub emu_type_func_id : ℕ
emu_type_func_id = 0x02020202

abbrev pub emu_type_struct_id : ℕ
emu_type_struct_id = 0x04040404

abbrev pub emu_type_stackpos_id : ℕ
emu_type_stackpos_id = 0x05050505

abbrev pub emu_type_bool_id : ℕ
emu_type_bool_id = 0x40404040

abbrev pub emu_type_char_id : ℕ
emu_type_char_id = 0x41414141

abbrev pub emu_type_short_id : ℕ
emu_type_short_id = 0x42424242

abbrev pub emu_type_int_id : ℕ
emu_type_int_id = 0x43434343

abbrev pub emu_type_long_id : ℕ
emu_type_long_id = 0x44444444

abbrev pub emu_type_longlong_id : ℕ
emu_type_longlong_id = 0x45454545

abbrev pub emu_type_ptr_id : ℕ
emu_type_ptr_id = 0x60606060

abbrev pub emu_type_uninit_mask : ℕ
emu_type_uninit_mask = 0x80808080

-- id | EMU_TYPE_UNINIT_MASK
abbrev pub uninit_id : ℕ → ℕ
uninit_id id = bit_or id emu_type_uninit_mask
