-- ===== src/Cast/Obeys.antt =====
-- The loads of from_lvalue obey every logic of commands.
use ctutor.Base.{ℕ, zero, suc, Option, none, some}
use ctutor.Types.QualType.{
  QualType, Kind, builtin, pointer, constant_array, variable_array, function, structure, union,
  va_list, Fields, end, field,
}
use ctutor.Types.Enums.{Status}
use ctutor.Types.EmuVal.{EmuVal}
use ctutor.Mem.Tag.{add_size}
use ctutor.Mem.Stack.{Lvalue}
use ctutor.Exec.{Host, Exec}
use ctutor.Exec.Blocks.{block_at, bytes_at}
use ctutor.Exec.Logic.{Logic, Mode, Obeys, Obeys-bind, obeys_rules}
use ctutor.Cast.Load.{
  if_int, room, load_num, load_ptr, load_func, write_copies, newarr, array_count, load_array,
}
use ctutor.Cast.FromLvalue.{
  struct_tag, load_members, load_struct, is_scalar_zero, load_at, load_first, from_lvalue,
}

module _ {h : Host} {logic : Logic h} {q : Mode} where
  pub Obeys-block_at : (p : Option ℕ) → Obeys logic q (block_at p) (block_at p)
  unfolding block_at
  Obeys-block_at p = search obeys_rules

  pub Obeys-bytes_at : (p : Option ℕ) (n : ℕ) → Obeys logic q (bytes_at p n) (bytes_at p n)
  unfolding bytes_at
  Obeys-bytes_at p n = search obeys_rules

  Obeys-room : (p : Option ℕ) (offset : ℕ) → Obeys logic q (room p offset) (room p offset)
  unfolding room
  Obeys-room none offset = search obeys_rules
  Obeys-room (some i) offset = search (obeys_rules, Obeys-block_at)

  Obeys-load_num :
      (t : QualType) (p : Option ℕ) (offset : ℕ) (space : Option ℕ)
      → Obeys logic q (load_num h t p offset space) (load_num h t p offset space)
  unfolding load_num
  Obeys-load_num t p offset none = search obeys_rules
  Obeys-load_num t p offset (some n) = search (obeys_rules, Obeys-bytes_at)

  Obeys-load_ptr :
      (t : QualType) (p : Option ℕ) (offset space : ℕ)
      → Obeys logic q (load_ptr h t p offset space) (load_ptr h t p offset space)
  unfolding load_ptr
  Obeys-load_ptr t p offset n = search (obeys_rules, Obeys-bytes_at)

  Obeys-load_func :
      (t : QualType) (p : Option ℕ) (offset : ℕ) (space : Option ℕ)
      → Obeys logic q (load_func h t p offset space) (load_func h t p offset space)
  unfolding load_func
  Obeys-load_func t p offset none = search obeys_rules
  Obeys-load_func t p offset (some n) = search (obeys_rules, Obeys-bytes_at)

  Obeys-write_copies :
      (rounds b : ℕ) (v : EmuVal) (size i : ℕ)
      → Obeys logic q (write_copies h rounds b v size i) (write_copies h rounds b v size i)
  unfolding write_copies
  Obeys-write_copies zero b v size i = search obeys_rules
  Obeys-write_copies (suc n) b v size i = search (obeys_rules, Obeys-write_copies n)

  Obeys-newarr :
      (t : QualType) (m m' : Exec EmuVal) (count : ℕ)
      → Obeys logic q m m'
      → Obeys logic q (newarr h t m count) (newarr h t m' count)
  unfolding newarr
  Obeys-newarr t m m' count r = search (obeys_rules, Obeys-write_copies) depth 20

  Obeys-if_int :
      {A : Type 0} (t : QualType) (m : Exec A)
      → Obeys logic q m m
      → Obeys logic q (if_int t m) (if_int t m)
  unfolding if_int
  Obeys-if_int (builtin Kind.int) m r = r
  Obeys-if_int _ m r = search obeys_rules

  Obeys-array_count : (v : EmuVal) → Obeys logic q (array_count h v) (array_count h v)
  unfolding array_count
  Obeys-array_count v = search (obeys_rules, Obeys-if_int) depth 20

  Obeys-load_array :
      (t : QualType) (m m' : Exec EmuVal) (p : Option ℕ) (offset : ℕ) (space : Option ℕ)
      → Obeys logic q m m'
      → Obeys logic q (load_array h t m p offset space) (load_array h t m' p offset space)
  unfolding load_array
  Obeys-load_array t m m' p offset none r = r
  Obeys-load_array t m m' p offset (some n) r = Obeys-load_ptr t p offset n

  Obeys-struct_tag :
      (p : Option ℕ) (offset : ℕ) → Obeys logic q (struct_tag p offset) (struct_tag p offset)
  unfolding struct_tag
  Obeys-struct_tag none offset = search obeys_rules
  Obeys-struct_tag (some i) offset = search (obeys_rules, Obeys-block_at, Obeys-bytes_at) depth 20

  Obeys-load_members :
      (rounds : ℕ) (m m' : Exec EmuVal) (temp : Status)
      → Obeys logic q m m'
      → Obeys logic q (load_members rounds m temp) (load_members rounds m' temp)
  unfolding load_members
  Obeys-load_members zero m m' temp r = search obeys_rules
  Obeys-load_members (suc n) m m' temp r =
      Obeys-bind _ _ _ _ r
        λ v. Obeys-bind _ _ _ _ (Obeys-load_members n m m' _ r) λ (ms, s). search obeys_rules

  Obeys-load_struct :
      (t : QualType) (n : ℕ) (m m' : Exec EmuVal) (p : Option ℕ) (offset : ℕ)
      → Obeys logic q m m'
      → Obeys logic q (load_struct t n m p offset) (load_struct t n m' p offset)
  unfolding load_struct
  Obeys-load_struct t n m m' p offset r =
      Obeys-bind _ _ _ _ (Obeys-struct_tag p offset) λ (tag, temp).
        Obeys-bind _ _ _ _ (Obeys-load_members n m m' temp r) λ (ms, s). search obeys_rules

  pub Obeys-is_scalar_zero : (v : EmuVal) → Obeys logic q (is_scalar_zero v) (is_scalar_zero v)
  unfolding is_scalar_zero
  Obeys-is_scalar_zero v = search (obeys_rules, Obeys-if_int)

  module _ (size size' : ℕ → Exec EmuVal) (sizes : (d : ℕ) → Obeys logic q (size d) (size' d)) where
    mutual
      unfolding load_at load_first

      Obeys-load_at :
          (t : QualType) (p : Option ℕ) (offset : ℕ) (space : Option ℕ)
          → Obeys logic q (load_at h size t p offset space) (load_at h size' t p offset space)
      Obeys-load_at (builtin k) p offset space = search (obeys_rules, Obeys-load_num)
      Obeys-load_at (pointer t) p offset none = search obeys_rules
      Obeys-load_at (pointer t) p offset (some space) = Obeys-load_ptr (pointer t) p offset space
      Obeys-load_at (constant_array n t) p offset space =
          Obeys-load_array _ _ _ p offset space (Obeys-newarr _ _ _ n (Obeys-load_at t none 0 none))
      Obeys-load_at (variable_array d t) p offset space = Obeys-load_array _ _ _ p offset space (
          Obeys-bind _ _ _ _ (sizes d) λ v.
            Obeys-bind _ _ _ _ (Obeys-array_count v)
              λ n. Obeys-newarr _ _ _ n (Obeys-load_at t none 0 none))
      Obeys-load_at (function g) p offset space = Obeys-load_func (function g) p offset space
      Obeys-load_at (structure d fs) p offset space =
          Obeys-load_struct _ _ _ _ p offset (Obeys-load_first fs p (add_size offset 4))
      Obeys-load_at (union d fs) p offset space =
          Obeys-load_struct _ _ _ _ p offset (Obeys-load_first fs p (add_size offset 4))
      Obeys-load_at va_list p offset space = search obeys_rules

      Obeys-load_first :
          (fs : Fields) (p : Option ℕ) (offset : ℕ)
          → Obeys logic q (load_first h size fs p offset) (load_first h size' fs p offset)
      Obeys-load_first end p offset = search obeys_rules
      Obeys-load_first (field t fs) p offset =
          Obeys-bind _ _ _ _ (Obeys-room p offset) (Obeys-load_at t p offset)

    pub Obeys-from_lvalue :
        (l : Lvalue) → Obeys logic q (from_lvalue h size l) (from_lvalue h size' l)
    unfolding from_lvalue
    Obeys-from_lvalue l =
        Obeys-bind _ _ _ _ (Obeys-room l.block l.offset) (Obeys-load_at l.type l.block l.offset)
