-- ===== src/Cast/Assigned.antt =====
-- What a load gives after an assignment of an int.
use ctutor.Base.{
  ℕ, ◌+◌, ◌<◌, ◌≤◌, ◌≡◌, refl, sym, ap, subst, ◌∙◌, Bool, true, false, some, List, length,
  length-splice, drop, arith, ltb, leb, if◌then◌else◌, ==_self, ◌==◌, ltb-false, eq_of_some,
}
use ctutor.Outcome.{Outcome, ok, ok-injective, >>=-ok_parts}
use ctutor.Machine.ApInt.{ApIntLaws}
use ctutor.Types.Enums.{Status, defined, NumType, emu_type_int_id}
use ctutor.Types.NumType.{id_from_num_type, get_num_type, bytes_in_num_type, bits_in_num_type}
use ctutor.Types.QualType.{Kind, builtin, is_integer_type}
use ctutor.Types.EmuNum
use ctutor.Types.EmuNum.{EmuNum}
use ctutor.Types.EmuNum.Repr.{Fits}
use ctutor.Types.EmuVal
use ctutor.Types.EmuVal.{EmuVal, num}
use ctutor.Types.EmuVal.Size.{size-dump_repr}
use ctutor.Mem.Tag.{size_t, sub_size}
use ctutor.Mem.Block
use ctutor.Mem.Block.{Block, Memory, put, deref, alive, data_of, write_block}
use ctutor.Mem.Block.Invariant.{IsValid, deref-some}
use ctutor.Mem.Block.Write.{write_block-Written, of_memory-write_block}
use ctutor.Exec.{State, Host, Exec, pure, asks, lift, then_do, on_memory, with_memory}
use ctutor.Exec.Blocks.{write, write_in, block_at, block_of, bytes_at, bytes_in}
use ctutor.Cast.Load.{is_freed, room, load_num}
use ctutor.Cast.FromLvalue.{from_lvalue, load_at}

with_memory-parts :
    {A : Type 0} (r : Outcome (A × Memory)) (s s' : State) (a : A)
    → with_memory r s ≡ ok (a, s')
    → (m : Memory) × (r ≡ ok (a, m)) × (record s { memory = m } ≡ s')
with_memory-parts (ok (x, m)) s s' a e = (
  m,
  ap (λ y. ok (y, m)) (ap (λ (q : _ × State). q.0) (ok-injective e)),
  ap (λ (q : _ × State). q.1) (ok-injective e),
)
with_memory-parts (Outcome.exits x) s s' a e = cc
with_memory-parts Outcome.undefined s s' a e = cc
with_memory-parts Outcome.out_of_fuel s s' a e = cc

load_int :
    (h : Host) (i offset : ℕ) (m : EmuNum) (s : State) (bytes : List ℕ) (b : Block)
    → s.memory.blocks i ≡ some b
    → is_freed b.memtype ≡ false
    → b.bytes ≡ some bytes
    → ltb b.size offset ≡ false
    → ltb (sub_size b.size offset) 4 ≡ false
    → leb offset (length bytes) ≡ true
    → EmuNum.of_memory h.ops NumType.int (drop offset bytes) ≡ ok m
    → (size : ℕ → Exec EmuVal)
    → from_lvalue h size (record { block = some i; type = builtin Kind.int; offset = offset }) s
      ≡ ok (num m, s)
unfolding from_lvalue room load_at load_num block_at asks lift pure bytes_at block_of deref bytes_in
    data_of is_integer_type get_num_type bytes_in_num_type bits_in_num_type
load_int h i offset m s bytes b here live had start room_left inside value size =
    let at_block : block_at (some i) s ≡ ok (b, s) = rw (here, deref) in
    let in_room : room (some i) offset s ≡ ok (some (sub_size b.size offset), s) =
      then_do (block_at (some i)) _ b s s at_block ∙ rw (live, start) in
    let at_bytes : bytes_at (some i) offset s ≡ ok (drop offset bytes, s) =
      rw (here, deref, had, data_of, inside) in
    let numbered : load_num h (builtin Kind.int) (some i) offset (some (sub_size b.size offset)) s
        ≡ ok (num m, s) =
      then_do (lift (get_num_type (builtin Kind.int))) _ NumType.int s s refl
      ∙ rw room_left (
          then_do (bytes_at (some i) offset) _ (drop offset bytes) s s at_bytes
          ∙ then_do (lift (EmuNum.of_memory h.ops NumType.int (drop offset bytes))) _ m s s
              (rw value)) in
    then_do (room (some i) offset) _ (some (sub_size b.size offset)) s s in_room ∙ numbered

num-long :
    (h : Host) (alive : ℕ → Bool) (m : EmuNum) (new : List ℕ)
    → EmuVal.dump_repr h.ops alive (num m) ≡ ok new
    → 4 ≤ length new
unfolding EmuVal.size EmuNum.size
num-long h alive m new e = omega (arith, ok-injective (size-dump_repr h.ops alive (num m) new e))

enough :
    (size offset k : ℕ)
    → size < size_t
    → offset + k ≤ size
    → 4 ≤ k
    → ltb (sub_size size offset) 4 ≡ false
enough size offset k small fit long = ground arith

int_tag :
    (t : NumType)
    → t ≡ NumType.int
    → (if id_from_num_type t == emu_type_int_id then defined else Status.undefined) ≡ defined
unfolding id_from_num_type
int_tag t e =
    ap (λ u. if id_from_num_type u == emu_type_int_id then defined else Status.undefined) e

-- The number that is read back, which has the tag of int.
as_int :
    (h : Host) (m : EmuNum) (bytes : List ℕ)
    → m.num_type ≡ NumType.int
    → m.status ≡ defined
    → EmuNum.of_memory h.ops m.num_type bytes
      ≡ ok (record m {
        status =
            if id_from_num_type m.num_type == emu_type_int_id then defined else Status.undefined;
      })
    → EmuNum.of_memory h.ops NumType.int bytes ≡ ok m
unfolding id_from_num_type
as_int h m bytes is_int set e =
    sym (ap (λ t. EmuNum.of_memory h.ops t bytes) is_int)
    ∙ e
    ∙ ap (λ st. ok (record m { status = st })) (int_tag m.num_type is_int ∙ sym set)

-- In a state with the invariant of the blocks, let a block not be freed, and a defined int that fits its
-- type and carries the tag of it be written into the block. Where the write completes, a load of an
-- int from that offset gives this int, and changes nothing.
pub from_lvalue-write :
    (h : Host) (laws : ApIntLaws h.ops) (i offset : ℕ) (m : EmuNum) (s s' : State) (b : Block)
    → IsValid s.memory
    → s.memory.blocks i ≡ some b
    → is_freed b.memtype ≡ false
    → m.num_type ≡ NumType.int
    → Fits m
    → m.status ≡ defined
    → m.repr_type_id ≡ id_from_num_type m.num_type
    → write h (some i) (num m) offset s ≡ ok (tt, s')
    → (size : ℕ → Exec EmuVal)
    → from_lvalue h size (record { block = some i; type = builtin Kind.int; offset = offset }) s'
      ≡ ok (num m, s')
unfolding write on_memory write_in Block.write id_from_num_type
from_lvalue-write h laws i offset m s s' b v here live is_int fits set own e size =
    let (m', run, end) = with_memory-parts (write_in h i (num m) offset s.memory) s s' tt e in
    let (m1, wrote, last) =
      >>=-ok_parts (Block.write h.ops i (num m) offset s.memory) (λ x. ok (tt {0}, x)) run in
    let (b1, found, rest) = >>=-ok_parts (deref s.memory i) _ wrote in
    let (b', done, stored) =
      >>=-ok_parts (write_block h.ops (alive s.memory) b1 (num m) offset) _ rest in
    let same : b1 ≡ b = eq_of_some (sym (deref-some s.memory i b1 found) ∙ here) in
    let there = v.stored i b1 (deref-some s.memory i b1 found) in
    let w = write_block-Written h.ops (alive s.memory) b1 b' (num m) offset there.small done in
    let (bytes, had, value) =
      of_memory-write_block h.ops laws (alive s.memory) b1 b' m offset there.small there.sized fits
        set own done in
    let whole : record s { memory = put s.memory i (some b') } ≡ s' =
      ap (λ x. record s { memory = x })
        (ok-injective stored ∙ ap (λ (r : Unit {0} × Memory). r.1) (ok-injective last))
      ∙ end in
    let long : 4 ≤ length w.new = num-long h (alive s.memory) m w.new w.dumped in
    let full : length bytes ≡ b1.size =
      ap length (eq_of_some (sym had ∙ w.bytes))
      ∙ length-splice w.old offset w.new
      ∙ there.sized w.old w.had in
    let start : ltb b'.size offset ≡ false =
      ltb-false b'.size offset (omega (arith, w.inside, w.size)) in
    let left : ltb (sub_size b'.size offset) 4 ≡ false =
      rw w.size (enough b1.size offset (length w.new) there.small w.inside long) in
    let inside : leb offset (length bytes) ≡ true = ground (arith, full, w.inside) in
    subst
      (λ t.
        from_lvalue h size (record { block = some i; type = builtin Kind.int; offset = offset }) t
        ≡ ok (num m, t))
      whole
      (load_int h i offset m _ bytes b' (rw (==_self i)) (rw (w.memtype, same) live) had start left
        inside (as_int h m (drop offset bytes) is_int set value) size)
