-- ===== src/Exec/Frames/Instance.antt =====
-- To leave the state as it is, apart from the memory and new variables in the newest frame, is a logic
-- of commands.
use Prim.Native.String.{String}
use ctutor.Base.{ℕ, ◌≡◌, refl, sym, ap, subst, ◌∙◌, Option, none, some, List, [], ◌++◌}
use ctutor.Outcome.{Outcome, ok, exits, undefined, out_of_fuel, ok-injective}
use ctutor.Types.EmuVal.{EmuVal}
use ctutor.Mem.Block.{Memory}
use ctutor.Mem.Stack.{Lvalue, Scopes, add_stack_frame, pop_stack_frame}
use ctutor.Exec.{
  State, Host, Exec, pure, asks, push_frame, pop_frame, declare, set_source, in_frame, in_source,
  with_both,
}
use ctutor.Exec.Blocks.{store_bytes, alloc, alloc_with, write}
use ctutor.Exec.Logic.{Logic, Mode, loud}
use ctutor.Exec.Frames.{
  onto, Grown, Grown-same, Within, Framed, Framed-pure, Framed-lift, Framed-asks, Framed-raise,
  Framed-no_fuel, Framed-memory, Framed-bind, bind_parts, declare-Within, pop-frames,
}

pub write-Framed :
    (h : Host) (q : Mode) (b : Option ℕ) (v : EmuVal) (n : ℕ) → Framed q (write h b v n)
unfolding write
write-Framed h q none v n = Framed-asks q _
write-Framed h q (some i) v n = Framed-memory q _

pub store-Framed :
    (q : Mode) (b : Option ℕ) (n : ℕ) (bytes : List ℕ) → Framed q (store_bytes b n bytes)
unfolding store_bytes
store-Framed q none n bytes = Framed-asks q _
store-Framed q (some i) n bytes = Framed-memory q _

pub declare-Framed : (name : String) (l : Lvalue) → Framed loud (declare name l)
declare-Framed name l = record {
  at = λ s s' a. declare-Within name l s s' s.scopes.stack_vars refl;
}

both_parts :
    (r : Outcome (Scopes × Memory)) (s s' : State)
    → with_both r s ≡ ok (tt, s')
    → (c : Scopes) × (m : Memory) × (r ≡ ok (c, m)) × (record s { scopes = c; memory = m } ≡ s')
both_parts (ok (c, m)) s s' e = (c, m, refl, ap (λ (x : Unit {0} × State). x.1) (ok-injective e))
both_parts (exits x) s s' e = cc
both_parts undefined s s' e = cc
both_parts out_of_fuel s s' e = cc

-- After add_stack_frame and a command that only adds to the newest frame, the frame is taken off.
scoped-Within :
    (q : Mode) (s s1 s2 : State)
    → Within loud (record s { scopes = add_stack_frame s.scopes }) s1
    → pop_frame s1 ≡ ok (tt, s2)
    → Within q s s2
unfolding add_stack_frame onto Grown pop_frame
scoped-Within q s s1 s2 w e =
    let (c, m, popped, left) = both_parts (pop_stack_frame s1.scopes s1.memory) s1 s2 e in
    let (new, grown) = w.frames in
    let back : c.stack_vars ≡ s.scopes.stack_vars =
      pop-frames s1.scopes c s1.memory m (new ++ []) s.scopes.stack_vars grown popped in
    subst (Within q s) left (record {
      same = ap (λ (x : State). record x { memory = m; scopes = c }) w.same;
      frames = subst (Grown q s.scopes.stack_vars) (sym back) (Grown-same q s.scopes.stack_vars);
    })

pub in_frame-Framed : (q : Mode) {A : Type 0} (m : Exec A) → Framed loud m → Framed q (in_frame m)
unfolding in_frame push_frame pure
in_frame-Framed q {A = A} m w = record {
  at = λ s s' a e.
      let (_, s1, pushed, e1) = bind_parts push_frame _ s s' a e in
      let (b, s2, ran, e2) = bind_parts m _ s1 s' a e1 in
      let (_, s3, popped, e3) = bind_parts pop_frame _ s2 s' a e2 in
      let entered : Within loud (record s { scopes = add_stack_frame s.scopes }) s2 =
        subst (λ x. Within loud x s2)
          (ap (λ (r : Unit {0} × State). r.1) (ok-injective (sym pushed))) (w.at s1 s2 b ran) in
      subst (Within q s) (ap (λ (r : A × State). r.1) (ok-injective e3))
        (scoped-Within q s s2 s3 entered popped);
}

restored-Within :
    (q : Mode) (s s1 : State) (source : ℕ)
    → Within q (record s { curr_source = source }) s1
    → Within q s (record s1 { curr_source = s.curr_source })
restored-Within q s s1 source w = record {
  same = ap (λ (x : State). record x { curr_source = s.curr_source }) w.same;
  frames = w.frames;
}

pub in_source-Framed :
    (q : Mode) {A : Type 0} (source : ℕ) (m : Exec A) → Framed q m → Framed q (in_source source m)
unfolding in_source set_source asks pure
in_source-Framed q {A = A} source m w = record {
  at = λ s s' a e.
      let (save, s1, saved, e1) = bind_parts (asks (λ x. ok x.curr_source)) _ s s' a e in
      let (_, s2, moved, e2) = bind_parts (set_source source) _ s1 s' a e1 in
      let (b, s3, ran, e3) = bind_parts m _ s2 s' a e2 in
      let (_, s4, back, e4) = bind_parts (set_source save) _ s3 s' a e3 in
      let kept : (s.curr_source, s) ≡ (save, s1) = ok-injective saved in
      let entered : record s { curr_source = source } ≡ s2 =
        ap (λ (r : ℕ × State). record r.1 { curr_source = source }) kept
        ∙ ap (λ (r : Unit {0} × State). r.1) (ok-injective moved) in
      let left : record s3 { curr_source = s.curr_source } ≡ s' =
        ap (λ (r : ℕ × State). record s3 { curr_source = r.0 }) kept
        ∙ ap (λ (r : Unit {0} × State). r.1) (ok-injective back)
        ∙ ap (λ (r : A × State). r.1) (ok-injective e4) in
      subst (Within q s) left (
        restored-Within q s s3 source
          (subst (λ x. Within q x s3) (sym entered) (w.at s2 s3 b ran)));
}

-- The commands that keep to their frame; nothing is said of the command with more fuel.
unfoldable pub frames_logic : (h : Host) → Logic h
unfolding alloc alloc_with
frames_logic h = record {
  Rel = λ q m m'. Framed q m;
  of_pure = λ q a. Framed-pure q a;
  of_raise = λ q e. Framed-raise q e;
  of_no_fuel = λ q m. Framed-no_fuel q;
  of_lift = λ q r. Framed-lift q r;
  of_asks = λ q f. Framed-asks q f;
  of_bind = λ q m m' f f' w v. Framed-bind q m f w v;
  of_alloc = λ q t n. Framed-memory q _;
  of_alloc_with = λ q t v. Framed-memory q _;
  of_write = λ q b v n. write-Framed h q b v n;
  of_store = λ q b n bytes. store-Framed q b n bytes;
  of_delete = λ q b. Framed-memory q _;
  of_declare = λ name l. declare-Framed name l;
  of_in_frame = λ q m m' w. in_frame-Framed q m w;
  of_in_source = λ q source m m' w. in_source-Framed q source m w;
}
