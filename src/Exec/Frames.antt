-- ===== src/Exec/Frames.antt =====
-- What a command leaves of the state apart from the memory: at most new variables in the newest frame.
pub mod Instance
use Prim.Native.String.{String}
use ctutor.Base.{
  ℕ, Bool, ◌≡◌, refl, sym, ap, subst, ◌∙◌, Option, none, some, List, [], ◌∷◌, ◌++◌, append_assoc,
}
use ctutor.Outcome.{
  Outcome, ok, exits, undefined, out_of_fuel, Error, ◌>>=◌ as ◌|>◌, >>=-ok_parts, ok-injective,
}
use ctutor.Mem.Block.{Memory}
use ctutor.Mem.Stack.{
  Lvalue, Frame, Scopes, add_stack_frame, add_stack_var, pop_vars, pop_stack_frame,
}
use ctutor.Exec.{
  State, Host, Exec, pure, raise, no_fuel, asks, lift, on_memory, push_frame, pop_frame, declare,
  set_source, in_frame, in_source, ◌>>=◌, returned, with_memory, with_both, with_scopes, continue,
}
use ctutor.Exec.Blocks.{delete_in, store_bytes, store_in, alloc, alloc_with, write, write_in}
use ctutor.Exec.Logic.{Logic, Mode, quiet, loud}

-- New variables in the newest frame, the newest first.
unfoldable pub onto : Frame → List Frame → List Frame
onto new [] = []
onto new (f ∷ fs) = (new ++ f) ∷ fs

-- What a command of a mode may do to the frames.
unfoldable pub Grown : Mode → List Frame → List Frame → Type 0
Grown quiet old new = new ≡ old
Grown loud old new = (vars : Frame) × (new ≡ onto vars old)

-- A state after a command: the memory may be another, and the frames may be grown.
pub record Within (q : Mode) (s s' : State) : Type 0 where
  pub same : s' ≡ record s { memory = s'.memory; scopes = s'.scopes }
  pub frames : Grown q s.scopes.stack_vars s'.scopes.stack_vars

pub record Framed (q : Mode) {A : Type 0} (m : Exec A) : Type 0 where
  pub at : (s s' : State) (a : A) → m s ≡ ok (a, s') → Within q s s'

pub Grown-same : (q : Mode) (fs : List Frame) → Grown q fs fs
unfolding Grown onto
Grown-same quiet fs = refl
Grown-same loud [] = ([], refl)
Grown-same loud (f ∷ fs) = ([], refl)

onto-onto : (new old : Frame) (fs : List Frame) → onto new (onto old fs) ≡ onto (new ++ old) fs
unfolding onto
onto-onto new old [] = refl
onto-onto new old (f ∷ fs) = ap (λ v. v ∷ fs) (sym (append_assoc new old f))

Grown-trans : (q : Mode) (fs gs hs : List Frame) → Grown q fs gs → Grown q gs hs → Grown q fs hs
unfolding Grown
Grown-trans quiet fs gs hs e d = d ∙ e
Grown-trans loud fs gs hs (new, e) (newer, d) =
    (newer ++ new, d ∙ ap (onto newer) e ∙ onto-onto newer new fs)

Within-memory : (q : Mode) (s : State) (m : Memory) → Within q s (record s { memory = m })
Within-memory q s m = record { same = refl; frames = Grown-same q s.scopes.stack_vars }

pub Within-trans : (q : Mode) (s s' s'' : State) → Within q s s' → Within q s' s'' → Within q s s''
Within-trans q s s' s'' w v = record {
  same = v.same ∙ ap (λ (x : State). record x { memory = s''.memory; scopes = s''.scopes }) w.same;
  frames = Grown-trans q _ _ _ w.frames v.frames;
}

module _ {A : Type 0} where
  returned-Within :
      (q : Mode) (r : Outcome A) (s s' : State) (a : A) → returned r s ≡ ok (a, s') → Within q s s'
  returned-Within q (ok b) s s' a e =
      subst (Within q s) (ap (λ (x : A × State). x.1) (ok-injective e)) (Within-memory q s s.memory)
  returned-Within q (exits x) s s' a e = cc
  returned-Within q undefined s s' a e = cc
  returned-Within q out_of_fuel s s' a e = cc

  with_memory-Within :
      (q : Mode) (r : Outcome (A × Memory)) (s s' : State) (a : A)
      → with_memory r s ≡ ok (a, s')
      → Within q s s'
  with_memory-Within q (ok (b, m)) s s' a e =
      subst (Within q s) (ap (λ (x : A × State). x.1) (ok-injective e)) (Within-memory q s m)
  with_memory-Within q (exits x) s s' a e = cc
  with_memory-Within q undefined s s' a e = cc
  with_memory-Within q out_of_fuel s s' a e = cc

  pub Framed-pure : (q : Mode) (a : A) → Framed q (pure a)
  unfolding pure
  Framed-pure q a = record { at = λ s s' b. returned-Within q (ok a) s s' b }

  pub Framed-lift : (q : Mode) (r : Outcome A) → Framed q (lift r)
  unfolding lift
  Framed-lift q r = record { at = returned-Within q r }

  pub Framed-asks : (q : Mode) (f : State → Outcome A) → Framed q (asks f)
  unfolding asks
  Framed-asks q f = record { at = λ s. returned-Within q (f s) s }

  pub Framed-raise : (q : Mode) (e : Error) → Framed q (raise {A = A} e)
  unfolding raise
  Framed-raise q e = record { at = λ s s' a h. cc }

  pub Framed-no_fuel : (q : Mode) → Framed q (no_fuel {A = A})
  unfolding no_fuel
  Framed-no_fuel q = record { at = λ s s' a h. cc }

  pub Framed-memory : (q : Mode) (f : Memory → Outcome (A × Memory)) → Framed q (on_memory f)
  unfolding on_memory
  Framed-memory q f = record { at = λ s. with_memory-Within q (f s.memory) s }

parts_of :
    {A B : Type 0} (r : Outcome (A × State)) (f : A → Exec B) (s' : State) (b : B)
    → continue r f ≡ ok (b, s')
    → (a : A) × (s1 : State) × (r ≡ ok (a, s1)) × (f a s1 ≡ ok (b, s'))
parts_of (ok (a, s1)) f s' b e = (a, s1, refl, e)
parts_of (exits x) f s' b e = cc
parts_of undefined f s' b e = cc
parts_of out_of_fuel f s' b e = cc

-- A block of two commands that gives a result: the first one gives a result, and so does the second.
pub bind_parts :
    {A B : Type 0} (m : Exec A) (f : A → Exec B) (s s' : State) (b : B)
    → (m >>= f) s ≡ ok (b, s')
    → (a : A) × (s1 : State) × (m s ≡ ok (a, s1)) × (f a s1 ≡ ok (b, s'))
unfolding ◌>>=◌
bind_parts m f s s' b e = parts_of (m s) f s' b e

pub Framed-bind :
    (q : Mode) {A B : Type 0} (m : Exec A) (f : A → Exec B)
    → Framed q m
    → ((a : A) → Framed q (f a))
    → Framed q (m >>= f)
Framed-bind q m f w v = record {
  at = λ s s' b e.
      let (a, s1, first, second) = bind_parts m f s s' b e in
      Within-trans q s s1 s' (w.at s s1 a first) ((v a).at s1 s' b second);
}

-- A declaration puts a variable into the newest frame; there is no frame to put it in otherwise.
pub declare-Within :
    (name : String) (l : Lvalue) (s s' : State) (fs : List Frame)
    → s.scopes.stack_vars ≡ fs
    → declare name l s ≡ ok (tt, s')
    → Within loud s s'
unfolding declare add_stack_var Grown onto
declare-Within name l s s' [] e h = cc (rw e at h)
declare-Within name l s s' (f ∷ fs) e h =
    subst (Within loud s) (ap (λ (x : Unit {0} × State). x.1) (ok-injective (rw e at h)))
      (record { same = refl; frames = ((name, l) ∷ [], rw e refl) })

-- What pop_stack_frame leaves of the frames.
pub pop-frames :
    (c c' : Scopes) (m m' : Memory) (f : Frame) (fs : List Frame)
    → c.stack_vars ≡ f ∷ fs
    → pop_stack_frame c m ≡ ok (c', m')
    → c'.stack_vars ≡ fs
unfolding pop_stack_frame
pop-frames c c' m m' f fs e h =
    let ((g, m1), done, last) = >>=-ok_parts (pop_vars f c.stack_var_map m) _ (rw e at h) in
    ap (λ (x : Scopes × Memory). x.0.stack_vars) (sym (ok-injective last))
