-- ===== src/Mem/Stack/Pop.antt =====
-- pop_stack_frame: the map of names agrees with the frames that are left.
use Prim.Native.String.{String}
use text.Mathlib.Text.{◌==◌ as str_eq}
use text.Mathlib.TextEquality.{eq_iff}
use text.Mathlib.TextPositions.{eq_refl}
use ctutor.Base.{
  ℕ, zero, suc, ◌≤◌, ◌<◌, ◌≡◌, refl, sym, ap, ap₂, ◌∙◌, inl, inr, true, false, Option, List, [],
  ◌∷◌, ◌++◌, length, length-append, drop, arith, if◌then◌else◌, Bool-cases,
}
use ctutor.Outcome.{Outcome, ok, exits, undefined, out_of_fuel, ◌>>=◌}
use ctutor.Mem.Block.{Memory}
use ctutor.Mem.Stack.{
  Lvalue, Frame, Position, Scopes, assign, popped, free_block, pop_vars, pop_stack_frame,
}
use ctutor.Mem.Stack.Scope.{frame_positions, positions, positions-frame, entry, Agrees}

popped-entry : (p : Position) (ps : List Position) → popped (entry (p ∷ ps)) ≡ ok (entry ps)
unfolding popped
popped-entry p [] = refl
popped-entry p (q ∷ ps) = refl

drop-append : (xs ys : List Position) → drop (length xs) (xs ++ ys) ≡ ys
drop-append [] ys = refl
drop-append (x ∷ xs) ys = drop-append xs ys

drop-next :
    (n : ℕ) (xs : List Position)
    → n < length xs
    → (p : Position) × (drop n xs ≡ p ∷ drop (suc n) xs)
drop-next n [] h = absurd (omega arith)
drop-next zero (x ∷ xs) h = (x, refl)
drop-next (suc n) (x ∷ xs) h = drop-next n xs (omega arith)

-- The frees of pop_stack_frame.
unfoldable pub free_all : Frame → Memory → Outcome Memory
free_all [] m = ok m
free_all ((name, loc) ∷ vs) m = free_all vs m >>= λ m'. free_block loc.block m'

-- The number of variables of a frame that have a name.
unfoldable pub times : String → Frame → ℕ
times name [] = 0
times name ((k, loc) ∷ vs) = let rest = times name vs in if str_eq k name then suc rest else rest

length-frame_positions :
    (name : String) (n : ℕ) (vs : Frame) → length (frame_positions name n vs) ≡ times name vs
unfolding frame_positions times
length-frame_positions name n [] = refl
length-frame_positions name n ((k, loc) ∷ vs) = elim (Bool-cases (str_eq k name)) [
  | inl same ↦ rw same (ap suc (length-frame_positions name n vs))
  | inr other ↦ rw other (length-frame_positions name n vs)
]

abbrev Names : Type 0
Names = String → Option (List Position)

-- A round of the loop: one variable, from the map and the memory that the rounds before it left.
abbrev forget : String → Lvalue → Names × Memory → Outcome (Names × Memory)
forget name loc (h, m) =
    popped (h name) >>= λ e. free_block loc.block m >>= λ m'. ok (assign h name e, m')

abbrev with_map : Names → Outcome Memory → Outcome (Names × Memory)
with_map g r = r >>= λ m. ok (g, m)

pop_one :
    (g : Names) (name : String) (loc : Lvalue) (e : Option (List Position)) (r : Outcome Memory)
    → popped (g name) ≡ ok e
    → (with_map g r >>= forget name loc)
      ≡ with_map (assign g name e) (r >>= λ m'. free_block loc.block m')
pop_one g name loc e (ok m) h = rw h
pop_one g name loc e (exits err) h = refl
pop_one g name loc e undefined h = refl
pop_one g name loc e out_of_fuel h = refl

times-same :
    (k j : String) (loc : Lvalue) (vs : Frame)
    → str_eq k j ≡ true
    → times j ((k, loc) ∷ vs) ≡ suc (times j vs)
unfolding times
times-same k j loc vs e = rw e

times-other :
    (k j : String) (loc : Lvalue) (vs : Frame)
    → str_eq k j ≡ false
    → times j ((k, loc) ∷ vs) ≡ times j vs
unfolding times
times-other k j loc vs e = rw e

times-later : (k j : String) (loc : Lvalue) (vs : Frame) → times j vs ≤ times j ((k, loc) ∷ vs)
times-later k j loc vs = elim (Bool-cases (str_eq k j)) [
  | inl same ↦ omega (arith, times-same k j loc vs same)
  | inr other ↦ omega (arith, times-other k j loc vs other)
]

-- The loop of pop_stack_frame takes as many positions from a name as the frame declares.
pop_vars-drop :
    (vs : Frame) (g : Names) (xs : String → List Position) (m : Memory)
    → ((j : String) → g j ≡ entry (xs j))
    → ((j : String) → times j vs ≤ length (xs j))
    → (g' : Names) × (pop_vars vs g m ≡ (free_all vs m >>= λ m'. ok (g', m')))
      × ((j : String) → g' j ≡ entry (drop (times j vs) (xs j)))
unfolding pop_vars free_all times
pop_vars-drop [] g xs m a le = (g, refl, a)
pop_vars-drop ((name, loc) ∷ vs) g xs m a le =
    let (g1, run, left) =
      pop_vars-drop vs g xs m a (λ j. omega (arith, times-later name j loc vs, le j)) in
    let c = times name vs in
    let more : c < length (xs name) =
      omega (arith, times-same name name loc vs (eq_refl name), le name) in
    let (p, next) = drop-next c (xs name) more in
    let rest = entry (drop (suc c) (xs name)) in
    let found : popped (g1 name) ≡ ok rest =
      ap popped (left name ∙ ap entry next) ∙ popped-entry p (drop (suc c) (xs name)) in
    (
      assign g1 name rest,
      ap (λ r. r >>= forget name loc) run ∙ pop_one g1 name loc rest (free_all vs m) found,
      λ j. elim (Bool-cases (str_eq name j)) [
        | inl same ↦
            rw same (ap (λ k. entry (drop (suc (times k vs)) (xs k))) ((eq_iff name j).0 same))
        | inr other ↦ rw other (left j)
      ],
    )

abbrev left_with : List Frame → Names × Memory → Scopes × Memory
left_with fs (g, m) = (record { stack_vars = fs; stack_var_map = g }, m)

pop_rest :
    (g : Names) (fs : List Frame) (r : Outcome Memory)
    → (with_map g r >>= λ x. ok (left_with fs x))
      ≡ (r >>= λ m. ok (record { stack_vars = fs; stack_var_map = g }, m))
pop_rest g fs (ok m) = refl
pop_rest g fs (exits err) = refl
pop_rest g fs undefined = refl
pop_rest g fs out_of_fuel = refl

-- Popping the newest frame of scopes whose map agrees with the frames: the variables of that
-- frame are gone from frames and map, which agree again, and their blocks are freed from the first
-- one declared on. Its outcome is that of the frees: nothing else about it is undefined.
pub pop_stack_frame-Agrees :
    (s : Scopes) (f : Frame) (fs : List Frame) (m : Memory)
    → s.stack_vars ≡ f ∷ fs
    → Agrees s
    → (s' : Scopes) × (pop_stack_frame s m ≡ (free_all f m >>= λ m'. ok (s', m')))
      × (s'.stack_vars ≡ fs)
      × Agrees s'
unfolding pop_stack_frame
pop_stack_frame-Agrees s f fs m e a =
    let xs : String → List Position = λ j. positions j (f ∷ fs) in
    let own : (j : String) → xs j ≡ frame_positions j (length fs) f ++ positions j fs =
      λ j. positions-frame j f fs in
    let count : (j : String) → length (frame_positions j (length fs) f) ≡ times j f =
      λ j. length-frame_positions j (length fs) f in
    let (g, run, left) =
      pop_vars-drop f s.stack_var_map xs m (λ j. a j ∙ ap (λ v. entry (positions j v)) e)
        (λ j. omega (
          arith,
          ap length (own j),
          count j,
          length-append (frame_positions j (length fs) f) (positions j fs),
        )) in
    let s' : Scopes = record { stack_vars = fs; stack_var_map = g } in
    (
      s',
      rw e (ap (λ r. r >>= λ x. ok (left_with fs x)) run ∙ pop_rest g fs (free_all f m)),
      refl,
      λ j.
          left j
          ∙ ap entry (
              ap₂ drop (sym (count j)) (own j)
              ∙ drop-append (frame_positions j (length fs) f) (positions j fs)),
    )
