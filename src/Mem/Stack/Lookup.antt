-- ===== src/Mem/Stack/Lookup.antt =====
-- The lookup of a name in eval_lexpr: a name stands for its newest declaration.
use Prim.Native.String.{String}
use text.Mathlib.Text.{◌==◌ as str_eq}
use ctutor.Base.{
  ℕ, ◌<◌, ◌≡◌, refl, ap, ◌∙◌, subst, ◌⊎◌, inl, inr, false, Option, none, some, List, [], ◌∷◌, ◌++◌,
  length, arith, ◌==◌, if◌then◌else◌, Bool-cases, ==_self, ==_cases,
}
use ctutor.Outcome.{ok}
use ctutor.Mem.Stack.{Lvalue, Frame, Position, Scopes, at, var_at, find_stack_var}
use ctutor.Mem.Stack.Scope.{frame_positions, positions, entry, Agrees}

-- The newest declaration of a name: in the newest frame that has one, the last one there.
unfoldable pub newest_in : String → Frame → Option Lvalue
newest_in name [] = none
newest_in name ((k, loc) ∷ vs) =
    let rest = newest_in name vs in if str_eq k name then some loc else rest

abbrev or_else {ℓ} : {A : Type ℓ} → Option A → Option A → Option A
or_else none y = y
or_else (some x) y = some x

unfoldable pub newest : String → List Frame → Option Lvalue
unfolding newest_in
newest name [] = none
newest name (f ∷ fs) = or_else (newest_in name f) (newest name fs)

at-lt {ℓ} : {A : Type ℓ} (xs : List A) (i : ℕ) (y : A) → at xs i ≡ some y → i < length xs
unfolding at
at-lt [] i y e = cc
at-lt (x ∷ xs) i y e = elim (==_cases i (length xs)) [
  | inl (_, last) ↦ omega arith
  | inr (before, _) ↦
      let found : at xs i ≡ some y =
        subst (λ b. (if b then some x else at xs i) ≡ some y) before e in
      omega (arith, at-lt xs i y found)
]

-- An element keeps its number when another is pushed.
at-pushed {ℓ} :
    {A : Type ℓ} (x : A) (xs : List A) (i : ℕ) (y : A) → at xs i ≡ some y → at (x ∷ xs) i ≡ some y
unfolding at
at-pushed x xs i y e =
    let other : (i == length xs) ≡ false = ground (arith, at-lt xs i y e) in rw other e

at-last {ℓ} : {A : Type ℓ} (x : A) (xs : List A) → at (x ∷ xs) (length xs) ≡ some x
unfolding at
at-last x xs = rw (==_self (length xs))

-- A name that a frame does not declare has no position there; of one that it declares the first
-- position is that of the newest declaration.
frame-newest :
    (name : String) (n : ℕ) (vs : Frame)
    → ((frame_positions name n vs ≡ []) × (newest_in name vs ≡ none))
      ⊎ ((i : ℕ) × (ps : List Position) × (k : String) × (loc : Lvalue) × (frame_positions name n vs
            ≡ (n, i) ∷ ps)
          × (at vs i ≡ some (k, loc))
          × (newest_in name vs ≡ some loc))
unfolding frame_positions newest_in
frame-newest name n [] = inl (refl, refl)
frame-newest name n ((k, loc) ∷ vs) = elim (Bool-cases (str_eq k name)) [
  | inl same ↦
      inr (length vs, frame_positions name n vs, k, loc, rw same, at-last (k, loc) vs, rw same)
  | inr other ↦ elim (frame-newest name n vs) [
    | inl (nowhere, unknown) ↦ inl (rw other nowhere, rw other unknown)
    | inr (i, ps, j, found, first, there, new) ↦
        inr
          (i, ps, j, found, rw other first, at-pushed (k, loc) vs i (j, found) there, rw other new)
  ]
]

-- The same for all frames.
frames-newest :
    (name : String) (fs : List Frame)
    → ((positions name fs ≡ []) × (newest name fs ≡ none))
      ⊎ ((n i : ℕ) × (ps : List Position) × (f : Frame) × (k : String) × (loc : Lvalue) × (positions
              name fs
            ≡ (n, i) ∷ ps)
          × (at fs n ≡ some f)
          × (at f i ≡ some (k, loc))
          × (newest name fs ≡ some loc))
unfolding positions newest
frames-newest name [] = inl (refl, refl)
frames-newest name (f ∷ fs) = elim (frame-newest name (length fs) f) [
  | inr (i, ps, k, loc, first, there, new) ↦ inr (
    length fs,
    i,
    ps ++ positions name fs,
    f,
    k,
    loc,
    ap (λ l. l ++ positions name fs) first,
    at-last f fs,
    there,
    ap (λ o. or_else o (newest name fs)) new,
  )
  | inl (nowhere, unknown) ↦ elim (frames-newest name fs) [
    | inl (none_below, new) ↦ inl (rw nowhere none_below, rw unknown new)
    | inr (n, i, ps, g, k, loc, first, frame, there, new) ↦
        inr (n, i, ps, g, k, loc, rw nowhere first, at-pushed f fs n g frame, there, rw unknown new)
  ]
]

-- Where the map agrees with the frames the lookup of a name is never out of range: it finds the
-- newest declaration of the name, and nothing where no frame declares it.
pub find_stack_var-newest :
    (name : String) (s : Scopes) → Agrees s → find_stack_var name s ≡ ok (newest name s.stack_vars)
unfolding find_stack_var newest var_at
find_stack_var-newest name s a = elim (frames-newest name s.stack_vars) [
  | inl (nowhere, new) ↦ rw (a name ∙ ap entry nowhere, new, find_stack_var)
  | inr (n, i, ps, f, k, loc, first, frame, there, new) ↦
      rw (a name ∙ ap entry first, new, find_stack_var) (rw (frame, there, var_at))
]
