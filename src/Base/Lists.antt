-- ===== src/Base/Lists.antt =====
-- Lists measured by native numbers, and the splice that a write into a byte array makes.
use Prim.Native.Nat.{ℕ, zero, suc, ◌+◌, ◌-◌, ◌≤◌, min}
use mathlib.Core.Path.{◌≡◌, refl, sym, ap, ◌∙◌}
use mathlib.Core.List.{List, [], ◌∷◌, ◌++◌}
use mathlib.Core.Option.{Option, none, some}
use native.Mathlib.Omega.{arith}

module _ {ℓ} {A : Type ℓ} where
  abbrev pub length : List A → ℕ
  length [] = 0
  length (x ∷ xs) = suc (length xs)

  abbrev pub get_elem? : List A → ℕ → Option A
  get_elem? [] i = none
  get_elem? (x ∷ xs) zero = some x
  get_elem? (x ∷ xs) (suc i) = get_elem? xs i

  abbrev pub take : ℕ → List A → List A
  take zero xs = []
  take (suc n) [] = []
  take (suc n) (x ∷ xs) = x ∷ take n xs

  abbrev pub drop : ℕ → List A → List A
  drop zero xs = xs
  drop (suc n) [] = []
  drop (suc n) (x ∷ xs) = drop n xs

  abbrev pub tabulate : ℕ → (ℕ → A) → List A
  tabulate zero f = []
  tabulate (suc n) f = f 0 ∷ tabulate n (λ i. f (suc i))

  -- `bs` stored over `xs` from position `o` on.
  abbrev pub splice : List A → ℕ → List A → List A
  splice xs zero [] = xs
  splice [] zero (b ∷ bs) = []
  splice (x ∷ xs) zero (b ∷ bs) = b ∷ splice xs zero bs
  splice [] (suc o) bs = []
  splice (x ∷ xs) (suc o) bs = x ∷ splice xs o bs

  -- `n` elements of `xs` from position `o` on.
  abbrev pub slice : ℕ → ℕ → List A → List A
  slice n o xs = take n (drop o xs)

module _ {ℓ} {A : Type ℓ} where
  pub length-append : (xs ys : List A) → length (xs ++ ys) ≡ length xs + length ys
  length-append [] ys = omega arith
  length-append (x ∷ xs) ys = omega (arith, length-append xs ys)

  pub length-tabulate : (n : ℕ) (f : ℕ → A) → length (tabulate n f) ≡ n
  length-tabulate zero f = refl
  length-tabulate (suc n) f = ap suc (length-tabulate n (λ i. f (suc i)))

  pub length-take : (n : ℕ) (xs : List A) → length (take n xs) ≡ min n (length xs)
  length-take zero xs = omega arith
  length-take (suc n) [] = omega arith
  length-take (suc n) (x ∷ xs) = omega (arith, length-take n xs)

  pub length-drop : (n : ℕ) (xs : List A) → length (drop n xs) ≡ length xs - n
  length-drop zero xs = omega arith
  length-drop (suc n) [] = omega arith
  length-drop (suc n) (x ∷ xs) = omega (arith, length-drop n xs)

  pub take-append-drop : (n : ℕ) (xs : List A) → take n xs ++ drop n xs ≡ xs
  take-append-drop zero xs = refl
  take-append-drop (suc n) [] = refl
  take-append-drop (suc n) (x ∷ xs) = ap (λ r. x ∷ r) (take-append-drop n xs)

  drop-nil : (n : ℕ) → drop {A = A} n [] ≡ []
  drop-nil zero = refl
  drop-nil (suc n) = refl

  pub drop-drop : (n m : ℕ) (xs : List A) → drop m (drop n xs) ≡ drop (n + m) xs
  drop-drop zero m xs = ap (λ k. drop k xs) (let e : m ≡ 0 + m = omega arith in e)
  drop-drop (suc n) m [] = drop-nil m ∙ sym (drop-nil (suc n + m))
  drop-drop (suc n) m (x ∷ xs) =
      drop-drop n m xs
      ∙ ap (λ k. drop k (x ∷ xs)) (let e : suc (n + m) ≡ suc n + m = omega arith in e)

  pub take-length : (xs : List A) → take (length xs) xs ≡ xs
  take-length [] = refl
  take-length (x ∷ xs) = ap (λ r. x ∷ r) (take-length xs)

  pub length-splice : (xs : List A) (o : ℕ) (bs : List A) → length (splice xs o bs) ≡ length xs
  length-splice xs zero [] = refl
  length-splice [] zero (b ∷ bs) = refl
  length-splice (x ∷ xs) zero (b ∷ bs) = ap suc (length-splice xs zero bs)
  length-splice [] (suc o) bs = refl
  length-splice (x ∷ xs) (suc o) bs = ap suc (length-splice xs o bs)

  take-splice-zero :
      (xs bs : List A) → length bs ≤ length xs → take (length bs) (splice xs zero bs) ≡ bs
  take-splice-zero xs [] h = refl
  take-splice-zero [] (b ∷ bs) h = elim h [ ]
  take-splice-zero (x ∷ xs) (b ∷ bs) h = ap (λ r. b ∷ r) (take-splice-zero xs bs (omega arith))

  splice-zero :
      (xs bs : List A) → length bs ≤ length xs → splice xs zero bs ≡ bs ++ drop (length bs) xs
  splice-zero xs [] h = refl
  splice-zero [] (b ∷ bs) h = elim h [ ]
  splice-zero (x ∷ xs) (b ∷ bs) h = ap (λ r. b ∷ r) (splice-zero xs bs (omega arith))

  -- What follows the place of the write: the stored bytes, and behind them the old ones.
  pub drop-splice_self :
      (xs : List A) (o : ℕ) (bs : List A)
      → o + length bs ≤ length xs
      → drop o (splice xs o bs) ≡ bs ++ drop (length bs) (drop o xs)
  drop-splice_self xs zero bs h = splice-zero xs bs (omega arith)
  drop-splice_self [] (suc o) bs h = absurd (omega arith)
  drop-splice_self (x ∷ xs) (suc o) bs h = drop-splice_self xs o bs (omega arith)

  -- What was stored is read back.
  pub slice-splice_self :
      (xs : List A) (o : ℕ) (bs : List A)
      → o + length bs ≤ length xs
      → slice (length bs) o (splice xs o bs) ≡ bs
  slice-splice_self xs zero bs h = take-splice-zero xs bs (omega arith)
  slice-splice_self [] (suc o) bs h = absurd (omega arith)
  slice-splice_self (x ∷ xs) (suc o) bs h = slice-splice_self xs o bs (omega arith)

  drop-splice-zero :
      (xs bs : List A) (p : ℕ) → length bs ≤ p → drop p (splice xs zero bs) ≡ drop p xs
  drop-splice-zero xs [] p h = refl
  drop-splice-zero [] (b ∷ bs) p h = refl
  drop-splice-zero (x ∷ xs) (b ∷ bs) zero h = elim h [ ]
  drop-splice-zero (x ∷ xs) (b ∷ bs) (suc p) h = drop-splice-zero xs bs p (omega arith)

  -- What lies behind the stored bytes is as it was.
  pub drop-splice_above :
      (xs : List A) (o : ℕ) (bs : List A) (p : ℕ)
      → o + length bs ≤ p
      → drop p (splice xs o bs) ≡ drop p xs
  drop-splice_above xs zero bs p h = drop-splice-zero xs bs p (omega arith)
  drop-splice_above [] (suc o) bs p h = refl
  drop-splice_above (x ∷ xs) (suc o) bs zero h = absurd (omega arith)
  drop-splice_above (x ∷ xs) (suc o) bs (suc p) h = drop-splice_above xs o bs p (omega arith)

  -- What lies in front of them is as it was.
  pub slice-splice_below :
      (xs : List A) (o : ℕ) (bs : List A) (n p : ℕ)
      → p + n ≤ o
      → slice n p (splice xs o bs) ≡ slice n p xs
  slice-splice_below xs zero bs zero p h = refl
  slice-splice_below xs zero bs (suc n) p h = absurd (omega arith)
  slice-splice_below [] (suc o) bs n p h = refl
  slice-splice_below (x ∷ xs) (suc o) bs zero zero h = refl
  slice-splice_below (x ∷ xs) (suc o) bs (suc n) zero h =
      ap (λ r. x ∷ r) (slice-splice_below xs o bs n zero (omega arith))
  slice-splice_below (x ∷ xs) (suc o) bs n (suc p) h = slice-splice_below xs o bs n p (omega arith)
