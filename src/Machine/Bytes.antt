-- ===== src/Machine/Bytes.antt =====
-- The bytes of the objects that the interpreter stores in its blocks. A uint32_t, an int and a
-- size_t of the host lie in little-endian order; a size_t has 64 bits.
use ctutor.Base.{
  ℕ, zero, suc, ◌+◌, ◌*◌, ◌/◌, ◌%◌, ◌^◌, ◌<◌, ◌≡◌, refl, ap, sym, ◌∙◌, Option, none, some, List, [],
  ◌∷◌, ◌++◌, arith, true, take, drop, length, length-append, length-take, ◌≤◌, leb, if◌then◌else◌,
}
use mathlib.Core.List.{append-nil}

-- The `n` bytes of a host integer, lowest first.
unfoldable pub le_bytes : ℕ → ℕ → List ℕ
le_bytes zero x = []
le_bytes (suc n) x = (x % 256) ∷ le_bytes n (x / 256)

unfoldable pub le_value : List ℕ → ℕ
le_value [] = 0
le_value (b ∷ bs) = b + 256 * le_value bs

abbrev pub IsBytes : List ℕ → Type 0
IsBytes [] = Unit
IsBytes (b ∷ bs) = (b < 256) × IsBytes bs

pub length-le_bytes : (n x : ℕ) → length (le_bytes n x) ≡ n
unfolding le_bytes
length-le_bytes zero x = refl
length-le_bytes (suc n) x = ap suc (length-le_bytes n (x / 256))

pub le_bytes-IsBytes : (n x : ℕ) → IsBytes (le_bytes n x)
unfolding le_bytes
le_bytes-IsBytes zero x = tt
le_bytes-IsBytes (suc n) x = (omega arith, le_bytes-IsBytes n (x / 256))

-- Four and eight bytes hold a uint32_t and a size_t.
pub le_value-le_bytes_four : (x : ℕ) → x < 2 ^ 32 → le_value (le_bytes 4 x) ≡ x
unfolding le_value le_bytes
le_value-le_bytes_four x h = omega arith

pub le_value-le_bytes_eight : (x : ℕ) → x < 2 ^ 64 → le_value (le_bytes 8 x) ≡ x
unfolding le_value le_bytes
le_value-le_bytes_eight x h = omega arith

-- The other way round, which a copy of a stored object needs.
pub le_bytes-le_value : (bs : List ℕ) → IsBytes bs → le_bytes (length bs) (le_value bs) ≡ bs
unfolding le_value le_bytes
le_bytes-le_value [] h = refl
le_bytes-le_value (b ∷ bs) h =
    let low : (b + 256 * le_value bs) % 256 ≡ b = omega arith in
    let high : (b + 256 * le_value bs) / 256 ≡ le_value bs = omega arith in
    rw (low, high, le_bytes-le_value bs h.1)

-- The first `n` bytes; `none` where the object ends before them.
unfoldable pub read : ℕ → List ℕ → Option (List ℕ)
read n bs = if leb n (length bs) then some (take n bs) else none

take-append : (xs ys : List ℕ) → take (length xs) (xs ++ ys) ≡ xs
take-append [] ys = refl
take-append (x ∷ xs) ys = ap (λ r. x ∷ r) (take-append xs ys)

-- An object is read from the bytes that begin with it.
pub read-append : (n : ℕ) (xs ys : List ℕ) → length xs ≡ n → read n (xs ++ ys) ≡ some xs
unfolding read
read-append n xs ys e =
    let fits : leb n (length (xs ++ ys)) ≡ true = ground (arith, length-append xs ys) in
    rw (fits, ← e, take-append)

pub read-length : (xs : List ℕ) → read (length xs) xs ≡ some xs
read-length xs = ap (read (length xs)) (sym (append-nil xs)) ∙ read-append (length xs) xs [] refl

pub IsBytes-take : (n : ℕ) (bs : List ℕ) → IsBytes bs → IsBytes (take n bs)
IsBytes-take zero bs h = tt
IsBytes-take (suc n) [] h = tt
IsBytes-take (suc n) (b ∷ bs) h = (h.0, IsBytes-take n bs h.1)

pub IsBytes-drop : (n : ℕ) (bs : List ℕ) → IsBytes bs → IsBytes (drop n bs)
IsBytes-drop zero bs h = h
IsBytes-drop (suc n) [] h = tt
IsBytes-drop (suc n) (b ∷ bs) h = IsBytes-drop n bs h.1

pub le_bytes-whole :
    (n : ℕ) (bs : List ℕ) → IsBytes bs → length bs ≡ n → le_bytes n (le_value bs) ≡ bs
le_bytes-whole n bs h e = ap (λ k. le_bytes k (le_value bs)) (sym e) ∙ le_bytes-le_value bs h

pub le_bytes-take :
    (n : ℕ) (bs : List ℕ)
    → IsBytes bs
    → n ≤ length bs
    → le_bytes n (le_value (take n bs)) ≡ take n bs
le_bytes-take n bs h le =
    le_bytes-whole n (take n bs) (IsBytes-take n bs h) (omega (arith, length-take {0} n bs))
