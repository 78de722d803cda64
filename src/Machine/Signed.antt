-- ===== src/Machine/Signed.antt =====
-- The signed arithmetic of the host, on the bits of its int and int64_t.
use ctutor.Base.{ℕ, ◌+◌, ◌-◌, ◌*◌, ◌%◌, ◌^◌, Bool, true, false, ltb, leb, ◌==◌, if◌then◌else◌}
use ctutor.Outcome.{Outcome, ok, undefined}

-- The sign and the magnitude of the number that `w` bits stand for.
abbrev pub is_negative : (w x : ℕ) → Bool
is_negative w x = leb (2 ^ (w - 1)) x

abbrev pub magnitude : (w x : ℕ) → ℕ
magnitude w x = if is_negative w x then 2 ^ w - x else x

abbrev pub differ : Bool → Bool → Bool
differ true b = if b then false else true
differ false b = b

-- The bits of a product; an overflow is undefined.
unfoldable pub mul_int : (w a b : ℕ) → Outcome ℕ
mul_int w a b =
    let p = magnitude w a * magnitude w b in
    if differ (is_negative w a) (is_negative w b)
    then (if leb p (2 ^ (w - 1)) then ok ((2 ^ w - p) % 2 ^ w) else undefined)
    else if ltb p (2 ^ (w - 1))
    then ok p
    else undefined

-- - of an int64_t
unfoldable pub neg_int64 : ℕ → Outcome ℕ
neg_int64 x = if x == 2 ^ 63 then undefined else ok ((2 ^ 64 - x) % 2 ^ 64)

-- An int64_t or size_t given to an int, and an int given to a size_t.
abbrev pub to_int32 : ℕ → ℕ
to_int32 x = x % 2 ^ 32

abbrev pub from_int32 : ℕ → ℕ
from_int32 x = if is_negative 32 x then 2 ^ 64 - 2 ^ 32 + x else x
