-- ===== src/Js/Double.antt =====
-- The double arithmetic that `calculateInvoice` (packages/domain/src/index.js) does on numbers that
-- are not negative: the sum of two integers, and `Math.round(a / b)`.
use bf_techops.Prelude.{ℕ, zero, suc, ◌+◌, ◌*◌, ◌/◌, ◌%◌, ◌^◌, ltb, if◌then◌else◌}

-- a / b to the nearest integer, a tie to the even one.
unfoldable pub round_half_even : ℕ → ℕ → ℕ
round_half_even a b =
    let q = a / b in
    let r = a % b in if ltb (r + r) b then q else if ltb b (r + r) then q + 1 else q + q % 2

-- The least shift s ≤ fuel with a < b * 2^(53 + s), which leaves 53 significant bits.
unfoldable pub shift_down : ℕ → ℕ → ℕ → ℕ
shift_down zero a b = 0
shift_down (suc fuel) a b =
    let rest = shift_down fuel a (b * 2) in if ltb a (b * 2 ^ 53) then 0 else suc rest

-- The greatest shift k ≤ fuel with a * 2^k < b * 2^53.
unfoldable pub shift_up : ℕ → ℕ → ℕ → ℕ
shift_up zero a b = 0
shift_up (suc fuel) a b =
    let rest = shift_up fuel (a * 2) b in if ltb (a * 2) (b * 2 ^ 53) then suc rest else 0

-- An integer to the nearest double.
unfoldable pub to_double : ℕ → ℕ
to_double n = let s = shift_down 1024 n 1 in round_half_even n (2 ^ s) * 2 ^ s

-- `Math.round(a / b)` for integers a and b that are doubles: the quotient is rounded to a double of
-- 53 bits, and that to the nearest integer, a half up.
unfoldable pub math_round_div : ℕ → ℕ → ℕ
math_round_div a b =
    if ltb a (b * 2 ^ 53)
    then (let k = shift_up 1024 a b in (2 * round_half_even (a * 2 ^ k) b + 2 ^ k) / (2 * 2 ^ k))
    else (let s = shift_down 1024 a b in round_half_even a (b * 2 ^ s) * 2 ^ s)
