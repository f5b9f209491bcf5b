-- ===== src/Domain/Money/Exact.antt =====
-- The double arithmetic of the tax of `calculateInvoice`, below the safe integers.
use bf_techops.Domain.Money.{tax_of}
use bf_techops.Prelude.{
  ℕ, zero, suc, ◌+◌, ◌*◌, ◌/◌, ◌%◌, ◌^◌, ◌≤◌, ◌<◌, ◌≡◌, ◌⊎◌, inl, inr, refl, ltb, Bool-cases, arith,
  ap, true, if◌then◌else◌,
}
use native.Mathlib.Nat.{pow-suc, div-add-mod, mul-le-mul_left, div-eq_of_lt-le}
use bf_techops.Js.Double.{round_half_even, shift_up, shift_down, to_double, math_round_div}

-- The rounded quotient is within a half of the quotient.
nearest :
    (q r b e : ℕ)
    → r < b
    → e ≤ 1
    → let m = if ltb (r + r) b then q else if ltb b (r + r) then q + 1 else q + e in
      (2 * (b * m) ≤ 2 * (b * q + r) + b) × (2 * (b * q + r) ≤ 2 * (b * m) + b)
nearest q r b e h p = elim (Bool-cases (ltb (r + r) b)) [
  | inl small ↦ rw (small) (let k : r + r < b = ground arith in (omega arith, omega arith))
  | inr big ↦ rw (big) (elim (Bool-cases (ltb b (r + r))) [
    | inl up ↦ rw (up) (let k : b < r + r = ground arith in (omega arith, omega arith))
    | inr tie ↦ rw (tie) (
        let k : b ≡ r + r = ground arith in
        elim (Bool-cases (ltb 0 e)) [
          | inl one ↦ let o : e ≡ 1 = ground arith in rw o (omega arith, omega arith)
          | inr none_up ↦ let o : e ≡ 0 = ground arith in rw o (omega arith, omega arith)
        ])
  ])
]

pub round_half_even_bounds :
    (a b : ℕ)
    → 0 < b
    → (2 * (b * round_half_even a b) ≤ 2 * a + b) × (2 * a ≤ 2 * (b * round_half_even a b) + b)
unfolding round_half_even
round_half_even_bounds a b h =
    rw (div-add-mod a b) at (nearest (a / b) (a % b) b (a / b % 2) (omega arith) (omega arith))

pub shift_up_bound :
    (fuel a b : ℕ) → (b * 2 ^ 53 ≤ a * 2 ^ suc (shift_up fuel a b)) ⊎ (shift_up fuel a b ≡ fuel)
unfolding shift_up
shift_up_bound zero a b = inr refl
shift_up_bound (suc fuel) a b = elim (Bool-cases (ltb (a * 2) (b * 2 ^ 53))) [
  | inl more ↦ rw more (elim (shift_up_bound fuel (a * 2) b) [
    | inl h ↦ inl (
        omega (
          arith,
          pow-suc 2 (suc (shift_up fuel (a * 2) b)),
          h,
          ap (λ (t : ℕ). a * t) (pow-suc 2 (suc (shift_up fuel (a * 2) b))),
        ))
    | inr e ↦ inr (ap suc e)
  ])
  | inr done ↦ rw done (inl (ground arith))
]

-- No shift is needed while the integer has at most 53 bits.
shift_down-small : (fuel a b : ℕ) → a < b * 2 ^ 53 → shift_down (suc fuel) a b ≡ 0
unfolding shift_down
shift_down-small fuel a b h = let t : ltb a (b * 2 ^ 53) ≡ true = ground arith in rw t

round_half_even-one : (n : ℕ) → round_half_even n 1 ≡ n
round_half_even-one n = let b = round_half_even_bounds n 1 (omega arith) in omega arith

-- An integer below 2^53 is a double.
pub to_double-safe : (n : ℕ) → n < 2 ^ 53 → to_double n ≡ n
unfolding to_double
to_double-safe n h =
    let s : shift_down 1024 n 1 ≡ 0 = shift_down-small 1023 n 1 (omega arith) in
    rw s (omega (arith, round_half_even-one n))

-- A quotient is the number whose multiple reaches the dividend and the next one does not.
div_unique : (x d q : ℕ) → q * d ≤ x → x < q * d + d → x / d ≡ q
div_unique x d q low high = div-eq_of_lt-le d low (omega arith)

-- Rounding twice, to a double and then to an integer, is rounding once, if P = 2 * R is a large
-- enough power of two and Q is the quotient rounded once.
round_twice :
    (a m R Q : ℕ)
    → 5001 ≤ 2 * R
    → 2 * (10_000 * m) ≤ 2 * (a * (2 * R)) + 10_000
    → 2 * (a * (2 * R)) ≤ 2 * (10_000 * m) + 10_000
    → Q ≡ (2 * a + 10_000) / 20_000
    → (2 * m + 2 * R) / (2 * (2 * R)) ≡ Q
round_twice a m R Q large up down q =
    let low : 20_000 * Q ≤ 2 * a + 10_000 = omega arith in
    let high : 2 * a + 10_000 ≤ 20_000 * Q + 19_998 = omega arith in
    let low' : R * (20_000 * Q) ≤ R * (2 * a + 10_000) = mul-le-mul_left R low in
    let high' : R * (2 * a + 10_000) ≤ R * (20_000 * Q + 19_998) = mul-le-mul_left R high in
    div_unique (2 * m + 2 * R) (2 * (2 * R)) Q (omega arith) (omega arith)

cancel_below : (a x : ℕ) → a < 2 ^ 53 → 10_000 * 2 ^ 53 ≤ a * x → 10_000 < x
cancel_below a x h bound = elim (Bool-cases (ltb 10_000 x)) [
  | inl less ↦ ground arith
  | inr more ↦
      let le : x ≤ 10_000 = ground arith in
      let p : a * x ≤ a * 10_000 = mul-le-mul_left a le in absurd (omega arith)
]

-- A shift that stops leaves room for the divisor 10000 beside a dividend below 2^53.
shift_up-large : (a : ℕ) → a < 2 ^ 53 → 10_000 < 2 ^ suc (shift_up 1024 a 10_000)
shift_up-large a h = elim (shift_up_bound 1024 a 10_000) [
  | inl bound ↦ cancel_below a (2 ^ suc (shift_up 1024 a 10_000)) h bound
  | inr full ↦ rw full (omega arith)
]

half_of_power : (k : ℕ) → 10_000 < 2 ^ suc k → (R : ℕ) × (2 ^ k ≡ 2 * R) × (5001 ≤ 2 * R)
half_of_power zero h = absurd (omega arith)
half_of_power (suc j) h =
    let e : 2 ^ suc j ≡ 2 ^ j * 2 = pow-suc 2 j in
    let f : 2 ^ suc (suc j) ≡ 2 ^ suc j * 2 = pow-suc 2 (suc j) in (2 ^ j, omega arith, omega arith)

-- Below 2^53 `Math.round(a / 10_000)` in doubles is the quotient rounded half up.
pub math_round_div-exact :
    (a : ℕ) → a < 2 ^ 53 → math_round_div a 10_000 ≡ (2 * a + 10_000) / 20_000
unfolding math_round_div
math_round_div-exact a h =
    let k = shift_up 1024 a 10_000 in
    let small : ltb a (10_000 * 2 ^ 53) ≡ true = ground arith in
    let bounds = round_half_even_bounds (a * 2 ^ k) 10_000 (omega arith) in
    let (R, even, large) = half_of_power k (shift_up-large a h) in
    rw small (
      rw even (
        round_twice a (round_half_even (a * (2 * R)) 10_000) R ((2 * a + 10_000) / 20_000) large
          (rw even at bounds.0) (rw even at bounds.1) refl))

pub tax_of-exact :
    (t r : ℕ)
    → t < 2 ^ 39
    → r ≤ 10_000
    → (tax_of t r ≡ (2 * (t * r) + 10_000) / 20_000) × (tax_of t r ≤ t)
unfolding tax_of
tax_of-exact t r small rate =
    let p : t * r ≤ t * 10_000 = mul-le-mul_left t rate in
    let q : t * r < 2 ^ 53 = omega arith in
    rw (to_double-safe (t * r) q) (rw (math_round_div-exact (t * r) q) (refl, omega arith))
