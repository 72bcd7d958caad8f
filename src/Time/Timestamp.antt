-- ===== src/Time/Timestamp.antt =====
-- How far the float of `at.timestamp()` is exact to the second, in `to_dict` of spinach/job.py.
use native.Mathlib.Nat.{div-eq_of_lt-le, pow-le-pow_right, mul-le-mul_right, div-add-mod}
use spinach.Prelude.{
  ℕ, zero, suc, ◌+◌, ◌*◌, ◌-◌, ◌/◌, ◌^◌, ◌≤◌, ◌<◌, ◌≡◌, Bool-cases, leb, inl, inr, arith,
}
use spinach.Time.{second, exponent, nearest, int_timestamp}

-- Seconds below `2 ^ 34` leave nineteen binary digits for the fraction.
exponent-le : (bound n : ℕ) → n < 2 ^ 34 → exponent bound n ≤ 33
unfolding exponent
exponent-le zero n h = omega arith
exponent-le (suc e) n h = elim (Bool-cases (leb (2 ^ suc e) n)) [
  | inl l ↦ rw (l) (elim (Bool-cases (leb (suc e) 33)) [
    | inl k ↦ ground (arith, k)
    | inr k ↦
        let large : 34 ≤ suc e = ground (arith, k) in
        let grows : 2 ^ 34 ≤ 2 ^ suc e = pow-le-pow_right (omega arith) large in
        let fits : 2 ^ suc e ≤ n = ground (arith, l) in absurd (omega (arith, grows, fits, h))
  ])
  | inr l ↦ rw (l) (exponent-le e n h)
]

-- A quotient is rounded by one at most, and only from a half.
nearest-bounds :
    (a low high scale : ℕ)
    → low * second ≤ a
    → a + scale ≤ high * second
    → second < 2 * scale
    → (low ≤ nearest a second) × (nearest a second < high)
unfolding nearest
nearest-bounds a low high scale h k fine = ground (arith, div-add-mod a second)

-- The microseconds, scaled, are in the second they are in.
scaled :
    (us scale : ℕ)
    → ((us / second * scale) * second ≤ us * scale)
      × (us * scale + scale ≤ ((us / second + 1) * scale) * second)
scaled us scale =
    let low : (us / second * second) * scale ≤ us * scale = mul-le-mul_right scale (omega arith) in
    let high : (us + 1) * scale ≤ ((us / second + 1) * second) * scale =
      mul-le-mul_right scale (omega arith) in
    (omega (arith, low), omega (arith, high))

-- For times before the year 2514, the timestamp is cut to the second in which the time is.
pub int_timestamp-eq : (us : ℕ) → us < 2 ^ 34 * second → int_timestamp us ≡ us / second
unfolding int_timestamp
int_timestamp-eq us h =
    let s = us / second in
    let scale = 2 ^ (52 - exponent 52 s) in
    let early : s < 2 ^ 34 = omega (arith, h) in
    let small = exponent-le 52 s early in
    let digits : 19 ≤ 52 - exponent 52 s = omega (arith, small) in
    let fine : 2 ^ 19 ≤ scale = pow-le-pow_right (omega arith) digits in
    let (low, high) = scaled us scale in
    let (at_least, below) =
      nearest-bounds (us * scale) (s * scale) ((s + 1) * scale) scale low high
        (omega (arith, fine)) in
    div-eq_of_lt-le scale at_least below
