-- ===== src/Collector/PowerOfTen.antt =====
-- `IsPowerOfTen` of collector/enrichment.go, by which warnings are thinned out.
use Prim.Native.Nat.pow
use xrootd_monitoring_shovel.Base.{
  ℕ, zero, suc, ◌*◌, ◌/◌, ◌%◌, ◌^◌, ◌≤◌, ◌<◌, ◌≡◌, ◌↔◌, ap, sym, ◌∙◌, Bool, true, false, ltb, ◌==◌,
  if◌then◌else◌, ℤ, pos, negsuc, arith, Bool-cases, inl, inr,
}

-- The loop; it divides by ten, so n itself is fuel enough.
unfoldable pub power_loop : ℕ → ℕ → Bool
power_loop zero n = false
power_loop (suc fuel) n =
    let rest = power_loop fuel (n / 10) in
    if ltb 1 n then (if n % 10 == 0 then rest else false) else true

unfoldable pub is_power_of_ten : ℤ → Bool
unfolding power_loop
is_power_of_ten (pos n) = if n == 0 then false else power_loop n n
is_power_of_ten (negsuc n) = false

ten_times : (k : ℕ) → 10 ^ suc k ≡ 10 * 10 ^ k
ten_times k = omega (arith, pow.suc 10 k)

positive : (k : ℕ) → 0 < 10 ^ k
positive zero = omega arith
positive (suc k) = omega (arith, ten_times k, positive k)

power_loop_sound : (fuel n : ℕ) → 0 < n → power_loop fuel n ≡ true → (k : ℕ) × (n ≡ 10 ^ k)
unfolding power_loop
power_loop_sound zero n h e = absurd (cc e)
power_loop_sound (suc fuel) n h e = elim (Bool-cases (ltb 1 n)) [
  | inr one ↦ (0, ground arith)
  | inl more ↦
      let divides : n ≡ 10 * (n / 10) = ground arith in
      let (k, is) = power_loop_sound fuel (n / 10) (omega arith) (ground arith) in
      (suc k, divides ∙ ap (λ (m : ℕ). 10 * m) is ∙ sym (ten_times k))
]

power_loop-power : (k fuel : ℕ) → 10 ^ k ≤ fuel → power_loop fuel (10 ^ k) ≡ true
unfolding power_loop
power_loop-power zero zero h = absurd (omega arith)
power_loop-power zero (suc fuel) h = ground arith
power_loop-power (suc k) zero h = absurd (omega (arith, ten_times k, positive k))
power_loop-power (suc k) (suc fuel) h =
    let step = ten_times k in
    let some_ones = positive k in
    let quotient : 10 ^ suc k / 10 ≡ 10 ^ k = omega arith in
    let remainder : 10 ^ suc k % 10 ≡ 0 = omega arith in
    let rest = power_loop-power k fuel (omega arith) in
    rw (quotient, remainder) (ground (arith, rest))

-- `IsPowerOfTen` is true exactly for the powers of ten from 1 on.
pub is_power_of_ten_iff : (z : ℤ) → (is_power_of_ten z ≡ true) ↔ ((k : ℕ) × (z ≡ pos (10 ^ k)))
unfolding is_power_of_ten
is_power_of_ten_iff (negsuc n) = ((λ e. absurd (cc e)), (λ (k, e). absurd (cc e)))
is_power_of_ten_iff (pos n) = (
  (λ e. let (k, is) = power_loop_sound n n (ground arith) (ground arith) in (k, ap pos is)),
  (λ (k, e).
      let is : n ≡ 10 ^ k = cc e in
      let loop : power_loop n n ≡ true = rw is (power_loop-power k (10 ^ k) (omega arith)) in
      ground (arith, positive k)),
)
