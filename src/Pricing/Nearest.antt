-- ===== src/Pricing/Nearest.antt =====
-- Rounding of magnitudes, as ib_trader/engine/pricing.py and ticks.py do it.
use native.Mathlib.Nat.{
  div-mul-le_self, le_trans, le-div_iff_mul-le, mul-div_cancel, mul-mod_left, mod-add-div', mod-lt,
}
use ib_trader.Prelude.{ℕ, ◌+◌, ◌*◌, ◌/◌, ◌%◌, ◌≤◌, ◌<◌, ◌≡◌, ap, ◌⊎◌, inl, inr, arith}
use ib_trader.Pricing.{Rounding, half_even, half_up, up, down, rounded, round}

pub div_mono : (n m d : ℕ) → 0 < d → n ≤ m → n / d ≤ m / d
div_mono n m d p h = (le-div_iff_mul-le p).1 (le_trans (div-mul-le_self n d) h)

pub rounded_between :
    (mode : Rounding) (q r d : ℕ) → (q ≤ rounded mode q r d) × (rounded mode q r d ≤ q + 1)
rounded_between half_even q r d = ground arith
rounded_between half_up q r d = ground arith
rounded_between up q r d = ground arith
rounded_between down q r d = ground arith

rounded_mono : (mode : Rounding) (q r s d : ℕ) → r ≤ s → rounded mode q r d ≤ rounded mode q s d
rounded_mono half_even q r s d h = ground arith
rounded_mono half_up q r s d h = ground arith
rounded_mono up q r s d h = ground arith
rounded_mono down q r s d h = ground arith

suc_mul : (q d : ℕ) → (q + 1) * d ≡ q * d + d
suc_mul q d = grind arith

lt_or_eq : (a b : ℕ) → a ≤ b → (a < b) ⊎ (a ≡ b)
lt_or_eq a b h = ground arith

quotient_cases : (n m d : ℕ) → 0 < d → n ≤ m → (n / d < m / d) ⊎ ((n / d ≡ m / d) × (n % d ≤ m % d))
quotient_cases n m d p h = elim (lt_or_eq (n / d) (m / d) (div_mono n m d p h)) [
  | inl lt ↦ inl lt
  | inr e ↦ inr (e, omega (arith, mod-add-div' n d, mod-add-div' m d, ap (λ (t : ℕ). t * d) e, h))
]

pub round_mono : (mode : Rounding) (n m d : ℕ) → 0 < d → n ≤ m → round mode n d ≤ round mode m d
unfolding round
round_mono mode n m d p h = elim (quotient_cases n m d p h) [
  | inl lt ↦
      omega (arith, rounded_between mode (n / d) (n % d) d, rounded_between mode (m / d) (m % d) d)
  | inr (e, le) ↦ rw e (rounded_mono mode (m / d) (n % d) (m % d) d le)
]

exact : (mode : Rounding) (q d : ℕ) → 0 < d → rounded mode q 0 d ≡ q
exact half_even q d p = ground arith
exact half_up q d p = ground arith
exact up q d p = ground arith
exact down q d p = ground arith

pub round_multiple : (mode : Rounding) (k d : ℕ) → 0 < d → round mode (k * d) d ≡ k
unfolding round
round_multiple mode k d p = rw (mul-div_cancel k p, mul-mod_left k d) (exact mode k d p)

-- Half a step at most for the roundings to the nearest, and less than a step for the others.
abbrev pub IsNear : Rounding → ℕ → ℕ → ℕ → Type 0
IsNear half_even k n d = (k * d + k * d ≤ n + n + d) × (n + n ≤ k * d + k * d + d)
IsNear half_up k n d = (k * d + k * d ≤ n + n + d) × (n + n ≤ k * d + k * d + d)
IsNear up k n d = (n ≤ k * d) × (k * d < n + d)
IsNear down k n d = (k * d ≤ n) × (n < k * d + d)

rounded-IsNear :
    (mode : Rounding) (q r d n : ℕ) → q * d + r ≡ n → r < d → IsNear mode (rounded mode q r d) n d
rounded-IsNear half_even q r d n e h = ground (arith, suc_mul q d)
rounded-IsNear half_up q r d n e h = ground (arith, suc_mul q d)
rounded-IsNear up q r d n e h = ground (arith, suc_mul q d)
rounded-IsNear down q r d n e h = ground (arith, suc_mul q d)

pub round-IsNear : (mode : Rounding) (n d : ℕ) → 0 < d → IsNear mode (round mode n d) n d
unfolding round
round-IsNear mode n d p =
    rounded-IsNear mode (n / d) (n % d) d n (omega (arith, mod-add-div' n d)) (mod-lt n p)
