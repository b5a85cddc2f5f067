-- ===== src/Pricing/Shares.antt =====
-- The size of an order by its amount, `calc_shares_from_dollars` of ib_trader/engine/pricing.py.
use native.Mathlib.Nat.{mul-le-mul_right, le_trans}
use ib_trader.Prelude.{
  ℕ, suc, ◌+◌, ◌*◌, ◌≤◌, ◌<◌, some, if◌then◌else◌, ◌≡◌, ◌⊎◌, inl, inr, ap, ltb, Bool-cases, true,
  arith,
}
use ib_trader.Prelude.Int.{pos, min_ℤ}
use ib_trader.Pricing.{down, round, quantize, calc_shares_from_dollars}
use ib_trader.Pricing.Nearest.{round-IsNear}

min_pos : (a b : ℕ) → min_ℤ (pos a) (pos b) ≡ pos (if ltb b a then b else a)
min_pos a b = ground arith

ltb-le : (a b : ℕ) → ltb a b ≡ true → a ≤ b
ltb-le a b h = ground arith

-- The shares cost no more than the amount, they are no more than the maximum, and one more share
-- would break one of the two limits.
pub calc_shares_from_dollars_lem :
    (dollars p max_shares : ℕ)
    → (n : ℕ) × (calc_shares_from_dollars (pos dollars) (pos (suc p)) (pos max_shares)
        ≡ some (pos n))
      × (n * suc p ≤ dollars)
      × (n ≤ max_shares)
      × ((n ≡ max_shares) ⊎ (dollars < n * suc p + suc p))
unfolding calc_shares_from_dollars quantize
calc_shares_from_dollars_lem dollars p max_shares =
    let k = round down dollars (suc p) in
    let below = λ (h : ltb max_shares k ≡ true). ltb-le max_shares k h in
    let (low, high) = round-IsNear down dollars (suc p) (omega arith) in
    elim (Bool-cases (ltb max_shares k)) [
      | inl capped ↦ (
        max_shares,
        ap some (rw capped at (min_pos k max_shares)),
        le_trans (mul-le-mul_right (suc p) (below capped)) low,
        omega arith,
        inl (omega arith),
      )
      | inr free ↦ (k, ap some (rw free at (min_pos k max_shares)), low, ground arith, inr high)
    ]
