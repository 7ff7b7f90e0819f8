-- ===== src/Eth/TransactionManager/Bumped.antt =====
-- eth/transactionManager.go: how much a replacement pays more.
use livepeer.Base.{ℕ, ◌+◌, ◌*◌, ◌≤◌, ◌↔◌, arith}
use livepeer.Eth.TransactionManager.{
  Fees, apply_price_bump, bump_fees, gas_fee_cap, gas_tip_cap, calc_gas_price,
}

-- The bumped price is the least one that is at least 11 percent higher.
pub apply_price_bump_iff :
    (val price : ℕ) → (apply_price_bump val ≤ price) ↔ (111 * val ≤ 100 * price)
unfolding apply_price_bump
apply_price_bump_iff val price = (λ h. omega arith, λ h. omega arith)

-- Both caps are at least 11 percent higher.
abbrev pub IsBumped : Fees → Fees → Type 0
IsBumped f g =
    (111 * gas_fee_cap f ≤ 100 * gas_fee_cap g) × (111 * gas_tip_cap f ≤ 100 * gas_tip_cap g)

pub bump_fees-IsBumped : (f : Fees) → IsBumped f (bump_fees f)
unfolding apply_price_bump
bump_fees-IsBumped f = (omega arith, omega arith)

-- The gas price that is compared with the maximum is the mean of both caps, rounded down.
pub calc_gas_price_iff :
    (f : Fees) (m : ℕ) → (calc_gas_price f ≤ m) ↔ (gas_fee_cap f + gas_tip_cap f ≤ 2 * m + 1)
unfolding calc_gas_price
calc_gas_price_iff f m = (λ h. ground (arith, h), λ h. ground (arith, h))
