-- ===== src/Pm/Recipient/FaceValue.antt =====
-- The advertised face value covers the required EV, the sender's max float and the redemption cost.
use livepeer.Base.{ℕ, ◌≤◌, ◌≡◌, ◌↔◌, ◌⊎◌, Option, arith}
use livepeer.Base.Int.{ℤ, pos, ◌≤ℤ◌}
use livepeer.Pm.Error.{ok}
use livepeer.Pm.Recipient.{TicketParamsConfig, avg_gas_price}
use livepeer.Pm.Recipient.Params.{tx_cost, tx_cost_with_gas_price, desired_face_value, face_value}

-- What a face value has to meet, for a max float: it is the smaller of the desired value and the
-- max float, at least the EV, and at least the cost at the current or at the average gas price.
pub record IsFaceValue (cfg : TicketParamsConfig) (gas_price : Option ℕ) (max_float : ℤ) (v : ℕ)
    : Type 0 where
  pub least : (pos v ≡ max_float) ⊎ (v ≡ desired_face_value cfg (tx_cost cfg gas_price))
  pub within_float : pos v ≤ℤ max_float
  pub within_desired : v ≤ desired_face_value cfg (tx_cost cfg gas_price)
  pub covers_ev : cfg.ev ≤ v
  pub covers_cost : (tx_cost cfg gas_price ≤ v) ⊎ (tx_cost_with_gas_price cfg avg_gas_price ≤ v)

face_value_sound :
    (cfg : TicketParamsConfig) (gas_price : Option ℕ) (max_float : ℤ) (v : ℕ)
    → face_value cfg gas_price (ok max_float) ≡ ok v
    → IsFaceValue cfg gas_price max_float v
unfolding face_value
face_value_sound cfg gas_price max_float v h = ground arith

face_value_complete :
    (cfg : TicketParamsConfig) (gas_price : Option ℕ) (max_float : ℤ) (v : ℕ)
    → IsFaceValue cfg gas_price max_float v
    → face_value cfg gas_price (ok max_float) ≡ ok v
unfolding face_value
face_value_complete cfg gas_price max_float v h = ground arith

-- A face value is advertised exactly if it meets the conditions; in every other case the sender's
-- reserve is refused as insufficient.
pub face_value_iff :
    (cfg : TicketParamsConfig) (gas_price : Option ℕ) (max_float : ℤ) (v : ℕ)
    → (face_value cfg gas_price (ok max_float) ≡ ok v) ↔ IsFaceValue cfg gas_price max_float v
face_value_iff cfg gas_price max_float v =
    (face_value_sound cfg gas_price max_float v, face_value_complete cfg gas_price max_float v)
