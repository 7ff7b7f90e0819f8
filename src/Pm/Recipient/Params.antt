-- ===== src/Pm/Recipient/Params.antt =====
-- pm/recipient.go: the ticket parameters that a recipient advertises.
use livepeer.Base.{
  ℕ, ◌+◌, ◌*◌, ◌/◌, ◌%◌, not, ◌||◌, Option, none, some, ◌==◌, ltb, leb, if◌then◌else◌,
}
use livepeer.Base.Int.{ℤ, pos, pos_part, ltb_ℤ, eq_ℤ}
use livepeer.Base.Rat.{Rat, of_int, of_frac}
use livepeer.Base.Words.{int64_of_big}
use livepeer.Crypto.{Crypto}
use livepeer.Pm.Error.{Result, ok, err, ◌>>=◌, insufficient_sender_reserve}
use livepeer.Pm.Ticket.{TicketParams, TicketExpirationParams}
use livepeer.Pm.Validator.{rand_hash}
use livepeer.Pm.Recipient.{
  Recipient, TicketParamsConfig, TimeInfo, rand, max_win_prob, params_expiration_block,
  ev_multiplier, avg_gas_price,
}

-- `txCostWithGasPrice`
unfoldable pub tx_cost_with_gas_price : TicketParamsConfig → ℕ → ℕ
tx_cost_with_gas_price cfg gas_price = cfg.redeem_gas * gas_price

-- `txCost`, from what the gas price monitor returns: no price counts as 0.
unfoldable pub tx_cost : TicketParamsConfig → Option ℕ → ℕ
unfolding tx_cost_with_gas_price
tx_cost cfg none = tx_cost_with_gas_price cfg 0
tx_cost cfg (some gas_price) = tx_cost_with_gas_price cfg gas_price

-- The face value before the sender's reserve is looked at.
unfoldable pub desired_face_value : TicketParamsConfig → ℕ → ℕ
desired_face_value cfg cost =
    let face = cost * cfg.tx_cost_multiplier in
    if ltb face cfg.ev then cfg.ev * ev_multiplier else face

-- `recipient.faceValue` from the max float on. A max float may be negative; a face value that
-- passes the EV test is not.
unfoldable pub capped_face_value : TicketParamsConfig → ℕ → ℕ → ℤ → Result ℕ
capped_face_value cfg cost desired max_float =
    let face = if ltb_ℤ max_float (pos desired) then max_float else pos desired in
    if ltb_ℤ face (pos cfg.ev)
    then err insufficient_sender_reserve
    else if not
        (leb cost (pos_part face) || leb (tx_cost_with_gas_price cfg avg_gas_price) (pos_part face))
    then err insufficient_sender_reserve
    else ok (pos_part face)

-- `recipient.faceValue`
unfoldable pub face_value : TicketParamsConfig → Option ℕ → Result ℤ → Result ℕ
unfolding capped_face_value
face_value cfg gas_price max_float_of_sender =
    let cost = tx_cost cfg gas_price in
    max_float_of_sender >>= capped_face_value cfg cost (desired_face_value cfg cost)

-- `recipient.winProb`, over a given maximum. `DivMod` by a face value that is not 0; the test of
-- the remainder looks at its low 64 bits only.
unfoldable pub win_prob_of : ℕ → ℕ → ℕ → ℕ
win_prob_of max ev face =
    if face == 0
    then 0
    else if face == ev
    then max
    else if not (eq_ℤ (int64_of_big (max % face)) (pos 0))
    then ev * (max / face + 1)
    else ev * (max / face)

unfoldable pub win_prob : TicketParamsConfig → ℕ → ℕ
unfolding win_prob_of
win_prob cfg face = win_prob_of max_win_prob cfg.ev face

-- `recipient.TxCostMultiplier`
unfoldable pub tx_cost_multiplier : TicketParamsConfig → Option ℕ → Result ℤ → Result Rat
tx_cost_multiplier cfg gas_price max_float_of_sender = do
  face ← face_value cfg gas_price max_float_of_sender
  let cost = tx_cost cfg gas_price
  if cost == 0 then ok (of_int (pos 0)) else ok (of_frac face cost)

-- `recipient.EV`
unfoldable pub ev_of : TicketParamsConfig → Rat
ev_of cfg = of_frac cfg.ev 1

-- The face value that `TicketParams` uses: payments are only required at a price above 0.
unfoldable pub priced_face_value : TicketParamsConfig → Rat → Option ℕ → Result ℤ → Result ℕ
unfolding face_value
priced_face_value cfg price gas_price max_float_of_sender =
    if ltb_ℤ (pos 0) price.num then face_value cfg gas_price max_float_of_sender else ok 0

module _ (c : Crypto) where
  -- The parameters for a face value and a seed.
  unfoldable pub params_for : Recipient → TimeInfo → ℕ → ℕ → Rat → ℕ → TicketParams
  params_for r tm seed sender price face =
      let expiration = tm.last_seen_l1_block + params_expiration_block in
      let prob = win_prob r.cfg face in
      let expiration_params : TicketExpirationParams = record {
        creation_round = tm.last_initialized_round;
        creation_round_block_hash = tm.last_initialized_l1_block_hash;
      } in
      record {
        recipient = r.addr;
        face_value = face;
        win_prob = prob;
        recipient_rand_hash =
            rand_hash c (rand c r.secret seed sender face prob expiration price expiration_params);
        seed = seed;
        expiration_block = expiration;
        price_per_pixel = price;
        expiration_params = some expiration_params;
      }

  -- `recipient.TicketParams`, for the random seed that it draws.
  unfoldable pub ticket_params :
      Recipient → TimeInfo → Option ℕ → Result ℤ → ℕ → ℕ → Rat → Result TicketParams
  unfolding params_for priced_face_value
  ticket_params r tm gas_price max_float_of_sender seed sender price = do
    face ← priced_face_value r.cfg price gas_price max_float_of_sender
    ok (params_for r tm seed sender price face)
