-- ===== src/Core/Orchestrator/Tests.antt =====
-- core/orchestrator.go at concrete inputs.
use livepeer.Base.{ℕ, ◌≡◌, refl, List, [], ◌∷◌, none, some, arith}
use livepeer.Base.Int.{pos}
use livepeer.Base.Rat.{of_frac}
use livepeer.Crypto.Sample.{sample}
use livepeer.Pm.Error.{ok}
use livepeer.Pm.Ticket.{ticket_ev}
use livepeer.Pm.Recipient.{Recipient, TimeInfo, TicketParamsConfig, max_win_prob}
use livepeer.Pm.Recipient.Params.{
  priced_face_value, face_value, tx_cost, desired_face_value, tx_cost_with_gas_price, win_prob,
  params_for, ticket_params,
}
use livepeer.Pm.Recipient.RoundTrip.{round_params}
use livepeer.Core.Accounting.{AddressBalances}
use livepeer.Core.Orchestrator.{Arrival, rat_price_info, process_tickets, process_payment}
use livepeer.Core.Orchestrator.Payments.{credit_all, accepted_times, process_tickets-balances}
use livepeer.Core.Orchestrator.RoundTrip.{
  own_params, own_payment, node_with, process_payment-credit_all,
}

abbrev config : TicketParamsConfig
config = record { ev = 10; redeem_gas = 7; tx_cost_multiplier = 2 }

abbrev recipient : Recipient
recipient = record { addr = 11; secret = 3; sender_nonces = λ _. none; cfg = config }

abbrev time_info : TimeInfo
time_info = record {
  last_seen_l1_block = 100;
  last_initialized_round = pos 4;
  last_initialized_l1_block_hash = 44;
}

abbrev arrival : ℕ → ℕ → Arrival
arrival nonce now = record {
  sender_nonce = nonce;
  sig = 1 ∷ [];
  sender_error = none;
  tm = time_info;
  now = now;
}

abbrev two_tickets : List Arrival
two_tickets = arrival 1 70 ∷ arrival 2 71 ∷ []

abbrev balances : AddressBalances
balances = record { balances = λ _. none; ttl = 60 }

priced : priced_face_value config (of_frac 1 3) (some 10) (ok (pos 500)) ≡ ok 140
unfolding priced_face_value face_value tx_cost desired_face_value tx_cost_with_gas_price
priced = refl

price_of_three_pixels : rat_price_info (pos 1) (pos 3) ≡ some (of_frac 1 3)
unfolding rat_price_info
price_of_three_pixels = refl

-- The price is reduced to lowest terms.
price_of_six_pixels : rat_price_info (pos 2) (pos 6) ≡ some (of_frac 1 3)
unfolding rat_price_info
price_of_six_pixels = refl

process_payment-credit_all_example :
    (ticket_params sample recipient time_info (some 10) (ok (pos 500)) 8 22 (of_frac 1 3)
      ≡ ok (params_for sample recipient time_info 8 22 (of_frac 1 3) 140))
    × ((process_payment sample "stream"
          (some 1)
          (own_payment sample recipient time_info 8 22 (of_frac 1 3) 140 (pos 1) (pos 3))
          two_tickets
          (node_with sample recipient time_info 8 22 (of_frac 1 3) 140 (λ _. none) balances [])).0
        ≡ none)
    × ((process_payment sample "stream"
          (some 1)
          (own_payment sample recipient time_info 8 22 (of_frac 1 3) 140 (pos 1) (pos 3))
          two_tickets
          (node_with sample recipient time_info 8 22
            (of_frac 1 3)
            140
            (λ _. none)
            balances
            [])).1.balances
        ≡ credit_all 22 "stream"
            (ticket_ev max_win_prob 140 (win_prob config 140))
            (70 ∷ 71 ∷ [])
            balances)
process_payment-credit_all_example =
    process_payment-credit_all sample recipient time_info 8 22 (of_frac 1 3) 140 "stream" (some 10)
      (ok (pos 500)) (λ _. none) two_tickets balances [] (pos 1) (pos 3) 1 priced
      price_of_three_pixels (omega arith) (omega arith)
      (refl, omega arith, refl, tt, (refl, omega arith, refl, omega arith, tt))

process_tickets-balances_example :
    (process_tickets sample "stream"
      (own_params sample recipient time_info 8 22 (of_frac 1 3) 140)
      22
      (round_params time_info)
      none
      two_tickets
      (node_with sample recipient time_info 8 22
        (of_frac 1 3)
        140
        (λ _. none)
        balances
        [])).1.balances
    ≡ credit_all 22 "stream"
        (ticket_ev max_win_prob 140 (win_prob config 140))
        (accepted_times sample "stream"
          (own_params sample recipient time_info 8 22 (of_frac 1 3) 140)
          22
          (round_params time_info)
          two_tickets
          recipient)
        balances
unfolding params_for
process_tickets-balances_example =
    process_tickets-balances sample "stream"
      (own_params sample recipient time_info 8 22 (of_frac 1 3) 140) 22 (round_params time_info)
      two_tickets
      (node_with sample recipient time_info 8 22 (of_frac 1 3) 140 (λ _. none) balances [])
