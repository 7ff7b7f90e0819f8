-- ===== src/Pm/Tests.antt =====
-- Package pm at concrete inputs.
use livepeer.Base.{
  count_from, ◌+◌, ◌*◌, ◌%◌, ◌≤◌, ◌≡◌, ◌≢◌, ◌↔◌, refl, ap, List, [], ◌∷◌, none, some, arith,
}
use livepeer.Base.Int.{pos, ◌-ℤ◌, ◌*ℤ◌, ◌+ℤ◌}
use livepeer.Base.Rat.{of_frac, mul}
use livepeer.Base.Maps.{insert, nat_eq}
use livepeer.Base.Words.{u64_mod, int64_of_big, int64_of_int}
use livepeer.Crypto.Sample.{sample, sample_laws}
use livepeer.Pm.Error.{ok}
use livepeer.Pm.Ticket.{Ticket, TicketParams, TicketBatch, flatten, ticket_ev}
use livepeer.Pm.Ticket.Flatten.{IsPackable, flatten_inj}
use livepeer.Pm.Validator.{validate_ticket}
use livepeer.Pm.Validator.Checks.{IsValidTicket, validate_ticket_iff}
use livepeer.Pm.Sender.{
  Sender, SenderInfo, Session, validate_funds, validate_ticket_params, create_ticket_batch,
  batch_expiration_params,
}
use livepeer.Pm.Sender.Batch.{
  AllSigned, nonces, entries, nonce_of, create_ticket_batch-eq, create_ticket_batch-nonces,
}
use livepeer.Pm.Recipient.{Recipient, TimeInfo, TicketParamsConfig, max_win_prob, receive_ticket}
use livepeer.Pm.Recipient.Params.{
  face_value, tx_cost, desired_face_value, tx_cost_with_gas_price, win_prob, ticket_params,
  params_for,
}
use livepeer.Pm.Recipient.FaceValue.{IsFaceValue, face_value_iff}
use livepeer.Pm.Recipient.WinProb.{win_prob_meets_ev}
use livepeer.Pm.Recipient.RoundTrip.{round_params, own_ticket, ticket_params-accepted}
use livepeer.Pm.Recipient.Nonces.{
  Node, Event, receive, see_block, clean_up, step, run, received, accepted_once,
}

abbrev ticket : Ticket
ticket = record {
  recipient = 11;
  sender = 22;
  face_value = 5000;
  win_prob = 7;
  sender_nonce = 1;
  recipient_rand_hash = 99;
  creation_round = pos 4;
  creation_round_block_hash = 44;
  params_expiration_block = 110;
  price_per_pixel = of_frac 1 3;
}

abbrev repriced : Ticket
repriced = record ticket { price_per_pixel = of_frac 1 2 }

same_bytes : flatten sample ticket ≡ flatten sample repriced
unfolding flatten
same_bytes = refl

ticket-IsPackable : IsPackable ticket
ticket-IsPackable = record {
  recipient_fits = omega arith;
  sender_fits = omega arith;
  face_value_fits = omega arith;
  win_prob_fits = omega arith;
  nonce_fits = omega arith;
  rand_hash_fits = omega arith;
  round_nonneg = refl;
  round_fits = omega arith;
  block_hash_fits = omega arith;
}

repriced-IsPackable : IsPackable repriced
repriced-IsPackable = record {
  recipient_fits = omega arith;
  sender_fits = omega arith;
  face_value_fits = omega arith;
  win_prob_fits = omega arith;
  nonce_fits = omega arith;
  rand_hash_fits = omega arith;
  round_nonneg = refl;
  round_fits = omega arith;
  block_hash_fits = omega arith;
}

flatten_inj_example :
    (ticket.recipient ≡ repriced.recipient)
    × (ticket.sender ≡ repriced.sender)
    × (ticket.face_value ≡ repriced.face_value)
    × (ticket.win_prob ≡ repriced.win_prob)
    × (ticket.sender_nonce ≡ repriced.sender_nonce)
    × (ticket.recipient_rand_hash ≡ repriced.recipient_rand_hash)
    × (ticket.creation_round ≡ repriced.creation_round)
    × (ticket.creation_round_block_hash ≡ repriced.creation_round_block_hash)
flatten_inj_example =
    flatten_inj sample sample_laws ticket repriced ticket-IsPackable repriced-IsPackable same_bytes

validate_ticket_at_inputs_test :
    (validate_ticket sample 11 ticket (1 ∷ []) 5 ≡ none) ↔ IsValidTicket sample 11 ticket (1 ∷ []) 5
validate_ticket_at_inputs_test = validate_ticket_iff sample 11 ticket (1 ∷ []) 5

abbrev config : TicketParamsConfig
config = record { ev = 10; redeem_gas = 7; tx_cost_multiplier = 2 }

face_value_at_inputs_test :
    (face_value config (some 10) (ok (pos 500)) ≡ ok 140)
    ↔ IsFaceValue config (some 10) (pos 500) 140
face_value_at_inputs_test = face_value_iff config (some 10) (pos 500) 140

face_value_140 : face_value config (some 10) (ok (pos 500)) ≡ ok 140
unfolding face_value tx_cost desired_face_value tx_cost_with_gas_price
face_value_140 = refl

win_prob_meets_ev_example :
    ((10 * max_win_prob ≤ 140 * win_prob config 140)
      ↔ ((max_win_prob % 140) % u64_mod ≡ 0 → max_win_prob % 140 ≡ 0))
    × (140 * win_prob config 140 ≤ 10 * max_win_prob + 10 * 140)
    × (win_prob config 140 ≤ max_win_prob)
win_prob_meets_ev_example = win_prob_meets_ev config 140 (omega arith) (omega arith) (omega arith)

abbrev recipient : Recipient
recipient = record { addr = 11; secret = 3; sender_nonces = λ _. none; cfg = config }

abbrev time_info : TimeInfo
time_info = record {
  last_seen_l1_block = 100;
  last_initialized_round = pos 4;
  last_initialized_l1_block_hash = 44;
}

abbrev own : Ticket
own = own_ticket sample recipient time_info 8 22 (of_frac 1 3) 140 1

made :
    ticket_params sample recipient time_info (some 10) (ok (pos 500)) 8 22 (of_frac 1 3)
    ≡ ok (params_for sample recipient time_info 8 22 (of_frac 1 3) 140)
unfolding ticket_params face_value tx_cost desired_face_value tx_cost_with_gas_price
made = refl

ticket_params-accepted_example :
    ((params_for sample recipient time_info 8 22 (of_frac 1 3) 140).expiration_params
      ≡ some (round_params time_info))
    × ((receive_ticket sample none time_info recipient own (1 ∷ []) 8).0.error ≡ none)
ticket_params-accepted_example =
    ticket_params-accepted sample recipient time_info time_info (some 10) (ok (pos 500)) 8 22
      (of_frac 1 3) (params_for sample recipient time_info 8 22 (of_frac 1 3) 140) 1 (1 ∷ [])
      (λ _. none) own made refl (omega arith) refl tt (omega arith)

abbrev node : Node
node = record { recipient = recipient; tm = time_info }

abbrev later_events : List Event
later_events = see_block 112 ∷ clean_up 111 ∷ []

first_accepted : (received sample node none own (1 ∷ []) 8).0.error ≡ none
unfolding received
first_accepted =
    (ticket_params-accepted sample recipient time_info time_info (some 10) (ok (pos 500)) 8 22
      (of_frac 1 3) (params_for sample recipient time_info 8 22 (of_frac 1 3) 140) 1 (1 ∷ [])
      (λ _. none) own made refl (omega arith) refl tt (omega arith)).1

-- The nonce is cleaned up, and the ticket has expired.
accepted_once_example :
    (received sample
      (run sample (step sample node (receive none own (1 ∷ []) 8)) later_events)
      none
      own
      (1 ∷ [])
      8).0.error
    ≢ none
unfolding step
accepted_once_example =
    accepted_once sample node none none own own (1 ∷ []) (1 ∷ []) 8 8 later_events first_accepted
      (omega arith, tt, (omega arith, tt, tt)) refl refl (omega arith)

abbrev params : TicketParams
params = params_for sample recipient time_info 8 22 (of_frac 1 3) 140

abbrev info : SenderInfo
info = record {
  deposit = 10000;
  withdraw_round = 0;
  reserve = record { funds_remaining = pos 300; claimed_in_current_round = 0 };
}

abbrev session : Session
session = record { sender_nonce = 5; ticket_params = params }

abbrev broadcaster : Sender
broadcaster = record {
  address = 22;
  max_ev = of_frac 100 1;
  deposit_multiplier = 2;
  sessions = λ id. some session;
}

params_accepted : validate_ticket_params broadcaster time_info (ok info) params 3 ≡ none
unfolding validate_ticket_params params_for win_prob ticket_ev mul validate_funds int64_of_big
    int64_of_int ◌-ℤ◌ ◌*ℤ◌ ◌+ℤ◌
params_accepted = refl

create_ticket_batch-eq_example :
    create_ticket_batch sample (λ m. ok m) broadcaster time_info (ok info) 9 3 ≡ (
      ok (record {
        ticket_params = params;
        ticket_expiration_params = batch_expiration_params time_info params.expiration_params;
        sender = 22;
        sender_params =
            entries sample
              (λ m. m)
              params
              (batch_expiration_params time_info params.expiration_params)
              22
              (count_from 3 6);
      }),
      record broadcaster {
        sessions = insert 9 (record session { sender_nonce = 8 }) broadcaster.sessions;
      },
    )
create_ticket_batch-eq_example =
    create_ticket_batch-eq sample (λ m. m) broadcaster time_info (ok info) 9 3 session refl
      params_accepted (omega arith)

abbrev batch : TicketBatch
batch = record {
  ticket_params = params;
  ticket_expiration_params = batch_expiration_params time_info params.expiration_params;
  sender = 22;
  sender_params =
      entries sample (λ m. m) params (batch_expiration_params time_info params.expiration_params) 22
        (count_from 3 6);
}

made_batch : create_ticket_batch sample (λ m. ok m) broadcaster time_info (ok info) 9 3 ≡ (
  ok (record {
    ticket_params = params;
    ticket_expiration_params = batch_expiration_params time_info params.expiration_params;
    sender = 22;
    sender_params =
        entries sample
          (λ m. m)
          params
          (batch_expiration_params time_info params.expiration_params)
          22
          (count_from 3 6);
  }),
  record broadcaster {
    sessions = insert 9 (record session { sender_nonce = 8 }) broadcaster.sessions;
  },
)
made_batch =
    create_ticket_batch-eq sample (λ m. m) broadcaster time_info (ok info) 9 3 session refl
      params_accepted (omega arith)

create_ticket_batch-nonces_example :
    (nonces batch.sender_params ≡ count_from 3 6)
    × AllSigned sample
        (λ m. ok m)
        params
        (batch_expiration_params time_info params.expiration_params)
        22
        batch.sender_params
    × (nonce_of 9 (create_ticket_batch sample (λ m. ok m) broadcaster time_info (ok info) 9 3).1
        ≡ 8)
create_ticket_batch-nonces_example =
    create_ticket_batch-nonces sample (λ m. ok m) broadcaster time_info (ok info) 9 3 session batch
      refl (omega arith) (ap (λ p. p.0) made_batch)
