-- ===== src/Pm/Monitor/Tests.antt =====
-- pm/sendermonitor.go at concrete inputs.
use livepeer.Base.{◌+◌, ◌*◌, ◌^◌, ◌≤◌, ◌<◌, ◌≡◌, ◌≢◌, ◌⊎◌, refl, [], none, some, false}
use livepeer.Base.Int.{ℤ, pos, ◌-ℤ◌, ◌+ℤ◌, div_ℤ}
use livepeer.Base.Maps.{insert, nat_eq}
use livepeer.Base.Rat.{of_frac}
use livepeer.Pm.Error.{ok, external}
use livepeer.Pm.Ticket.{SignedTicket}
use livepeer.Pm.Sender.{SenderInfo}
use livepeer.Pm.Monitor.{
  Monitor, Chain, RemoteSender, add_float, available_funds, ensure_cache, reserve_alloc,
  max_float_of,
}
use livepeer.Pm.Monitor.Float.{max_float_of_cases, reserve_alloc_cases}
use livepeer.Pm.Monitor.Redeem.{
  Broker, System, Reach, start, here, next, IsAccounted, pending, start_redeem,
  redeem_winning_ticket, redeem_error, Reach-IsAccounted, Reach-add_float,
  pending-redeem_winning_ticket,
}

abbrev info : SenderInfo
info = record {
  deposit = 1000;
  withdraw_round = 0;
  reserve = record { funds_remaining = pos 400; claimed_in_current_round = 100 };
}

abbrev chain : Chain
chain = record {
  sender_info = λ s. ok info;
  claimed_reserve = λ s. ok 20;
  pool_size = 5;
  last_initialized_round = pos 4;
}

abbrev broker : Broker
broker = record { is_used = ok false; gas_price = ok 1; redeem = ok 77; check_tx = some external }

abbrev monitor : Monitor
monitor = record { senders = λ s. none; cfg = record { ttl = 60; redeem_gas = 10 }; announced = [] }

abbrev idle : System
idle = record { monitor = monitor; in_flight = λ s. none }

abbrev busy : System
busy = record {
  monitor = (start_redeem chain broker 5 22 300 monitor).1;
  in_flight = insert 22 300 idle.in_flight;
}

passes : (start_redeem chain broker 5 22 300 monitor).0 ≡ none
unfolding start_redeem available_funds reserve_alloc redeem_error ensure_cache ◌+ℤ◌ ◌-ℤ◌
passes = refl

becomes_busy : Reach idle busy
becomes_busy = next here (start chain broker 5 22 300 refl passes)

Reach-IsAccounted_example : IsAccounted busy
Reach-IsAccounted_example = Reach-IsAccounted (λ _. refl) becomes_busy

reach_of_add_float_test :
    ((add_float 9 22 300 busy.monitor).0 ≡ none)
    × (pending (add_float 9 22 300 busy.monitor).1 22 ≡ 0)
reach_of_add_float_test = Reach-add_float 9 22 300 (λ _. refl) becomes_busy refl

abbrev ticket : SignedTicket
ticket = record {
  ticket = record {
    recipient = 11;
    sender = 22;
    face_value = 300;
    win_prob = 7;
    sender_nonce = 1;
    recipient_rand_hash = 9;
    creation_round = pos 4;
    creation_round_block_hash = 44;
    params_expiration_block = 110;
    price_per_pixel = of_frac 1 3;
  };
  sig = [];
  recipient_rand = 3;
}

pending_after_redemption :
    pending (redeem_winning_ticket chain broker 5 9 ticket monitor).1 22 ≡ pending monitor 22
pending_after_redemption = pending-redeem_winning_ticket chain broker 5 9 22 ticket monitor

abbrev remote : RemoteSender
remote = record { pending_amount = 300; subscribers = 0; last_access = 5 }

allocated : reserve_alloc chain 22 ≡ ok (pos 80)
unfolding reserve_alloc ◌+ℤ◌ ◌-ℤ◌
allocated = refl

max_float_at_inputs :
    ((max_float_of chain 22 remote ≡ ok (pos 80)) × (2 ^ 52 * (3 * 300) ≤ 2 ^ 52 * 1000 + 300))
    ⊎ ((max_float_of chain 22 remote ≡ ok (pos 80 -ℤ pos 300))
        × ((1000 < 3 * 300) ⊎ (remote.pending_amount ≡ 0)))
max_float_at_inputs = max_float_of_cases chain 22 remote info (pos 80) refl allocated

share_of_reserve :
    (alloc : ℤ) × (reserve_alloc chain 22 ≡ ok alloc)
    × (((chain.pool_size ≡ 0) × (alloc ≡ pos 0))
        ⊎ ((chain.pool_size ≢ 0) × (alloc +ℤ pos 20 ≡ div_ℤ (pos 400 +ℤ pos 100) 5)))
share_of_reserve = reserve_alloc_cases chain 22 info 20 refl refl
