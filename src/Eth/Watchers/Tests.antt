-- ===== src/Eth/Watchers/Tests.antt =====
-- Package eth/watchers at concrete inputs.
use livepeer.Base.{ℕ, ◌≡◌, refl, true, false, [], ◌∷◌, none, some, ◌⊎◌}
use livepeer.Base.Int.{pos}
use livepeer.Pm.Error.{Error, ok, err}
use livepeer.Pm.Sender.{SenderInfo}
use livepeer.Eth.Watchers.SenderWatcher.{
  SenderWatcher, Rpc, unlock, winning_ticket_transfer, handle_log, handle_round_event,
}
use livepeer.Eth.Watchers.SenderWatcher.Events.{
  IsPaidOut, handle_log-transfer, handle_log-removed, handle_round_event-senders,
}

abbrev info : ℕ → SenderInfo
info n = record {
  deposit = n;
  withdraw_round = 0;
  reserve = record { funds_remaining = pos 50; claimed_in_current_round = 5 };
}

abbrev watcher : SenderWatcher
watcher = record {
  senders = λ s. some (info 10);
  claimed_reserve = λ s. none;
  self = 7;
  announced = [];
}

abbrev rpc : Rpc
rpc = record { sender_info = λ s. ok (info s); claimed = λ s. ok s }

-- 10 from the deposit, 20 from the reserve
handle_log-transfer_example :
    (paid : SenderInfo) × ((handle_log rpc false (winning_ticket_transfer 3 7 30) watcher).1.senders
        3
      ≡ some paid)
    × IsPaidOut 30 (info 10) paid
handle_log-transfer_example = handle_log-transfer rpc 3 7 30 watcher (info 10) refl

handle_log_of_removed_test :
    ((new : SenderInfo) × (rpc.sender_info 3 ≡ ok new)
      × ((handle_log rpc true (unlock 3 9) watcher).0 ≡ none)
      × ((handle_log rpc true (unlock 3 9) watcher).1.senders 3 ≡ some new))
    ⊎ ((e : Error) × (rpc.sender_info 3 ≡ err e)
        × (handle_log rpc true (unlock 3 9) watcher ≡ (some e, watcher)))
handle_log_of_removed_test = handle_log-removed rpc (unlock 3 9) 3 watcher (info 10) refl refl

handle_round_event_of_removed_test :
    (handle_round_event rpc (3 ∷ 4 ∷ []) (3 ∷ []) true watcher).1.senders 4 ≡ watcher.senders 4
handle_round_event_of_removed_test = handle_round_event-senders rpc (3 ∷ 4 ∷ []) (3 ∷ []) watcher 4
