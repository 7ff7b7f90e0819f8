-- ===== src/Eth/Watchers/SenderWatcher.antt =====
-- eth/watchers/senderwatcher.go: the cached deposits and reserves of senders. Logs come decoded; the
-- RPC node is a function of the address that is asked for, and what it answers is a new value, which
-- shares nothing with the cache.
pub mod Events
use livepeer.Base.{
  ℕ, ◌+◌, ◌-◌, ◌≡◌, ◌≢◌, refl, Bool, true, false, List, [], ◌∷◌, Option, none, some, arith, ltb,
  ◌==◌, ◌&&◌, if◌then◌else◌,
}
use livepeer.Base.Int.{ℤ, pos, ◌+ℤ◌, ◌-ℤ◌, int_laws}
use livepeer.Base.Maps.{insert, erase, nat_eq}
use livepeer.Pm.Error.{Error, Result, ok, err}
use livepeer.Pm.Sender.{SenderInfo, ReserveInfo}

-- `SenderWatcher`: what is cached, this node's address, and the senders whose reserve change was
-- announced, newest first.
pub record SenderWatcher : Type 0 where
  pub senders : ℕ → Option SenderInfo
  pub claimed_reserve : ℕ → Option ℕ
  pub self : ℕ
  pub announced : List ℕ

-- What the remote node answers: `GetSenderInfo` and `ClaimedReserve` for this node.
pub record Rpc : Type 0 where
  pub sender_info : ℕ → Result SenderInfo
  pub claimed : ℕ → Result ℕ

-- The decoded events that `handleLog` knows; `other` is any other event.
pub data Log : Type 0 where
  deposit_funded reserve_funded : (sender amount : ℕ) → Log
  withdrawal : (sender : ℕ) → Log
  winning_ticket_transfer : (sender recipient amount : ℕ) → Log
  unlock : (sender end_round : ℕ) → Log
  unlock_cancelled : (sender : ℕ) → Log
  other : Log

-- `GetSenderInfo`
unfoldable pub get_sender_info : Rpc → ℕ → SenderWatcher → Result SenderInfo × SenderWatcher
get_sender_info rpc addr w = elim (w.senders addr) [
  | some info ↦ (ok info, w)
  | none ↦ elim (rpc.sender_info addr) [
    | err e ↦ (err e, w)
    | ok info ↦ (ok info, record w { senders = insert addr info w.senders })
  ]
]

-- `ClaimedReserve`
unfoldable pub get_claimed_reserve : Rpc → ℕ → SenderWatcher → Result ℕ × SenderWatcher
get_claimed_reserve rpc addr w = elim (w.claimed_reserve addr) [
  | some c ↦ (ok c, w)
  | none ↦ elim (rpc.claimed addr) [
    | err e ↦ (err e, w)
    | ok c ↦ (ok c, record w { claimed_reserve = insert addr c w.claimed_reserve })
  ]
]

-- `Clear`
unfoldable pub clear : ℕ → SenderWatcher → SenderWatcher
clear addr w = record w {
  senders = erase addr w.senders;
  claimed_reserve = erase addr w.claimed_reserve;
}

-- A winning ticket is paid from the deposit if that covers it, else also from the reserve.
unfoldable pub pay_ticket : ℕ → SenderInfo → SenderInfo
pay_ticket amount info =
    let diff = amount - info.deposit in
    let r = info.reserve in
    if ltb info.deposit amount
    then record info {
      deposit = 0;
      reserve = record {
        funds_remaining = r.funds_remaining -ℤ pos diff;
        claimed_in_current_round = r.claimed_in_current_round + diff;
      };
    }
    else record info { deposit = info.deposit - amount }

abbrev claimed_plus : Option ℕ → ℕ → ℕ
claimed_plus none diff = diff
claimed_plus (some c) diff = c + diff

-- What the node itself has claimed of a reserve, where it is the ticket's recipient.
unfoldable pub claim_ticket : ℕ → ℕ → ℕ → SenderInfo → SenderWatcher → SenderWatcher
claim_ticket sender recipient amount info w =
    let diff = amount - info.deposit in
    let total = claimed_plus (w.claimed_reserve sender) diff in
    if ltb info.deposit amount && w.self == recipient
    then record w { claimed_reserve = insert sender total w.claimed_reserve }
    else w

abbrev set_info : ℕ → SenderInfo → SenderWatcher → SenderWatcher
set_info sender info w = record w { senders = insert sender info w.senders }

abbrev announce : ℕ → SenderWatcher → SenderWatcher
announce sender w = record w { announced = sender ∷ w.announced }

-- An event of a block that is not removed, for a sender that is cached with `info`.
unfoldable pub apply_log : Log → SenderInfo → SenderWatcher → SenderWatcher
unfolding pay_ticket claim_ticket
apply_log (deposit_funded s amount) info w =
    set_info s (record info { deposit = info.deposit + amount }) w
apply_log (reserve_funded s amount) info w =
    let r = info.reserve in
    announce s (
      set_info s
        (record info { reserve = record r { funds_remaining = r.funds_remaining +ℤ pos amount } })
        w)
apply_log (withdrawal s) info w =
    let w' =
      set_info s
        (record info {
          deposit = 0;
          reserve = record { funds_remaining = pos 0; claimed_in_current_round = 0 };
        })
        w in
    record w' { claimed_reserve = insert s 0 w'.claimed_reserve }
apply_log (winning_ticket_transfer s r amount) info w =
    claim_ticket s r amount info (set_info s (pay_ticket amount info) w)
apply_log (unlock s round) info w = set_info s (record info { withdraw_round = round }) w
apply_log (unlock_cancelled s) info w = set_info s (record info { withdraw_round = 0 }) w
apply_log other info w = w

abbrev pub log_sender : Log → Option ℕ
log_sender (deposit_funded s _) = some s
log_sender (reserve_funded s _) = some s
log_sender (withdrawal s) = some s
log_sender (winning_ticket_transfer s _ _) = some s
log_sender (unlock s _) = some s
log_sender (unlock_cancelled s) = some s
log_sender other = none

abbrev pub is_reserve_funded : Log → Bool
is_reserve_funded (reserve_funded _ _) = true
is_reserve_funded _ = false

-- An event of a removed block: the sender is read anew.
unfoldable pub reload_sender : Rpc → Log → ℕ → SenderWatcher → Option Error × SenderWatcher
reload_sender rpc log sender w = elim (rpc.sender_info sender) [
  | err e ↦ (some e, w)
  | ok info ↦
      let w' = set_info sender info w in
      (none, if is_reserve_funded log then announce sender w' else w')
]

-- `handleLog`; the flag says that the block was removed. Senders that are not cached are skipped.
unfoldable pub handle_log : Rpc → Bool → Log → SenderWatcher → Option Error × SenderWatcher
unfolding apply_log reload_sender
handle_log rpc removed log w = elim (log_sender log) [
  | none ↦ (none, w)
  | some sender ↦ elim (w.senders sender) [
    | none ↦ (none, w)
    | some info ↦ if removed then reload_sender rpc log sender w else (none, apply_log log info w)
  ]
]

-- `handleBlockEvents`: the logs of the events in their order, each with the flag that its block was
-- removed. Errors are only written to the log.
unfoldable pub handle_block_events : Rpc → List (Bool × Log) → SenderWatcher → SenderWatcher
handle_block_events rpc [] w = w
handle_block_events rpc ((removed, log) ∷ logs) w =
    handle_block_events rpc logs (handle_log rpc removed log w).1

-- The loop of `handleRoundEvent` over the senders, of a removed round. The keys are in the order in
-- which the loop meets them; the first failed call ends it. What is read is only assigned to the loop
-- variable, so that the cached info stays.
unfoldable pub reread_senders : Rpc → List ℕ → SenderWatcher → Option Error × SenderWatcher
reread_senders rpc [] w = (none, w)
reread_senders rpc (s ∷ ss) w = elim (w.senders s) [
  | none ↦ reread_senders rpc ss w
  | some info ↦ elim (rpc.sender_info s) [ err e ↦ (some e, w) | ok i ↦ reread_senders rpc ss w ]
]

-- The loop over the claimed reserves, of a removed round.
unfoldable pub reread_claimed : Rpc → List ℕ → SenderWatcher → Option Error × SenderWatcher
reread_claimed rpc [] w = (none, w)
reread_claimed rpc (s ∷ ss) w = elim (w.claimed_reserve s) [
  | none ↦ reread_claimed rpc ss w
  | some old ↦ elim (rpc.claimed s) [
    | err e ↦ (some e, w)
    | ok c ↦ reread_claimed rpc ss (record w { claimed_reserve = insert s c w.claimed_reserve })
  ]
]

-- A new round: nothing is claimed in it yet.
unfoldable pub new_round : SenderWatcher → SenderWatcher
new_round w = record w {
  senders = (λ s. elim (w.senders s) [
    | none ↦ none
    | some info ↦ some (record info {
      reserve = record {
        funds_remaining = info.reserve.funds_remaining;
        claimed_in_current_round = 0;
      };
    })
  ]);
  claimed_reserve = (λ s. elim (w.claimed_reserve s) [ none ↦ none | some _ ↦ some 0 ]);
}

-- `handleRoundEvent`, with the keys of both maps in the order of the loops
unfoldable pub handle_round_event :
    Rpc → List ℕ → List ℕ → Bool → SenderWatcher → Option Error × SenderWatcher
unfolding reread_senders reread_claimed new_round
handle_round_event rpc senders claims false w = (none, new_round w)
handle_round_event rpc senders claims true w =
    let (failed, w') = reread_senders rpc senders w in
    elim failed [ some e ↦ (some e, w') | none ↦ reread_claimed rpc claims w' ]
