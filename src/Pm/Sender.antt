-- ===== src/Pm/Sender.antt =====
-- pm/sender.go: sessions with recipients, and batches of tickets with increasing nonces.
pub mod Validate
pub mod Batch
use livepeer.Base.{
  ℕ, zero, suc, ◌+◌, ◌*◌, ◌/◌, ◌≡◌, Bool, not, ◌&&◌, ◌||◌, List, [], ◌∷◌, ◌++◌, Option, none, some,
  ◌==◌, ltb, leb, if◌then◌else◌,
}
use livepeer.Base.Int.{ℤ, pos, ◌-ℤ◌, ◌+ℤ◌, leb_ℤ, eq_ℤ}
use livepeer.Base.Rat.{Rat, of_int, zero_rat, mul, leb_rat, ltb_rat}
use livepeer.Base.Maps.{insert, nat_eq}
use livepeer.Base.Words.{int64_of_big, int64_of_int, incr32}
use livepeer.Crypto.{Crypto}
use livepeer.Pm.Error.{
  Error, Result, ok, err, ◌>>=◌, check, sender_validation, unlock_soon, no_sender_reserve,
  no_sender_deposit, ticket_params_expired, face_value_too_low, total_ev_too_high,
  face_value_too_high, session_not_found,
}
use livepeer.Pm.Ticket.{
  TicketParams, TicketExpirationParams, TicketSenderParams, TicketBatch, new_ticket, hash,
  ticket_ev,
}
use livepeer.Pm.Recipient.{TimeInfo, max_win_prob}

-- The number of blocks before expiration from which on parameters are not used.
abbrev pub params_expiry_buffer : ℕ
params_expiry_buffer = 1

-- `ReserveInfo` and `SenderInfo` of pm/broker.go. A watcher subtracts from the remaining funds.
pub record ReserveInfo : Type 0 where
  pub funds_remaining : ℤ
  pub claimed_in_current_round : ℕ

pub record SenderInfo : Type 0 where
  pub deposit : ℕ
  pub withdraw_round : ℕ
  pub reserve : ReserveInfo

-- A session's nonce is a uint32 that is only added to.
pub record Session : Type 0 where
  pub sender_nonce : ℕ
  pub ticket_params : TicketParams

-- Sessions are keyed by the hex form of the recipientRandHash, here by the hash.
abbrev pub Sessions : Type 0
Sessions = ℕ → Option Session

-- `max_ev` and `deposit_multiplier` are set when the sender is made.
pub record Sender : Type 0 where
  pub address : ℕ
  pub max_ev : Rat
  pub deposit_multiplier : ℕ
  pub sessions : Sessions

-- `StartSession`, with the session ID
unfoldable pub start_session : Sender → TicketParams → Sender × ℕ
start_session s params =
    let id = params.recipient_rand_hash in
    (
      record s {
        sessions = insert id (record { sender_nonce = 0; ticket_params = params }) s.sessions;
      },
      id,
    )

-- `loadSession`
unfoldable pub load_session : Sender → ℕ → Result Session
load_session s id = elim (s.sessions id) [ none ↦ err session_not_found | some x ↦ ok x ]

-- `sender.EV`
unfoldable pub session_ev : Sender → ℕ → Result Rat
unfolding load_session
session_ev s id = do
  x ← load_session s id
  ok (ticket_ev max_win_prob x.ticket_params.face_value x.ticket_params.win_prob)

-- Whether the sender's funds unlock by the round after the last initialised one; a withdraw round
-- whose low 64 bits are 0 counts as none.
unfoldable pub unlocks_soon : ℤ → SenderInfo → Bool
unlocks_soon last_round info =
    not (eq_ℤ (int64_of_big info.withdraw_round) (pos 0))
    && leb_ℤ (pos info.withdraw_round) (last_round +ℤ pos 1)

-- `sender.validateSender`
unfoldable pub validate_sender : ℤ → SenderInfo → Option Error
unfolding unlocks_soon
validate_sender last_round info =
    if unlocks_soon last_round info
    then some (sender_validation unlock_soon)
    else if eq_ℤ info.reserve.funds_remaining (pos 0)
    then some (sender_validation no_sender_reserve)
    else if info.deposit == 0
    then some (sender_validation no_sender_deposit)
    else none

-- The tests of `validateTicketParams` that need the sender's funds.
unfoldable pub validate_funds :
    Sender → TimeInfo → TicketParams → Rat → ℕ → SenderInfo → Option Error
unfolding validate_sender
validate_funds s tm params ev num_tickets info =
    elim (validate_sender tm.last_initialized_round info) [
      | some e ↦ some e
      | none ↦
          if ltb_rat s.max_ev (mul ev (of_int (pos num_tickets)))
          then some total_ev_too_high
          else if ltb (info.deposit / s.deposit_multiplier) params.face_value
          then some face_value_too_high
          else none
    ]

-- `sender.validateTicketParams`. The sender's info is what the sender manager returns, and the
-- deposit multiplier is not 0 (`Div` panics on 0).
unfoldable pub validate_ticket_params :
    Sender → TimeInfo → Result SenderInfo → TicketParams → ℕ → Option Error
validate_ticket_params s tm sender_info params num_tickets =
    let ev = ticket_ev max_win_prob params.face_value params.win_prob in
    let buffer = int64_of_int (pos params.expiration_block -ℤ pos tm.last_seen_l1_block) in
    if eq_ℤ (int64_of_big params.expiration_block) (pos 0)
    then none
    else if leb_ℤ buffer (pos params_expiry_buffer)
    then some ticket_params_expired
    else if leb_rat ev zero_rat
    then none
    else if leb_rat (of_int (pos params.face_value)) ev
    then some face_value_too_low
    else elim sender_info [
      | err e ↦ some e
      | ok info ↦ validate_funds s tm params ev num_tickets info
    ]

-- `sender.expirationParams`
unfoldable pub current_expiration_params : TimeInfo → TicketExpirationParams
current_expiration_params tm = record {
  creation_round = tm.last_initialized_round;
  creation_round_block_hash = tm.last_initialized_l1_block_hash;
}

-- The expiration parameters of a batch: the recipient's, unless they are missing or incomplete.
unfoldable pub batch_expiration_params :
    TimeInfo → Option TicketExpirationParams → TicketExpirationParams
unfolding current_expiration_params
batch_expiration_params tm none = current_expiration_params tm
batch_expiration_params tm (some e) =
    if eq_ℤ e.creation_round (pos 0) || e.creation_round_block_hash == 0
    then current_expiration_params tm
    else e

-- A signature or its error, in front of what the remaining rounds of the loop give. The rounds after
-- a failed signature are not made.
unfoldable pub add_ticket :
    ℕ
    → Result (List ℕ)
    → Result (List TicketSenderParams) × ℕ
    → Result (List TicketSenderParams) × ℕ
add_ticket n (err e) rest = (err e, n)
add_ticket n (ok sig) rest =
    (rest.0 >>= λ ps. ok (record { sender_nonce = n; sig = sig } ∷ ps), rest.1)

module _ (c : Crypto) where
  -- The loop of `CreateTicketBatch`: the nonce goes up also for the ticket whose signing fails.
  -- The signer is a function of the bytes to sign; the result has the final nonce.
  unfoldable pub sign_tickets :
      (List ℕ → Result (List ℕ))
      → TicketParams
      → TicketExpirationParams
      → ℕ
      → ℕ
      → ℕ
      → Result (List TicketSenderParams) × ℕ
  unfolding add_ticket incr32
  sign_tickets sign params expiration sender zero nonce = (ok [], nonce)
  sign_tickets sign params expiration sender (suc size) nonce =
      let n = incr32 nonce in
      let rest = sign_tickets sign params expiration sender size n in
      add_ticket n (sign (c.hash_bytes (hash c (new_ticket params expiration sender n)))) rest

  -- `CreateTicketBatch`, with the sender after the call.
  unfoldable pub create_ticket_batch :
      (List ℕ → Result (List ℕ))
      → Sender
      → TimeInfo
      → Result SenderInfo
      → ℕ
      → ℕ
      → Result TicketBatch × Sender
  unfolding load_session
  create_ticket_batch sign s tm sender_info id size = elim (load_session s id) [
    | err e ↦ (err e, s)
    | ok x ↦ elim (validate_ticket_params s tm sender_info x.ticket_params size) [
      | some e ↦ (err e, s)
      | none ↦
          let expiration = batch_expiration_params tm x.ticket_params.expiration_params in
          let (signed, nonce) =
            sign_tickets sign x.ticket_params expiration s.address size x.sender_nonce in
          (
            (signed >>= λ ps. ok (record {
              ticket_params = x.ticket_params;
              ticket_expiration_params = expiration;
              sender = s.address;
              sender_params = ps;
            })),
            record s { sessions = insert id (record x { sender_nonce = nonce }) s.sessions },
          )
    ]
  ]
