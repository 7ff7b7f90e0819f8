-- ===== src/Pm/Recipient.antt =====
-- pm/recipient.go: receiving tickets and advertising ticket parameters.
pub mod Nonces
pub mod Params
pub mod WinProb
pub mod FaceValue
pub mod RoundTrip
use livepeer.Base.{
  ℕ, ◌+◌, ◌-◌, ◌*◌, ◌/◌, ◌%◌, ◌^◌, ◌≡◌, Bool, true, false, not, ◌||◌, List, [], ◌∷◌, ◌++◌, Option,
  none, some, ◌==◌, ltb, leb, if◌then◌else◌,
}
use livepeer.Base.Int.{ℤ, pos, abs, pos_part, ltb_ℤ, eq_ℤ}
use livepeer.Base.Rat.{Rat, of_int, of_frac}
use livepeer.Base.Maps.{insert, erase_if, nat_eq}
use livepeer.Base.Words.{int64_of_big}
use livepeer.Base.Bytes.{big_bytes}
use livepeer.Crypto.{Crypto}
use livepeer.Pm.Error.{
  Error, Result, ok, err, ◌>>=◌, fatal, invalid_ticket_signature, invalid_sender_nonce,
  ticket_params_expired, insufficient_sender_reserve,
}
use livepeer.Pm.Ticket.{Ticket, TicketParams, TicketExpirationParams, aux_data, expiration_params}
use livepeer.Pm.Validator.{validate_ticket, is_winning_ticket, rand_hash}

-- maxWinProb = 2^256 - 1
abbrev pub max_win_prob : ℕ
max_win_prob = 2 ^ 256 - 1

-- The number of L1 blocks that advertised parameters stay valid.
abbrev pub params_expiration_block : ℕ
params_expiration_block = 10

abbrev pub ev_multiplier : ℕ
ev_multiplier = 100

-- 200 gwei
abbrev pub avg_gas_price : ℕ
avg_gas_price = 200 * 10 ^ 9

pub record TicketParamsConfig : Type 0 where
  pub ev : ℕ
  pub redeem_gas : ℕ
  pub tx_cost_multiplier : ℕ

-- The highest nonce seen for a recipientRand, and when its parameters expire.
pub record SenderNonce : Type 0 where
  pub nonce : ℕ
  pub expiration_block : ℕ

-- The map is keyed by the decimal string of a recipientRand, here by the number itself.
abbrev pub SenderNonces : Type 0
SenderNonces = ℕ → Option SenderNonce

pub record Recipient : Type 0 where
  pub addr : ℕ
  pub secret : ℕ
  pub sender_nonces : SenderNonces
  pub cfg : TicketParamsConfig

-- What the recipient reads from the time manager.
pub record TimeInfo : Type 0 where
  pub last_seen_l1_block : ℕ
  pub last_initialized_round : ℤ
  pub last_initialized_l1_block_hash : ℕ

-- `updateSenderNonce`
unfoldable pub update_sender_nonce : ℕ → Ticket → SenderNonces → Option Error × SenderNonces
update_sender_nonce rand ticket nonces =
    let store : SenderNonces =
      insert rand
        (record { nonce = ticket.sender_nonce; expiration_block = ticket.params_expiration_block })
        nonces in
    elim (nonces rand) [
      | none ↦ (none, store)
      | some sn ↦
          if leb ticket.sender_nonce sn.nonce
          then (some invalid_sender_nonce, nonces)
          else (none, store)
    ]

-- One round of `senderNoncesCleanupLoop`, for a block taken from the subscription.
unfoldable pub cleanup_nonces : ℕ → SenderNonces → SenderNonces
cleanup_nonces latest = erase_if (λ sn. leb sn.expiration_block latest)

-- The pair (sessionID, won) with the error. `none` is the empty session ID; a session ID is the hex
-- form of the recipientRandHash, here the hash itself.
pub record Received : Type 0 where
  pub session_id : Option ℕ
  pub won : Bool
  pub error : Option Error

module _ (c : Crypto) where
  -- `recipient.rand`
  unfoldable pub rand : ℕ → ℕ → ℕ → ℕ → ℕ → ℕ → Rat → TicketExpirationParams → ℕ
  rand secret seed sender face_value win_prob expiration price params = c.hmac_sha256 secret (
      big_bytes seed
      ++ c.address_bytes sender
      ++ big_bytes face_value
      ++ big_bytes win_prob
      ++ big_bytes expiration
      ++ big_bytes (abs price.num)
      ++ big_bytes price.den
      ++ aux_data c params)

  -- The number that a ticket's sender was given a commitment to.
  unfoldable pub ticket_rand : Recipient → Ticket → ℕ → ℕ
  unfolding rand
  ticket_rand r t seed =
      rand r.secret seed t.sender t.face_value t.win_prob t.params_expiration_block
        t.price_per_pixel (expiration_params t)

  -- What is fatal: every validity error but a bad signature.
  abbrev pub receive_error : Error → Error
  receive_error invalid_ticket_signature = invalid_ticket_signature
  receive_error e = fatal e

  -- `ReceiveTicket` from `updateSenderNonce` on.
  unfoldable pub record_ticket : TimeInfo → Recipient → Ticket → ℕ → Bool → Received × Recipient
  record_ticket tm r t rand_value won =
      let session : Option ℕ = if won then some t.recipient_rand_hash else none in
      let (failed, nonces) = update_sender_nonce rand_value t r.sender_nonces in
      elim failed [
        | some e ↦ (record { session_id = session; won = won; error = some e }, r)
        | none ↦ (
          record {
            session_id = session;
            won = won;
            error =
                if leb t.params_expiration_block tm.last_seen_l1_block
                then some ticket_params_expired
                else none;
          },
          record r { sender_nonces = nonces },
        )
      ]

  -- `recipient.ReceiveTicket`. The first argument is what `SenderMonitor.ValidateSender` returns.
  unfoldable pub receive_ticket :
      Option Error → TimeInfo → Recipient → Ticket → List ℕ → ℕ → Received × Recipient
  receive_ticket sender_error tm r t sig seed =
      let rand_value = ticket_rand r t seed in
      elim sender_error [
        | some e ↦ (record { session_id = none; won = false; error = some (fatal e) }, r)
        | none ↦ elim (validate_ticket c r.addr t sig rand_value) [
          | some e ↦ (record { session_id = none; won = false; error = some (receive_error e) }, r)
          | none ↦ record_ticket tm r t rand_value (is_winning_ticket c t sig rand_value)
        ]
      ]
