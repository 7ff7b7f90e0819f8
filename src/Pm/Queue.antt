-- ===== src/Pm/Queue.antt =====
-- pm/queue.go: the winning tickets of a sender that wait for their redemption, in a ticket store, and
-- the consumer of the queue in pm/sendermonitor.go. The mutex of the queue makes a block event one
-- step; the last initialised round stays the same during it.
pub mod Redemptions
pub mod Drain
pub mod Database
mod Tests
use livepeer.Base.{
  ℕ, zero, suc, ◌-◌, Bool, true, false, List, [], ◌∷◌, ◌++◌, Option, none, some, if◌then◌else◌, leb,
}
use livepeer.Base.Int.{ℤ, pos, ◌-ℤ◌}
use livepeer.Base.Words.{int64_of_int}
use livepeer.Pm.Error.{
  Error, Result, ok, err, is_used_ticket, transaction_failed, fatal, sender_validation,
}
use livepeer.Pm.Ticket.{SignedTicket}

-- `TicketStore`; a sender and the first creation round that is still valid select the tickets.
pub record TicketStore {ℓ} (S : Type ℓ) : Type ℓ where
  pub select_earliest : ℕ → ℤ → S → Result (Option SignedTicket)
  pub store_ticket : SignedTicket → S → Option Error × S
  pub mark_redeemed : SignedTicket → ℕ → S → Option Error × S
  pub winning_ticket_count : ℕ → ℤ → S → Result ℕ
  pub is_orch_active : ℕ → ℤ → S → Result Bool

abbrev pub ticket_validity_period : ℕ
ticket_validity_period = 2

-- What comes back for a ticket that was sent on `redeemable`: the answer, or that the queue was
-- stopped before it.
pub data Reply : Type 0 where
  stopped : Reply
  answered : ℕ → Option Error → Reply

-- A transaction or an error, as the loop of the consumer sends it: without a transaction the hash is 0.
abbrev pub reply_of : Option ℕ → Option Error → Reply
reply_of none e = answered 0 e
reply_of (some tx_hash) e = answered tx_hash e

-- The error's text contains that the transaction failed.
abbrev says_transaction_failed : Error → Bool
says_transaction_failed transaction_failed = true
says_transaction_failed (fatal e) = says_transaction_failed e
says_transaction_failed (sender_validation e) = says_transaction_failed e
says_transaction_failed _ = false

-- `isNonRetryableTicketErr`
abbrev pub is_non_retryable_ticket_err : Error → Bool
is_non_retryable_ticket_err is_used_ticket = true
is_non_retryable_ticket_err e = says_transaction_failed e

-- A ticket and the reply that its redemption got.
pub record Redemption : Type 0 where
  pub ticket : SignedTicket
  pub reply : Reply

-- The reply after which the ticket is marked as redeemed.
abbrev pub is_settled : Reply → Bool
is_settled stopped = false
is_settled (answered tx_hash none) = true
is_settled (answered tx_hash (some e)) = is_non_retryable_ticket_err e

-- The ticket store, the state of the consumer, and what was sent to it, oldest first.
pub record Queue {ℓ κ} (S : Type ℓ) (R : Type κ) : Type (ℓ ⊔ κ) where
  pub tickets : S
  pub consumer : R
  pub sent : List Redemption

-- A round of the loop returns, or goes on.
pub data Round {ℓ} (A : Type ℓ) : Type ℓ where
  returns continues : A → Round A

-- The consumer redeems a ticket. It is `redeemWinningTicket` behind the loop of the consumer.
module _ {ℓ κ} {S : Type ℓ} {R : Type κ} (store : TicketStore S)
    (redeem : SignedTicket → R → Reply × R) (sender : ℕ) (last_round : ℤ) where
  abbrev pub min_creation_round : ℤ
  min_creation_round = int64_of_int (last_round -ℤ pos ticket_validity_period)

  -- `Add`
  abbrev pub add : SignedTicket → S → Option Error × S
  add t s = store.store_ticket t s

  -- `Length`
  abbrev pub queue_length : S → Result ℕ
  queue_length s = store.winning_ticket_count sender min_creation_round s

  -- `isRecipientActive`: an error counts as active.
  abbrev pub is_recipient_active : ℕ → S → Bool
  is_recipient_active addr s = elim (store.is_orch_active addr last_round s) [
    | err e ↦ true
    | ok active ↦ active
  ]

  -- What follows the reply. Where the marking fails, the loop goes on as well.
  unfoldable pub settle : SignedTicket → Reply × R → Queue S R → Round (Queue S R)
  settle t (stopped, c) q =
      returns
        (record q { consumer = c; sent = q.sent ++ record { ticket = t; reply = stopped } ∷ [] })
  settle t (answered tx_hash failed, c) q =
      let reply : Reply = answered tx_hash failed in
      let q' : Queue S R = record q {
        consumer = c;
        sent = q.sent ++ record { ticket = t; reply = reply } ∷ [];
      } in
      continues (
        if is_settled reply
        then record q' { tickets = (store.mark_redeemed t tx_hash q.tickets).1 }
        else q')

  -- A round with the ticket that was selected.
  unfoldable pub redeem_next : ℕ → Result (Option SignedTicket) → Queue S R → Round (Queue S R)
  unfolding settle
  redeem_next latest_block (err e) q = returns q
  redeem_next latest_block (ok none) q = returns q
  redeem_next latest_block (ok (some t)) q =
      if is_recipient_active t.ticket.recipient q.tickets
      then if leb t.ticket.params_expiration_block latest_block
        then settle t (redeem t q.consumer) q
        else continues q
      else continues q

  -- The loop over as many rounds as there were tickets.
  unfoldable pub redeem_tickets : ℕ → ℕ → Queue S R → Queue S R
  unfolding redeem_next
  redeem_tickets zero latest_block q = q
  redeem_tickets (suc n) latest_block q =
      elim (redeem_next latest_block (store.select_earliest sender min_creation_round q.tickets)
        q) [ returns q' ↦ q' | continues q' ↦ redeem_tickets n latest_block q' ]

  -- `handleBlockEvent`
  unfoldable pub handle_block_event : ℕ → Queue S R → Queue S R
  unfolding redeem_tickets
  handle_block_event latest_block q = elim (queue_length q.tickets) [
    | err e ↦ q
    | ok n ↦ redeem_tickets n latest_block q
  ]
