-- ===== src/Core/Orchestrator.antt =====
-- core/orchestrator.go: payments that an orchestrator receives, and the fees that it charges.
pub mod Payments
pub mod RoundTrip
mod Tests
use Prim.Native.String.{String}
use livepeer.Base.{
  ℕ, ◌≡◌, Bool, true, false, not, List, [], ◌∷◌, Option, none, some, if◌then◌else◌, ◌==◌,
}
use livepeer.Base.Int.{ℤ, pos, eq_ℤ}
use livepeer.Base.Rat.{Rat, of_int, new_rat, mul, ltb_rat}
use livepeer.Crypto.{Crypto}
use livepeer.Pm.Error.{Error, Result, ok, err, fatal, external}
use livepeer.Pm.Ticket.{
  Ticket, SignedTicket, TicketParams, TicketExpirationParams, new_ticket, ticket_ev,
}
use livepeer.Pm.Recipient.{Recipient, TimeInfo, max_win_prob, ticket_rand, receive_ticket}
use livepeer.Pm.Recipient.Params.{ev_of}
use livepeer.Core.Accounting.{AddressBalances, credit_address, debit_address, balance_address}

-- `net.Payment`, decoded. The sender is `none` if it is missing or empty, and the price is a pair of
-- a price per unit and pixels per unit.
pub record Payment : Type 0 where
  pub ticket_params : Option TicketParams
  pub sender : Option ℕ
  pub expiration_params : TicketExpirationParams
  pub expected_price : Option (ℤ × ℤ)

-- An entry of `TicketSenderParams`, with what the recipient's services answer and the time when it
-- is received.
pub record Arrival : Type 0 where
  pub sender_nonce : ℕ
  pub sig : List ℕ
  pub sender_error : Option Error
  pub tm : TimeInfo
  pub now : ℕ

-- What a payment changes: the recipient and the balances of the node, and the winning tickets that
-- are handed to `RedeemWinningTicket`, newest first.
pub record Node : Type 0 where
  pub recipient : Recipient
  pub balances : AddressBalances
  pub redeemed : List SignedTicket

-- The errors of the orchestrator, or one of a ticket.
pub data PaymentError : Type 0 where
  no_sender not_eligible no_price bad_price database_failed : PaymentError
  ticket_error : Error → PaymentError

-- `common.RatPriceInfo`
unfoldable pub rat_price_info : ℤ → ℤ → Option Rat
unfolding new_rat
rat_price_info price pixels = if eq_ℤ pixels (pos 0) then none else some (new_rat price pixels)

abbrev pub option_map : (Error → PaymentError) → Option Error → Option PaymentError
option_map f none = none
option_map f (some e) = some (f e)

-- `isPaymentEligible`: the recipient is among the orchestrators of the next round that the database
-- finds; `none` is the database's error.
unfoldable pub is_payment_eligible : Option ℕ → Result Bool
is_payment_eligible none = err external
is_payment_eligible (some found) = ok (not (found == 0))

abbrev pub is_fatal : Option Error → Bool
is_fatal (some (fatal _)) = true
is_fatal _ = false

-- `receiveErr` after a ticket: the last error stays.
unfoldable pub next_error : Option Error → Option Error → Option Error
next_error receive_error none = receive_error
next_error receive_error (some e) = some e

-- `Ticket.EV`
abbrev pub ev_of_ticket : Ticket → Rat
ev_of_ticket t = ticket_ev max_win_prob t.face_value t.win_prob

module _ (c : Crypto) (manifest : String) (params : TicketParams) (sender : ℕ)
    (expiration : TicketExpirationParams) where
  abbrev pub ticket_of : ℕ → Ticket
  ticket_of nonce = new_ticket params expiration sender nonce

  -- Crediting the ticket's EV, which happens only while no ticket of the payment has failed.
  unfoldable pub credit_ticket : Option Error → Arrival → AddressBalances → AddressBalances
  credit_ticket (some e) a b = b
  credit_ticket none a b =
      credit_address a.now sender manifest (ev_of_ticket (ticket_of a.sender_nonce)) b

  -- `recipient.RedeemWinningTicket`, which queues a winning ticket.
  unfoldable pub redeem_ticket : Recipient → Bool → Arrival → List SignedTicket → List SignedTicket
  redeem_ticket r false a ts = ts
  redeem_ticket r true a ts =
      record {
        ticket = ticket_of a.sender_nonce;
        sig = a.sig;
        recipient_rand = ticket_rand c r (ticket_of a.sender_nonce) params.seed;
      }
      ∷ ts

  -- The loop of `ProcessPayment`; the first argument is `receiveErr`.
  unfoldable pub process_tickets : Option Error → List Arrival → Node → Option Error × Node
  unfolding credit_ticket redeem_ticket next_error
  process_tickets receive_error [] n = (receive_error, n)
  process_tickets receive_error (a ∷ arrivals) n =
      let (r, recipient) =
        receive_ticket c a.sender_error a.tm n.recipient (ticket_of a.sender_nonce) a.sig
          params.seed in
      let failed = next_error receive_error r.error in
      let rest = process_tickets failed arrivals (record {
        recipient = recipient;
        balances = credit_ticket failed a n.balances;
        redeemed = redeem_ticket recipient r.won a n.redeemed;
      }) in
      if is_fatal r.error then (r.error, record n { recipient = recipient }) else rest

-- The parameters of a payment's tickets, at the price that its sender expects.
abbrev pub payment_params : TicketParams → Rat → TicketParams
payment_params params price = record params { price_per_pixel = price; expiration_params = none }

module _ (c : Crypto) (manifest : String) where
  -- `ProcessPayment` from the eligibility check on.
  unfoldable pub process_eligible :
      TicketParams → ℕ → Payment → List Arrival → Node → Option PaymentError × Node
  unfolding process_tickets
  process_eligible params sender p arrivals n = elim p.expected_price [
    | none ↦ (some no_price, n)
    | some (price, pixels) ↦ elim (rat_price_info price pixels) [
      | none ↦ (some bad_price, n)
      | some price_info ↦
          let (failed, n') =
            process_tickets c manifest (payment_params params price_info) sender p.expiration_params
              none arrivals n in
          (option_map ticket_error failed, n')
    ]
  ]

  -- `ProcessPayment` of a node that has a recipient. The first argument is the number of
  -- orchestrators that the database finds, `none` its error.
  unfoldable pub process_payment :
      Option ℕ → Payment → List Arrival → Node → Option PaymentError × Node
  unfolding process_eligible is_payment_eligible
  process_payment found p arrivals n = elim p.ticket_params [
    | none ↦ (none, n)
    | some params ↦ elim p.sender [
      | none ↦ (some no_sender, n)
      | some sender ↦ elim (is_payment_eligible found) [
        | err e ↦ (some database_failed, n)
        | ok false ↦ (some not_eligible, n)
        | ok true ↦ process_eligible params sender p arrivals n
      ]
    ]
  ]

-- `SufficientBalance` of a node that has a recipient and balances
unfoldable pub sufficient_balance : ℕ → String → Node → Bool × Node
sufficient_balance addr manifest n =
    let (found, b) = balance_address addr manifest n.balances in
    let enough = elim found as (λ _. Bool) [
      | none ↦ false
      | some amount ↦ not (ltb_rat amount (ev_of n.recipient.cfg))
    ] in
    (enough, record n { balances = b })

-- `DebitFees` of a node that has balances; `big.NewRat` panics on 0 pixels per unit.
unfoldable pub debit_fees : ℕ → ℕ → String → ℤ → ℤ → ℤ → Node → Option Node
debit_fees now addr manifest price pixels_per_unit pixels n =
    elim (rat_price_info price pixels_per_unit) [
      | none ↦ none
      | some q ↦ some (record n {
        balances = debit_address now addr manifest (mul q (of_int pixels)) n.balances;
      })
    ]
