-- ===== src/Core/Orchestrator/Payments.antt =====
-- core/orchestrator.go: what a payment credits.
use Prim.Native.String.{String}
use livepeer.Base.{ℕ, ◌≡◌, refl, List, [], ◌∷◌, none, some, Option-cases, inl, inr, Bool-cases}
use livepeer.Base.Rat.{Rat}
use livepeer.Base.Maps.{nat_eq}
use livepeer.Crypto.{Crypto}
use livepeer.Pm.Error.{Error}
use livepeer.Pm.Ticket.{TicketParams, TicketExpirationParams, new_ticket, ticket_ev}
use livepeer.Pm.Recipient.{Recipient, Received, max_win_prob, receive_ticket}
use livepeer.Core.Accounting.{AddressBalances, credit_address}
use livepeer.Core.Orchestrator.{
  Arrival, Node, process_tickets, credit_ticket, next_error, is_fatal, ticket_of,
}

-- Crediting the same amount once at each of the times.
abbrev pub credit_all : ℕ → String → Rat → List ℕ → AddressBalances → AddressBalances
credit_all sender manifest ev [] b = b
credit_all sender manifest ev (now ∷ times) b =
    credit_all sender manifest ev times (credit_address now sender manifest ev b)

module _ (c : Crypto) (manifest : String) (params : TicketParams) (sender : ℕ)
    (expiration : TicketExpirationParams) where
  -- The times of the tickets before the first that the recipient does not accept.
  unfoldable pub accepted_times : List Arrival → Recipient → List ℕ
  accepted_times [] r = []
  accepted_times (a ∷ arrivals) r =
      let (received, r') =
        receive_ticket c a.sender_error a.tm r (new_ticket params expiration sender a.sender_nonce)
          a.sig params.seed in
      elim received.error [ some e ↦ [] | none ↦ a.now ∷ accepted_times arrivals r' ]

  abbrev received : Arrival → Recipient → Received × Recipient
  received a r =
      receive_ticket c a.sender_error a.tm r
        (ticket_of c manifest params sender expiration a.sender_nonce) a.sig params.seed

  accepted_times-next :
      (a : Arrival) (arrivals : List Arrival) (r : Recipient)
      → (received a r).0.error ≡ none
      → accepted_times (a ∷ arrivals) r ≡ a.now ∷ accepted_times arrivals (received a r).1
  unfolding accepted_times
  accepted_times-next a arrivals r h = rw (h, accepted_times)

  accepted_times-failed :
      (a : Arrival) (arrivals : List Arrival) (r : Recipient) (e : Error)
      → (received a r).0.error ≡ some e
      → accepted_times (a ∷ arrivals) r ≡ []
  unfolding accepted_times
  accepted_times-failed a arrivals r e h = rw (h, accepted_times)

  failed-balances :
      (e : Error) (arrivals : List Arrival) (n : Node)
      → (process_tickets c manifest params sender expiration (some e) arrivals n).1.balances
        ≡ n.balances
  unfolding process_tickets next_error credit_ticket
  failed-balances e [] n = refl
  failed-balances e (a ∷ arrivals) n =
      let r = received a n.recipient in
      elim (Option-cases r.0.error) [
        | inl h ↦ rw (h, process_tickets) (failed-balances e arrivals _)
        | inr (e', h) ↦ elim (Bool-cases (is_fatal (some e'))) [
          | inl stops ↦ rw (h, process_tickets, stops)
          | inr goes ↦ rw (h, process_tickets, goes) (failed-balances e' arrivals _)
        ]
      ]

  -- A payment credits the EV of its tickets to the sender's stream once for each ticket before the
  -- first one that is not accepted, and nothing after it.
  pub process_tickets-balances :
      (arrivals : List Arrival) (n : Node)
      → (process_tickets c manifest params sender expiration none arrivals n).1.balances
        ≡ credit_all sender manifest
            (ticket_ev max_win_prob params.face_value params.win_prob)
            (accepted_times arrivals n.recipient)
            n.balances
  unfolding process_tickets next_error credit_ticket new_ticket accepted_times
  process_tickets-balances [] n = refl
  process_tickets-balances (a ∷ arrivals) n =
      let r = received a n.recipient in
      let ev = ticket_ev max_win_prob params.face_value params.win_prob in
      elim (Option-cases r.0.error) [
        | inl h ↦
            rw (accepted_times-next a arrivals n.recipient h)
              (rw (h, process_tickets) (process_tickets-balances arrivals _))
        | inr (e, h) ↦
            rw (accepted_times-failed a arrivals n.recipient e h)
              (elim (Bool-cases (is_fatal (some e))) [
                | inl stops ↦ rw (h, process_tickets, stops)
                | inr goes ↦ rw (h, process_tickets, goes) (failed-balances e arrivals _)
              ])
      ]
