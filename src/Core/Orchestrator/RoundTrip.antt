-- ===== src/Core/Orchestrator/RoundTrip.antt =====
-- core/orchestrator.go with pm/recipient.go: payments made of parameters that the orchestrator gave.
use Prim.Native.String.{String}
use livepeer.Base.{
  ℕ, ◌≡◌, ◌≢◌, ◌+◌, ◌<◌, refl, ap, sym, arith, false, ◌==◌, subst, true, List, [], ◌∷◌, Option,
  none, some,
}
use livepeer.Base.Rat.{Rat}
use livepeer.Base.Maps.{insert_self, nat_eq}
use livepeer.Crypto.{Crypto}
use livepeer.Pm.Ticket.{TicketParams, SignedTicket, hash, ticket_ev, new_ticket, expiration_params}
use livepeer.Pm.Recipient.{
  Recipient, TimeInfo, SenderNonce, SenderNonces, max_win_prob, params_expiration_block,
  receive_ticket, ticket_rand,
}
use livepeer.Pm.Recipient.Params.{params_for, priced_face_value, win_prob, ticket_params}
use livepeer.Pm.Recipient.RoundTrip.{
  IsFresh, round_params, own_ticket, own_ticket-accepted, own_ticket-stored, stored,
}
use livepeer.Core.Orchestrator.{
  Arrival, Node, Payment, payment_params, rat_price_info, is_payment_eligible, process_tickets,
  next_error, process_eligible, process_payment, option_map, ticket_error,
}
use livepeer.Base.Int.{ℤ}
use livepeer.Pm.Error.{Result, ok}
use livepeer.Core.Accounting.{AddressBalances}
use livepeer.Core.Orchestrator.Payments.{credit_all, accepted_times, process_tickets-balances}

abbrev pub times : List Arrival → List ℕ
times [] = []
times (a ∷ arrivals) = a.now ∷ times arrivals

module _ (c : Crypto) (r : Recipient) (tm : TimeInfo) (seed sender : ℕ) (price : Rat)
    (face : ℕ) where
  abbrev pub own_params : TicketParams
  own_params = payment_params (params_for c r tm seed sender price face) price

  -- The random number of every ticket that is made of the parameters.
  abbrev pub own_rand : ℕ
  own_rand = ticket_rand c r (own_ticket c r tm seed sender price face 0) seed

  -- Tickets with increasing nonces after what is on record, each validly signed and received from a
  -- sender that is allowed, before the parameters expire.
  abbrev pub IsBatch : Option SenderNonce → List Arrival → Type 0
  IsBatch sn [] = Unit {0}
  IsBatch sn (a ∷ arrivals) =
      (a.sender_error ≡ none)
      × (a.tm.last_seen_l1_block < tm.last_seen_l1_block + params_expiration_block)
      × (c.verify sender
            (c.hash_bytes (hash c (own_ticket c r tm seed sender price face a.sender_nonce))) a.sig
          ≡ true)
      × IsFresh a.sender_nonce sn
      × IsBatch
          (some (record {
            nonce = a.sender_nonce;
            expiration_block = tm.last_seen_l1_block + params_expiration_block;
          }))
          arrivals

  own_rand-eq :
      (nonce : ℕ) → ticket_rand c r (own_ticket c r tm seed sender price face nonce) seed ≡ own_rand
  unfolding ticket_rand new_ticket expiration_params
  own_rand-eq nonce = refl

  -- The orchestrator with other recorded nonces.
  abbrev pub node_with : SenderNonces → AddressBalances → List SignedTicket → Node
  node_with nonces b ts = record {
    recipient = record r { sender_nonces = nonces };
    balances = b;
    redeemed = ts;
  }

  own_received :
      (nonces : SenderNonces) (a : Arrival) (arrivals : List Arrival)
      → sender ≢ 0
      → IsBatch (nonces own_rand) (a ∷ arrivals)
      → let t = own_ticket c r tm seed sender price face a.sender_nonce in
        let now = record r { sender_nonces = nonces } in
        let received = receive_ticket c a.sender_error a.tm now t a.sig seed in
        (received.0.error ≡ none)
        × (received.1 ≡ stored now own_rand t)
        × IsBatch ((stored now own_rand t).sender_nonces own_rand) arrivals
  unfolding ticket_rand new_ticket expiration_params params_for
  own_received nonces a arrivals known (allowed, early, signed, fresh, later) = (
    rw (allowed) (
        own_ticket-accepted c r tm a.tm seed sender price face a.sender_nonce a.sig nonces known
          signed fresh early),
    rw (allowed) (
        own_ticket-stored c r tm a.tm seed sender price face a.sender_nonce a.sig nonces known
          signed fresh),
    subst (λ sn. IsBatch sn arrivals) (sym (insert_self own_rand _ nonces)) later,
  )

  process_own :
      (manifest : String) (nonces : SenderNonces) (arrivals : List Arrival) (b : AddressBalances)
      (ts : List SignedTicket)
      → sender ≢ 0
      → IsBatch (nonces own_rand) arrivals
      → let n = node_with nonces b ts in
        ((process_tickets c manifest own_params sender (round_params tm) none arrivals n).0 ≡ none)
        × (accepted_times c manifest own_params sender (round_params tm) arrivals n.recipient
            ≡ times arrivals)
  unfolding process_tickets accepted_times next_error params_for new_ticket
  process_own manifest nonces [] b ts known batch = (refl, refl)
  process_own manifest nonces (a ∷ arrivals) b ts known batch =
      let (passes, stores, rest) = own_received nonces a arrivals known batch in
      let t = own_ticket c r tm seed sender price face a.sender_nonce in
      let now = record r { sender_nonces = nonces } in
      let ih = process_own manifest (stored now own_rand t).sender_nonces arrivals in
      (
        rw (passes, process_tickets, stores) ((ih _ _ known rest).0),
        rw (passes, accepted_times, stores) (ap (λ l. a.now ∷ l) ((ih b ts known rest).1)),
      )

  -- The payment that a sender makes of the parameters.
  abbrev pub own_payment : ℤ → ℤ → Payment
  own_payment price_per_unit pixels_per_unit = record {
    ticket_params = some (params_for c r tm seed sender price face);
    sender = some sender;
    expiration_params = round_params tm;
    expected_price = some (price_per_unit, pixels_per_unit);
  }

  process_payment-tickets :
      (manifest : String) (arrivals : List Arrival) (n : Node) (price_per_unit pixels_per_unit : ℤ)
      (found : ℕ)
      → rat_price_info price_per_unit pixels_per_unit ≡ some price
      → found ≢ 0
      → let n' = process_tickets c manifest own_params sender (round_params tm) none arrivals n in
        process_payment c manifest
          (some found)
          (own_payment price_per_unit pixels_per_unit)
          arrivals
          n
        ≡ (option_map ticket_error n'.0, n'.1)
  unfolding process_payment process_eligible is_payment_eligible
  process_payment-tickets manifest arrivals n ppu pixels found same active =
      let eligible : (found == 0) ≡ false = ground arith in
      rw (eligible, process_payment, is_payment_eligible, same, process_eligible)

  -- An active orchestrator that gave parameters accepts a payment made of them at the price that they
  -- were given for, and credits the EV of each of its tickets to the sender's stream, whatever
  -- nonces it recorded in between. The tickets are validly signed, with fresh increasing nonces, and
  -- come before the parameters expire, and the sender monitor validates the sender for each of them.
  pub process_payment-credit_all :
      (manifest : String) (gas_price : Option ℕ) (float : Result ℤ) (nonces : SenderNonces)
      (arrivals : List Arrival) (b : AddressBalances) (ts : List SignedTicket)
      (price_per_unit pixels_per_unit : ℤ) (found : ℕ)
      → priced_face_value r.cfg price gas_price float ≡ ok face
      → rat_price_info price_per_unit pixels_per_unit ≡ some price
      → found ≢ 0
      → sender ≢ 0
      → IsBatch (nonces own_rand) arrivals
      → let n = node_with nonces b ts in
        let done =
          process_payment c manifest
            (some found)
            (own_payment price_per_unit pixels_per_unit)
            arrivals
            n in
        (ticket_params c r tm gas_price float seed sender price
          ≡ ok (params_for c r tm seed sender price face))
        × (done.0 ≡ none)
        × (done.1.balances
            ≡ credit_all sender manifest
                (ticket_ev max_win_prob face (win_prob r.cfg face))
                (times arrivals)
                b)
  unfolding ticket_params params_for
  process_payment-credit_all manifest gas_price float nonces arrivals b ts ppu pixels found made
        same active known batch =
      let n = node_with nonces b ts in
      let (succeeds, all) = process_own manifest nonces arrivals b ts known batch in
      let processed = process_payment-tickets manifest arrivals n ppu pixels found same active in
      let credits =
        process_tickets-balances c manifest own_params sender (round_params tm) arrivals n in
      (rw (made, ticket_params), rw (processed, succeeds), rw (processed) (rw (all) at credits))
