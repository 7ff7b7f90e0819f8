-- ===== src/Pm/Queue/Drain.antt =====
-- pm/queue.go: a block event redeems the whole queue where nothing stands in the way.
use mathlib.Core.List.{append_assoc, append-nil, map-append}
use livepeer.Base.{
  ℕ, ◌≡◌, refl, sym, ap, ◌∙◌, true, List, [], ◌∷◌, ◌++◌, map, leb, length, le→leb, arith, ◌≤◌, none,
  inl, inr,
}
use livepeer.Base.Int.{ℤ}
use livepeer.Pm.Error.{ok}
use livepeer.Pm.Ticket.{SignedTicket}
use livepeer.Pm.Queue.{
  TicketStore, Queue, Redemption, Reply, stopped, answered, continues, is_settled, settle,
  redeem_next, redeem_tickets, handle_block_event, min_creation_round, is_recipient_active,
}
use livepeer.Pm.Queue.Redemptions.{QueueLaws, earliest}

abbrev pub tickets_of : List Redemption → List SignedTicket
tickets_of rs = map (λ r. r.ticket) rs

module _ {ℓ κ} {S : Type ℓ} {R : Type κ} (store : TicketStore S)
    (redeem : SignedTicket → R → Reply × R) (sender : ℕ) (last_round : ℤ)
    (laws : QueueLaws store redeem sender last_round) (latest_block : ℕ) where
  -- No call of the store fails for the tickets of the queue.
  pub record IsReliable : Type ℓ where
    pub selects :
        (s : S)
        → store.select_earliest sender (min_creation_round store redeem sender last_round) s
          ≡ ok (earliest (laws.view s))
    pub counts :
        (s : S)
        → store.winning_ticket_count sender (min_creation_round store redeem sender last_round) s
          ≡ ok (length (laws.view s))
    pub marks :
        (t : SignedTicket) (tx_hash : ℕ) (ts : List SignedTicket) (s : S)
        → laws.view s ≡ t ∷ ts
        → (store.mark_redeemed t tx_hash s).0 ≡ none

  -- The tickets' recipients are active, and their parameters have expired.
  abbrev pub AreDue : List SignedTicket → Type 0
  AreDue [] = Unit
  AreDue (t ∷ ts) =
      (laws.is_active t.ticket.recipient ≡ true)
      × (t.ticket.params_expiration_block ≤ latest_block)
      × AreDue ts

  active-recipient :
      (addr : ℕ) (s : S)
      → laws.is_active addr ≡ true
      → is_recipient_active store redeem sender last_round addr s ≡ true
  active-recipient addr s active = elim (laws.active addr s) [
    | inl (e, failed) ↦ rw (failed, is_recipient_active)
    | inr told ↦ rw (told, is_recipient_active) active
  ]

  marked :
      IsReliable
      → (t : SignedTicket) (tx_hash : ℕ) (ts : List SignedTicket) (s : S) → laws.view s ≡ t ∷ ts
      → laws.view (store.mark_redeemed t tx_hash s).1 ≡ ts
  marked reliable t tx_hash ts s e = elim (laws.mark t tx_hash ts s e) [
    | inl (none_failed, gone) ↦ gone
    | inr (failure, failed, kept) ↦ absurd (cc (failed, reliable.marks t tx_hash ts s e))
  ]

  -- One ticket left the queue and was redeemed.
  record IsNext (t : SignedTicket) (ts : List SignedTicket) (q q' : Queue S R) : Type 0 where
    left : laws.view q'.tickets ≡ ts
    redeemed : tickets_of q'.sent ≡ tickets_of q.sent ++ t ∷ []

  settle-IsNext :
      IsReliable
      → (t : SignedTicket) (ts : List SignedTicket) (p : Reply × R) (q : Queue S R)
      → laws.view q.tickets ≡ t ∷ ts
      → is_settled p.0 ≡ true
      → (q' : Queue S R) × (settle store redeem sender last_round t p q ≡ continues q')
        × IsNext t ts q q'
  unfolding settle
  settle-IsNext reliable t ts (stopped, c) q e done = ground arith
  settle-IsNext reliable t ts (answered tx_hash failed, c) q e done =
      let reply : Reply = answered tx_hash failed in
      let q' : Queue S R = record {
        tickets = (store.mark_redeemed t tx_hash q.tickets).1;
        consumer = c;
        sent = q.sent ++ record { ticket = t; reply = reply } ∷ [];
      } in
      (
        q',
        rw (done) refl,
        record {
          left = marked reliable t tx_hash ts q.tickets e;
          redeemed = map-append (λ r. r.ticket) q.sent (record { ticket = t; reply = reply } ∷ []);
        },
      )

  redeem_next-eq :
      IsReliable
      → (t : SignedTicket) (ts : List SignedTicket) (q : Queue S R)
      → laws.is_active t.ticket.recipient ≡ true
      → t.ticket.params_expiration_block ≤ latest_block
      → laws.view q.tickets ≡ t ∷ ts
      → redeem_next store redeem sender last_round latest_block
          (store.select_earliest sender
            (min_creation_round store redeem sender last_round)
            q.tickets)
          q
        ≡ settle store redeem sender last_round t (redeem t q.consumer) q
  unfolding redeem_next
  redeem_next-eq reliable t ts q active due e =
      let expired : leb t.ticket.params_expiration_block latest_block ≡ true =
        le→leb t.ticket.params_expiration_block latest_block due in
      rw
        (
          reliable.selects q.tickets,
          e,
          active-recipient t.ticket.recipient q.tickets active,
          expired,
        )
        refl

  redeem_next-IsNext :
      IsReliable
      → (t : SignedTicket) (ts : List SignedTicket) (q : Queue S R)
      → laws.is_active t.ticket.recipient ≡ true
      → t.ticket.params_expiration_block ≤ latest_block
      → laws.view q.tickets ≡ t ∷ ts
      → is_settled (redeem t q.consumer).0 ≡ true
      → (q' : Queue S R) × (redeem_next store redeem sender last_round latest_block
            (store.select_earliest sender
              (min_creation_round store redeem sender last_round)
              q.tickets)
            q
          ≡ continues q')
        × IsNext t ts q q'
  redeem_next-IsNext reliable t ts q active due e done =
      let (q', eq, next) = settle-IsNext reliable t ts (redeem t q.consumer) q e done in
      (q', redeem_next-eq reliable t ts q active due e ∙ eq, next)

  redeem_tickets-drains :
      IsReliable
      → (ts : List SignedTicket) (q : Queue S R) → laws.view q.tickets ≡ ts
      → AreDue ts
      → ((t : SignedTicket) (c : R) → is_settled (redeem t c).0 ≡ true)
      → (let q' = redeem_tickets store redeem sender last_round (length ts) latest_block q in
          (laws.view q'.tickets ≡ []) × (tickets_of q'.sent ≡ tickets_of q.sent ++ ts))
  unfolding redeem_tickets
  redeem_tickets-drains reliable [] q e due done = (e, sym (append-nil (tickets_of q.sent)))
  redeem_tickets-drains reliable (t ∷ ts) q e (active, due, dues) done =
      let (q', eq, next) = redeem_next-IsNext reliable t ts q active due e (done t q.consumer) in
      let (empty, redeemed) = redeem_tickets-drains reliable ts q' next.left dues done in
      rw (redeem_tickets, eq)
        (
          empty,
          redeemed ∙ ap (λ l. l ++ ts) next.redeemed ∙ append_assoc (tickets_of q.sent) (t ∷ []) ts,
        )

  -- While no call of the store for the queue fails: where every ticket in it is due and of an active
  -- recipient, and every redemption succeeds or fails for good, a block event redeems each of them
  -- once, in order, and leaves none.
  pub handle_block_event-drains :
      IsReliable
      → (q : Queue S R) → AreDue (laws.view q.tickets)
      → ((t : SignedTicket) (c : R) → is_settled (redeem t c).0 ≡ true)
      → (let q' = handle_block_event store redeem sender last_round latest_block q in
          (laws.view q'.tickets ≡ [])
          × (tickets_of q'.sent ≡ tickets_of q.sent ++ laws.view q.tickets))
  unfolding handle_block_event
  handle_block_event-drains reliable q due done =
      rw (handle_block_event, reliable.counts q.tickets)
        (redeem_tickets-drains reliable (laws.view q.tickets) q refl due done)
