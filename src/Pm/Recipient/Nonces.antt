-- ===== src/Pm/Recipient/Nonces.antt =====
-- pm/recipient.go over time: tickets are received, blocks are seen, and the cleanup loop drops the
-- nonces whose parameters have expired, at any moment and for any block seen so far.
use livepeer.Base.{
  ℕ, ◌≤◌, ◌≡◌, ◌≢◌, ◌⊎◌, inl, inr, Bool, List, [], ◌∷◌, Option, none, some, arith, refl, ◌∙◌,
}
use livepeer.Crypto.{Crypto}
use livepeer.Pm.Error.{Error}
use livepeer.Pm.Ticket.{Ticket}
use livepeer.Pm.Validator.{is_winning_ticket}
use livepeer.Pm.Recipient.{
  Recipient, TimeInfo, SenderNonce, SenderNonces, Received, ticket_rand, update_sender_nonce,
  cleanup_nonces, record_ticket, receive_ticket,
}

-- A recipient together with what it sees of the chain.
pub record Node : Type 0 where
  pub recipient : Recipient
  pub tm : TimeInfo

-- `receive` carries the result of `ValidateSender`, a ticket, a signature and a seed.
pub data Event : Type 0 where
  receive : Option Error → Ticket → List ℕ → ℕ → Event
  see_block clean_up : ℕ → Event

module _ (c : Crypto) where
  unfoldable pub received : Node → Option Error → Ticket → List ℕ → ℕ → Received × Recipient
  received n sender_error t sig seed = receive_ticket c sender_error n.tm n.recipient t sig seed

  unfoldable pub step : Node → Event → Node
  unfolding received
  step n (receive sender_error t sig seed) = record n {
    recipient = (received n sender_error t sig seed).1;
  }
  step n (see_block b) = record n { tm = record (n.tm) { last_seen_l1_block = b } }
  step n (clean_up b) = record n {
    recipient = record (n.recipient) { sender_nonces = cleanup_nonces b n.recipient.sender_nonces };
  }

  unfoldable pub run : Node → List Event → Node
  run n [] = n
  run n (e ∷ es) = run (step n e) es

  -- Blocks do not go back, and the cleanup takes a block that was seen.
  abbrev pub IsAllowed : Node → Event → Type 0
  IsAllowed n (receive _ _ _ _) = Unit {0}
  IsAllowed n (see_block b) = n.tm.last_seen_l1_block ≤ b
  IsAllowed n (clean_up b) = b ≤ n.tm.last_seen_l1_block

  module _ (x expiration : ℕ) where
    -- A ticket with the random number x carries the expiration block that x was derived from.
    abbrev pub IsDerived : Node → Event → Type 0
    IsDerived n (receive _ t _ seed) =
        ticket_rand c n.recipient t seed ≡ x → t.params_expiration_block ≡ expiration
    IsDerived n (see_block _) = Unit {0}
    IsDerived n (clean_up _) = Unit {0}

    abbrev pub IsHistory : Node → List Event → Type 0
    IsHistory n [] = Unit {0}
    IsHistory n (e ∷ es) = IsAllowed n e × IsDerived n e × IsHistory (step n e) es

    -- The nonce is on record, or nothing with this random number is accepted any more.
    abbrev Covers : ℕ → Option SenderNonce → Type 0
    Covers nonce none = ⊥
    Covers nonce (some sn) = (nonce ≤ sn.nonce) × (sn.expiration_block ≡ expiration)

    abbrev IsProtected : ℕ → Node → Type 0
    IsProtected nonce n =
        (expiration ≤ n.tm.last_seen_l1_block) ⊎ Covers nonce (n.recipient.sender_nonces x)

    cleanup-IsProtected :
        (nonce b : ℕ) (n : Node)
        → b ≤ n.tm.last_seen_l1_block
        → IsProtected nonce n
        → IsProtected nonce (step n (clean_up b))
    unfolding step cleanup_nonces
    cleanup-IsProtected nonce b n seen (inl late) = inl late
    cleanup-IsProtected nonce b n seen (inr h) = ground arith

    -- An update for x itself stores the same expiration and a higher nonce; one for another random
    -- number leaves x alone.
    update-Covers :
        (nonce y : ℕ) (t : Ticket) (nonces : SenderNonces)
        → (y ≡ x → t.params_expiration_block ≡ expiration)
        → Covers nonce (nonces x)
        → Covers nonce ((update_sender_nonce y t nonces).1 x)
    unfolding update_sender_nonce
    update-Covers nonce y t nonces derived h = ground arith

    update_stores :
        (t : Ticket) (nonces : SenderNonces)
        → t.params_expiration_block ≡ expiration
        → (update_sender_nonce x t nonces).0 ≡ none
        → Covers t.sender_nonce ((update_sender_nonce x t nonces).1 x)
    unfolding update_sender_nonce
    update_stores t nonces derived h = ground arith

    update_refuses :
        (nonce : ℕ) (t : Ticket) (nonces : SenderNonces)
        → t.sender_nonce ≤ nonce
        → Covers nonce (nonces x)
        → (update_sender_nonce x t nonces).0 ≢ none
    unfolding update_sender_nonce
    update_refuses nonce t nonces old h = ground arith

    record-Covers :
        (nonce y : ℕ) (tm : TimeInfo) (r : Recipient) (t : Ticket) (won : Bool)
        → (y ≡ x → t.params_expiration_block ≡ expiration)
        → Covers nonce (r.sender_nonces x)
        → Covers nonce ((record_ticket c tm r t y won).1.sender_nonces x)
    unfolding record_ticket
    record-Covers nonce y tm r t won derived h =
        ground (arith, update-Covers nonce y t r.sender_nonces derived h)

    receive-Covers :
        (nonce : ℕ) (n : Node) (e : Option Error) (t : Ticket) (sig : List ℕ) (seed : ℕ)
        → IsDerived n (receive e t sig seed)
        → Covers nonce (n.recipient.sender_nonces x)
        → Covers nonce ((received n e t sig seed).1.sender_nonces x)
    unfolding received receive_ticket
    receive-Covers nonce n e t sig seed derived h =
        let y = ticket_rand c n.recipient t seed in
        let won = is_winning_ticket c t sig y in
        ground (arith, record-Covers nonce y n.tm n.recipient t won derived h)

    step-IsProtected :
        (nonce : ℕ) (n : Node) (e : Event)
        → IsAllowed n e
        → IsDerived n e
        → IsProtected nonce n
        → IsProtected nonce (step n e)
    unfolding step
    step-IsProtected nonce n (receive e t sig seed) allowed derived (inl late) = inl late
    step-IsProtected nonce n (receive e t sig seed) allowed derived (inr h) =
        inr (receive-Covers nonce n e t sig seed derived h)
    step-IsProtected nonce n (see_block b) allowed derived (inl late) = inl (omega arith)
    step-IsProtected nonce n (see_block b) allowed derived (inr h) = inr h
    step-IsProtected nonce n (clean_up b) allowed derived h =
        cleanup-IsProtected nonce b n allowed h

    run-IsProtected :
        (nonce : ℕ) (n : Node) (es : List Event)
        → IsHistory n es
        → IsProtected nonce n
        → IsProtected nonce (run n es)
    unfolding run
    run-IsProtected nonce n [] history h = h
    run-IsProtected nonce n (e ∷ es) history h =
        run-IsProtected nonce (step n e) es history.2
          (step-IsProtected nonce n e history.0 history.1 h)

    record_stores :
        (tm : TimeInfo) (r : Recipient) (t : Ticket) (won : Bool)
        → t.params_expiration_block ≡ expiration
        → (record_ticket c tm r t x won).0.error ≡ none
        → Covers t.sender_nonce ((record_ticket c tm r t x won).1.sender_nonces x)
    unfolding record_ticket
    record_stores tm r t won derived h = ground (arith, update_stores t r.sender_nonces derived)

    record_refuses :
        (nonce : ℕ) (n : Node) (t : Ticket) (won : Bool)
        → t.params_expiration_block ≡ expiration
        → t.sender_nonce ≤ nonce
        → IsProtected nonce n
        → (record_ticket c n.tm n.recipient t x won).0.error ≢ none
    unfolding record_ticket
    record_refuses nonce n t won derived old h =
        ground (arith, update_refuses nonce t n.recipient.sender_nonces old)

  accepted-IsProtected :
      (n : Node) (e : Option Error) (t : Ticket) (sig : List ℕ) (seed : ℕ)
      → (received n e t sig seed).0.error ≡ none
      → IsProtected
          (ticket_rand c n.recipient t seed)
          t.params_expiration_block
          t.sender_nonce
          (step n (receive e t sig seed))
  unfolding step received receive_ticket
  accepted-IsProtected n e t sig seed h =
      let y = ticket_rand c n.recipient t seed in
      let won = is_winning_ticket c t sig y in
      ground (arith, record_stores y t.params_expiration_block n.tm n.recipient t won refl)

  protected_refuses :
      (nonce : ℕ) (n : Node) (e : Option Error) (t : Ticket) (sig : List ℕ) (seed : ℕ)
      → t.sender_nonce ≤ nonce
      → IsProtected (ticket_rand c n.recipient t seed) t.params_expiration_block nonce n
      → (received n e t sig seed).0.error ≢ none
  unfolding received receive_ticket
  protected_refuses nonce n e t sig seed old h =
      let y = ticket_rand c n.recipient t seed in
      let won = is_winning_ticket c t sig y in
      ground (arith, record_refuses y t.params_expiration_block nonce n t won refl old h)

  -- Receiving leaves the recipient's secret alone, so random numbers stay what they were.
  receive-secret :
      (n : Node) (e : Option Error) (t : Ticket) (sig : List ℕ) (seed : ℕ)
      → (received n e t sig seed).1.secret ≡ n.recipient.secret
  unfolding received receive_ticket record_ticket
  receive-secret n e t sig seed = ground arith

  step-secret : (n : Node) (e : Event) → (step n e).recipient.secret ≡ n.recipient.secret
  unfolding step
  step-secret n (receive e t sig seed) = receive-secret n e t sig seed
  step-secret n (see_block b) = refl
  step-secret n (clean_up b) = refl

  run-secret : (n : Node) (es : List Event) → (run n es).recipient.secret ≡ n.recipient.secret
  unfolding run
  run-secret n [] = refl
  run-secret n (e ∷ es) = run-secret (step n e) es ∙ step-secret n e

  run-ticket_rand :
      (n : Node) (es : List Event) (t : Ticket) (seed : ℕ)
      → ticket_rand c (run n es).recipient t seed ≡ ticket_rand c n.recipient t seed
  unfolding ticket_rand
  run-ticket_rand n es t seed = rw (run-secret n es)

  -- Once a ticket was accepted, no ticket with the same random number and the same or a lower nonce
  -- is accepted again, whatever is received, seen and cleaned up in between: as long as the blocks
  -- seen do not go back, and the tickets with that random number carry its expiration block.
  pub accepted_once :
      (n : Node) (e e' : Option Error) (t t' : Ticket) (sig sig' : List ℕ) (seed seed' : ℕ)
      (es : List Event)
      → (received n e t sig seed).0.error ≡ none
      → IsHistory
          (ticket_rand c n.recipient t seed)
          t.params_expiration_block
          (step n (receive e t sig seed))
          es
      → ticket_rand c n.recipient t' seed' ≡ ticket_rand c n.recipient t seed
      → t'.params_expiration_block ≡ t.params_expiration_block
      → t'.sender_nonce ≤ t.sender_nonce
      → (received (run (step n (receive e t sig seed)) es) e' t' sig' seed').0.error ≢ none
  unfolding step run
  accepted_once n e e' t t' sig sig' seed seed' es accepted history same_rand same_expiration old =
      let after = step n (receive e t sig seed) in
      let x = ticket_rand c n.recipient t seed in
      let path : ticket_rand c (run after es).recipient t' seed' ≡ x =
        run-ticket_rand n (receive e t sig seed ∷ es) t' seed' ∙ same_rand in
      protected_refuses t.sender_nonce (run after es) e' t' sig' seed' old (
        rw (path, same_expiration)
          (run-IsProtected x t.params_expiration_block t.sender_nonce after es history
            (accepted-IsProtected n e t sig seed accepted)))
