-- ===== src/Pm/Recipient/RoundTrip.antt =====
-- A recipient accepts the tickets that are made from the parameters that it advertised.
use livepeer.Base.{
  ℕ, ◌+◌, ◌<◌, ◌≡◌, ◌≢◌, true, List, Option, none, some, arith, refl, ap, ◌∙◌, leb, false,
  Option-cases, inl, inr,
}
use livepeer.Base.Maps.{insert, nat_eq}
use livepeer.Base.Int.{ℤ}
use livepeer.Base.Rat.{Rat}
use livepeer.Crypto.{Crypto}
use livepeer.Pm.Error.{Result, ok, err, ◌>>=◌}
use livepeer.Pm.Ticket.{
  Ticket, TicketParams, TicketExpirationParams, new_ticket, expiration_params, hash,
}
use livepeer.Pm.Validator.{rand_hash, is_winning_ticket}
use livepeer.Pm.Validator.Checks.{IsValidTicket, validate_ticket_iff}
use livepeer.Pm.Recipient.{
  Recipient, TimeInfo, SenderNonce, SenderNonces, ticket_rand, update_sender_nonce, record_ticket,
  receive_ticket, params_expiration_block,
}
use livepeer.Pm.Recipient.Params.{params_for, priced_face_value, ticket_params}

-- The nonce was not used with this random number, nor a higher one.
abbrev pub IsFresh : ℕ → Option SenderNonce → Type 0
IsFresh nonce none = Unit {0}
IsFresh nonce (some sn) = sn.nonce < nonce

abbrev pub round_params : TimeInfo → TicketExpirationParams
round_params tm = record {
  creation_round = tm.last_initialized_round;
  creation_round_block_hash = tm.last_initialized_l1_block_hash;
}

module _ (c : Crypto) (r : Recipient) (tm : TimeInfo) where
  -- The ticket that a sender makes of parameters for a face value.
  abbrev pub own_ticket : ℕ → ℕ → Rat → ℕ → ℕ → Ticket
  own_ticket seed sender price face nonce =
      new_ticket (params_for c r tm seed sender price face) (round_params tm) sender nonce

  own_ticket-committed :
      (seed sender : ℕ) (price : Rat) (face nonce : ℕ)
      → rand_hash c (ticket_rand c r (own_ticket seed sender price face nonce) seed)
        ≡ (own_ticket seed sender price face nonce).recipient_rand_hash
  unfolding ticket_rand new_ticket expiration_params params_for
  own_ticket-committed seed sender price face nonce = refl

  own_ticket-IsValidTicket :
      (seed sender : ℕ) (price : Rat) (face nonce : ℕ) (sig : List ℕ)
      → sender ≢ 0
      → c.verify sender (c.hash_bytes (hash c (own_ticket seed sender price face nonce))) sig ≡ true
      → IsValidTicket c r.addr
          (own_ticket seed sender price face nonce)
          sig
          (ticket_rand c r (own_ticket seed sender price face nonce) seed)
  unfolding new_ticket params_for
  own_ticket-IsValidTicket seed sender price face nonce sig known signed = record {
    to_recipient = refl;
    has_sender = known;
    committed = own_ticket-committed seed sender price face nonce;
    signed = signed;
  }

record_ticket-accepts :
    (tm : TimeInfo) (r : Recipient) (t : Ticket) (rand_value : ℕ) (c : Crypto) (won : _)
    → IsFresh t.sender_nonce (r.sender_nonces rand_value)
    → tm.last_seen_l1_block < t.params_expiration_block
    → (record_ticket c tm r t rand_value won).0.error ≡ none
unfolding record_ticket update_sender_nonce
record_ticket-accepts tm r t rand_value c won fresh early = ground arith

-- An accepted ticket's nonce is stored, and nothing else changes.
abbrev pub stored : Recipient → ℕ → Ticket → Recipient
stored r rand_value t = record r {
  sender_nonces =
      insert rand_value
        (record { nonce = t.sender_nonce; expiration_block = t.params_expiration_block })
        r.sender_nonces;
}

update_sender_nonce-fresh :
    (r : Recipient) (t : Ticket) (rand_value : ℕ)
    → IsFresh t.sender_nonce (r.sender_nonces rand_value)
    → update_sender_nonce rand_value t r.sender_nonces
      ≡ (none, (stored r rand_value t).sender_nonces)
unfolding update_sender_nonce
update_sender_nonce-fresh r t rand_value fresh = elim (Option-cases (r.sender_nonces rand_value)) [
  | inl h ↦ rw (h, update_sender_nonce)
  | inr (sn, h) ↦
      let newer : sn.nonce < t.sender_nonce = rw h at fresh in
      let passes : leb t.sender_nonce sn.nonce ≡ false = ground arith in
      rw (h, update_sender_nonce, passes)
]

record_ticket-stored :
    (tm : TimeInfo) (r : Recipient) (t : Ticket) (rand_value : ℕ) (c : Crypto) (won : _)
    → IsFresh t.sender_nonce (r.sender_nonces rand_value)
    → (record_ticket c tm r t rand_value won).1 ≡ stored r rand_value t
unfolding record_ticket
record_ticket-stored tm r t rand_value c won fresh =
    let stores = update_sender_nonce-fresh r t rand_value fresh in
    rw (ap (λ p. p.0) stores, record_ticket) (ap (λ p. record r { sender_nonces = p.1 }) stores)

made_params :
    (c : Crypto) (r : Recipient) (tm : TimeInfo) (seed sender : ℕ) (price : Rat)
    (params : TicketParams) (face : Result ℕ)
    → (face >>= λ v. ok (params_for c r tm seed sender price v)) ≡ ok params
    → (v : ℕ) × (params ≡ params_for c r tm seed sender price v)
made_params c r tm seed sender price params (ok v) h = (v, cc)
made_params c r tm seed sender price params (err e) h = cc

-- Receiving a valid ticket of a known sender goes on to its nonce.
receive_valid :
    (c : Crypto) (tm : TimeInfo) (r : Recipient) (t : Ticket) (sig : List ℕ) (seed : ℕ)
    → IsValidTicket c r.addr t sig (ticket_rand c r t seed)
    → receive_ticket c none tm r t sig seed
      ≡ record_ticket c tm r t
          (ticket_rand c r t seed)
          (is_winning_ticket c t sig (ticket_rand c r t seed))
receive_valid c tm r t sig seed valid =
    let passes = (validate_ticket_iff c r.addr t sig (ticket_rand c r t seed)).1 valid in
    unfold receive_ticket in rw (passes, receive_ticket)

pub own_ticket-accepted :
    (c : Crypto) (r : Recipient) (tm later : TimeInfo) (seed sender : ℕ) (price : Rat)
    (face nonce : ℕ) (sig : List ℕ) (nonces : SenderNonces)
    → let t = own_ticket c r tm seed sender price face nonce in
      sender ≢ 0
      → c.verify sender (c.hash_bytes (hash c t)) sig ≡ true
      → IsFresh nonce (nonces (ticket_rand c r t seed))
      → later.last_seen_l1_block < tm.last_seen_l1_block + params_expiration_block
      → (receive_ticket c none later (record r { sender_nonces = nonces }) t sig seed).0.error
        ≡ none
own_ticket-accepted c r tm later seed sender price face nonce sig nonces known signed fresh early =
    let t = own_ticket c r tm seed sender price face nonce in
    let now = record r { sender_nonces = nonces } in
    let valid : IsValidTicket c now.addr t sig (ticket_rand c now t seed) =
      unfold ticket_rand in
      own_ticket-IsValidTicket c r tm seed sender price face nonce sig known signed in
    rw (receive_valid c later now t sig seed valid) (
      record_ticket-accepts later now t (ticket_rand c now t seed) c
        (is_winning_ticket c t sig (ticket_rand c now t seed))
        (unfold ticket_rand new_ticket in fresh) (unfold new_ticket params_for in early))

pub own_ticket-stored :
    (c : Crypto) (r : Recipient) (tm later : TimeInfo) (seed sender : ℕ) (price : Rat)
    (face nonce : ℕ) (sig : List ℕ) (nonces : SenderNonces)
    → let t = own_ticket c r tm seed sender price face nonce in
      let now = record r { sender_nonces = nonces } in
      sender ≢ 0
      → c.verify sender (c.hash_bytes (hash c t)) sig ≡ true
      → IsFresh nonce (nonces (ticket_rand c r t seed))
      → (receive_ticket c none later now t sig seed).1 ≡ stored now (ticket_rand c r t seed) t
unfolding ticket_rand
own_ticket-stored c r tm later seed sender price face nonce sig nonces known signed fresh =
    let t = own_ticket c r tm seed sender price face nonce in
    let now = record r { sender_nonces = nonces } in
    let valid : IsValidTicket c now.addr t sig (ticket_rand c now t seed) =
      unfold ticket_rand in
      own_ticket-IsValidTicket c r tm seed sender price face nonce sig known signed in
    rw (receive_valid c later now t sig seed valid) (
      record_ticket-stored later now t (ticket_rand c now t seed) c
        (is_winning_ticket c t sig (ticket_rand c now t seed))
        (unfold ticket_rand new_ticket in fresh))

-- A recipient that advertised parameters accepts, while they have not expired, every validly signed
-- ticket that a sender with an address makes of them with a nonce that is fresh, whatever tickets
-- it received in between (its nonces may be any), if the sender monitor validates the sender.
pub ticket_params-accepted :
    (c : Crypto) (r : Recipient) (tm later : TimeInfo) (gas_price : Option ℕ) (float : Result ℤ)
    (seed sender : ℕ) (price : Rat) (params : TicketParams) (nonce : ℕ) (sig : List ℕ)
    (nonces : SenderNonces) (t : Ticket)
    → ticket_params c r tm gas_price float seed sender price ≡ ok params
    → t ≡ new_ticket params (round_params tm) sender nonce
    → sender ≢ 0
    → c.verify sender (c.hash_bytes (hash c t)) sig ≡ true
    → IsFresh nonce (nonces (ticket_rand c r t seed))
    → later.last_seen_l1_block < tm.last_seen_l1_block + params_expiration_block
    → (params.expiration_params ≡ some (round_params tm))
      × ((receive_ticket c none later (record r { sender_nonces = nonces }) t sig seed).0.error
          ≡ none)
unfolding ticket_params
ticket_params-accepted c r tm later gas_price float seed sender price params nonce sig nonces t made
      e known signed fresh early =
    let (face, same) =
      made_params c r tm seed sender price params (priced_face_value r.cfg price gas_price float)
        made in
    let path : t ≡ own_ticket c r tm seed sender price face nonce =
      e ∙ ap (λ p. new_ticket p (round_params tm) sender nonce) same in
    (
      unfold params_for in (ap (λ (p : TicketParams). p.expiration_params) same),
      rw path (
          own_ticket-accepted c r tm later seed sender price face nonce sig nonces known
            (rw path at signed) (rw path at fresh) early),
    )
