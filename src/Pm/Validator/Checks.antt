-- ===== src/Pm/Validator/Checks.antt =====
-- What validation accepts and what it rejects.
use livepeer.Base.{ℕ, ◌≡◌, ◌≢◌, ◌↔◌, true, List, none, arith}
use livepeer.Crypto.{Crypto}
use livepeer.Pm.Ticket.{Ticket, hash}
use livepeer.Pm.Validator.{rand_hash, validate_ticket}

module _ (c : Crypto) (recipient : ℕ) (t : Ticket) (sig : List ℕ) (rand : ℕ) where
  -- The four conditions of a valid ticket.
  pub record IsValidTicket : Type 0 where
    pub to_recipient : t.recipient ≡ recipient
    pub has_sender : t.sender ≢ 0
    pub committed : rand_hash c rand ≡ t.recipient_rand_hash
    pub signed : c.verify t.sender (c.hash_bytes (hash c t)) sig ≡ true

  -- A ticket passes exactly if it names this recipient, has a sender, commits to the revealed
  -- random number and carries the sender's signature over its hash.
  pub validate_ticket_iff : (validate_ticket c recipient t sig rand ≡ none) ↔ IsValidTicket
  unfolding validate_ticket
  validate_ticket_iff = ground arith
