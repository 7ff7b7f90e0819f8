-- ===== src/Pm/Validator.antt =====
-- pm/validator.go: whether a ticket is valid, and whether it won.
pub mod Checks
use livepeer.Base.{ℕ, ◌≡◌, Bool, not, List, ◌++◌, Option, none, some, ◌==◌, ltb, if◌then◌else◌}
use livepeer.Base.Bytes.{big_bytes}
use livepeer.Crypto.{Crypto}
use livepeer.Pm.Error.{
  Error, invalid_ticket_recipient, invalid_ticket_sender, invalid_ticket_recipient_rand,
  invalid_ticket_signature,
}
use livepeer.Pm.Ticket.{Ticket, hash, uint256_size, bytes32_size}

module _ (c : Crypto) where
  -- The commitment to a recipient's random number.
  unfoldable pub rand_hash : ℕ → ℕ
  rand_hash rand = c.keccak256 (c.left_pad (big_bytes rand) uint256_size)

  -- `validator.ValidateTicket`; `none` is the nil error.
  unfoldable pub validate_ticket : ℕ → Ticket → List ℕ → ℕ → Option Error
  unfolding rand_hash
  validate_ticket recipient ticket sig rand =
      if not (ticket.recipient == recipient)
      then some invalid_ticket_recipient
      else if ticket.sender == 0
      then some invalid_ticket_sender
      else if not (rand_hash rand == ticket.recipient_rand_hash)
      then some invalid_ticket_recipient_rand
      else if not (c.verify ticket.sender (c.hash_bytes (hash c ticket)) sig)
      then some invalid_ticket_signature
      else none

  -- `validator.IsWinningTicket`: H(SIG(H(T)), T.RecipientRand) < T.WinProb
  unfoldable pub is_winning_ticket : Ticket → List ℕ → ℕ → Bool
  is_winning_ticket ticket sig rand =
      ltb (c.keccak256 (sig ++ c.left_pad (big_bytes rand) bytes32_size)) ticket.win_prob
