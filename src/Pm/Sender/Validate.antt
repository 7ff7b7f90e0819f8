-- ===== src/Pm/Sender/Validate.antt =====
-- pm/sender.go: which ticket parameters a sender accepts for a number of tickets.
use livepeer.Base.{ℕ, ◌/◌, ◌≤◌, ◌≡◌, ◌≢◌, ◌⊎◌}
use livepeer.Base.Int.{pos, ◌+ℤ◌, ◌-ℤ◌, ◌≤ℤ◌, ◌<ℤ◌}
use livepeer.Base.Rat.{Rat, of_int, zero_rat, mul, ◌≤ℚ◌, ◌<ℚ◌}
use livepeer.Base.Words.{int64_of_big, int64_of_int}
use livepeer.Pm.Error.{Result, ok}
use livepeer.Pm.Ticket.{TicketParams, ticket_ev}
use livepeer.Pm.Recipient.{TimeInfo, max_win_prob}
use livepeer.Pm.Sender.{Sender, SenderInfo, params_expiry_buffer}

module _ (s : Sender) (tm : TimeInfo) (params : TicketParams) (num_tickets : ℕ) where
  abbrev pub ev_of_params : Rat
  ev_of_params = ticket_ev max_win_prob params.face_value params.win_prob

  -- The sender's funds do not unlock by the next round, are not empty, and cover the tickets: the total expected value
  -- is within the maximum, and the face value within the deposit over the multiplier.
  pub record IsFunded (info : SenderInfo) : Type 0 where
    pub locked :
        (int64_of_big info.withdraw_round ≡ pos 0)
        ⊎ (tm.last_initialized_round +ℤ pos 1 <ℤ pos info.withdraw_round)
    pub has_reserve : info.reserve.funds_remaining ≢ pos 0
    pub has_deposit : info.deposit ≢ 0
    pub total_ev : mul ev_of_params (of_int (pos num_tickets)) ≤ℚ s.max_ev
    pub face_value : params.face_value ≤ info.deposit / s.deposit_multiplier

  -- Whether the parameters expire too soon to be used.
  abbrev IsExpiring : Type 0
  IsExpiring =
      int64_of_int (pos params.expiration_block -ℤ pos tm.last_seen_l1_block)
      ≤ℤ pos params_expiry_buffer

  -- The sender manager answers with funds that cover the tickets.
  pub record IsPaid (sender_info : Result SenderInfo) : Type 0 where
    pub info : SenderInfo
    pub answer : sender_info ≡ ok info
    pub funded : IsFunded info

  -- What acceptance means: the parameters never expire, or they do not expire too soon and either
  -- ask for no payment or for one that is below the face value and funded.
  abbrev pub IsAcceptable : Result SenderInfo → Type 0
  IsAcceptable sender_info =
      (int64_of_big params.expiration_block ≡ pos 0)
      ⊎ (¬ IsExpiring
          × ((ev_of_params ≤ℚ zero_rat)
              ⊎ ((ev_of_params <ℚ of_int (pos params.face_value)) × IsPaid sender_info)))
