-- ===== src/Pm/Queue/Redemptions.antt =====
-- pm/queue.go: which tickets a block event redeems.
use livepeer.Base.{
  ℕ, ◌≤◌, ◌≡◌, Bool, true, false, List, [], ◌∷◌, ◌++◌, Option, none, some, ◌⊎◌, length,
}
use livepeer.Base.Int.{ℤ}
use livepeer.Pm.Error.{Error, Result, ok, err}
use livepeer.Pm.Ticket.{SignedTicket}
use livepeer.Pm.Queue.{
  TicketStore, Queue, Redemption, Reply, Round, returns, continues, is_settled, min_creation_round,
  is_recipient_active,
}

abbrev pub earliest : List SignedTicket → Option SignedTicket
earliest [] = none
earliest (t ∷ ts) = some t

-- A call that may fail, and what it returns if it does not.
abbrev pub FailsOr {ℓ} : {A : Type ℓ} → Result A → A → Type ℓ
FailsOr r a = ((e : Error) × (r ≡ err e)) ⊎ (r ≡ ok a)

module _ {ℓ κ} {S : Type ℓ} {R : Type κ} (store : TicketStore S)
    (redeem : SignedTicket → R → Reply × R) (sender : ℕ) (last_round : ℤ) where
  -- What the store promises of the sender's valid tickets that are not redeemed: where it does not
  -- fail, it counts them, selects the earliest, and a ticket that is marked is not among them any
  -- more. A call that fails changes nothing. Marking does not change who is active.
  pub record QueueLaws : Type ℓ where
    pub view : S → List SignedTicket
    pub is_active : ℕ → Bool
    pub select :
        (s : S)
        → FailsOr
            (store.select_earliest sender (min_creation_round store redeem sender last_round) s)
            (earliest (view s))
    pub count :
        (s : S)
        → FailsOr
            (store.winning_ticket_count sender
              (min_creation_round store redeem sender last_round)
              s)
            (length (view s))
    pub active :
        (addr : ℕ) (s : S) → FailsOr (store.is_orch_active addr last_round s) (is_active addr)
    pub mark :
        (t : SignedTicket) (tx_hash : ℕ) (ts : List SignedTicket) (s : S)
        → view s ≡ t ∷ ts
        → ((store.mark_redeemed t tx_hash s).0 ≡ none)
            × (view (store.mark_redeemed t tx_hash s).1 ≡ ts)
          ⊎ ((e : Error) × ((store.mark_redeemed t tx_hash s).0 ≡ some e)
              × (view (store.mark_redeemed t tx_hash s).1 ≡ t ∷ ts))

  module _ (laws : QueueLaws) (latest_block : ℕ) where
    -- A ticket whose parameters have expired, and whose recipient the store calls active, or fails to tell.
    pub record IsDue (s : S) (t : SignedTicket) : Type ℓ where
      pub active : is_recipient_active store redeem sender last_round t.ticket.recipient s ≡ true
      pub expired : t.ticket.params_expiration_block ≤ latest_block

    -- What a redemption does to the store: if its reply settles the ticket, the store marks it, and it
    -- leaves the queue unless that fails; else nothing is changed.
    abbrev pub Leaves : Redemption → List SignedTicket → S → S → Type ℓ
    Leaves r later s s' =
        ((tx_hash : ℕ) × (is_settled r.reply ≡ true)
          × (s' ≡ (store.mark_redeemed r.ticket tx_hash s).1)
          × (((store.mark_redeemed r.ticket tx_hash s).0 ≡ none) × (laws.view s' ≡ later)
              ⊎ ((e : Error) × ((store.mark_redeemed r.ticket tx_hash s).0 ≡ some e)
                  × (laws.view s' ≡ r.ticket ∷ later))))
        ⊎ ((is_settled r.reply ≡ false) × (s' ≡ s))

    -- The redemptions take the store from one state to another: each is of the earliest ticket that is
    -- left, which is due.
    abbrev pub IsRun : List Redemption → S → S → Type ℓ
    IsRun [] s s' = s ≡ s'
    IsRun (r ∷ rs) s s' =
        (later : List SignedTicket) × (next : S) × (laws.view s ≡ r.ticket ∷ later)
        × IsDue s r.ticket
        × Leaves r later s next
        × IsRun rs next s'

    -- What the queue did from one state to another is such a run.
    pub record IsRedeemed (q q' : Queue S R) : Type (ℓ ⊔ κ) where
      pub redemptions : List Redemption
      pub sent : q'.sent ≡ q.sent ++ redemptions
      pub run : IsRun redemptions q.tickets q'.tickets

    abbrev OnRound : (Queue S R → Type (ℓ ⊔ κ)) → Round (Queue S R) → Type (ℓ ⊔ κ)
    OnRound P (returns q) = P q
    OnRound P (continues q) = P q
