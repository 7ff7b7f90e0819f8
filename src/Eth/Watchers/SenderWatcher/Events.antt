-- ===== src/Eth/Watchers/SenderWatcher/Events.antt =====
-- eth/watchers/senderwatcher.go: what events do to the cached senders.
use livepeer.Base.{
  ℕ, ◌≤◌, ◌≡◌, refl, ap, ◌∙◌, true, false, List, [], ◌∷◌, none, some, arith, Bool-cases,
  Option-cases, inl, inr, ltb, ◌==◌, ◌&&◌, ◌⊎◌, ◌<◌,
}
use livepeer.Base.Int.{pos, ◌+ℤ◌, int_laws}
use livepeer.Base.Maps.{insert_self, insert, nat_eq}
use livepeer.Pm.Error.{Error, ok, err, Result-cases}
use livepeer.Pm.Sender.{SenderInfo}
use livepeer.Eth.Watchers.SenderWatcher.{
  SenderWatcher, Rpc, Log, winning_ticket_transfer, handle_log, apply_log, pay_ticket, claim_ticket,
  log_sender, is_reserve_funded, reload_sender, handle_round_event, reread_senders, reread_claimed,
}

-- A ticket of `amount` was paid out of `info`, which left `paid`.
pub record IsPaidOut (amount : ℕ) (info paid : SenderInfo) : Type 0 where
  pub total :
      (pos paid.deposit +ℤ paid.reserve.funds_remaining) +ℤ pos amount
      ≡ pos info.deposit +ℤ info.reserve.funds_remaining
  pub reserve :
      paid.reserve.funds_remaining +ℤ pos paid.reserve.claimed_in_current_round
      ≡ info.reserve.funds_remaining +ℤ pos info.reserve.claimed_in_current_round
  pub deposit : paid.deposit ≤ info.deposit
  pub drained : info.deposit ≤ amount → paid.deposit ≡ 0
  pub untouched : amount ≤ info.deposit → paid.reserve ≡ info.reserve
  pub round : paid.withdraw_round ≡ info.withdraw_round

pay_ticket-IsPaidOut :
    (amount : ℕ) (info : SenderInfo) → IsPaidOut amount info (pay_ticket amount info)
unfolding pay_ticket
pay_ticket-IsPaidOut amount info = elim (Bool-cases (ltb info.deposit amount)) [
  | inl h ↦
      let low : info.deposit < amount = ground arith in
      record {
        total = rw (h) (omega int_laws);
        reserve = rw (h) (omega int_laws);
        deposit = ground arith;
        drained = ground arith;
        untouched = ground arith;
        round = ground arith;
      }
  | inr h ↦
      let high : amount ≤ info.deposit = ground arith in
      record {
        total = rw (h) (omega int_laws);
        reserve = rw (h) refl;
        deposit = ground arith;
        drained = ground arith;
        untouched = ground arith;
        round = ground arith;
      }
]

-- A winning ticket of a cached sender is paid from the deposit, all of which is used before the
-- reserve pays what it does not cover; what the reserve pays is counted as claimed in the round.
pub handle_log-transfer :
    (rpc : Rpc) (s r amount : ℕ) (w : SenderWatcher) (info : SenderInfo)
    → w.senders s ≡ some info
    → (paid : SenderInfo) × ((handle_log rpc false (winning_ticket_transfer s r amount) w).1.senders
          s
        ≡ some paid)
      × IsPaidOut amount info paid
unfolding handle_log apply_log claim_ticket
handle_log-transfer rpc s r amount w info cached = (
  pay_ticket amount info,
  elim (Bool-cases (ltb info.deposit amount && w.self == r)) [
    | inl h ↦ rw (cached, h, insert_self)
    | inr h ↦ rw (cached, h, insert_self)
  ],
  pay_ticket-IsPaidOut amount info,
)

handle_log-reload_sender :
    (rpc : Rpc) (log : Log) (s : ℕ) (w : SenderWatcher) (info : SenderInfo)
    → log_sender log ≡ some s
    → w.senders s ≡ some info
    → handle_log rpc true log w ≡ reload_sender rpc log s w
unfolding handle_log
handle_log-reload_sender rpc log s w info of_sender cached = rw (of_sender, cached, handle_log) refl

reload_sender-stored :
    (rpc : Rpc) (log : Log) (s : ℕ) (w : SenderWatcher) (new : SenderInfo)
    → rpc.sender_info s ≡ ok new
    → ((reload_sender rpc log s w).0 ≡ none) × ((reload_sender rpc log s w).1.senders s ≡ some new)
unfolding reload_sender
reload_sender-stored rpc log s w new h = (
  rw (h, reload_sender),
  elim (Bool-cases (is_reserve_funded log)) [
    | inl r ↦ rw (h, reload_sender, r, insert_self)
    | inr r ↦ rw (h, reload_sender, r, insert_self)
  ],
)

reload_sender-failed :
    (rpc : Rpc) (log : Log) (s : ℕ) (w : SenderWatcher) (e : Error)
    → rpc.sender_info s ≡ err e
    → reload_sender rpc log s w ≡ (some e, w)
unfolding reload_sender
reload_sender-failed rpc log s w e h = rw (h, reload_sender)

-- An event of a removed block whose sender is cached replaces what is cached by what the remote
-- node answers, or returns its error and keeps everything.
pub handle_log-removed :
    (rpc : Rpc) (log : Log) (s : ℕ) (w : SenderWatcher) (info : SenderInfo)
    → log_sender log ≡ some s
    → w.senders s ≡ some info
    → ((new : SenderInfo) × (rpc.sender_info s ≡ ok new)
        × ((handle_log rpc true log w).0 ≡ none)
        × ((handle_log rpc true log w).1.senders s ≡ some new))
      ⊎ ((e : Error) × (rpc.sender_info s ≡ err e) × (handle_log rpc true log w ≡ (some e, w)))
handle_log-removed rpc log s w info of_sender cached =
    let reloads = handle_log-reload_sender rpc log s w info of_sender cached in
    elim (Result-cases (rpc.sender_info s)) [
      | inl (new, h) ↦
          let stored = reload_sender-stored rpc log s w new h in
          inl (new, h, rw (reloads) (stored.0), rw (reloads) (stored.1))
      | inr (e, h) ↦ inr (e, h, reloads ∙ reload_sender-failed rpc log s w e h)
    ]

reread_senders-senders :
    (rpc : Rpc) (ss : List ℕ) (w : SenderWatcher) (j : ℕ)
    → (reread_senders rpc ss w).1.senders j ≡ w.senders j
unfolding reread_senders
reread_senders-senders rpc [] w j = refl
reread_senders-senders rpc (s ∷ ss) w j = elim (Option-cases (w.senders s)) [
  | inl h ↦ rw (h, reread_senders) (reread_senders-senders rpc ss w j)
  | inr (info, h) ↦ elim (Result-cases (rpc.sender_info s)) [
    | inl (new, answer) ↦ rw (h, answer, reread_senders) (reread_senders-senders rpc ss w j)
    | inr (e, answer) ↦ rw (h, answer, reread_senders)
  ]
]

reread_claimed-senders :
    (rpc : Rpc) (ss : List ℕ) (w : SenderWatcher) → (reread_claimed rpc ss w).1.senders ≡ w.senders
unfolding reread_claimed
reread_claimed-senders rpc [] w = refl
reread_claimed-senders rpc (s ∷ ss) w = elim (Option-cases (w.claimed_reserve s)) [
  | inl h ↦ rw (h, reread_claimed) (reread_claimed-senders rpc ss w)
  | inr (old, h) ↦ elim (Result-cases (rpc.claimed s)) [
    | inl (c, answer) ↦
        rw (h, answer, reread_claimed)
          (reread_claimed-senders rpc ss
            (record w { claimed_reserve = insert s c w.claimed_reserve }))
    | inr (e, answer) ↦ rw (h, answer, reread_claimed)
  ]
]

-- The event of a removed round leaves every cached sender as it is, whatever the remote node answers,
-- where its answers share nothing with the cache.
pub handle_round_event-senders :
    (rpc : Rpc) (senders claims : List ℕ) (w : SenderWatcher) (j : ℕ)
    → (handle_round_event rpc senders claims true w).1.senders j ≡ w.senders j
unfolding handle_round_event
handle_round_event-senders rpc senders claims w j =
    let kept = reread_senders-senders rpc senders w j in
    elim (Option-cases (reread_senders rpc senders w).0) [
      | inl h ↦
          (rw (h, handle_round_event)
            (ap (λ m. m j) (reread_claimed-senders rpc claims (reread_senders rpc senders w).1)))
          ∙ kept
      | inr (e, h) ↦ rw (h, handle_round_event) kept
    ]
