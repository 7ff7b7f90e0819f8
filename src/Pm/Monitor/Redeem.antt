-- ===== src/Pm/Monitor/Redeem.antt =====
-- pm/sendermonitor.go: `redeemWinningTicket`, and its runs for several senders at once. Each sender
-- has one queue consumer, so at most one of its tickets is being redeemed at a time; `cleanup` hands
-- the consumer a signal, which it takes only between two redemptions.
use livepeer.Base.{
  ℕ, ◌+◌, ◌*◌, ◌≤◌, ◌≡◌, ◌≢◌, inl, inr, ◌∙◌, Bool, true, Option, none, some, arith, if◌then◌else◌,
  Option-cases, ◌==◌,
}
use livepeer.Base.Int.{ℤ, pos, leb_ℤ}
use livepeer.Base.Maps.{insert, erase, nat_eq}
use livepeer.Pm.Error.{
  Error, Result, ok, err, is_used_ticket, insufficient_sender_funds, insufficient_ticket_face_value,
}
use livepeer.Pm.Ticket.{SignedTicket}
use livepeer.Pm.Monitor.{
  Monitor, Chain, RemoteSender, MonitorConfig, available_funds, ensure_cache, add_float, sub_float,
  subscribe_max_float_change, clean_up, is_inactive,
}

-- What the broker and the gas price oracle answer about one ticket: whether it is used, the gas
-- price, the submitted transaction (a number stands for it) and the error of its confirmation.
pub record Broker : Type 0 where
  pub is_used : Result Bool
  pub gas_price : Result ℕ
  pub redeem : Result ℕ
  pub check_tx : Option Error

-- The tests before a ticket is submitted, on the available funds; `none` lets it pass.
unfoldable pub redeem_error : MonitorConfig → Broker → ℕ → Result ℤ → Option Error
redeem_error cfg b face (err e) = some e
redeem_error cfg b face (ok funds) = elim b.is_used [
  | err e ↦ some e
  | ok used ↦ if used then some is_used_ticket else elim b.gas_price [
    | err e ↦ some e
    | ok price ↦
        if leb_ℤ funds (pos (cfg.redeem_gas * price))
        then some insufficient_sender_funds
        else if leb_ℤ (pos face) (pos (cfg.redeem_gas * price))
        then some insufficient_ticket_face_value
        else none
  ]
]

-- `redeemWinningTicket` up to and with `subFloat`.
unfoldable pub start_redeem : Chain → Broker → ℕ → ℕ → ℕ → Monitor → Option Error × Monitor
unfolding redeem_error
start_redeem ch b now addr face m =
    let (funds, m') = available_funds ch now addr m in
    elim (redeem_error m.cfg b face funds) [
      | some e ↦ (some e, m')
      | none ↦ (none, sub_float now addr face m')
    ]

-- What is returned after the submission: a transaction, if one was sent, and an error.
unfoldable pub submitted : Broker → Option ℕ × Option Error
submitted b = elim b.redeem [ err e ↦ (none, some e) | ok tx ↦ (some tx, b.check_tx) ]

-- `redeemWinningTicket` where nothing runs in between; the deferred `addFloat` ends it.
unfoldable pub redeem_winning_ticket :
    Chain → Broker → ℕ → ℕ → SignedTicket → Monitor → (Option ℕ × Option Error) × Monitor
unfolding start_redeem submitted
redeem_winning_ticket ch b now later t m =
    let addr = t.ticket.sender in
    let (failed, m') = start_redeem ch b now addr t.ticket.face_value m in
    elim failed [
      | some e ↦ ((none, some e), m')
      | none ↦ (submitted b, (add_float later addr t.ticket.face_value m').1)
    ]

-- The monitor with the face value that is being redeemed for each sender.
pub record System : Type 0 where
  pub monitor : Monitor
  pub in_flight : ℕ → Option ℕ

abbrev pub flying : System → ℕ → ℕ
flying s addr = elim (s.in_flight addr) [ none ↦ 0 | some face ↦ face ]

abbrev pub pending : Monitor → ℕ → ℕ
pending m addr = elim (m.senders addr) [ none ↦ 0 | some rs ↦ rs.pending_amount ]

-- One step of some goroutine. `touch` is a call of MaxFloat, QueueTicket or availableFunds.
pub data Step (s : System) : System → Type 0 where
  touch : (now addr : ℕ) → Step s (record s { monitor = (ensure_cache now addr s.monitor).1 })
  subscribe :
      (now addr : ℕ) → Step s (record s { monitor = subscribe_max_float_change now addr s.monitor })
  start :
      (ch : Chain) (b : Broker) (now addr face : ℕ)
      → s.in_flight addr ≡ none
      → (start_redeem ch b now addr face s.monitor).0 ≡ none
      → Step s (record {
        monitor = (start_redeem ch b now addr face s.monitor).1;
        in_flight = insert addr face s.in_flight;
      })
  refuse :
      (ch : Chain) (b : Broker) (now addr face : ℕ)
      → (start_redeem ch b now addr face s.monitor).0 ≢ none
      → Step s (record s { monitor = (start_redeem ch b now addr face s.monitor).1 })
  finish :
      (now addr face : ℕ)
      → s.in_flight addr ≡ some face
      → Step s (record {
        monitor = (add_float now addr face s.monitor).1;
        in_flight = erase addr s.in_flight;
      })
  drop :
      (now : ℕ)
      → ((addr : ℕ) (rs : RemoteSender)
          → s.monitor.senders addr ≡ some rs
          → is_inactive s.monitor.cfg.ttl now rs ≡ true
          → s.in_flight addr ≡ none)
      → Step s (record s { monitor = clean_up now s.monitor })

pub data Reach (s : System) : System → Type 0 where
  here : Reach s s
  next : {t u : System} → Reach s t → Step t u → Reach s u

-- What is pending for a sender is what is being redeemed.
abbrev pub IsAccounted : System → Type 0
IsAccounted s = (addr : ℕ) → pending s.monitor addr ≡ flying s addr

pending-ensure_cache :
    (now addr a : ℕ) (m : Monitor) → pending (ensure_cache now addr m).1 a ≡ pending m a
unfolding ensure_cache
pending-ensure_cache now addr a m = ground arith

pending-subscribe :
    (now addr a : ℕ) (m : Monitor) → pending (subscribe_max_float_change now addr m) a ≡ pending m a
unfolding subscribe_max_float_change
pending-subscribe now addr a m = ground arith

pending-sub_float :
    (now addr face a : ℕ) (m : Monitor)
    → pending (sub_float now addr face m) a
      ≡ (if a == addr then pending m addr + face else pending m a)
unfolding sub_float
pending-sub_float now addr face a m = ground arith

pending-add_float :
    (now addr face a : ℕ) (m : Monitor)
    → face ≤ pending m addr
    → ((add_float now addr face m).0 ≡ none)
      × (pending (add_float now addr face m).1 a + (if a == addr then face else 0) ≡ pending m a)
unfolding add_float
pending-add_float now addr face a m h = ground arith

pending-available_funds :
    (ch : Chain) (now addr a : ℕ) (m : Monitor)
    → pending (available_funds ch now addr m).1 a ≡ pending m a
unfolding available_funds
pending-available_funds ch now addr a m = ground arith

pending-start_redeem :
    (ch : Chain) (b : Broker) (now addr face a : ℕ) (m : Monitor)
    → pending (start_redeem ch b now addr face m).1 a
      ≡ (elim (start_redeem ch b now addr face m).0 [
        | none ↦ if a == addr then pending m addr + face else pending m a
        | some _ ↦ pending m a
      ])
unfolding start_redeem
pending-start_redeem ch b now addr face a m =
    let m' = (available_funds ch now addr m).1 in
    ground (
      arith,
      pending-available_funds ch now addr a m,
      pending-available_funds ch now addr addr m,
      pending-sub_float now addr face a m',
    )

pending-clean_up :
    (now a : ℕ) (s : System)
    → IsAccounted s
    → ((addr : ℕ) (rs : RemoteSender)
        → s.monitor.senders addr ≡ some rs
        → is_inactive s.monitor.cfg.ttl now rs ≡ true
        → s.in_flight addr ≡ none)
    → pending (clean_up now s.monitor) a ≡ flying s a
unfolding clean_up
pending-clean_up now a s h idle = elim (Option-cases (s.monitor.senders a)) [
  | inl e ↦ ground (arith, h a)
  | inr (rs, e) ↦ ground (arith, h a, idle a rs e)
]

-- The sum that is pending never falls below what a redemption gives back.
finish-accounted :
    (now addr face a : ℕ) (s : System)
    → IsAccounted s
    → s.in_flight addr ≡ some face
    → ((add_float now addr face s.monitor).0 ≡ none)
      × (pending (add_float now addr face s.monitor).1 a
          ≡ (elim (erase addr s.in_flight a) [ none ↦ 0 | some f ↦ f ]))
finish-accounted now addr face a s h e =
    ground (arith, h a, h addr, pending-add_float now addr face a s.monitor)

step-IsAccounted : {s t : System} → Step s t → IsAccounted s → IsAccounted t
step-IsAccounted {s} (touch now addr) h = λ a. pending-ensure_cache now addr a s.monitor ∙ h a
step-IsAccounted {s} (subscribe now addr) h = λ a. pending-subscribe now addr a s.monitor ∙ h a
step-IsAccounted {s} (start ch b now addr face idle passed) h =
    λ a. ground (arith, h a, h addr, pending-start_redeem ch b now addr face a s.monitor)
step-IsAccounted {s} (refuse ch b now addr face failed) h =
    λ a. ground (arith, h a, pending-start_redeem ch b now addr face a s.monitor)
step-IsAccounted {s} (finish now addr face e) h = λ a. (finish-accounted now addr face a s h e).1
step-IsAccounted {s} (drop now idle) h = λ a. pending-clean_up now a s h idle

-- In every state that is reached from one that is accounted for, by any interleaving of calls,
-- redemptions and cleanups, the pending amount of each sender is the face value of its ticket that
-- is being redeemed, if any.
pub Reach-IsAccounted : {s t : System} → IsAccounted s → Reach s t → IsAccounted t
Reach-IsAccounted h here = h
Reach-IsAccounted h (next r st) = step-IsAccounted st (Reach-IsAccounted h r)

-- So whenever a redemption ends, in such a state, giving its face value back succeeds, and nothing
-- is left pending for its sender.
pub Reach-add_float :
    {s t : System} (now addr face : ℕ)
    → IsAccounted s
    → Reach s t
    → t.in_flight addr ≡ some face
    → ((add_float now addr face t.monitor).0 ≡ none)
      × (pending (add_float now addr face t.monitor).1 addr ≡ 0)
Reach-add_float {s} {t} now addr face h r e =
    let done = finish-accounted now addr face addr t (Reach-IsAccounted h r) e in
    (done.0, ground (arith, done.1))

-- A redemption with nothing in between leaves every sender's pending amount as it was, whether the
-- ticket is refused, its submission fails or its transaction fails.
pub pending-redeem_winning_ticket :
    (ch : Chain) (b : Broker) (now later a : ℕ) (t : SignedTicket) (m : Monitor)
    → pending (redeem_winning_ticket ch b now later t m).1 a ≡ pending m a
unfolding redeem_winning_ticket
pending-redeem_winning_ticket ch b now later a t m =
    let addr = t.ticket.sender in
    let face = t.ticket.face_value in
    let m' = (start_redeem ch b now addr face m).1 in
    ground (
      arith,
      pending-start_redeem ch b now addr face a m,
      pending-start_redeem ch b now addr face addr m,
      pending-add_float later addr face a m',
    )
