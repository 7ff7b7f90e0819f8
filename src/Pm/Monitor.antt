-- ===== src/Pm/Monitor.antt =====
-- pm/sendermonitor.go: what a recipient tracks of remote senders. A mutex guards the map, so each
-- call is one step. Times are unix seconds.
pub mod Float
pub mod Redeem
mod Tests
use livepeer.Base.{
  ℕ, ◌+◌, ◌-◌, ◌*◌, ◌/◌, ◌^◌, ◌≡◌, Bool, not, ◌&&◌, List, [], ◌∷◌, Option, none, some, ◌==◌, ltb,
  leb, if◌then◌else◌,
}
use livepeer.Base.Int.{ℤ, pos, div_ℤ, ◌+ℤ◌, ◌-ℤ◌, leb_ℤ}
use livepeer.Base.Maps.{insert, erase_if, nat_eq}
use livepeer.Pm.Error.{
  Error, Result, ok, err, ◌>>=◌, insufficient_pending, insufficient_sender_funds,
  insufficient_ticket_face_value, is_used_ticket, unlock_soon,
}
use livepeer.Pm.Ticket.{SignedTicket}
use livepeer.Pm.Sender.{SenderInfo, unlocks_soon}

-- `remoteSender`: the pending amount, the number of max float subscribers and the last access. The
-- ticket queue of the sender is Pm.Queue.
pub record RemoteSender : Type 0 where
  pub pending_amount : ℕ
  pub subscribers : ℕ
  pub last_access : ℕ

abbrev pub Senders : Type 0
Senders = ℕ → Option RemoteSender

-- `LocalSenderMonitorConfig`
pub record MonitorConfig : Type 0 where
  pub ttl : ℕ
  pub redeem_gas : ℕ

-- The monitor, with the senders whose max float change was announced, newest first.
pub record Monitor : Type 0 where
  pub senders : Senders
  pub cfg : MonitorConfig
  pub announced : List ℕ

-- What the chain watchers answer: a sender's info, what the claimant has claimed of its reserve, the
-- size of the transcoder pool and the last initialised round.
pub record Chain : Type 0 where
  pub sender_info : ℕ → Result SenderInfo
  pub claimed_reserve : ℕ → Result ℕ
  pub pool_size : ℕ
  pub last_initialized_round : ℤ

-- `cache`
abbrev pub new_sender : ℕ → RemoteSender
new_sender now = record { pending_amount = 0; subscribers = 0; last_access = now }

-- `ensureCache`, with the entry that is then in the map.
unfoldable pub ensure_cache : ℕ → ℕ → Monitor → RemoteSender × Monitor
ensure_cache now addr m =
    let rs : RemoteSender = elim (m.senders addr) [
      | none ↦ new_sender now
      | some r ↦ record r { last_access = now }
    ] in
    (rs, record m { senders = insert addr rs m.senders })

-- `sendMaxFloatChange`
abbrev pub send_max_float_change : ℕ → Monitor → Monitor
send_max_float_change addr m = record m { announced = addr ∷ m.announced }

abbrev set_pending : ℕ → RemoteSender → ℕ → Monitor → Monitor
set_pending addr rs amount m = record m {
  senders = insert addr (record rs { pending_amount = amount }) m.senders;
}

-- `addFloat`: the amount is no longer pending.
unfoldable pub add_float : ℕ → ℕ → ℕ → Monitor → Option Error × Monitor
unfolding ensure_cache
add_float now addr amount m =
    let (rs, m') = ensure_cache now addr m in
    if ltb rs.pending_amount amount
    then (some insufficient_pending, m')
    else (none, send_max_float_change addr (set_pending addr rs (rs.pending_amount - amount) m'))

-- `subFloat`: the amount becomes pending.
unfoldable pub sub_float : ℕ → ℕ → ℕ → Monitor → Monitor
unfolding ensure_cache
sub_float now addr amount m =
    let (rs, m') = ensure_cache now addr m in
    send_max_float_change addr (set_pending addr rs (rs.pending_amount + amount) m')

-- `reserveAlloc`
unfoldable pub reserve_alloc : Chain → ℕ → Result ℤ
reserve_alloc ch addr = do
  info ← ch.sender_info addr
  claimed ← ch.claimed_reserve addr
  let reserve = info.reserve.funds_remaining +ℤ pos info.reserve.claimed_in_current_round
  if ch.pool_size == 0 then ok (pos 0) else ok (div_ℤ reserve ch.pool_size -ℤ pos claimed)

-- Whether deposit / pending, rounded to the 53 bits of the quotient's mantissa, is at least 3. Halfway
-- below 3 stands 3 - 2^-52, which rounds to the even 3. Without pending amount the ratio is 0.
unfoldable pub ratio_suffices : ℕ → ℕ → Bool
ratio_suffices deposit pending =
    not (pending == 0) && leb ((3 * 2 ^ 52 - 1) * pending) (2 ^ 52 * deposit)

-- `maxFloat`
unfoldable pub max_float_of : Chain → ℕ → RemoteSender → Result ℤ
unfolding ratio_suffices reserve_alloc
max_float_of ch addr rs = do
  alloc ← reserve_alloc ch addr
  info ← ch.sender_info addr
  ok (
      if ratio_suffices info.deposit rs.pending_amount
      then alloc
      else alloc -ℤ pos rs.pending_amount)

-- `MaxFloat`
unfoldable pub max_float : Chain → ℕ → ℕ → Monitor → Result ℤ × Monitor
unfolding ensure_cache max_float_of
max_float ch now addr m = let (rs, m') = ensure_cache now addr m in (max_float_of ch addr rs, m')

-- `ValidateSender`; the error texts wrap the sender manager's error.
unfoldable pub validate_remote_sender : Chain → ℕ → Option Error
validate_remote_sender ch addr = elim (ch.sender_info addr) [
  | err e ↦ some e
  | ok info ↦ if unlocks_soon ch.last_initialized_round info then some unlock_soon else none
]

-- `availableFunds`
unfoldable pub available_funds : Chain → ℕ → ℕ → Monitor → Result ℤ × Monitor
unfolding ensure_cache reserve_alloc
available_funds ch now addr m =
    let (rs, m') = ensure_cache now addr m in
    let funds : Result ℤ = do
      info ← ch.sender_info addr
      alloc ← reserve_alloc ch addr
      ok (alloc +ℤ pos info.deposit -ℤ pos rs.pending_amount)
    in (funds, m')

-- `SubscribeMaxFloatChange`
unfoldable pub subscribe_max_float_change : ℕ → ℕ → Monitor → Monitor
unfolding ensure_cache
subscribe_max_float_change now addr m =
    let (rs, m') = ensure_cache now addr m in
    record m' { senders = insert addr (record rs { subscribers = rs.subscribers + 1 }) m'.senders }

-- Whether `cleanup` drops a sender: not accessed for longer than the TTL, and no subscriber.
abbrev pub is_inactive : ℕ → ℕ → RemoteSender → Bool
is_inactive ttl now rs = ltb (rs.last_access + ttl) now && rs.subscribers == 0

-- `cleanup`
unfoldable pub clean_up : ℕ → Monitor → Monitor
clean_up now m = record m { senders = erase_if (is_inactive m.cfg.ttl now) m.senders }
