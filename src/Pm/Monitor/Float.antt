-- ===== src/Pm/Monitor/Float.antt =====
-- pm/sendermonitor.go: the max float of a sender.
use livepeer.Base.{
  ℕ, ◌+◌, ◌*◌, ◌^◌, ◌≤◌, ◌<◌, ◌≡◌, ◌≢◌, ◌⊎◌, arith, refl, ◌==◌, Bool-cases, inl, inr,
}
use livepeer.Base.Int.{ℤ, pos, div_ℤ, ◌-ℤ◌, ◌+ℤ◌, int_laws}
use livepeer.Pm.Error.{ok}
use livepeer.Pm.Sender.{SenderInfo}
use livepeer.Pm.Monitor.{Chain, RemoteSender, reserve_alloc, ratio_suffices, max_float_of}

-- For a sender with a known reserve allocation, the max float is the allocation, and then the deposit
-- is at least three times the pending amount up to a part in 2 ^ 52 of it; or it is the
-- allocation less the pending amount, and then the deposit is less than three times the pending
-- amount, or nothing is pending.
pub max_float_of_cases :
    (ch : Chain) (addr : ℕ) (rs : RemoteSender) (info : SenderInfo) (alloc : ℤ)
    → ch.sender_info addr ≡ ok info
    → reserve_alloc ch addr ≡ ok alloc
    → ((max_float_of ch addr rs ≡ ok alloc)
        × (2 ^ 52 * (3 * rs.pending_amount) ≤ 2 ^ 52 * info.deposit + rs.pending_amount))
      ⊎ ((max_float_of ch addr rs ≡ ok (alloc -ℤ pos rs.pending_amount))
          × ((info.deposit < 3 * rs.pending_amount) ⊎ (rs.pending_amount ≡ 0)))
unfolding max_float_of
max_float_of_cases ch addr rs info alloc known allocated =
    elim (Bool-cases (ratio_suffices info.deposit rs.pending_amount)) [
      | inl h ↦ inl (ground arith, unfold ratio_suffices in ground arith)
      | inr h ↦ inr (ground arith, unfold ratio_suffices in ground arith)
    ]

-- The allocation is the share of the reserve that one of the active orchestrators can claim, less
-- what the claimant has claimed; without active orchestrators it is 0.
pub reserve_alloc_cases :
    (ch : Chain) (addr : ℕ) (info : SenderInfo) (claimed : ℕ)
    → ch.sender_info addr ≡ ok info
    → ch.claimed_reserve addr ≡ ok claimed
    → (alloc : ℤ) × (reserve_alloc ch addr ≡ ok alloc)
      × (((ch.pool_size ≡ 0) × (alloc ≡ pos 0))
          ⊎ ((ch.pool_size ≢ 0)
              × (alloc +ℤ pos claimed
                  ≡ div_ℤ
                      (info.reserve.funds_remaining +ℤ pos info.reserve.claimed_in_current_round)
                      ch.pool_size)))
unfolding reserve_alloc
reserve_alloc_cases ch addr info claimed known c =
    let reserve = info.reserve.funds_remaining +ℤ pos info.reserve.claimed_in_current_round in
    let share = div_ℤ reserve ch.pool_size -ℤ pos claimed in
    elim (Bool-cases (ch.pool_size == 0)) [
      | inl h ↦ (pos 0, rw (known, c, h, reserve_alloc), inl (ground arith, refl))
      | inr h ↦ (share, rw (known, c, h, reserve_alloc), inr (ground arith, omega int_laws))
    ]
