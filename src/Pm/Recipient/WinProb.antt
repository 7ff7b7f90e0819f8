-- ===== src/Pm/Recipient/WinProb.antt =====
-- The advertised win probability gives a ticket at least the expected value that the recipient
-- asks for, and at most one unit of EV per maxWinProb more.
use livepeer.Base.{ℕ, ◌+◌, ◌*◌, ◌/◌, ◌%◌, ◌≤◌, ◌<◌, ◌≡◌, ◌≢◌, ◌↔◌, arith, ap}
use mathlib.Core.Path.{subst}
use native.Mathlib.Nat.{mul-le-mul_left, mul-le-mul_right, mul-pos, le_of_lt, div-add-mod}
use native.Mathlib.Decide.{dec_le, ℕ_discrete}
use livepeer.Base.Int.{pos}
use livepeer.Base.Words.{int64_of_big, u64_mod}
use livepeer.Pm.Recipient.{TicketParamsConfig, max_win_prob}
use livepeer.Pm.Recipient.Params.{win_prob_of, win_prob}

-- The low word of a remainder is 0 exactly if the remainder is a multiple of 2 ^ 64.
int64_of_big-eq_zero : (n : ℕ) → (int64_of_big n ≡ pos 0) ↔ (n % u64_mod ≡ 0)
unfolding int64_of_big
int64_of_big-eq_zero n = ground arith

-- The ticket's EV over maxWinProb: face * win_prob.
win_prob_rounded :
    (max ev face : ℕ)
    → ev < face
    → (max % face) % u64_mod ≢ 0
    → win_prob_of max ev face ≡ ev * (max / face + 1)
unfolding win_prob_of
win_prob_rounded max ev face lt m = ground (arith, int64_of_big-eq_zero (max % face))

win_prob_exact :
    (max ev face : ℕ)
    → ev < face
    → (max % face) % u64_mod ≡ 0
    → win_prob_of max ev face ≡ ev * (max / face)
unfolding win_prob_of
win_prob_exact max ev face lt m = ground (arith, int64_of_big-eq_zero (max % face))

-- With max = face * q + rem, both bounds are linear once the remainder is multiplied by the EV.
rounded_covers : (ev face q rem : ℕ) → rem < face → ev * (face * q + rem) ≤ face * (ev * (q + 1))
rounded_covers ev face q rem h = omega (arith, mul-le-mul_left ev (le_of_lt h))

rounded_excess : (ev face q rem : ℕ) → face * (ev * (q + 1)) ≤ ev * (face * q + rem) + ev * face
rounded_excess ev face q rem = omega arith

exact_deficit : (ev face q rem : ℕ) → 0 < ev → 0 < rem → face * (ev * q) < ev * (face * q + rem)
exact_deficit ev face q rem h k = omega (arith, mul-pos h k)

-- A number of whole wins: no probability above the maximum, unless the EV is enormous.
bounded :
    (max ev face q : ℕ) → ev < face → face * q ≤ max → ev * (ev + 1) ≤ max → ev * (q + 1) ≤ max
bounded max ev face q lt fits small = elim (dec_le ev q) [
  | yes h ↦ omega (arith, mul-le-mul_right q lt)
  | no h ↦ let short : q + 1 ≤ ev + 1 = omega arith in omega (arith, mul-le-mul_left ev short)
]

covers_iff :
    (max ev face : ℕ)
    → 0 < ev
    → ev < face
    → (ev * max ≤ face * win_prob_of max ev face) ↔ ((max % face) % u64_mod ≡ 0 → max % face ≡ 0)
covers_iff max ev face asked lt = elim (ℕ_discrete ((max % face) % u64_mod) 0) [
  | yes low ↦ rw (win_prob_exact max ev face lt low) (
      let whole = ap (λ (t : ℕ). ev * t) (div-add-mod max face) in
      elim (ℕ_discrete (max % face) 0) [
        | yes none_left ↦
            ((λ _ _. none_left), (λ _. omega (arith, whole, ap (λ (t : ℕ). ev * t) none_left)))
        | no left ↦
            let short = exact_deficit ev face (max / face) (max % face) asked (omega arith) in
            ((λ h _. absurd (omega (arith, whole, short))), (λ h. absurd (left (h low))))
      ])
  | no high ↦ rw (win_prob_rounded max ev face lt high) (
    (λ h low. absurd (high low)),
    (λ h.
        subst (λ t. ev * t ≤ face * (ev * (max / face + 1))) (div-add-mod max face)
          (rounded_covers ev face (max / face) (max % face) (omega arith))),
  )
]

excess : (max ev face : ℕ) → ev < face → face * win_prob_of max ev face ≤ ev * max + ev * face
excess max ev face lt = elim (ℕ_discrete ((max % face) % u64_mod) 0) [
  | yes low ↦
      rw (win_prob_exact max ev face lt low)
        (omega (arith, ap (λ (t : ℕ). ev * t) (div-add-mod max face)))
  | no high ↦ rw (win_prob_rounded max ev face lt high) (
      omega (
        arith,
        ap (λ (t : ℕ). ev * t) (div-add-mod max face),
        rounded_excess ev face (max / face) (max % face),
      ))
]

le_max : (max ev face : ℕ) → ev < face → ev * (ev + 1) ≤ max → win_prob_of max ev face ≤ max
le_max max ev face lt small =
    let top : ev * (max / face + 1) ≤ max =
      bounded max ev face (max / face) lt (omega (arith, div-add-mod max face)) small in
    elim (ℕ_discrete ((max % face) % u64_mod) 0) [
      | yes low ↦ rw (win_prob_exact max ev face lt low) (omega arith)
      | no high ↦ rw (win_prob_rounded max ev face lt high) top
    ]

-- For a face value above a required EV that is not 0, the ticket's EV (face value times win
-- probability, over maxWinProb) reaches the required EV exactly if the low 64 bits of the remainder
-- of maxWinProb by the face value are not all zero without the remainder being zero; it exceeds the
-- required EV by at most EV times face value; and with EV * (EV + 1) up to maxWinProb, which an EV
-- below 2 ^ 128 meets, the win probability is not above maxWinProb.
pub win_prob_meets_ev :
    (cfg : TicketParamsConfig) (face : ℕ)
    → 0 < cfg.ev
    → cfg.ev < face
    → cfg.ev * (cfg.ev + 1) ≤ max_win_prob
    → ((cfg.ev * max_win_prob ≤ face * win_prob cfg face)
        ↔ ((max_win_prob % face) % u64_mod ≡ 0 → max_win_prob % face ≡ 0))
      × (face * win_prob cfg face ≤ cfg.ev * max_win_prob + cfg.ev * face)
      × (win_prob cfg face ≤ max_win_prob)
win_prob_meets_ev cfg face asked lt small =
    unfold win_prob in
    (covers_iff _ cfg.ev face asked lt, excess _ cfg.ev face lt, le_max _ cfg.ev face lt small)
