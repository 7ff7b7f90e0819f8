-- ===== src/Core/Accounting/Stage.antt =====
-- core/accounting.go: `StageUpdate` takes the least number of tickets that covers the credit gap.
use native.Mathlib.Nat.{div-add-mod, mod-lt, mul-pos, mul-le-mul_right}
use native.Mathlib.Decide.{dec_le}
use livepeer.Base.{
  ℕ, zero, suc, ◌+◌, ◌*◌, ◌/◌, ◌%◌, ◌≤◌, ◌<◌, ◌≡◌, ◌≢◌, refl, ap, ◌∙◌, ◌-◌, Bool-cases, inl, inr,
  some, arith, ◌==◌, ==_iff, if◌then◌else◌,
}
use livepeer.Base.Int.{
  ℤ, pos, pos_part, neg_part, ◌-ℤ◌, ◌+ℤ◌, ◌*ℤ◌, ◌≤ℤ◌, +ℤ_parts, -ℤ_parts, pos_part-scale,
  neg_part-scale,
}
use livepeer.Base.Rat.{Rat, add, sub, mul, quo, of_int, of_frac, is_int, floor, ◌≤ℚ◌, ◌<ℚ◌}
use livepeer.Base.Words.{int64_of_int, i64_limit, int64_of_big_small}
use livepeer.Core.Accounting.{stage, ticket_count}

-- Rounding up, as the code does it.
abbrev ceil : ℕ → ℕ → ℕ
ceil n d = if n % d == 0 then n / d else n / d + 1

ceil_bounds : (n d : ℕ) → 0 < d → (n ≤ ceil n d * d) × (ceil n d * d < n + d)
ceil_bounds n d h = elim (Bool-cases (n % d == 0)) [
  | inl e ↦ rw e (omega (arith, (==_iff (n % d) 0).0 e, div-add-mod n d))
  | inr e ↦
      let ne : n % d ≢ 0 = ground arith in rw e (omega (arith, ne, div-add-mod n d, mod-lt n h))
]

quo_pos :
    (p q : Rat) (a b : ℕ)
    → p.num ≡ pos a
    → q.num ≡ pos b
    → quo p q ≡ record { num = pos (a * q.den); den = p.den * b }
unfolding quo ◌*ℤ◌
quo_pos p q a b hp hq = ground arith

nonneg_eq : (a : ℤ) → pos 0 ≤ℤ a → a ≡ pos (pos_part a)
nonneg_eq a h = ground arith

-- What is missing up to the minimum.
abbrev gap : Rat → Rat → ℕ
gap m e = pos_part (sub m e).num

gap_parts :
    (m e : Rat)
    → e <ℚ m
    → ((sub m e).num ≡ pos (gap m e))
      × (gap m e + neg_part m.num * e.den + pos_part e.num * m.den
          ≡ pos_part m.num * e.den + neg_part e.num * m.den)
unfolding sub
gap_parts m e h =
    let a = m.num *ℤ pos e.den in
    let b = e.num *ℤ pos m.den in
    (
      nonneg_eq (a -ℤ b) (omega (arith, -ℤ_parts a b)),
      omega (
        arith,
        -ℤ_parts a b,
        ap neg_part (nonneg_eq (a -ℤ b) (omega (arith, -ℤ_parts a b))),
        pos_part-scale m.num e.den,
        neg_part-scale m.num e.den,
        pos_part-scale e.num m.den,
        neg_part-scale e.num m.den,
      ),
    )

-- The credit e with n tickets of EV k / v on top.
abbrev topped_up : Rat → ℕ → ℕ → ℕ → Rat
topped_up e k v n = add e (mul (of_int (pos n)) (of_frac k v))

-- It reaches the minimum m exactly if the tickets fill the gap.
module _ (m e : Rat) (k v n : ℕ) (missing : e <ℚ m) where
  abbrev tickets_value : ℕ
  tickets_value = n * (m.den * e.den * k)

  abbrev topped : Rat
  topped = topped_up e k v n

  topped_up_parts :
      pos_part topped.num + neg_part e.num * v
      ≡ pos_part e.num * v + n * k * e.den + neg_part topped.num
  unfolding add mul
  topped_up_parts = omega (
    arith,
    +ℤ_parts (e.num *ℤ pos (1 * v)) (pos n *ℤ pos k *ℤ pos e.den),
    pos_part-scale e.num (1 * v),
    neg_part-scale e.num (1 * v),
    pos_part-scale (pos n *ℤ pos k) e.den,
    neg_part-scale (pos n *ℤ pos k) e.den,
    ap (λ (t : ℕ). t * e.den) (pos_part-scale (pos n) k),
    ap (λ (t : ℕ). t * e.den) (neg_part-scale (pos n) k),
  )

  -- The comparison of the two sides, with everything brought to one denominator.
  compared :
      (pos_part topped.num * m.den + neg_part m.num * (e.den * v) + gap m e * v
        ≡ neg_part topped.num * m.den + pos_part m.num * (e.den * v) + tickets_value)
  compared = omega (
    arith,
    ap (λ (t : ℕ). t * m.den) topped_up_parts,
    ap (λ (t : ℕ). t * v) ((gap_parts m e missing).1),
  )

  topped_up_den : topped.den ≡ e.den * v
  unfolding add mul
  topped_up_den = omega arith

  reaches : gap m e * v ≤ tickets_value → m ≤ℚ topped
  reaches h = rw topped_up_den (
      omega (
        arith,
        compared,
        pos_part-scale m.num (e.den * v),
        neg_part-scale m.num (e.den * v),
        pos_part-scale topped.num m.den,
        neg_part-scale topped.num m.den,
      ))

  falls_short : tickets_value < gap m e * v → topped <ℚ m
  falls_short h = rw topped_up_den (
      omega (
        arith,
        compared,
        pos_part-scale m.num (e.den * v),
        neg_part-scale m.num (e.den * v),
        pos_part-scale topped.num m.den,
        neg_part-scale topped.num m.den,
      ))

  fills : m ≤ℚ topped → gap m e * v ≤ tickets_value
  fills h =
      let h' = rw topped_up_den at h in
      omega (
        arith,
        compared,
        h',
        pos_part-scale m.num (e.den * v),
        neg_part-scale m.num (e.den * v),
        pos_part-scale topped.num m.den,
        neg_part-scale topped.num m.den,
      )

-- The code's ticket count, as a number.
abbrev needed : Rat → Rat → Rat → ℕ → ℕ
needed m e ev k = ceil (gap m e * ev.den) (m.den * e.den * k)

rounded_up :
    (n d : ℕ)
    → (if is_int (record { num = pos n; den = d })
        then floor (record { num = pos n; den = d })
        else floor (record { num = pos n; den = d }) +ℤ pos 1)
      ≡ pos (ceil n d)
unfolding ◌+ℤ◌
rounded_up n d = ground arith

int64_of_int_small : (n : ℕ) → n < i64_limit → int64_of_int (pos n) ≡ pos n
unfolding int64_of_int
int64_of_int_small n h = int64_of_big_small n h

sub-den : (m e : Rat) → (sub m e).den ≡ m.den * e.den
unfolding sub
sub-den m e = refl

ticket_count-eq :
    (e m ev : Rat) (k : ℕ)
    → ev.num ≡ pos k
    → e <ℚ m
    → needed m e ev k < i64_limit
    → ticket_count (sub m e) ev ≡ pos (needed m e ev k)
unfolding ticket_count
ticket_count-eq e m ev k num missing fits =
    rw (quo_pos (sub m e) ev (gap m e) k ((gap_parts m e missing).0) num, sub-den m e)
      (ap int64_of_int (rounded_up (gap m e * ev.den) (m.den * e.den * k))
        ∙ int64_of_int_small (needed m e ev k) fits)

stage-eq :
    (e m ev : Rat) (k : ℕ)
    → ev.num ≡ pos k
    → 0 < k
    → e <ℚ m
    → needed m e ev k < i64_limit
    → stage e m ev
      ≡ some (record {
        size = pos (needed m e ev k);
        new_credit = mul (of_int (pos (needed m e ev k))) ev;
        existing_credit = e;
      })
unfolding stage
stage-eq e m ev k num positive missing fits =
    ground (arith, ticket_count-eq e m ev k num missing fits)

pos_of_mul : (a b : ℕ) → 0 < a * b → 0 < a
pos_of_mul zero b h = absurd (omega arith)
pos_of_mul (suc a) b h = omega arith

gap-pos : (m e : Rat) → e <ℚ m → 0 < gap m e
gap-pos m e missing = omega (
  arith,
  (gap_parts m e missing).1,
  pos_part-scale m.num e.den,
  neg_part-scale m.num e.den,
  pos_part-scale e.num m.den,
  neg_part-scale e.num m.den,
)

needed-pos :
    (m e : Rat) (k v : ℕ) → e <ℚ m → 0 < m.den * e.den * k → 0 < v → 0 < needed m e (of_frac k v) k
needed-pos m e k v missing divisor pv =
    let covers = (ceil_bounds (gap m e * v) (m.den * e.den * k) divisor).0 in
    let work = mul-pos (gap-pos m e missing) pv in
    pos_of_mul (needed m e (of_frac k v) k) (m.den * e.den * k) (omega (arith, covers, work))

-- Fewer tickets than the whole of a gap do not fill it.
needed-lt :
    (m e : Rat) (k v limit : ℕ)
    → e <ℚ m
    → 0 < m.den * e.den * k
    → m ≤ℚ topped_up e k v limit
    → needed m e (of_frac k v) k ≤ limit
needed-lt m e k v limit missing divisor h =
    let room = fills m e k v limit missing h in
    let bound = (ceil_bounds (gap m e * v) (m.den * e.den * k) divisor).1 in
    let n = needed m e (of_frac k v) k in
    elim (dec_le (limit + 1) n) [
      | no small ↦ omega arith
      | yes large ↦ absurd (omega (arith, bound, room, mul-le-mul_right (m.den * e.den * k) large))
    ]

-- A minimum credit above the existing one is covered by the least number of tickets of EV k / v, if
-- it can be covered by fewer than 2 ^ 63; their value is returned with the existing credit.
pub stage_least :
    (e m : Rat) (k v : ℕ)
    → 0 < k
    → 0 < v
    → 0 < e.den
    → 0 < m.den
    → e <ℚ m
    → m ≤ℚ add e (mul (of_int (pos (i64_limit - 1))) (of_frac k v))
    → (n : ℕ) × (stage e m (of_frac k v)
        ≡ some (record {
          size = pos n;
          new_credit = mul (of_int (pos n)) (of_frac k v);
          existing_credit = e;
        }))
      × (0 < n)
      × (m ≤ℚ add e (mul (of_int (pos n)) (of_frac k v)))
      × (add e (mul (of_int (pos (n - 1))) (of_frac k v)) <ℚ m)
stage_least e m k v pk pv pe pm missing coverable =
    let divisor : 0 < m.den * e.den * k = mul-pos (mul-pos pm pe) pk in
    let n = needed m e (of_frac k v) k in
    let bounds = ceil_bounds (gap m e * v) (m.den * e.den * k) divisor in
    let some_needed : 0 < n = needed-pos m e k v missing divisor pv in
    let one_less : n ≡ n - 1 + 1 = omega arith in
    (
      n,
      stage-eq e m (of_frac k v) k refl pk missing
          (omega (arith, needed-lt m e k v (i64_limit - 1) missing divisor coverable)),
      some_needed,
      reaches m e k v n missing bounds.0,
      falls_short m e k v (n - 1) missing
          (omega (arith, bounds.1, ap (λ (t : ℕ). t * (m.den * e.den * k)) one_less)),
    )
