-- ===== src/Base/Rat.antt =====
-- big.Rat as a fraction. The library keeps it in lowest terms; here equal values may be written
-- by different fractions, and are compared by cross multiplication, as `Cmp` does.
use native.Mathlib.Nat.{mod-lt}
use livepeer.Base.{
  ℕ, zero, suc, ◌*◌, ◌/◌, ◌%◌, ◌<◌, ◌≤◌, ◌≡◌, Bool-cases, inl, inr, arith, Bool, true, false, not,
  ◌==◌, if◌then◌else◌,
}
use livepeer.Base.Int.{ℤ, pos, abs, neg, div_ℤ, ◌+ℤ◌, ◌-ℤ◌, ◌*ℤ◌, ◌≤ℤ◌, ◌<ℤ◌, leb_ℤ, ltb_ℤ}

pub record Rat : Type 0 where
  pub num : ℤ
  pub den : ℕ

-- big.Rat keeps its denominator positive.
abbrev pub IsPositiveDen : Rat → Type 0
IsPositiveDen q = 0 < q.den

abbrev xor : Bool → Bool → Bool
xor true b = not b
xor false b = b

-- The greatest common divisor, by Euclid's algorithm. Each step makes the second number smaller, so
-- that it is enough fuel.
abbrev gcd_by : ℕ → ℕ → ℕ → ℕ
gcd_by zero a b = a
gcd_by (suc fuel) a b = let rest = gcd_by fuel b (a % b) in if b == 0 then a else rest

gcd_by-enough : (fuel a b : ℕ) → b ≤ fuel → gcd_by (suc fuel) a b ≡ gcd_by fuel a b
gcd_by-enough zero a b h = let e : b ≡ 0 = omega (arith, h) in rw (e)
gcd_by-enough (suc fuel) a b h = elim (Bool-cases (b == 0)) [
  | inl stop ↦ rw (stop)
  | inr go_on ↦
      let less : a % b < b = mod-lt a (ground (arith, go_on)) in
      let same = gcd_by-enough fuel b (a % b) (omega (arith, less, h)) in rw (go_on, same)
]

unfoldable pub gcd : ℕ → ℕ → ℕ
gcd a b = gcd_by b a b

-- `big.NewRat(price, pixels)`, for a second number that is not 0: in lowest terms, with the sign on the
-- numerator.
unfoldable pub new_rat : ℤ → ℤ → Rat
unfolding gcd
new_rat a b =
    let g = gcd (abs a) (abs b) in
    let num = pos (abs a / g) in
    record {
      num = if xor (ltb_ℤ a (pos 0)) (ltb_ℤ b (pos 0)) then neg num else num;
      den = abs b / g;
    }

-- `SetInt`
abbrev pub of_int : ℤ → Rat
of_int n = record { num = n; den = 1 }

-- `SetFrac` of two numbers, the second not 0
abbrev pub of_frac : ℕ → ℕ → Rat
of_frac n d = record { num = pos n; den = d }

abbrev pub zero_rat : Rat
zero_rat = of_int (pos 0)

unfoldable pub add : Rat → Rat → Rat
add p q = record { num = p.num *ℤ pos q.den +ℤ q.num *ℤ pos p.den; den = p.den * q.den }

unfoldable pub sub : Rat → Rat → Rat
sub p q = record { num = p.num *ℤ pos q.den -ℤ q.num *ℤ pos p.den; den = p.den * q.den }

unfoldable pub mul : Rat → Rat → Rat
mul p q = record { num = p.num *ℤ q.num; den = p.den * q.den }

-- `p.Cmp(q) <= 0`, `p.Cmp(q) < 0`
abbrev pub leb_rat : Rat → Rat → Bool
leb_rat p q = leb_ℤ (p.num *ℤ pos q.den) (q.num *ℤ pos p.den)

abbrev pub ltb_rat : Rat → Rat → Bool
ltb_rat p q = ltb_ℤ (p.num *ℤ pos q.den) (q.num *ℤ pos p.den)

infix 50 ◌≤ℚ◌ ◌<ℚ◌
infix 4 ◌≈◌
abbrev pub ◌≤ℚ◌ : Rat → Rat → Type 0
p ≤ℚ q = p.num *ℤ pos q.den ≤ℤ q.num *ℤ pos p.den

abbrev pub ◌<ℚ◌ : Rat → Rat → Type 0
p <ℚ q = p.num *ℤ pos q.den <ℤ q.num *ℤ pos p.den

-- The same value.
abbrev pub ◌≈◌ : Rat → Rat → Type 0
p ≈ q = p.num *ℤ pos q.den ≡ q.num *ℤ pos p.den

-- `Quo`, for a divisor that is not 0
unfoldable pub quo : Rat → Rat → Rat
quo p q =
    let num = p.num *ℤ pos q.den in
    record { num = if ltb_ℤ q.num (pos 0) then neg num else num; den = p.den * abs q.num }

-- `IsInt`: the denominator in lowest terms is 1.
abbrev pub is_int : Rat → Bool
is_int q = abs q.num % q.den == 0

-- `Num` of a fraction that is an integer, or the quotient of `Num` by `Denom` rounded down.
abbrev pub floor : Rat → ℤ
floor q = div_ℤ q.num q.den
