-- ===== src/Base/Bits.antt =====
-- The binary digits of numbers, and the operations on them.
use Prim.Native.Nat.{min, max, digits, bit_and, bit_or, bit_and-bitwise, bit_or-bitwise}
use native.Mathlib.Nat.{pow-suc}
use livepeer.Base.{ℕ, zero, suc, ◌+◌, ◌*◌, ◌/◌, ◌%◌, ◌^◌, ◌≤◌, ◌≡◌, ◌≢◌, ◌↔◌, refl, ap, arith}

-- Enough fuel for the digits of the first number is enough.
digits_fuel :
    (z : ℕ → ℕ) (f : ℕ → ℕ → ℕ) (n m a b : ℕ) → a ≤ n → a ≤ m → digits z f n a b ≡ digits z f m a b
digits_fuel z f zero zero zero b p q = refl
digits_fuel z f zero (suc m) zero b p q = refl
digits_fuel z f (suc n) zero zero b p q = refl
digits_fuel z f (suc n) (suc m) zero b p q = refl
digits_fuel z f zero m (suc a) b p q = absurd (omega arith)
digits_fuel z f (suc n) zero (suc a) b p q = absurd (omega arith)
digits_fuel z f (suc n) (suc m) (suc a) b p q =
    rw (digits_fuel z f n m (suc a / 2) (b / 2) (omega arith) (omega arith))

-- The lowest digit of a conjunction, and the others.
pub bit_and_step : (a b : ℕ) → bit_and a b ≡ bit_and (a / 2) (b / 2) * 2 + min (a % 2) (b % 2)
bit_and_step zero b = omega (arith, bit_and-bitwise 0 b, bit_and-bitwise 0 (b / 2))
bit_and_step (suc a) b = omega (
  arith,
  bit_and-bitwise (suc a) b,
  bit_and-bitwise (suc a / 2) (b / 2),
  digits_fuel (λ y. 0) min a (suc a / 2) (suc a / 2) (b / 2) (omega arith) (omega arith),
)

pub bit_or_step : (a b : ℕ) → bit_or a b ≡ bit_or (a / 2) (b / 2) * 2 + max (a % 2) (b % 2)
bit_or_step zero b = omega (arith, bit_or-bitwise 0 b, bit_or-bitwise 0 (b / 2))
bit_or_step (suc a) b = omega (
  arith,
  bit_or-bitwise (suc a) b,
  bit_or-bitwise (suc a / 2) (b / 2),
  digits_fuel (λ y. y) max a (suc a / 2) (suc a / 2) (b / 2) (omega arith) (omega arith),
)

-- The digit at an index, from the lowest.
unfoldable pub bit : ℕ → ℕ → ℕ
bit zero a = a % 2
bit (suc k) a = bit k (a / 2)

pub bit-bit_and : (k a b : ℕ) → bit k (bit_and a b) ≡ min (bit k a) (bit k b)
unfolding bit
bit-bit_and zero a b = omega (arith, bit_and_step a b)
bit-bit_and (suc k) a b =
    let half : bit_and a b / 2 ≡ bit_and (a / 2) (b / 2) = omega (arith, bit_and_step a b) in
    rw (half) (bit-bit_and k (a / 2) (b / 2))

pub bit-bit_or : (k a b : ℕ) → bit k (bit_or a b) ≡ max (bit k a) (bit k b)
unfolding bit
bit-bit_or zero a b = omega (arith, bit_or_step a b)
bit-bit_or (suc k) a b =
    let half : bit_or a b / 2 ≡ bit_or (a / 2) (b / 2) = omega (arith, bit_or_step a b) in
    rw (half) (bit-bit_or k (a / 2) (b / 2))

pub bit-zero : (k : ℕ) → bit k 0 ≡ 0
unfolding bit
bit-zero zero = refl
bit-zero (suc k) = bit-zero k

pub bit_small : (k a : ℕ) → bit k a ≤ 1
unfolding bit
bit_small zero a = omega arith
bit_small (suc k) a = bit_small k (a / 2)

pub bit_self : (k : ℕ) → bit k (2 ^ k) ≡ 1
unfolding bit
bit_self zero = refl
bit_self (suc k) =
    let half : 2 ^ suc k / 2 ≡ 2 ^ k = omega (arith, pow-suc 2 k) in rw (half) (bit_self k)

pub bit_other : (k j : ℕ) → k ≢ j → bit k (2 ^ j) ≡ 0
unfolding bit
bit_other zero zero h = absurd (h refl)
bit_other zero (suc j) h = omega (arith, pow-suc 2 j)
bit_other (suc k) zero h = bit-zero k
bit_other (suc k) (suc j) h =
    let half : 2 ^ suc j / 2 ≡ 2 ^ j = omega (arith, pow-suc 2 j) in
    rw (half) (bit_other k j (λ e. h (ap suc e)))

-- Numbers with the same digits are the same.
bits_ext_fuel : (n a b : ℕ) → a ≤ n → ((k : ℕ) → bit k a ≡ bit k b) → b ≤ n → a ≡ b
unfolding bit
bits_ext_fuel zero a b p h q = omega arith
bits_ext_fuel (suc n) a b p h q =
    omega (arith, h 0, bits_ext_fuel n (a / 2) (b / 2) (omega arith) (λ k. h (suc k)) (omega arith))

pub bits_ext : (a b : ℕ) → ((k : ℕ) → bit k a ≡ bit k b) → a ≡ b
bits_ext a b h = bits_ext_fuel (max a b) a b (omega arith) h (omega arith)

-- A mask keeps a number exactly if it has all its digits.
pub bit_and_same : (a b : ℕ) → (bit_and a b ≡ a) ↔ ((k : ℕ) → bit k a ≤ bit k b)
bit_and_same a b = (
  λ e k. omega (arith, bit-bit_and k a b, ap (bit k) e),
  λ h. bits_ext (bit_and a b) a (λ k. omega (arith, bit-bit_and k a b, h k)),
)
