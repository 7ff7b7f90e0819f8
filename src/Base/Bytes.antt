-- ===== src/Base/Bytes.antt =====
-- Byte strings of numbers: `big.Int.Bytes`, `make([]byte, n)` and the built-in `copy`.
use Prim.Native.Nat.{min}
use mathlib.Core.List.{append_assoc}
use native.Mathlib.Nat.{pow-suc, suc-add}
use livepeer.Base.{
  ℕ, zero, suc, ◌+◌, ◌-◌, ◌*◌, ◌/◌, ◌%◌, ◌^◌, ◌≤◌, ◌<◌, ◌≡◌, refl, ap, List, [], ◌∷◌, ◌++◌, ◌==◌,
  if◌then◌else◌, arith, length, length-append, replicate, length-replicate, Bool-cases, inl, inr,
  sym, ◌∙◌,
}

-- The bytes of a number, most significant first and with no leading zero. A number has no more
-- bytes than its value, so `digits (suc n) n` never runs out.
digits : ℕ → ℕ → List ℕ
digits zero n = []
digits (suc fuel) n =
    let rest = digits fuel (n / 256) ++ n % 256 ∷ [] in if n == 0 then [] else rest

-- `x.Bytes()` of a big.Int with the absolute value n
pub big_bytes : ℕ → List ℕ
unfolding digits
big_bytes n = digits (suc n) n

-- The number that a byte string spells.
value_from : ℕ → List ℕ → ℕ
value_from acc [] = acc
value_from acc (b ∷ bs) = value_from (acc * 256 + b) bs

pub value : List ℕ → ℕ
unfolding value_from
value bs = value_from 0 bs

value_from-snoc :
    (acc : ℕ) (bs : List ℕ) (b : ℕ) → value_from acc (bs ++ b ∷ []) ≡ value_from acc bs * 256 + b
unfolding value_from
value_from-snoc acc [] b = refl
value_from-snoc acc (x ∷ bs) b = value_from-snoc (acc * 256 + x) bs b

value-digits : (fuel n : ℕ) → n < fuel → value (digits fuel n) ≡ n
unfolding value digits
value-digits zero n h = elim h [ ]
value-digits (suc fuel) n h = elim (Bool-cases (n == 0)) [
  | inl e ↦ rw e (ground arith)
  | inr e ↦
      rw (e, value_from-snoc 0 (digits fuel (n / 256)) (n % 256))
        (omega (arith, value-digits fuel (n / 256) (ground arith)))
]

pub value-big_bytes : (n : ℕ) → value (big_bytes n) ≡ n
unfolding big_bytes
value-big_bytes n = value-digits (suc n) n (omega arith)

pub value-zeros : (k : ℕ) (bs : List ℕ) → value (replicate k 0 ++ bs) ≡ value bs
unfolding value
value-zeros zero bs = refl
value-zeros (suc k) bs = value-zeros k bs

-- A number below 256 ^ k has at most k bytes.
length-digits : (fuel k n : ℕ) → n < 256 ^ k → length (digits fuel n) ≤ k
unfolding digits
length-digits zero k n h = omega arith
length-digits (suc fuel) zero n h = ground arith
length-digits (suc fuel) (suc k) n h = elim (Bool-cases (n == 0)) [
  | inl e ↦ rw e (omega arith)
  | inr e ↦
      rw (e, length-append (digits fuel (n / 256)) (n % 256 ∷ []))
        (omega (arith, length-digits fuel k (n / 256) (ground (arith, pow-suc 256 k))))
]

pub length-big_bytes : (k n : ℕ) → n < 256 ^ k → length (big_bytes n) ≤ k
unfolding big_bytes
length-big_bytes k n h = length-digits (suc n) k n h

-- The built-in `copy` over a slice: it writes what fits.
overwrite : List ℕ → List ℕ → List ℕ
overwrite [] src = []
overwrite (b ∷ buf) [] = b ∷ buf
overwrite (b ∷ buf) (s ∷ src) = s ∷ overwrite buf src

-- `copy(buf[i:], src)`
copy_at : List ℕ → ℕ → List ℕ → List ℕ
unfolding overwrite
copy_at buf zero src = overwrite buf src
copy_at [] (suc i) src = []
copy_at (b ∷ buf) (suc i) src = b ∷ copy_at buf i src

-- A buffer and the offset of the next write, `i += copy(buf[i:], src)`.
pub record Writer : Type 0 where
  pub buf : List ℕ
  pub at : ℕ

pub make_writer : ℕ → Writer
make_writer n = record { buf = replicate n 0; at = 0 }

pub put : Writer → List ℕ → Writer
unfolding copy_at
put w src = record {
  buf = copy_at w.buf w.at src;
  at = w.at + min (length w.buf - w.at) (length src);
}

-- The writer holds `done`, and room for `room` bytes is left.
pub record Holds (w : Writer) (done : List ℕ) (room : ℕ) : Type 0 where
  pub text : w.buf ≡ done ++ replicate room 0
  pub offset : w.at ≡ length done

overwrite-room :
    (src : List ℕ) (room : ℕ)
    → overwrite (replicate (length src + room) 0) src ≡ src ++ replicate room 0
unfolding overwrite
overwrite-room [] room = elim room as (λ r. overwrite (replicate (0 + r) 0) [] ≡ replicate r 0) [
  | zero ↦ refl
  | suc r ↦ ground arith
]
overwrite-room (s ∷ src) room =
    rw (suc-add (length src) room) (ap (◌∷◌ s) (overwrite-room src room))

copy_at-done :
    (done src : List ℕ) (room : ℕ)
    → copy_at (done ++ replicate (length src + room) 0) (length done) src
      ≡ done ++ (src ++ replicate room 0)
unfolding copy_at
copy_at-done [] src room = overwrite-room src room
copy_at-done (d ∷ done) src room = ap (◌∷◌ d) (copy_at-done done src room)

pub make_writer-Holds : (n : ℕ) → Holds (make_writer n) [] n
unfolding make_writer
make_writer-Holds n = record { text = refl; offset = refl }

pub put-Holds :
    {w : Writer} {done : List ℕ} (src : List ℕ) (room : ℕ)
    → Holds w done (length src + room)
    → Holds (put w src) (done ++ src) room
unfolding put
put-Holds {w} {done} src room h = record {
  text = rw (h.text, h.offset) (copy_at-done done src room ∙ sym (append_assoc done src _));
  offset = omega (
    arith,
    h.offset,
    ap length h.text,
    length-append done (replicate (length src + room) 0),
    length-append done src,
    length-replicate {A = ℕ} (length src + room) 0,
  );
}

-- Byte strings of one length at the front can be told apart.
pub append_inj : (a b c d : List ℕ) → length a ≡ length c → a ++ b ≡ c ++ d → (a ≡ c) × (b ≡ d)
append_inj [] b [] d h e = (refl, e)
append_inj [] b (y ∷ c) d h e = absurd (omega arith)
append_inj (x ∷ a) b [] d h e = absurd (omega arith)
append_inj (x ∷ a) b (y ∷ c) d h e =
    let rest = append_inj a b c d (omega arith) (cc) in (ground (arith, rest), rest.1)

-- The k low bytes of a number, most significant first.
pub fixed_bytes : ℕ → ℕ → List ℕ
fixed_bytes zero n = []
fixed_bytes (suc k) n = fixed_bytes k (n / 256) ++ n % 256 ∷ []

pub length-fixed_bytes : (k n : ℕ) → length (fixed_bytes k n) ≡ k
unfolding fixed_bytes
length-fixed_bytes zero n = refl
length-fixed_bytes (suc k) n =
    omega (
      arith,
      length-append (fixed_bytes k (n / 256)) (n % 256 ∷ []),
      length-fixed_bytes k (n / 256),
    )

pub value-fixed_bytes : (k n : ℕ) → n < 256 ^ k → value (fixed_bytes k n) ≡ n
unfolding value fixed_bytes
value-fixed_bytes zero n h = ground arith
value-fixed_bytes (suc k) n h =
    rw (value_from-snoc 0 (fixed_bytes k (n / 256)) (n % 256))
      (omega (arith, value-fixed_bytes k (n / 256) (ground (arith, pow-suc 256 k))))
