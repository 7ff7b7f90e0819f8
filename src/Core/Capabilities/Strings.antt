-- ===== src/Core/Capabilities/Strings.antt =====
-- core/capabilities.go: a capability string is a set of capabilities.
use Prim.Native.Nat.{max, bit_or}
use livepeer.Base.{
  get_or-set_self, get_or-set_ne, ℕ, zero, suc, ◌-◌, ◌/◌, ◌%◌, ◌^◌, ◌≤◌, ◌≡◌, ◌≢◌, refl, ap, ◌∙◌,
  Bool, true, false, List, [], ◌∷◌, ◌++◌, ◌==◌, inl, inr, if◌then◌else◌, length, get_or, replicate,
  Bool-cases, arith, length-append, length-replicate, length-set,
}
use livepeer.Base.Int.{pos, negsuc}
use livepeer.Base.Bits.{bit, bit-bit_or, bit-zero, bit_small, bit_self, bit_other}
use livepeer.Core.Capabilities.{
  Capability, in_array, grow, set_capability, set_capabilities, new_capability_string,
}

-- Reading words; out of range they are 0.
pub get_or_beyond : (xs : List ℕ) (i : ℕ) → length xs ≤ i → get_or xs i 0 ≡ 0
get_or_beyond [] i h = refl
get_or_beyond (x ∷ xs) zero h = absurd (omega arith)
get_or_beyond (x ∷ xs) (suc i) h = get_or_beyond xs i (omega arith)

abbrev zeros : ℕ → List ℕ
zeros n = replicate n 0

get_or-zeros : (n i : ℕ) → get_or (zeros n) i 0 ≡ 0
get_or-zeros zero i = refl
get_or-zeros (suc n) zero = refl
get_or-zeros (suc n) (suc i) = get_or-zeros n i

get_or-append : (xs : List ℕ) (n i : ℕ) → get_or (xs ++ zeros n) i 0 ≡ get_or xs i 0
get_or-append [] n i = get_or-zeros n i
get_or-append (x ∷ xs) n zero = refl
get_or-append (x ∷ xs) n (suc i) = get_or-append xs n i

-- The bit of a capability: 1 if the string has it.
abbrev pub has : List ℕ → ℕ → ℕ
has s v = bit (v % 64) (get_or s (v / 64) 0)

length-grow : (i : ℕ) (s : List ℕ) → length (grow i s) ≡ max (length s) (suc i)
length-grow i s = omega (
  arith,
  length-append s (zeros (suc i - length s)),
  length-replicate {A = ℕ} (suc i - length s) 0,
)

-- The digits of a word after a capability was set.
set_capability-same_word :
    (v k : ℕ) (s : List ℕ)
    → bit k (get_or (set_capability (pos v) s) (v / 64) 0)
      ≡ max (bit k (get_or s (v / 64) 0)) (bit k (2 ^ (v % 64)))
unfolding set_capability
set_capability-same_word v k s =
    rw
      (get_or-set_self (grow (v / 64) s) (v / 64)
        (bit_or (get_or (grow (v / 64) s) (v / 64) 0) (2 ^ (v % 64))) 0
        (omega (arith, length-grow (v / 64) s)))
      (bit-bit_or k (get_or (grow (v / 64) s) (v / 64) 0) (2 ^ (v % 64))
        ∙ ap (λ x. max (bit k x) (bit k (2 ^ (v % 64))))
            (get_or-append s (suc (v / 64) - length s) (v / 64)))

set_capability-other_word :
    (v j : ℕ) (s : List ℕ) → v / 64 ≢ j → get_or (set_capability (pos v) s) j 0 ≡ get_or s j 0
unfolding set_capability
set_capability-other_word v j s h =
    get_or-set_ne (grow (v / 64) s) (v / 64) j _ 0 h ∙ get_or-append s (suc (v / 64) - length s) j

has-set_capability_self : (v : ℕ) (s : List ℕ) → has (set_capability (pos v) s) v ≡ 1
has-set_capability_self v s = omega (
  arith,
  set_capability-same_word v (v % 64) s,
  bit_self (v % 64),
  bit_small (v % 64) (get_or s (v / 64) 0),
)

has-set_capability_ne : (v w : ℕ) (s : List ℕ) → v ≢ w → has (set_capability (pos v) s) w ≡ has s w
has-set_capability_ne v w s h = elim (Bool-cases (v / 64 == w / 64)) [
  | inl same ↦
      let word : w / 64 ≡ v / 64 = ground arith in
      let digit : w % 64 ≢ v % 64 = λ e. h (omega arith) in
      rw (word)
        (omega (arith, set_capability-same_word v (w % 64) s, bit_other (w % 64) (v % 64) digit))
  | inr other ↦
      ap (bit (w % 64)) (set_capability-other_word v (w / 64) s (λ e. ground (arith, e, other)))
]

length-set_capability :
    (v : ℕ) (s : List ℕ) → length (set_capability (pos v) s) ≡ max (length s) (suc (v / 64))
unfolding set_capability
length-set_capability v s =
    length-set (grow (v / 64) s) (v / 64)
      (bit_or (get_or (grow (v / 64) s) (v / 64) 0) (2 ^ (v % 64)))
    ∙ length-grow (v / 64) s

-- Words have 64 digits, and the last word is not empty.
pub record IsCapabilityString (s : List ℕ) : Type 0 where
  pub fits : (i k : ℕ) → 64 ≤ k → bit k (get_or s i 0) ≡ 0
  pub last : (i : ℕ) → length s ≡ suc i → (v : ℕ) × (v / 64 ≡ i) × (has s v ≡ 1)

empty-IsCapabilityString : IsCapabilityString []
empty-IsCapabilityString = record { fits = λ i k h. bit-zero k; last = λ i e. absurd (omega arith) }

set_capability-fits :
    (v : ℕ) (s : List ℕ) (i k : ℕ)
    → IsCapabilityString s
    → 64 ≤ k
    → bit k (get_or (set_capability (pos v) s) i 0) ≡ 0
set_capability-fits v s i k p h = elim (Bool-cases (i == v / 64)) [
  | inl same ↦
      let word : i ≡ v / 64 = ground arith in
      rw (word) (
        omega (
          arith,
          set_capability-same_word v k s,
          bit_other k (v % 64) (λ e. omega arith),
          p.fits (v / 64) k h,
        ))
  | inr other ↦
      ap (bit k) (set_capability-other_word v i s (λ e. ground (arith, e, other))) ∙ p.fits i k h
]

set_capability-last :
    (v : ℕ) (s : List ℕ) (i : ℕ)
    → IsCapabilityString s
    → length (set_capability (pos v) s) ≡ suc i
    → (w : ℕ) × (w / 64 ≡ i) × (has (set_capability (pos v) s) w ≡ 1)
set_capability-last v s i p e = elim (Bool-cases (i == v / 64)) [
  | inl same ↦ (v, ground arith, has-set_capability_self v s)
  | inr other ↦
      let (w, word, had) = p.last i (ground (arith, length-set_capability v s, e, other)) in
      (
        w,
        word,
        ap (bit (w % 64))
              (set_capability-other_word v (w / 64) s (λ e'. ground (arith, e', other, word)))
            ∙ had,
      )
]

set_capability-IsCapabilityString :
    (c : Capability) (s : List ℕ) → IsCapabilityString s → IsCapabilityString (set_capability c s)
unfolding set_capability
set_capability-IsCapabilityString (negsuc n) s p = p
set_capability-IsCapabilityString (pos v) s p = record {
  fits = λ i k h. set_capability-fits v s i k p h;
  last = λ i e. set_capability-last v s i p e;
}

set_capabilities-IsCapabilityString :
    (cs : List Capability) (s : List ℕ)
    → IsCapabilityString s
    → IsCapabilityString (set_capabilities cs s)
unfolding set_capabilities
set_capabilities-IsCapabilityString [] s p = p
set_capabilities-IsCapabilityString (c ∷ cs) s p =
    set_capabilities-IsCapabilityString cs (set_capability c s)
      (set_capability-IsCapabilityString c s p)

pub new_capability_string-IsCapabilityString :
    (cs : List Capability) → IsCapabilityString (new_capability_string cs)
new_capability_string-IsCapabilityString cs =
    set_capabilities-IsCapabilityString cs [] empty-IsCapabilityString

-- What the string has after a list of capabilities.
has-set_capability :
    (v w : ℕ) (s : List ℕ) → has (set_capability (pos v) s) w ≡ (if w == v then 1 else has s w)
has-set_capability v w s = elim (Bool-cases (w == v)) [
  | inl same ↦ let word : w ≡ v = ground arith in rw (same, word) (has-set_capability_self v s)
  | inr other ↦ rw (other) (has-set_capability_ne v w s (λ e. ground (arith, e, other)))
]

if_same : (b : Bool) (n : ℕ) → (if b then n else n) ≡ n
if_same true n = refl
if_same false n = refl

has-set_capabilities :
    (cs : List Capability) (s : List ℕ) (w : ℕ)
    → has (set_capabilities cs s) w ≡ (if in_array (pos w) cs then 1 else has s w)
unfolding set_capabilities set_capability
has-set_capabilities [] s w = refl
has-set_capabilities (negsuc n ∷ cs) s w = has-set_capabilities cs s w
has-set_capabilities (pos v ∷ cs) s w =
    let rest = has-set_capabilities cs (set_capability (pos v) s) w in
    let one = has-set_capability v w s in
    elim (Bool-cases (w == v)) [
      | inl same ↦
          let has_it : has (set_capability (pos v) s) w ≡ 1 = one ∙ rw (same) refl in
          rest
          ∙ ap (λ x. if in_array (pos w) cs then 1 else x) has_it
          ∙ rw (same) (if_same (in_array (pos w) cs) 1)
      | inr other ↦
          let kept : has (set_capability (pos v) s) w ≡ has s w = one ∙ rw (other) refl in
          rest ∙ ap (λ x. if in_array (pos w) cs then 1 else x) kept ∙ rw (other) refl
    ]

-- The string has exactly the capabilities of the list.
pub has-new_capability_string :
    (cs : List Capability) (w : ℕ)
    → has (new_capability_string cs) w ≡ (if in_array (pos w) cs then 1 else 0)
has-new_capability_string cs w = rw (bit-zero (w % 64)) at (has-set_capabilities cs [] w)
