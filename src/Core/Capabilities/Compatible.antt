-- ===== src/Core/Capabilities/Compatible.antt =====
-- core/capabilities.go: compatibility is a comparison of sets of capabilities.
use Prim.Native.Nat.{bit_and}
use livepeer.Base.{
  ℕ, zero, suc, ◌+◌, ◌-◌, ◌*◌, ◌/◌, ◌%◌, ◌≤◌, ◌≡◌, ◌↔◌, refl, ap, true, List, [], ◌∷◌, some, ◌==◌,
  ==_iff, ltb, inl, inr, length, get_or, Bool-cases, arith,
}
use livepeer.Base.Int.{pos}
use livepeer.Base.Bits.{bit, bit-zero, bit_and_same, bits_ext}
use livepeer.Core.Capabilities.{
  Capability, in_array, new_capability_string, words_within, is_within, new_capabilities,
  compatible_with,
}
use livepeer.Core.Capabilities.Strings.{
  IsCapabilityString, has, get_or_beyond, has-new_capability_string,
  new_capability_string-IsCapabilityString,
}

-- The loop compares all digits.
words_within→digits :
    (xs ys : List ℕ)
    → words_within xs ys ≡ true
    → (i k : ℕ) → bit k (get_or xs i 0) ≤ bit k (get_or ys i 0)
words_within→digits [] ys e i k = omega (arith, bit-zero k)
words_within→digits (x ∷ xs) [] e i k = absurd (ground arith)
words_within→digits (x ∷ xs) (y ∷ ys) e zero k =
    let same : bit_and x y ≡ x = ground arith in (bit_and_same x y).0 same k
words_within→digits (x ∷ xs) (y ∷ ys) e (suc i) k = words_within→digits xs ys (ground arith) i k

digits→words_within :
    (xs ys : List ℕ)
    → length xs ≤ length ys
    → ((i k : ℕ) → bit k (get_or xs i 0) ≤ bit k (get_or ys i 0))
    → words_within xs ys ≡ true
digits→words_within [] ys h all = refl
digits→words_within (x ∷ xs) [] h all = absurd (omega arith)
digits→words_within (x ∷ xs) (y ∷ ys) h all =
    let same : (bit_and x y == x) ≡ true =
      (==_iff (bit_and x y) x).1 ((bit_and_same x y).1 (λ k. all 0 k)) in
    rw (same) (digits→words_within xs ys (omega arith) (λ i k. all (suc i) k))

module _ (s t : List ℕ) (p : IsCapabilityString s) (q : IsCapabilityString t) where
  -- A capability is a digit of a word.
  has→digits :
      ((v : ℕ) → has s v ≤ has t v) → (i k : ℕ) → bit k (get_or s i 0) ≤ bit k (get_or t i 0)
  has→digits h i k = elim (Bool-cases (ltb k 64)) [
    | inl small ↦
        let word : (i * 64 + k) / 64 ≡ i = ground arith in
        let digit : (i * 64 + k) % 64 ≡ k = ground arith in rw (word, digit) at (h (i * 64 + k))
    | inr large ↦ omega (arith, p.fits i k (ground arith))
  ]

  has→length : ((v : ℕ) → has s v ≤ has t v) → length s ≤ length t
  has→length h = elim (Bool-cases (ltb (length t) (length s))) [
    | inl longer ↦
        let (v, word, had) = p.last (length s - 1) (ground arith) in
        absurd (
          omega (
            arith,
            h v,
            had,
            bit-zero (v % 64),
            ap (bit (v % 64)) (get_or_beyond t (v / 64) (ground (arith, word, longer))),
          ))
    | inr shorter ↦ ground arith
  ]

  -- `CompatibleWith` compares the capabilities.
  is_within_iff : (is_within s t ≡ true) ↔ ((v : ℕ) → has s v ≤ has t v)
  unfolding is_within
  is_within_iff = (
    λ e v. words_within→digits s t (ground arith) (v / 64) (v % 64),
    λ h.
        let fits = has→length h in
        let within = digits→words_within s t fits (has→digits h) in ground arith,
  )

-- Every capability of the first list, but unused and invalid ones, is in the second.
abbrev pub IsSubset : List Capability → List Capability → Type 0
IsSubset xs ys = (v : ℕ) → in_array (pos v) xs ≡ true → in_array (pos v) ys ≡ true

module _ (xs ys : List Capability) where
  has_iff :
      ((v : ℕ) → has (new_capability_string xs) v ≤ has (new_capability_string ys) v)
      ↔ IsSubset xs ys
  has_iff = (
    λ h v e. ground (arith, h v, has-new_capability_string xs v, has-new_capability_string ys v),
    λ h v. elim (Bool-cases (in_array (pos v) xs)) [
      | inl listed ↦
          ground (arith, h v listed, has-new_capability_string xs v, has-new_capability_string ys v)
      | inr other ↦ ground (arith, has-new_capability_string xs v)
    ],
  )

  pub is_within-IsSubset :
      (is_within (new_capability_string xs) (new_capability_string ys) ≡ true) ↔ IsSubset xs ys
  is_within-IsSubset =
      let p = new_capability_string-IsCapabilityString xs in
      let q = new_capability_string-IsCapabilityString ys in
      let both = is_within_iff (new_capability_string xs) (new_capability_string ys) p q in
      (λ e. has_iff.0 (both.0 e), λ h. both.1 (has_iff.1 h))

-- A job and a node are compatible exactly if the job has all capabilities that the node demands, and
-- the node has all capabilities that the job needs.
pub compatible_with_iff :
    (needed m offered demanded : List Capability)
    → (compatible_with (some (new_capabilities needed m)) (new_capabilities offered demanded)
        ≡ true)
      ↔ (IsSubset demanded needed × IsSubset needed offered)
unfolding compatible_with new_capabilities
compatible_with_iff needed m offered demanded =
    let d = is_within-IsSubset demanded needed in
    let n = is_within-IsSubset needed offered in
    (λ e. (d.0 (ground arith), n.0 (ground arith)), λ h. rw (d.1 h.0) (n.1 h.1))

-- Lists with the same words.
words_ext : (s t : List ℕ) → length s ≡ length t → ((i : ℕ) → get_or s i 0 ≡ get_or t i 0) → s ≡ t
words_ext [] [] l h = refl
words_ext [] (y ∷ ys) l h = absurd (omega arith)
words_ext (x ∷ xs) [] l h = absurd (omega arith)
words_ext (x ∷ xs) (y ∷ ys) l h = rw (h 0, words_ext xs ys (omega arith) (λ i. h (suc i))) refl

-- The string does not depend on the order of the capabilities, nor on repetitions: the order in which
-- a map gives its keys makes no difference.
pub new_capability_string-order :
    (xs ys : List Capability)
    → IsSubset xs ys
    → IsSubset ys xs
    → new_capability_string xs ≡ new_capability_string ys
new_capability_string-order xs ys h h' =
    let s = new_capability_string xs in
    let t = new_capability_string ys in
    let p = new_capability_string-IsCapabilityString xs in
    let q = new_capability_string-IsCapabilityString ys in
    let le = (has_iff xs ys).1 h in
    let ge = (has_iff ys xs).1 h' in
    let l : length s ≤ length t = has→length s t p q le in
    let l' : length t ≤ length s = has→length t s q p ge in
    words_ext s t (omega arith) (λ i.
      bits_ext (get_or s i 0) (get_or t i 0)
        (λ k. omega (arith, has→digits s t p q le i k, has→digits t s q p ge i k)))
