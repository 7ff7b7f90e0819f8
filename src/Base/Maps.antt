-- ===== src/Base/Maps.antt =====
-- Go maps as functions: a missing key reads `none`. Iteration that deletes is pointwise.
use Prim.Native.String.{String}
use text.Mathlib.Text.{◌==◌ as str_eq}
use text.Mathlib.TextEquality.{eq_iff}
use livepeer.Base.{
  ℕ, ◌≡◌, refl, ◌≢◌, ◌↔◌, Bool, true, false, Option, none, some, ◌==◌ as nat_beq, ==_iff,
  if◌then◌else◌, Bool-cases, inl, inr,
}

-- What Go requires of the key type of a map.
pub record Eq {ℓ} (K : Type ℓ) : Type ℓ where
  pub beq : K → K → Bool
  pub beq_iff : (a b : K) → (beq a b ≡ true) ↔ (a ≡ b)

instance abbrev pub nat_eq : Eq ℕ
nat_eq = record { beq = nat_beq; beq_iff = ==_iff }

instance abbrev pub string_eq : Eq String
string_eq = record { beq = str_eq; beq_iff = eq_iff }

module _ {ℓ κ} {K : Type ℓ} (e : Eq K) (V : Type κ) where
  -- `make(map[K]V)`
  abbrev pub empty_map : K → Option V
  empty_map k = none

module _ {ℓ κ} {K : Type ℓ} ⦃e : Eq K⦄ {V : Type κ} where
  -- `m[k] = v`
  abbrev pub insert : K → V → (K → Option V) → K → Option V
  insert k v m j = if e.beq j k then some v else m j

  -- `delete(m, k)`
  abbrev pub erase : K → (K → Option V) → K → Option V
  erase k m j = if e.beq j k then none else m j

  -- `for k, v := range m { if gone(v) { delete(m, k) } }`
  abbrev pub erase_if : (V → Bool) → (K → Option V) → K → Option V
  erase_if gone m j = elim (m j) [ none ↦ none | some v ↦ if gone v then none else some v ]

module _ {ℓ} {K : Type ℓ} ⦃e : Eq K⦄ where
  pub beq_self : (k : K) → e.beq k k ≡ true
  beq_self k = (e.beq_iff k k).1 refl

  pub beq_ne : (j k : K) → j ≢ k → e.beq j k ≡ false
  beq_ne j k h = elim (Bool-cases (e.beq j k)) [
    | inl same ↦ absurd (h ((e.beq_iff j k).0 same))
    | inr other ↦ other
  ]

module _ {ℓ κ} {K : Type ℓ} ⦃e : Eq K⦄ {V : Type κ} where
  pub insert_self : (k : K) (v : V) (m : K → Option V) → insert k v m k ≡ some v
  insert_self k v m = rw (beq_self k)

  pub erase_self : (k : K) (m : K → Option V) → erase k m k ≡ none
  erase_self k m = rw (beq_self k)

  pub insert_ne : (j k : K) (v : V) (m : K → Option V) → j ≢ k → insert k v m j ≡ m j
  insert_ne j k v m h = rw (beq_ne j k h)

  -- A stored value that is stored again changes nothing.
  pub insert_same : (j k : K) (v : V) (m : K → Option V) → m k ≡ some v → insert k v m j ≡ m j
  insert_same j k v m h = elim (Bool-cases (e.beq j k)) [
    | inl same ↦ let j_eq = (e.beq_iff j k).0 same in rw (same, j_eq, h)
    | inr other ↦ rw (other)
  ]
