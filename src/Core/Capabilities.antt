-- ===== src/Core/Capabilities.antt =====
-- core/capabilities.go: what a transcoding job needs and what a node offers, as bit strings of 64 bit
-- words. The lists of names and of test segments are not modelled.
pub mod Conversions
pub mod Jobs
pub mod Strings
pub mod Compatible
mod Tests
use Prim.Native.Nat.{bit_and, bit_or}
use livepeer.Base.{
  ℕ, zero, suc, ◌-◌, ◌/◌, ◌%◌, ◌^◌, Bool, true, false, ◌&&◌, List, [], ◌∷◌, ◌++◌, Option, none,
  some, ◌==◌, ltb, if◌then◌else◌, length, get_or, set, replicate,
}
use livepeer.Base.Int.{ℤ, pos, negsuc}

-- `Capability`; `Capability_Invalid` is -2 and `Capability_Unused` is -1.
abbrev pub Capability : Type 0
Capability = ℤ

-- `c1 == c2`
abbrev pub same_capability : Capability → Capability → Bool
same_capability (pos m) (pos n) = m == n
same_capability (negsuc m) (negsuc n) = m == n
same_capability _ _ = false

-- `InArray`
abbrev pub in_array : Capability → List Capability → Bool
in_array c [] = false
in_array c (d ∷ ds) = if same_capability c d then true else in_array c ds

-- Appending zeros until there is a word at the index.
abbrev pub grow : ℕ → List ℕ → List ℕ
grow i s = s ++ replicate (suc i - length s) 0

-- A round of the loop of `NewCapabilityString`.
unfoldable pub set_capability : Capability → List ℕ → List ℕ
set_capability (negsuc n) s = s
set_capability (pos v) s =
    let i = v / 64 in let grown = grow i s in set grown i (bit_or (get_or grown i 0) (2 ^ (v % 64)))

unfoldable pub set_capabilities : List Capability → List ℕ → List ℕ
unfolding set_capability
set_capabilities [] s = s
set_capabilities (c ∷ cs) s = set_capabilities cs (set_capability c s)

-- `NewCapabilityString`
abbrev pub new_capability_string : List Capability → List ℕ
new_capability_string caps = set_capabilities caps []

-- The loop of `CapabilityString.CompatibleWith`, which has as many words on the right.
abbrev pub words_within : List ℕ → List ℕ → Bool
words_within [] ys = true
words_within (x ∷ xs) [] = false
words_within (x ∷ xs) (y ∷ ys) = if bit_and x y == x then words_within xs ys else false

-- `CapabilityString.CompatibleWith`
unfoldable pub is_within : List ℕ → List ℕ → Bool
is_within c1 c2 = if ltb (length c2) (length c1) then false else words_within c1 c2

-- `Capabilities`; `net.Capabilities` has the same fields.
pub record Capabilities : Type 0 where
  pub bitstring : List ℕ
  pub mandatories : List ℕ

-- `NewCapabilities`
unfoldable pub new_capabilities : List Capability → List Capability → Capabilities
unfolding set_capabilities
new_capabilities caps m = record {
  bitstring = new_capability_string caps;
  mandatories = new_capability_string m;
}

-- `Capabilities.CompatibleWith`
unfoldable pub compatible_with : Option Capabilities → Capabilities → Bool
unfolding is_within
compatible_with none orch = false
compatible_with (some bcast) orch =
    if is_within orch.mandatories bcast.bitstring
    then is_within bcast.bitstring orch.bitstring
    else false
