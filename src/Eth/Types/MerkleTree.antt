-- ===== src/Eth/Types/MerkleTree.antt =====
-- eth/types/merkletree.go: Merkle trees over sorted pairs. A hash is a number below 2^256; its `Hex`
-- has a fixed length, so strings compare as the numbers do. keccak-256 of two hashes is a parameter.
pub mod Leaves
pub mod Proofs
mod Tests
use livepeer.Base.{
  ℕ, zero, suc, ◌+◌, ◌/◌, Bool, true, false, List, [], ◌∷◌, ◌++◌, map, Option, none, some, ltb,
  ◌==◌, if◌then◌else◌, length, take, drop,
}

-- `MerkleTreeNode`, seen from the root.
pub data Tree : Type 0 where
  leaf : (hash : ℕ) → Tree
  node : (hash : ℕ) (first second : Tree) → Tree

abbrev pub hash_of : Tree → ℕ
hash_of (leaf h) = h
hash_of (node h first second) = h

-- `MerkleTreeNode`, seen from a node: the hashes of its siblings. Its parents follow in the list.
pub record Siblings : Type 0 where
  pub left_sib : Option ℕ
  pub right_sib : Option ℕ

abbrev pub half : List ℕ → ℕ
half hashes = (length hashes + 1) / 2

module _ (keccak256 : ℕ → ℕ → ℕ) where
  -- `combinedHash`
  unfoldable pub combined_hash : ℕ → ℕ → ℕ
  combined_hash first second =
      if ltb first second then keccak256 first second else keccak256 second first

  abbrev pub join : Option Tree → Option Tree → Option Tree
  join none second = none
  join (some first) none = none
  join (some first) (some second) =
      some (node (combined_hash (hash_of first) (hash_of second)) first second)

  -- `buildMerkleTree`, on fuel; `none` is the nil root of no hashes.
  unfoldable pub build_merkle_tree : ℕ → List ℕ → Option Tree
  unfolding combined_hash
  build_merkle_tree zero hashes = none
  build_merkle_tree (suc fuel) [] = none
  build_merkle_tree (suc fuel) (h ∷ []) = some (leaf h)
  build_merkle_tree (suc fuel) (h ∷ h' ∷ hashes) =
      let all = h ∷ h' ∷ hashes in
      join (build_merkle_tree fuel (take (half all) all))
        (build_merkle_tree fuel (drop (half all) all))

-- What `buildMerkleTree` notes in two children.
abbrev pub first_siblings : ℕ → ℕ → Siblings
first_siblings first second =
    if ltb first second
    then record { left_sib = none; right_sib = some second }
    else record { left_sib = some second; right_sib = none }

abbrev pub second_siblings : ℕ → ℕ → Siblings
second_siblings first second =
    if ltb first second
    then record { left_sib = some first; right_sib = none }
    else record { left_sib = none; right_sib = some first }

-- The leaves in their order, each with what it and its parents know of their siblings.
unfoldable pub leaves : List Siblings → Tree → List (ℕ × List Siblings)
leaves up (leaf h) = (h, up) ∷ []
leaves up (node h first second) =
    let a = hash_of first in
    let b = hash_of second in
    leaves (first_siblings a b ∷ up) first ++ leaves (second_siblings a b ∷ up) second

abbrev pub root_siblings : List Siblings
root_siblings = record { left_sib = none; right_sib = none } ∷ []

-- `NewMerkleProof`
unfoldable pub new_merkle_proof : List Siblings → List ℕ
new_merkle_proof [] = []
new_merkle_proof (s ∷ up) = elim s.left_sib [
  | some h ↦ h ∷ new_merkle_proof up
  | none ↦ elim s.right_sib [ some h ↦ h ∷ new_merkle_proof up | none ↦ new_merkle_proof up ]
]

abbrev pub contains : ℕ → List ℕ → Bool
contains h [] = false
contains h (x ∷ seen) = if h == x then true else contains h seen

-- The loop of `checkHashDups`, over the hashes that were seen.
unfoldable pub check_hash_dups : List ℕ → List ℕ → Bool
check_hash_dups seen [] = true
check_hash_dups seen (h ∷ hashes) =
    let rest = check_hash_dups (h ∷ seen) hashes in if contains h seen then false else rest

module _ (keccak256 : ℕ → ℕ → ℕ) where
  -- `NewMerkleTree`: `none` is the error of a duplicate, a root of `none` is nil.
  unfoldable pub new_merkle_tree : List ℕ → Option (Option Tree × List (List ℕ))
  unfolding check_hash_dups
  new_merkle_tree hashes =
      let root = build_merkle_tree keccak256 (length hashes) hashes in
      let proofs : List (List ℕ) = elim root [
        | none ↦ []
        | some t ↦ map (λ l. new_merkle_proof l.1) (leaves root_siblings t)
      ] in
      if check_hash_dups [] hashes then some (root, proofs) else none

  -- The loop of `VerifyProof`
  unfoldable pub climb : ℕ → List ℕ → ℕ
  climb h [] = h
  climb h (s ∷ proof) = climb (if ltb h s then keccak256 h s else keccak256 s h) proof

  -- `VerifyProof`
  unfoldable pub verify_proof : ℕ → ℕ → List ℕ → Bool
  unfolding climb
  verify_proof root h proof = climb h proof == root
