-- ===== src/Eth/Types/MerkleTree/Leaves.antt =====
-- eth/types/merkletree.go: the tree that is built has the given hashes as its leaves.
use livepeer.Base.{
  ℕ, zero, suc, ◌≤◌, ◌<◌, ◌≡◌, refl, ap, ◌∙◌, List, [], ◌∷◌, ◌++◌, some, arith, length, take, drop,
  length-take, length-drop, take-append-drop,
}
use livepeer.Eth.Types.MerkleTree.{
  Tree, leaf, node, hash_of, half, join, combined_hash, build_merkle_tree,
}

abbrev pub leaf_hashes : Tree → List ℕ
leaf_hashes (leaf h) = h ∷ []
leaf_hashes (node h first second) = leaf_hashes first ++ leaf_hashes second

-- Each inner node has the combined hash of its children.
abbrev pub IsHashed : (ℕ → ℕ → ℕ) → Tree → Type 0
IsHashed k (leaf h) = Unit {0}
IsHashed k (node h first second) =
    (h ≡ combined_hash k (hash_of first) (hash_of second)) × IsHashed k first × IsHashed k second

-- With fuel for the number of hashes, the tree is built over all of them in their order.
pub build_merkle_tree-some :
    (k : ℕ → ℕ → ℕ) (fuel : ℕ) (hashes : List ℕ)
    → 0 < length hashes
    → length hashes ≤ fuel
    → (t : Tree) × (build_merkle_tree k fuel hashes ≡ some t)
      × (leaf_hashes t ≡ hashes)
      × IsHashed k t
unfolding build_merkle_tree
build_merkle_tree-some k zero hashes h f = absurd (omega arith)
build_merkle_tree-some k (suc fuel) [] h f = absurd (omega arith)
build_merkle_tree-some k (suc fuel) (h ∷ []) p f = (leaf h, refl, refl, tt)
build_merkle_tree-some k (suc fuel) (h ∷ h' ∷ hashes) p f =
    let all = h ∷ h' ∷ hashes in
    let front = length-take (half all) all in
    let back = length-drop (half all) all in
    let (first, e, l, w) =
      build_merkle_tree-some k fuel (take (half all) all) (omega arith) (omega arith) in
    let (second, e', l', w') =
      build_merkle_tree-some k fuel (drop (half all) all) (omega arith) (omega arith) in
    (
      node (combined_hash k (hash_of first) (hash_of second)) first second,
      ap (λ x. join k x (build_merkle_tree k fuel (drop (half all) all))) e
          ∙ ap (join k (some first)) e',
      rw (l, l') (take-append-drop (half all) all),
      (refl, w, w'),
    )
