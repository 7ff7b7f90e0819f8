-- ===== src/Eth/Types/MerkleTree/Proofs.antt =====
-- eth/types/merkletree.go: the proofs of a tree lead from its leaves to its root.
use livepeer.Base.{
  ℕ, zero, suc, ◌<◌, ◌≡◌, refl, ap, ◌∙◌, sym, true, List, [], ◌∷◌, map, none, some, arith, ltb,
  length, get_elem?, get_elem?-append, get_elem?-map, if◌then◌else◌, ◌-◌, length-map, Bool-cases,
  inl, inr, ==_iff,
}
use mathlib.Core.List.{map-append}
use livepeer.Eth.Types.MerkleTree.{
  Tree, leaf, node, hash_of, Siblings, combined_hash, leaves, first_siblings, second_siblings,
  root_siblings, new_merkle_proof, climb, verify_proof, check_hash_dups, new_merkle_tree,
}
use livepeer.Eth.Types.MerkleTree.Leaves.{leaf_hashes, IsHashed, build_merkle_tree-some}

module _ (k : ℕ → ℕ → ℕ) where
  proof-first :
      (a b : ℕ) (up : List Siblings)
      → new_merkle_proof (first_siblings a b ∷ up) ≡ b ∷ new_merkle_proof up
  unfolding new_merkle_proof
  proof-first a b up = elim (Bool-cases (ltb a b)) [
    | inl h ↦
        let right : first_siblings a b ≡ record { left_sib = none; right_sib = some b } = rw (h) in
        ap (λ s. new_merkle_proof (s ∷ up)) right
    | inr h ↦
        let left : first_siblings a b ≡ record { left_sib = some b; right_sib = none } = rw (h) in
        ap (λ s. new_merkle_proof (s ∷ up)) left
  ]

  proof-second :
      (a b : ℕ) (up : List Siblings)
      → new_merkle_proof (second_siblings a b ∷ up) ≡ a ∷ new_merkle_proof up
  unfolding new_merkle_proof
  proof-second a b up = elim (Bool-cases (ltb a b)) [
    | inl h ↦
        let left : second_siblings a b ≡ record { left_sib = some a; right_sib = none } = rw (h) in
        ap (λ s. new_merkle_proof (s ∷ up)) left
    | inr h ↦
        let right : second_siblings a b ≡ record { left_sib = none; right_sib = some a } = rw (h) in
        ap (λ s. new_merkle_proof (s ∷ up)) right
  ]

  climb-first :
      (a b : ℕ) (up : List Siblings)
      → climb k a (new_merkle_proof (first_siblings a b ∷ up))
        ≡ climb k (combined_hash k a b) (new_merkle_proof up)
  unfolding climb combined_hash
  climb-first a b up = ap (climb k a) (proof-first a b up)

  climb-second :
      (a b : ℕ) (up : List Siblings)
      → climb k b (new_merkle_proof (second_siblings a b ∷ up))
        ≡ climb k (combined_hash k a b) (new_merkle_proof up)
  unfolding climb combined_hash
  climb-second a b up =
      let same : (if ltb b a then k b a else k a b) ≡ (if ltb a b then k a b else k b a) =
        ground arith in
      ap (climb k b) (proof-second a b up) ∙ ap (λ h. climb k h (new_merkle_proof up)) same

  -- From a leaf, its proof leads to where the rest of the way leads from the root.
  leaf_climbs :
      (up : List Siblings) (t : Tree) (i : ℕ) (h : ℕ) (path : List Siblings)
      → IsHashed k t
      → get_elem? (leaves up t) i ≡ some (h, path)
      → climb k h (new_merkle_proof path) ≡ climb k (hash_of t) (new_merkle_proof up)
  unfolding leaves
  leaf_climbs up (leaf h') zero h path w e = cc
  leaf_climbs up (leaf h') (suc i) h path w e = cc
  leaf_climbs up (node h' first second) i h path (e', w, w') e =
      let a = hash_of first in
      let b = hash_of second in
      let onward = ap (λ x. climb k x (new_merkle_proof up)) (sym e') in
      let front = leaves (first_siblings a b ∷ up) first in
      let back = leaves (second_siblings a b ∷ up) second in
      elim (get_elem?-append front back i (h, path) e) [
        | inl e1 ↦
            leaf_climbs (first_siblings a b ∷ up) first i h path w e1 ∙ climb-first a b up ∙ onward
        | inr e2 ↦
            leaf_climbs (second_siblings a b ∷ up) second (i - length front) h path w' e2
            ∙ climb-second a b up
            ∙ onward
      ]

leaf_hashes-leaves : (up : List Siblings) (t : Tree) → map (λ l. l.0) (leaves up t) ≡ leaf_hashes t
unfolding leaves
leaf_hashes-leaves up (leaf h) = refl
leaf_hashes-leaves up (node h first second) =
    let a = hash_of first in
    let b = hash_of second in
    simp (
      map-append,
      leaf_hashes-leaves (first_siblings a b ∷ up) first,
      leaf_hashes-leaves (second_siblings a b ∷ up) second,
    )

abbrev proofs_of : Tree → List (List ℕ)
proofs_of t = map (λ l. new_merkle_proof l.1) (leaves root_siblings t)

proofs_of-verify_proof :
    (k : ℕ → ℕ → ℕ) (t : Tree) (i h : ℕ) (proof : List ℕ)
    → IsHashed k t
    → get_elem? (leaf_hashes t) i ≡ some h
    → get_elem? (proofs_of t) i ≡ some proof
    → verify_proof k (hash_of t) h proof ≡ true
unfolding verify_proof
proofs_of-verify_proof k t i h proof w at_hash at_proof =
    let ls = leaves root_siblings t in
    let (l, e, same) = get_elem?-map (λ l. new_merkle_proof l.1) ls i proof at_proof in
    let hashed : get_elem? (map (λ l. l.0) ls) i ≡ some h =
      ap (λ hs. get_elem? hs i) (leaf_hashes-leaves root_siblings t) ∙ at_hash in
    let (l', e', same') = get_elem?-map (λ l. l.0) ls i h hashed in
    let one : l ≡ l' = ground (arith, e, e') in
    let climbs = leaf_climbs k root_siblings t i l.0 l.1 w e in
    (==_iff _ _).1 (
      ap (climb k h) (sym same)
      ∙ ap (λ x. climb k x (new_merkle_proof l.1)) (sym same' ∙ ap (λ x. x.0) (sym one))
      ∙ climbs
      ∙ unfold climb new_merkle_proof in refl)

-- The tree of some different hashes has one proof for each, and every hash is verified by its proof.
pub new_merkle_tree-verify_proof :
    (k : ℕ → ℕ → ℕ) (hashes : List ℕ)
    → 0 < length hashes
    → check_hash_dups [] hashes ≡ true
    → (t : Tree) × (proofs : List (List ℕ)) × (new_merkle_tree k hashes ≡ some (some t, proofs))
      × (length proofs ≡ length hashes)
      × ((i h : ℕ) (proof : List ℕ)
          → get_elem? hashes i ≡ some h
          → get_elem? proofs i ≡ some proof
          → verify_proof k (hash_of t) h proof ≡ true)
unfolding new_merkle_tree
new_merkle_tree-verify_proof k hashes some_hash distinct =
    let (t, e, l, w) = build_merkle_tree-some k (length hashes) hashes some_hash (omega arith) in
    (
      t,
      proofs_of t,
      rw (e, distinct),
      length-map (leaves root_siblings t) _
          ∙ sym (length-map (leaves root_siblings t) (λ l. l.0))
          ∙ ap length (leaf_hashes-leaves root_siblings t ∙ l),
      λ i h proof p q. proofs_of-verify_proof k t i h proof w (ap (λ hs. get_elem? hs i) l ∙ p) q,
    )
