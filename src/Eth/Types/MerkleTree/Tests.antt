-- ===== src/Eth/Types/MerkleTree/Tests.antt =====
-- eth/types/merkletree.go at concrete inputs.
use livepeer.Base.{ℕ, ◌+◌, ◌*◌, ◌≡◌, refl, true, List, [], ◌∷◌, some, arith, length, get_elem?}
use livepeer.Eth.Types.MerkleTree.{Tree, hash_of, check_hash_dups, new_merkle_tree, verify_proof}
use livepeer.Eth.Types.MerkleTree.Proofs.{new_merkle_tree-verify_proof}

abbrev pair : ℕ → ℕ → ℕ
pair a b = 10 * a + b

abbrev hashes : List ℕ
hashes = 5 ∷ 3 ∷ 9 ∷ []

different : check_hash_dups [] hashes ≡ true
unfolding check_hash_dups
different = refl

new_merkle_tree-verify_proof_example :
    (t : Tree) × (proofs : List (List ℕ)) × (new_merkle_tree pair hashes ≡ some (some t, proofs))
    × (length proofs ≡ length hashes)
    × ((i h : ℕ) (proof : List ℕ)
        → get_elem? hashes i ≡ some h
        → get_elem? proofs i ≡ some proof
        → verify_proof pair (hash_of t) h proof ≡ true)
new_merkle_tree-verify_proof_example =
    new_merkle_tree-verify_proof pair hashes (omega arith) different
