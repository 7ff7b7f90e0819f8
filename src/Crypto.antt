-- ===== src/Crypto.antt =====
-- What the node takes from go-ethereum and the signer: hashing, byte forms of the fixed-size
-- types, and signature checks. An address is the number below 2 ^ 160, and a hash the number below
-- 2 ^ 256, that its bytes spell; the zero value of either is 0.
pub mod Sample
use livepeer.Base.{
  ℕ, suc, zero, ◌+◌, ◌-◌, ◌*◌, ◌/◌, ◌%◌, ◌^◌, ◌≤◌, ◌<◌, ◌≡◌, refl, Bool, List, [], ◌∷◌, ◌++◌, arith,
  length, replicate, length-append,
}

pub record Crypto : Type 0 where
  -- `Address.Bytes`, `Hash.Bytes`
  pub address_bytes : ℕ → List ℕ
  pub hash_bytes : ℕ → List ℕ
  -- `common.LeftPadBytes`
  pub left_pad : List ℕ → ℕ → List ℕ
  -- `crypto.Keccak256Hash` and `crypto.Keccak256` of the concatenated arguments
  pub keccak256 : List ℕ → ℕ
  -- HMAC-SHA256 of a message under a key, as the number that its bytes spell
  pub hmac_sha256 : ℕ → List ℕ → ℕ
  -- `VerifySig`: address, message, signature
  pub verify : ℕ → List ℕ → List ℕ → Bool

-- The documented behaviour that proofs rely on: fixed sizes, distinct values have distinct bytes,
-- and padding fills up with zeros on the left.
pub record CryptoLaws (c : Crypto) : Type 0 where
  pub length-address : (a : ℕ) → length (c.address_bytes a) ≡ 20
  pub address_inj :
      (a b : ℕ) → a < 2 ^ 160 → b < 2 ^ 160 → c.address_bytes a ≡ c.address_bytes b → a ≡ b
  pub length-hash : (h : ℕ) → length (c.hash_bytes h) ≡ 32
  pub hash_inj : (a b : ℕ) → a < 2 ^ 256 → b < 2 ^ 256 → c.hash_bytes a ≡ c.hash_bytes b → a ≡ b
  pub left_pad_short :
      (bs : List ℕ) (k : ℕ) → length bs ≤ k → c.left_pad bs k ≡ replicate (k - length bs) 0 ++ bs
