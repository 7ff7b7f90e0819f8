-- ===== src/Eth/BlockWatch/Stack.antt =====
-- eth/blockwatch/stack.go: a stack of block headers over a store. The operations of the store
-- are parameters, each of which may fail. The mutex makes each call one step.
pub mod Database
pub mod Refine
use livepeer.Base.{ℕ, Bool, List, [], ◌∷◌, Option, none, some, ◌==◌, if◌then◌else◌, length}

-- `MiniHeader`, with a number for each log.
pub record MiniHeader : Type 0 where
  pub hash : ℕ
  pub parent : ℕ
  pub number : ℕ
  pub l1_block_number : ℕ
  pub logs : List ℕ

-- What a call of the client or the store can fail with: `ethereum.NotFound`, an "unknown block"
-- error, any other error; `panic` is an index out of range.
pub data Failure : Type 0 where
  not_found unknown_block other panic : Failure

pub data Answer {ℓ} (A : Type ℓ) : Type ℓ where
  answer : A → Answer A
  fail : Failure → Answer A

-- `MiniHeaderStore`
pub record MiniHeaderStore {ℓ} (S : Type ℓ) : Type ℓ where
  pub find_latest : S → Answer (Option MiniHeader)
  pub find_all : S → Answer (List MiniHeader)
  pub insert : MiniHeader → S → Answer S
  pub delete : ℕ → S → Answer S

module _ {ℓ} {S : Type ℓ} (store : MiniHeaderStore S) where
  -- The store after a call that may fail; a call that fails changes nothing.
  abbrev pub finish {κ} : {A : Type κ} → A → Answer S → S → Answer A × S
  finish a (answer s') s = (answer a, s')
  finish a (fail e) s = (fail e, s)

  -- `Pop`
  unfoldable pub pop : S → Answer (Option MiniHeader) × S
  pop s = elim (store.find_latest s) [
    | fail e ↦ (fail e, s)
    | answer none ↦ (answer none, s)
    | answer (some h) ↦ finish (some h) (store.delete h.hash s) s
  ]

  -- The eviction of `Push`: it takes the first header that the store lists for the oldest one.
  unfoldable pub evict : List MiniHeader → S → Answer S
  evict [] s = fail panic
  evict (first ∷ _) s = store.delete first.hash s

  -- `Push`
  unfoldable pub push : ℕ → MiniHeader → S → Answer (Unit {0}) × S
  unfolding evict
  push limit h s = elim (store.find_all s) [
    | fail e ↦ (fail e, s)
    | answer hs ↦ elim (if length hs == limit then evict hs s else answer s) [
      | fail e ↦ (fail e, s)
      | answer s' ↦ finish tt (store.insert h s') s'
    ]
  ]

  -- `Peek`
  unfoldable pub peek : S → Answer (Option MiniHeader)
  peek s = store.find_latest s

  -- `Inspect`
  unfoldable pub inspect : S → Answer (List MiniHeader)
  inspect s = store.find_all s
