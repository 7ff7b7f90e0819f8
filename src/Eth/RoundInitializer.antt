-- ===== src/Eth/RoundInitializer.antt =====
-- eth/roundinitializer.go: which member of the upcoming active set initializes a round. The answers of
-- the client are arguments, and the cached round and L1 block are those of the time watcher.
pub mod Chosen
mod Tests
use livepeer.Base.{
  ℕ, zero, suc, ◌+◌, ◌-◌, ◌/◌, ◌%◌, Bool, true, false, List, [], ◌∷◌, ◌++◌, Option, none, some,
  ◌==◌, leb, if◌then◌else◌, length,
}
use livepeer.Base.Bytes.{big_bytes}
use livepeer.Crypto.{Crypto}
use livepeer.Eth.Watchers.TimeWatcher.{TimeWatcher}

-- `epochL1Blocks`
abbrev pub epoch_l1_blocks : ℕ
epoch_l1_blocks = 5

-- What a try to initialize the round comes to: the number of the round, nothing to do, an error, or
-- a panic where the L1 block is `nil`.
pub data Outcome : Type 0 where
  initialized : ℕ → Outcome
  skipped failed panicked : Outcome

-- The client: `TranscoderPool` by addresses, where none is an error, and whether `InitializeRound`
-- and `CheckTx` succeed.
pub record Client : Type 0 where
  pub transcoder_pool : Option (List ℕ)
  pub initialize_round : Bool
  pub check_tx : Bool

-- The absolute value of `epochNum`: `big.Int.Div` rounds so that the remainder is not negative, and
-- `Bytes` forgets the sign.
abbrev pub epoch_num : ℕ → ℕ → ℕ
epoch_num current start =
    if leb start current
    then (current - start) / epoch_l1_blocks
    else (start - current + (epoch_l1_blocks - 1)) / epoch_l1_blocks

-- `currentEpochSeed`
unfoldable pub current_epoch_seed : Crypto → ℕ → ℕ → ℕ → ℕ
current_epoch_seed c current start last_hash =
    c.keccak256 (c.hash_bytes last_hash ++ big_bytes (epoch_num current start))

abbrev pub next_rank : Option ℕ → Option ℕ
next_rank none = none
next_rank (some i) = some (suc i)

-- The caller's rank in the upcoming active set.
abbrev pub rank_of : ℕ → List ℕ → Option ℕ
rank_of caller [] = none
rank_of caller (t ∷ l) =
    let rest = next_rank (rank_of caller l) in if t == caller then some 0 else rest

abbrev pub is_rank : ℕ → Option ℕ → Bool
is_rank i none = false
is_rank i (some j) = i == j

-- `shouldInitialize`; none is an error.
unfoldable pub should_initialize : Option (List ℕ) → ℕ → ℕ → Option Bool
should_initialize none caller seed = none
should_initialize (some []) caller seed = some false
should_initialize (some (t ∷ l)) caller seed =
    some (is_rank (seed % length (t ∷ l)) (rank_of caller (t ∷ l)))

-- The calls of a caller that should initialize the round.
abbrev pub initialize : Client → ℕ → Outcome
initialize client round =
    if client.initialize_round
    then if client.check_tx then initialized round else failed
    else failed

abbrev pub if_chosen : Client → ℕ → Option Bool → Outcome
if_chosen client round none = failed
if_chosen client round (some false) = skipped
if_chosen client round (some true) = initialize client round

-- `tryInitialize`, from the first L1 block of the next round.
unfoldable pub try_initialize : Crypto → Client → ℕ → TimeWatcher → ℕ → Outcome
unfolding current_epoch_seed should_initialize
try_initialize c client caller tw next_round_start = elim tw.last_seen_l1_block [
  | none ↦ panicked
  | some current ↦ if_chosen client (tw.last_initialized_round + 1) (
      should_initialize client.transcoder_pool caller
        (current_epoch_seed c current next_round_start tw.last_initialized_l1_block_hash))
]

-- What the loop of `Start` is notified of.
pub data Notice : Type 0 where
  new_round : Notice
  l1_block : ℕ → Notice

-- A notice: a round moves the start of the next one, a block that reaches it starts a try.
unfoldable pub notified : ℕ → TimeWatcher → Notice → ℕ → ℕ × Bool
notified round_length tw new_round next_round_start =
    (tw.current_round_start_l1_block + round_length, false)
notified round_length tw (l1_block n) next_round_start = (next_round_start, leb next_round_start n)
