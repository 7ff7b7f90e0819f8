-- ===== src/Eth/Watchers/TimeWatcher.antt =====
-- eth/watchers/timewatcher.go: the cached round and L1 block. Logs come decoded. The answers of the
-- remote node are an argument of each call that asks. What is sent to subscribers is kept in lists,
-- oldest first.
pub mod Blocks
pub mod Rounds
mod Tests
use livepeer.Base.{
  ℕ, Bool, true, false, ◌||◌, List, [], ◌∷◌, ◌++◌, Option, none, some, ◌==◌, if◌then◌else◌,
}

-- A log, by what the decoder finds: a `NewRound` event with its round and block hash, an event that
-- cannot be decoded, another event, or no event of the contract.
pub data RoundLog : Type 0 where
  new_round : (round block_hash : ℕ) → RoundLog
  undecodable another_event no_event : RoundLog

-- `TimeWatcher`; `nil` is none.
pub record TimeWatcher : Type 0 where
  pub last_initialized_round : ℕ
  pub last_initialized_l1_block_hash : ℕ
  pub current_round_start_l1_block : ℕ
  pub transcoder_pool_size : Option ℕ
  pub last_seen_l1_block : Option ℕ
  pub round_feed : List RoundLog
  pub l1_block_feed : List ℕ

-- What the client answers in a call; none is an error.
pub record LivepeerEthClient : Type 0 where
  pub last_initialized_round : Option ℕ
  pub block_hash_for_round : ℕ → Option ℕ
  pub current_round_start_block : Option ℕ
  pub get_transcoder_pool_size : Option ℕ

-- Why a call ended early.
pub data WatchError : Type 0 where
  not_new_round decode_failed client_failed : WatchError

-- `setLastInitializedRound`, `setTranscoderPoolSize` and `setLastSeenL1Block`
abbrev pub set_last_initialized_round : ℕ → ℕ → ℕ → TimeWatcher → TimeWatcher
set_last_initialized_round round hash start_blk w = record w {
  last_initialized_round = round;
  last_initialized_l1_block_hash = hash;
  current_round_start_l1_block = start_blk;
}

abbrev pub set_transcoder_pool_size : ℕ → TimeWatcher → TimeWatcher
set_transcoder_pool_size size w = record w { transcoder_pool_size = some size }

abbrev pub set_last_seen_l1_block : ℕ → TimeWatcher → TimeWatcher
set_last_seen_l1_block n w = record w { last_seen_l1_block = some n }

-- `GetTranscoderPoolSize`
abbrev pub cached_transcoder_pool_size : TimeWatcher → ℕ
cached_transcoder_pool_size w = elim w.transcoder_pool_size [ none ↦ 0 | some n ↦ n ]

-- The L1 number of the latest block, which is 0 without a block; its own number may be `nil`.
abbrev pub l1_number_of : Option (Option ℕ) → Option ℕ
l1_number_of none = some 0
l1_number_of (some n) = n

abbrev pub time_watcher : ℕ → ℕ → ℕ → Option (Option ℕ) → ℕ → TimeWatcher
time_watcher round hash start_blk latest size = record {
  last_initialized_round = round;
  last_initialized_l1_block_hash = hash;
  current_round_start_l1_block = start_blk;
  transcoder_pool_size = some size;
  last_seen_l1_block = l1_number_of latest;
  round_feed = [];
  l1_block_feed = [];
}

-- `NewTimeWatcher`, with what `GetLatestBlock` answers; none where a call fails.
unfoldable pub new_time_watcher :
    LivepeerEthClient → Option (Option (Option ℕ)) → Option TimeWatcher
new_time_watcher c latest_block = elim c.last_initialized_round [
  | none ↦ none
  | some lr ↦ elim (c.block_hash_for_round lr) [
    | none ↦ none
    | some bh ↦ elim c.current_round_start_block [
      | none ↦ none
      | some num ↦ elim latest_block [
        | none ↦ none
        | some latest ↦ elim c.get_transcoder_pool_size [
          | none ↦ none
          | some size ↦ some (time_watcher lr bh num latest size)
        ]
      ]
    ]
  ]
]

abbrev pub same_block : Option ℕ → ℕ → Bool
same_block none n = false
same_block (some m) n = m == n

-- `handleL1BlockNum`, of the number of the event's block.
unfoldable pub handle_l1_block_num : Option ℕ → TimeWatcher → TimeWatcher
handle_l1_block_num none w = w
handle_l1_block_num (some n) w =
    let seen = record (set_last_seen_l1_block n w) { l1_block_feed = w.l1_block_feed ++ n ∷ [] } in
    if same_block w.last_seen_l1_block n then w else seen

-- The end of `handleLog`, after the round was set.
unfoldable pub announce_round :
    LivepeerEthClient → RoundLog → TimeWatcher → Option WatchError × TimeWatcher
announce_round c log w = elim c.get_transcoder_pool_size [
  | none ↦ (some client_failed, w)
  | some size ↦
      (none, record (set_transcoder_pool_size size w) { round_feed = w.round_feed ++ log ∷ [] })
]

-- A removed round: the last one that the chain has.
unfoldable pub reload_round :
    LivepeerEthClient → ℕ → RoundLog → TimeWatcher → Option WatchError × TimeWatcher
unfolding announce_round
reload_round c start_blk log w = elim c.last_initialized_round [
  | none ↦ (some client_failed, w)
  | some lr ↦ elim (c.block_hash_for_round lr) [
    | none ↦ (some client_failed, w)
    | some bh ↦ announce_round c log (set_last_initialized_round lr bh start_blk w)
  ]
]

-- `handleLog`
unfoldable pub handle_log :
    LivepeerEthClient → Bool → RoundLog → TimeWatcher → Option WatchError × TimeWatcher
unfolding announce_round reload_round
handle_log c removed no_event w = (none, w)
handle_log c removed another_event w = (some not_new_round, w)
handle_log c removed undecodable w = (some decode_failed, w)
handle_log c removed (new_round round hash) w = elim c.current_round_start_block [
  | none ↦ (some client_failed, w)
  | some start_blk ↦
      if removed
      then reload_round c start_blk (new_round round hash) w
      else announce_round c (new_round round hash)
          (set_last_initialized_round round hash start_blk w)
]

-- A log with its own flag that it is removed, and what the client answers when it is handled.
pub record BlockLog : Type 0 where
  pub log : RoundLog
  pub is_removed : Bool
  pub client : LivepeerEthClient

-- An event of the block watcher.
pub record BlockEvent : Type 0 where
  pub is_removed : Bool
  pub l1_block_number : Option ℕ
  pub logs : List BlockLog

unfoldable pub handle_logs : Bool → List BlockLog → TimeWatcher → TimeWatcher
unfolding handle_log
handle_logs removed [] w = w
handle_logs removed (l ∷ logs) w =
    handle_logs removed logs (handle_log l.client (removed || l.is_removed) l.log w).1

-- `handleBlockEvents`; errors are only written to the log.
unfoldable pub handle_block_events : List BlockEvent → TimeWatcher → TimeWatcher
unfolding handle_l1_block_num handle_logs
handle_block_events [] w = w
handle_block_events (e ∷ events) w =
    handle_block_events events
      (handle_logs e.is_removed e.logs (handle_l1_block_num e.l1_block_number w))
