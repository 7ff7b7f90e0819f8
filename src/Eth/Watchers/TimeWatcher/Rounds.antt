-- ===== src/Eth/Watchers/TimeWatcher/Rounds.antt =====
-- eth/watchers/timewatcher.go: what a `NewRound` log does.
use livepeer.Base.{ℕ, ◌≡◌, ◌⊎◌, Bool, true, false, [], ◌∷◌, ◌++◌, Option, none, some}
use livepeer.Eth.Watchers.TimeWatcher.{
  TimeWatcher, LivepeerEthClient, RoundLog, new_round, WatchError, client_failed,
}

-- The round, its block hash, its first block and the pool size that are cached after a log.
pub record Update : Type 0 where
  pub round : ℕ
  pub block_hash : ℕ
  pub start_blk : ℕ
  pub size : ℕ

abbrev pub updated : Update → RoundLog → TimeWatcher → TimeWatcher
updated u log w = record w {
  last_initialized_round = u.round;
  last_initialized_l1_block_hash = u.block_hash;
  current_round_start_l1_block = u.start_blk;
  transcoder_pool_size = some u.size;
  round_feed = w.round_feed ++ log ∷ [];
}

-- Where the round comes from: the log, or for a removed log the chain.
abbrev pub IsSource : LivepeerEthClient → Bool → ℕ → ℕ → Update → Type 0
IsSource c true round hash u =
    (c.last_initialized_round ≡ some u.round) × (c.block_hash_for_round u.round ≡ some u.block_hash)
IsSource c false round hash u = (u.round ≡ round) × (u.block_hash ≡ hash)

-- All calls succeeded, everything is cached, and the log is sent to the subscribers.
pub record IsAnnounced (c : LivepeerEthClient) (removed : Bool) (round hash : ℕ) (w : TimeWatcher)
    (r : Option WatchError × TimeWatcher) : Type 0 where
  pub update : Update
  pub source : IsSource c removed round hash update
  pub start_blk : c.current_round_start_block ≡ some update.start_blk
  pub size : c.get_transcoder_pool_size ≡ some update.size
  pub outcome : r ≡ (none, updated update (new_round round hash) w)

-- A call failed: nothing is sent and the pool size stays; the round stays too, unless it is only the
-- pool size that could not be read.
pub record IsFailed (c : LivepeerEthClient) (w : TimeWatcher) (r : Option WatchError × TimeWatcher)
    : Type 0 where
  pub error : r.0 ≡ some client_failed
  pub feed : r.1.round_feed ≡ w.round_feed
  pub pool_size : r.1.transcoder_pool_size ≡ w.transcoder_pool_size
  pub round : (r.1 ≡ w) ⊎ (c.get_transcoder_pool_size ≡ none)

abbrev pub IsHandled :
    LivepeerEthClient → Bool → ℕ → ℕ → TimeWatcher → Option WatchError × TimeWatcher → Type 0
IsHandled c removed round hash w r = IsAnnounced c removed round hash w r ⊎ IsFailed c w r
