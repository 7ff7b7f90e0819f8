-- ===== src/Eth/BlockWatch/Backfill/Missed.antt =====
-- eth/blockwatch/block_watcher.go: what a backfill sends and where it goes on from.
use livepeer.Base.{ℕ, ◌+◌, ◌≤◌, ◌<◌, ◌≡◌, ◌⊎◌, true, false, List, [], ◌∷◌, map, none}
use livepeer.Eth.BlockWatch.Stack.{MiniHeader}
use livepeer.Eth.BlockWatch.Stack.Refine.{stored}
use livepeer.Eth.BlockWatch.Watcher.{Watcher, Client, added, Built}
use livepeer.Eth.BlockWatch.Watcher.Sync.{IsServing}
use livepeer.Eth.BlockWatch.Logs.{Filtered, Fetched, get_logs_in_block_range}
use livepeer.Eth.BlockWatch.Logs.Split.{IsHonest, logs_between}
use livepeer.Eth.BlockWatch.Backfill.Grouped.{IsGrouped}

module _ (block_of : ℕ → ℕ × ℕ) (w : Watcher) (c : Client) (node : ℕ → ℕ → Filtered)
    (logs_of : ℕ → List ℕ) (honest : IsHonest logs_of node) (chain : ℕ → MiniHeader) (newest : ℕ)
    (served : IsServing c chain newest) where
  abbrev fetched : MiniHeader → Fetched
  fetched last = get_logs_in_block_range node (last.number + 1) newest

  -- Nothing was sent, and the stack stays: at most one block was missed, or a request failed.
  pub record IsUnchanged (last : MiniHeader) (rest : List MiniHeader) (b : Built) : Type 0 where
    pub events : b.events ≡ []
    pub stack : b.stack ≡ last ∷ rest
    pub why : (newest ≤ last.number + 1) ⊎ ((fetched last).a_request_failed ≡ true)

  -- The events have the logs of the blocks up to one, each once and under its own block, and the stack
  -- goes on from that block.
  pub record IsRestarted (last : MiniHeader) (b : Built) : Type 0 where
    pub reached : ℕ
    pub forward : last.number < reached
    pub bounded : reached ≤ newest
    pub all : (fetched last).a_request_failed ≡ false → reached ≡ newest
    pub stack : b.stack ≡ stored (chain reached) ∷ []
    pub headers : List MiniHeader
    pub events : b.events ≡ map added headers
    pub grouped : IsGrouped block_of (logs_between logs_of (last.number + 1) reached) headers

  abbrev pub IsBackfilled : MiniHeader → List MiniHeader → Built → Type 0
  IsBackfilled last rest b = (b.failed ≡ none) × (IsUnchanged last rest b ⊎ IsRestarted last b)
