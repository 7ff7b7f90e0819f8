-- ===== src/Eth/BlockWatch/Logs/Fetch.antt =====
-- eth/blockwatch/block_watcher.go: what a fetch over all ranges returns.
use livepeer.Base.{ℕ, ◌+◌, ◌≤◌, ◌<◌, ◌≡◌, false, List, [], ◌∷◌, ◌++◌, if◌then◌else◌}
use livepeer.Eth.BlockWatch.Logs.{BlockRange, Filtered, Fetched, collect}
use livepeer.Eth.BlockWatch.Logs.Split.{logs_between, IsHonest}

-- The ranges of all chunks in a row.
abbrev concat : List (List BlockRange) → List BlockRange
concat [] = []
concat (chunk ∷ chunks) = chunk ++ concat chunks

collect_if : (ℕ → ℕ → Filtered) → List BlockRange → Fetched → Fetched
collect_if node chunk f = if f.a_request_failed then f else collect node chunk f

module _ (logs_of : ℕ → List ℕ) (node : ℕ → ℕ → Filtered) (honest : IsHonest logs_of node)
    (from : ℕ) where
  -- What was fetched are the logs of the blocks up to the furthest one, and there are no more.
  pub record IsComplete (start : ℕ) (f : Fetched) : Type 0 where
    pub after : from ≤ start
    pub above : 0 < start
    pub furthest : f.furthest + 1 ≡ start
    pub all_logs : f.all_logs ≡ logs_between logs_of from f.furthest

  -- It ends before `stop`, and at it where no request failed.
  abbrev pub IsFetched : ℕ → Fetched → Type 0
  IsFetched stop g =
      (reached : ℕ) × IsComplete reached g
      × (reached ≤ stop)
      × (g.a_request_failed ≡ false → reached ≡ stop)
