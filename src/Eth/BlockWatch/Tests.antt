-- ===== src/Eth/BlockWatch/Tests.antt =====
-- Package eth/blockwatch at concrete inputs.
use livepeer.Eth.BlockWatch.Backfill.{get_missed_events_to_backfill}
use livepeer.Base.{
  ◌*◌, ℕ, ◌+◌, ◌-◌, ◌≡◌, refl, true, List, [], ◌∷◌, none, some, arith, if◌then◌else◌, ltb, ◌==◌,
  Bool-cases, inl, inr,
}
use livepeer.Eth.BlockWatch.Stack.{MiniHeader, answer, fail, not_found, peek, pop}
use livepeer.Eth.BlockWatch.Stack.Database.{db_store, db_laws}
use livepeer.Eth.BlockWatch.Stack.Refine.{pushed, pop-head}
use livepeer.Eth.BlockWatch.Watcher.{
  Watcher, Client, build_canonical_chain, add_logs, sync_to_latest_block,
}
use livepeer.Eth.BlockWatch.Watcher.Replay.{replay, sync_to_latest_block-IsFollowed}
use livepeer.Eth.BlockWatch.Watcher.Linked.{
  IsAnswering, IsOnTop, build_canonical_chain-IsOnTop, build_canonical_chain-gap,
}
use livepeer.Eth.BlockWatch.Watcher.Sync.{IsServing, sync_to_latest_block-IsOnTop}
use livepeer.Eth.BlockWatch.Logs.{
  filter_logs, Filtered, logs, too_many, get_sub_block_ranges, filter_logs_recursively,
  get_logs_in_block_range,
}
use livepeer.Eth.BlockWatch.Logs.Ranges.{IsPartition, get_sub_block_ranges-IsPartition}
use livepeer.Eth.BlockWatch.Logs.Split.{
  logs_between, IsLogNode, filter_logs_recursively-logs_between,
}

-- Block n of the chain with a given branch number; the first block of each branch has parent 0.
abbrev block : ℕ → ℕ → MiniHeader
block branch n = record {
  hash = 100 * branch + n;
  parent = 100 * branch + (n - 1);
  number = n;
  l1_block_number = 0;
  logs = [];
}

abbrev two_blocks : List MiniHeader
two_blocks = block 1 8 ∷ block 1 7 ∷ []

pop_of_head_test :
    (peek db_store two_blocks ≡ answer (some (block 1 8)))
    × ((pop db_store two_blocks).0 ≡ answer (some (block 1 8)))
    × ((pop db_store two_blocks).1 ≡ block 1 7 ∷ [])
unfolding db_laws
pop_of_head_test = pop-head db_laws two_blocks (omega arith)

abbrev watcher : Watcher
watcher = record { block_retention_limit = 20; start_block = none; with_logs = true }

-- A node on branch 2 that knows every block by its hash.
abbrev client : Client
client = record {
  latest = answer (block 2 9);
  header_by_number = λ n. answer (block 2 n);
  header_by_hash = λ k. answer (record (block 2 0) { hash = k; parent = k - 1 });
  filter_logs = λ k. answer (k ∷ []);
}

client-IsAnswering : IsAnswering client
client-IsAnswering = record {
  headers = λ k. (record (block 2 0) { hash = k; parent = k - 1 }, refl, refl);
  logs = λ k. (k ∷ [], refl);
}

client-IsServing : IsServing client (block 2) 9
client-IsServing = record { latest = refl; by_number = λ n h. refl; numbered = λ n. refl }

sync_to_latest_block-IsFollowed_example :
    replay 20 (sync_to_latest_block watcher client two_blocks).events two_blocks
    ≡ some (sync_to_latest_block watcher client two_blocks).stack
sync_to_latest_block-IsFollowed_example = sync_to_latest_block-IsFollowed watcher client two_blocks

two_blocks_on_top :
    IsOnTop (block 2 9) 3 (build_canonical_chain watcher client two_blocks (block 2 9) [])
two_blocks_on_top =
    build_canonical_chain-IsOnTop watcher client client-IsAnswering two_blocks (block 2 9) []
      (refl, tt) (omega arith)

sync_to_latest_block-IsOnTop_example :
    IsOnTop (block 2 9) 3 (sync_to_latest_block watcher client two_blocks)
sync_to_latest_block-IsOnTop_example =
    sync_to_latest_block-IsOnTop watcher client client-IsAnswering (block 2) 9 client-IsServing
      (block 1 8) (block 1 7 ∷ []) (refl, tt) (omega arith) (omega arith)

-- The node knows block 8 of branch 2, but not block 7.
abbrev forgetful : Client
forgetful = record client {
  header_by_hash = λ k. if k == 208 then answer (block 2 8) else fail not_found;
}

with_logs : add_logs watcher forgetful (block 2 9) ≡ answer (record (block 2 9) { logs = 209 ∷ [] })
unfolding add_logs
with_logs = refl

build_canonical_chain-gap_example :
    ((build_canonical_chain watcher forgetful two_blocks (block 2 9) []).failed ≡ none)
    × ((build_canonical_chain watcher forgetful two_blocks (block 2 9) []).stack
        ≡ pushed 20 (record (block 2 9) { logs = 209 ∷ [] }) [])
build_canonical_chain-gap_example =
    build_canonical_chain-gap watcher forgetful (block 1 7) (block 1 8) (block 2 9) (block 2 8)
      (record (block 2 9) { logs = 209 ∷ [] }) [] [] (omega arith) refl (omega arith) refl with_logs

-- A log for each block; a request for more than three blocks has too many.
abbrev own_log : ℕ → List ℕ
own_log b = b ∷ []

log_node : ℕ → ℕ → Filtered
log_node from to = if ltb (to - from) 3 then logs (logs_between own_log from to) else too_many

log_node-IsLogNode : IsLogNode own_log log_node
unfolding log_node
log_node-IsLogNode = record {
  ranges = λ from to. elim (Bool-cases (ltb (to - from) 3)) [
    | inl h ↦ inl (rw (h))
    | inr h ↦ inr (rw (h))
  ];
  single = λ b. let short : ltb (b - b) 3 ≡ true = ground arith in rw (short);
}

filter_logs_recursively-logs_between_example :
    filter_logs_recursively log_node 11 40 50 (7 ∷ []) ≡ some (7 ∷ logs_between own_log 40 50)
filter_logs_recursively-logs_between_example =
    filter_logs_recursively-logs_between own_log log_node 11 40 50 (7 ∷ []) log_node-IsLogNode
      (omega arith) (omega arith)

get_sub_block_ranges_of_ispartition_test : IsPartition 60 100 (get_sub_block_ranges 100 250 60) 251
get_sub_block_ranges_of_ispartition_test =
    get_sub_block_ranges-IsPartition 100 250 60 (omega arith) (omega arith)

-- The log of each block has its number, and is of a block of branch 2.
abbrev block_of_log : ℕ → ℕ × ℕ
block_of_log l = (200 + l, l)

backfills :
    (get_missed_events_to_backfill block_of_log watcher client log_node (block 1 5 ∷ [])).stack
    ≡ block 2 9 ∷ []
unfolding get_missed_events_to_backfill get_logs_in_block_range log_node filter_logs
backfills = refl
