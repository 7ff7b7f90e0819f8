-- ===== src/Eth/BlockWatch/Logs.antt =====
-- eth/blockwatch/block_watcher.go: fetching the logs of a range of blocks in requests that the node
-- accepts. Block numbers are small; a range that ends before it starts is not asked for.
pub mod Ranges
pub mod Split
pub mod Fetch
use livepeer.Base.{
  ℕ, zero, suc, ◌+◌, ◌-◌, ◌*◌, ◌/◌, ◌%◌, Bool, true, false, List, [], ◌∷◌, ◌++◌, Option, none, some,
  ltb, ◌==◌, if◌then◌else◌, take, drop, length,
}

-- `blockRange`
pub record BlockRange : Type 0 where
  pub from_block : ℕ
  pub to_block : ℕ

abbrev pub min : ℕ → ℕ → ℕ
min a b = if ltb b a then b else a

-- The second loop of `getSubBlockRanges`, from round i on for k rounds: `len` blocks, the j-th of
-- which is `from + j`.
unfoldable pub sub_ranges : ℕ → ℕ → ℕ → ℕ → ℕ → List BlockRange
sub_ranges from size len i zero = []
sub_ranges from size len i (suc k) =
    let from_index = i * size in
    let to_index = min (from_index + size) len in
    record { from_block = from + from_index; to_block = from + (to_index - 1) }
    ∷ sub_ranges from size len (i + 1) k

-- `getSubBlockRanges`
unfoldable pub get_sub_block_ranges : ℕ → ℕ → ℕ → List BlockRange
unfolding sub_ranges
get_sub_block_ranges from to range_size =
    let left = to - from in
    let len = left + 1 in
    let chunks = if ltb 0 (len % range_size) then len / range_size + 1 else len / range_size in
    if ltb left range_size
    then record { from_block = from; to_block = to } ∷ []
    else sub_ranges from range_size len 0 chunks

-- What the node answers to `FilterLogs` of a range: logs, that there are too many, another error.
pub data Filtered : Type 0 where
  logs : List ℕ → Filtered
  too_many failed : Filtered

-- `filterLogsRecursively`, on fuel; `none` is an error.
unfoldable pub filter_logs_recursively : (ℕ → ℕ → Filtered) → ℕ → ℕ → ℕ → List ℕ → Option (List ℕ)
filter_logs_recursively node zero from to all = none
filter_logs_recursively node (suc fuel) from to all =
    let end_first_half = from + (to - from) / 2 in
    let halves : Option (List ℕ) =
      elim (filter_logs_recursively node fuel from end_first_half all) [
        | none ↦ none
        | some all' ↦ filter_logs_recursively node fuel (end_first_half + 1) to all'
      ] in
    elim (node from to) [
      | logs l ↦ some (all ++ l)
      | failed ↦ none
      | too_many ↦ if from == to then none else halves
    ]

-- `filterLogsRecursively` of a range, with fuel for its blocks
unfoldable pub filter_logs : (ℕ → ℕ → Filtered) → BlockRange → Option (List ℕ)
unfolding filter_logs_recursively
filter_logs node r =
    filter_logs_recursively node (r.to_block - r.from_block + 1) r.from_block r.to_block []

-- The logs so far, the last block that they cover, and whether a request failed.
pub record Fetched : Type 0 where
  pub all_logs : List ℕ
  pub furthest : ℕ
  pub a_request_failed : Bool

-- The results of a chunk, in order, up to the first error. A failed range starts above block 0.
unfoldable pub collect : (ℕ → ℕ → Filtered) → List BlockRange → Fetched → Fetched
collect node [] f = f
collect node (r ∷ chunk) f = elim (filter_logs node r) [
  | none ↦ record f { furthest = r.from_block - 1; a_request_failed = true }
  | some l ↦ collect node chunk (record f { all_logs = f.all_logs ++ l; furthest = r.to_block })
]

-- The rounds of `getLogsInBlockRange`, one for a chunk; after an error they do nothing.
unfoldable pub fetch_chunks : (ℕ → ℕ → Filtered) → List (List BlockRange) → Fetched → Fetched
unfolding collect
fetch_chunks node [] f = f
fetch_chunks node (chunk ∷ chunks) f =
    fetch_chunks node chunks (if f.a_request_failed then f else collect node chunk f)

abbrev pub get_logs_request_chunk_size : ℕ
get_logs_request_chunk_size = 3

-- The first loop of `getLogsInBlockRange`, on fuel for the number of ranges.
unfoldable pub chunks_of : ℕ → List BlockRange → List (List BlockRange)
chunks_of zero ranges = []
chunks_of (suc fuel) [] = []
chunks_of (suc fuel) (r ∷ ranges) =
    take get_logs_request_chunk_size (r ∷ ranges)
    ∷ chunks_of fuel (drop get_logs_request_chunk_size (r ∷ ranges))

abbrev pub max_blocks_in_get_logs_query : ℕ
max_blocks_in_get_logs_query = 60

-- `getLogsInBlockRange`
unfoldable pub get_logs_in_block_range : (ℕ → ℕ → Filtered) → ℕ → ℕ → Fetched
unfolding fetch_chunks chunks_of get_sub_block_ranges
get_logs_in_block_range node from to =
    let ranges = get_sub_block_ranges from to max_blocks_in_get_logs_query in
    fetch_chunks node (chunks_of (length ranges) ranges)
      (record { all_logs = []; furthest = from - 1; a_request_failed = false })
