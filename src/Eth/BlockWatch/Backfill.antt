-- ===== src/Eth/BlockWatch/Backfill.antt =====
-- eth/blockwatch/block_watcher.go: the events of the blocks that were missed while the node was offline.
-- A log is a number; the block that it is of is a parameter. In a header, an L1 block number of 0 stands
-- for nil. Block numbers fit an int64.
pub mod Grouped
pub mod Missed
use livepeer.Base.{
  ℕ, zero, suc, ◌+◌, ◌-◌, Bool, List, [], ◌∷◌, ◌++◌, map, Option, none, some, ◌==◌, ltb, leb,
  if◌then◌else◌, set, get_or,
}
use livepeer.Eth.BlockWatch.Stack.{MiniHeader, Failure, Answer, answer, fail}
use livepeer.Eth.BlockWatch.Stack.Refine.{tail, pushed}
use livepeer.Eth.BlockWatch.Watcher.{Watcher, Client, Event, added, removed, Built}
use livepeer.Eth.BlockWatch.Logs.{Filtered, get_logs_in_block_range}

abbrev pub header_of : Event → MiniHeader
header_of (added h) = h
header_of (removed h) = h

abbrev with_header : MiniHeader → Event → Event
with_header h (added h') = added h
with_header h (removed h') = removed h

-- Popping a header for each one that was retained.
abbrev pub pop_retained : List MiniHeader → List MiniHeader → List MiniHeader
pop_retained [] stack = stack
pop_retained (h ∷ headers) stack = pop_retained headers (tail stack)

module _ (c : Client) where
  -- `enrichWithL1BlockNumber`; an error leaves the header as it is.
  unfoldable pub enrich_header : MiniHeader → MiniHeader
  enrich_header h =
      let fetched : MiniHeader = elim (c.header_by_hash h.hash) [
        | fail e ↦ h
        | answer block ↦ record h { l1_block_number = block.l1_block_number }
      ] in
      if ltb 0 h.l1_block_number then h else fetched

  -- The last event with the highest block number gets its L1 block number: `best` is the event with
  -- the highest number so far, and `before` are the events in front of it.
  unfoldable pub enrich_best : List Event → Event → List Event → List Event → List Event
  unfolding enrich_header
  enrich_best before best between [] =
      before ++ with_header (enrich_header (header_of best)) best ∷ between
  enrich_best before best between (e ∷ events) =
      let newer = enrich_best (before ++ best ∷ between) e [] events in
      let same = enrich_best before best (between ++ e ∷ []) events in
      if leb (header_of best).number (header_of e).number then newer else same

  -- `enrichWithL1`
  unfoldable pub enrich_with_l1 : List Event → List Event
  unfolding enrich_best
  enrich_with_l1 [] = []
  enrich_with_l1 (e ∷ events) = enrich_best [] e [] events

-- The hash and the number of the block of a log.
module _ (block_of : ℕ → ℕ × ℕ) where
  -- A log is added to the header of its block, which is made for the first one.
  unfoldable pub group_log : ℕ → List MiniHeader → List MiniHeader
  group_log l [] =
      record {
        hash = (block_of l).0;
        parent = 0;
        number = (block_of l).1;
        l1_block_number = 0;
        logs = l ∷ [];
      }
      ∷ []
  group_log l (h ∷ hs) =
      let rest = group_log l hs in
      if h.hash == (block_of l).0 then record h { logs = h.logs ++ l ∷ [] } ∷ hs else h ∷ rest

  -- The headers of all logs, in the order of their first logs; the map gives them in any order.
  unfoldable pub group_logs : List ℕ → List MiniHeader → List MiniHeader
  unfolding group_log
  group_logs [] hs = hs
  group_logs (l ∷ logs) hs = group_logs logs (group_log l hs)

  module _ (w : Watcher) (c : Client) (node : ℕ → ℕ → Filtered) where
    -- The stack starts again from the furthest block, and the events have the logs.
    unfoldable pub restart : Answer MiniHeader → List ℕ → List MiniHeader → Built
    unfolding group_logs
    restart (fail e) logs stack = record { events = []; failed = some e; stack = stack }
    restart (answer latest) logs stack = record {
      events = map added (group_logs logs []);
      failed = none;
      stack = pushed w.block_retention_limit latest stack;
    }

    unfoldable pub backfill_to : ℕ → List MiniHeader → Built
    unfolding restart
    backfill_to newest [] = record { events = []; failed = none; stack = [] }
    backfill_to newest (last ∷ rest) =
        let stack : List MiniHeader = last ∷ rest in
        let f = get_logs_in_block_range node (last.number + 1) newest in
        let nothing : Built = record { events = []; failed = none; stack = stack } in
        if ltb (last.number + 1) newest
        then if ltb last.number f.furthest
          then restart (c.header_by_number f.furthest) f.all_logs (pop_retained stack stack)
          else nothing
        else nothing

    -- `getMissedEventsToBackfill`
    unfoldable pub get_missed_events_to_backfill : List MiniHeader → Built
    unfolding backfill_to
    get_missed_events_to_backfill stack = elim c.latest [
      | fail e ↦ record { events = []; failed = some e; stack = stack }
      | answer newest ↦ backfill_to newest.number stack
    ]

    -- `BackfillEventsIfNeeded`, with the events that it sends.
    unfoldable pub backfill_events_if_needed : List MiniHeader → Built
    unfolding get_missed_events_to_backfill enrich_with_l1
    backfill_events_if_needed stack =
        let b = get_missed_events_to_backfill stack in
        elim b.failed [
          | some e ↦ record b { events = [] }
          | none ↦ record b { events = enrich_with_l1 c b.events }
        ]
