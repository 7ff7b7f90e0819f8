-- ===== src/Eth/BlockWatch/Watcher.antt =====
-- eth/blockwatch/block_watcher.go: following the chain of an Ethereum node through reorganisations.
-- The stack is the list that Stack/Refine shows of it, newest header first: its limit is above 0, its
-- store does not fail, and each header that is pushed has a new hash and a number above all others.
pub mod Steps
pub mod Replay
pub mod Linked
pub mod Sync
use livepeer.Base.{
  ℕ, zero, suc, ◌+◌, ◌-◌, Bool, List, [], ◌∷◌, ◌++◌, Option, none, some, ◌==◌, if◌then◌else◌,
}
use livepeer.Eth.BlockWatch.Stack.{
  MiniHeader, Failure, not_found, unknown_block, Answer, answer, fail,
}
use livepeer.Eth.BlockWatch.Stack.Refine.{pushed}

-- `Event` with its `EventType`
pub data Event : Type 0 where
  added removed : MiniHeader → Event

-- The fields of `Watcher` that its methods read; `start_block` is `none` for the latest block.
pub record Watcher : Type 0 where
  pub block_retention_limit : ℕ
  pub start_block : Option ℕ
  pub with_logs : Bool

-- `Client`: `HeaderByNumber(nil)`, `HeaderByNumber`, `HeaderByHash`, and `FilterLogs` of a block.
pub record Client : Type 0 where
  pub latest : Answer MiniHeader
  pub header_by_number : ℕ → Answer MiniHeader
  pub header_by_hash : ℕ → Answer MiniHeader
  pub filter_logs : ℕ → Answer (List ℕ)

-- What `buildCanonicalChain` returns, and the stack after it.
pub record Built : Type 0 where
  pub events : List Event
  pub failed : Option Failure
  pub stack : List MiniHeader

module _ (w : Watcher) (c : Client) where
  -- `addLogs`
  unfoldable pub add_logs : MiniHeader → Answer MiniHeader
  add_logs h =
      let with : Answer MiniHeader = elim (c.filter_logs h.hash) [
        | fail e ↦ fail e
        | answer logs ↦ answer (record h { logs = logs })
      ] in
      if w.with_logs then with else answer h

  -- Adding the logs to a header and pushing it. Where the node does not know the block, the events so
  -- far are returned without an error.
  unfoldable pub add_block : Answer MiniHeader → List Event → List MiniHeader → Built
  add_block (answer h) events stack = record {
    events = events ++ added h ∷ [];
    failed = none;
    stack = pushed w.block_retention_limit h stack;
  }
  add_block (fail unknown_block) events stack = record {
    events = events;
    failed = none;
    stack = stack;
  }
  add_block (fail e) events stack = record { events = events; failed = some e; stack = stack }

  -- What follows the recursive call: an error is returned, else the header is added.
  unfoldable pub after_parent : MiniHeader → Built → Built
  unfolding add_block add_logs
  after_parent next b = elim b.failed [
    | some e ↦ b
    | none ↦ add_block (add_logs next) b.events b.stack
  ]

  -- Where the parent's header is not to be had.
  unfoldable pub no_parent : Failure → List Event → List MiniHeader → Built
  no_parent not_found events stack = record { events = events; failed = none; stack = stack }
  no_parent e events stack = record { events = events; failed = some e; stack = stack }

  -- `buildCanonicalChain`: each recursive call has one header less on the stack.
  unfoldable pub build_canonical_chain : List MiniHeader → MiniHeader → List Event → Built
  unfolding add_block add_logs after_parent no_parent
  build_canonical_chain [] next events = add_block (add_logs next) events []
  build_canonical_chain (latest ∷ rest) next events =
      let popped = events ++ removed latest ∷ [] in
      let reorganised : Built = elim (c.header_by_hash next.parent) [
        | fail e ↦ no_parent e popped rest
        | answer parent ↦ after_parent next (build_canonical_chain rest parent popped)
      ] in
      if next.parent == latest.hash
      then add_block (add_logs next) events (latest ∷ rest)
      else reorganised

  -- The header that `pollNextBlock` asks for.
  abbrev pub next_header : List MiniHeader → Answer MiniHeader
  next_header [] = elim w.start_block [ none ↦ c.latest | some n ↦ c.header_by_number n ]
  next_header (h ∷ _) = c.header_by_number (h.number + 1)

  unfoldable pub poll_answer : Answer MiniHeader → List MiniHeader → Built
  unfolding build_canonical_chain
  poll_answer (answer next) stack = build_canonical_chain stack next []
  poll_answer (fail not_found) stack = record { events = []; failed = none; stack = stack }
  poll_answer (fail e) stack = record { events = []; failed = some e; stack = stack }

  -- `pollNextBlock`, with the events that it sends.
  unfoldable pub poll_next_block : List MiniHeader → Built
  unfolding poll_answer
  poll_next_block stack = poll_answer (next_header stack) stack

  -- The loop of `syncToLatestBlock` for a number of blocks; it ends at the first error. All events
  -- that are sent are collected.
  unfoldable pub poll_blocks : ℕ → List MiniHeader → Built
  unfolding poll_next_block
  poll_blocks zero stack = record { events = []; failed = none; stack = stack }
  poll_blocks (suc k) stack =
      let b = poll_next_block stack in
      let rest = poll_blocks k b.stack in
      elim b.failed [ some e ↦ b | none ↦ record rest { events = b.events ++ rest.events } ]

  -- `syncToLatestBlock` with the newest header.
  unfoldable pub sync_from : Answer MiniHeader → List MiniHeader → Built
  unfolding poll_blocks
  sync_from (fail e) stack = record { events = []; failed = some e; stack = stack }
  sync_from (answer newest) [] = poll_next_block []
  sync_from (answer newest) (last ∷ rest) = poll_blocks (newest.number - last.number) (last ∷ rest)

  -- `syncToLatestBlock`
  unfoldable pub sync_to_latest_block : List MiniHeader → Built
  unfolding sync_from
  sync_to_latest_block stack = sync_from c.latest stack
