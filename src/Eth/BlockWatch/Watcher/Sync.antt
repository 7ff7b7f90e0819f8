-- ===== src/Eth/BlockWatch/Watcher/Sync.antt =====
-- eth/blockwatch/block_watcher.go: a synchronisation reaches the newest block.
use livepeer.Base.{
  ℕ, zero, suc, ◌+◌, ◌-◌, ◌≤◌, ◌<◌, ◌≡◌, refl, sym, subst, ◌∙◌, List, [], ◌∷◌, none, arith, length,
}
use livepeer.Eth.BlockWatch.Stack.{MiniHeader, answer}
use livepeer.Eth.BlockWatch.Watcher.Steps.{poll_blocks-next}
use livepeer.Eth.BlockWatch.Watcher.Linked.{
  IsAnswering, IsLinked, IsOnTop, build_canonical_chain-IsOnTop,
}
use livepeer.Eth.BlockWatch.Watcher.{
  Watcher, Client, Built, poll_answer, poll_next_block, poll_blocks, sync_from,
  sync_to_latest_block,
}

-- The node serves this chain by number, up to and with block `newest`, which is its latest.
pub record IsServing (c : Client) (chain : ℕ → MiniHeader) (newest : ℕ) : Type 0 where
  pub latest : c.latest ≡ answer (chain newest)
  pub by_number : (n : ℕ) → n ≤ newest → c.header_by_number n ≡ answer (chain n)
  pub numbered : (n : ℕ) → (chain n).number ≡ n

module _ (w : Watcher) (c : Client) (node : IsAnswering c) (chain : ℕ → MiniHeader) (newest : ℕ)
    (served : IsServing c chain newest) where
  poll-IsOnTop :
      (top : MiniHeader) (below : List MiniHeader)
      → IsLinked (top ∷ below)
      → top.number < newest
      → length (top ∷ below) < w.block_retention_limit
      → IsOnTop
          (chain (top.number + 1))
          (suc (length (top ∷ below)))
          (poll_next_block w c (top ∷ below))
  unfolding poll_next_block poll_answer
  poll-IsOnTop top below l lower room =
      rw (served.by_number (top.number + 1) (omega arith))
        (build_canonical_chain-IsOnTop w c node (top ∷ below) (chain (top.number + 1)) [] l room)

  -- The rounds after the first do not matter to what is on top but by the stack.
  later-IsOnTop :
      (h : MiniHeader) (height k : ℕ) (stack : List MiniHeader)
      → (poll_next_block w c stack).failed ≡ none
      → IsOnTop h height (poll_blocks w c k (poll_next_block w c stack).stack)
      → IsOnTop h height (poll_blocks w c (suc k) stack)
  later-IsOnTop h height k stack succeeded t =
      subst (IsOnTop h height) (sym (poll_blocks-next w c k stack succeeded)) (record {
        succeeded = t.succeeded;
        top = t.top;
        below = t.below;
        stack = t.stack;
        hash = t.hash;
        parent = t.parent;
        number = t.number;
        linked = t.linked;
        size = t.size;
      })

  done :
      (height : ℕ) (b : Built)
      → IsOnTop (chain newest) height b
      → IsOnTop (chain newest) height (poll_blocks w c 0 b.stack)
  unfolding poll_blocks
  done height b t = record {
    succeeded = refl;
    top = t.top;
    below = t.below;
    stack = t.stack;
    hash = t.hash;
    parent = t.parent;
    number = t.number;
    linked = t.linked;
    size = t.size;
  }

  rounds-IsOnTop :
      (k height : ℕ) (top : MiniHeader) (below : List MiniHeader)
      → IsLinked (top ∷ below)
      → length (top ∷ below) + suc k ≡ height
      → height ≤ w.block_retention_limit
      → top.number + suc k ≡ newest
      → IsOnTop (chain newest) height (poll_blocks w c (suc k) (top ∷ below))
  rounds-IsOnTop zero height top below l h room e =
      let t = poll-IsOnTop top below l (omega arith) (omega (arith, h, room)) in
      let now : suc (length (top ∷ below)) ≡ height = omega (arith, h) in
      later-IsOnTop (chain newest) height 0 (top ∷ below) t.succeeded (
        done height (poll_next_block w c (top ∷ below)) (
          subst (λ n. IsOnTop (chain n) height (poll_next_block w c (top ∷ below))) e
            (subst (λ n. IsOnTop (chain (top.number + 1)) n (poll_next_block w c (top ∷ below))) now
              t)))
  rounds-IsOnTop (suc k) height top below l h room e =
      let t = poll-IsOnTop top below l (omega arith) (omega (arith, h, room)) in
      let number : t.top.number ≡ top.number + 1 = t.number ∙ served.numbered (top.number + 1) in
      let size = t.size in
      later-IsOnTop (chain newest) height (suc k) (top ∷ below) t.succeeded (
        subst (λ hs. IsOnTop (chain newest) height (poll_blocks w c (suc k) hs)) (sym t.stack)
          (rounds-IsOnTop k height t.top t.below t.linked (omega (arith, h, size)) room
            (omega arith)))

  -- While the node answers and serves a chain, a synchronisation that starts from a linked stack
  -- below its newest block, with room for the blocks up to that one below the limit of the stack, ends
  -- without an error, with that block on top of a linked stack, whatever blocks of other chains
  -- were on it; the stack has grown by the blocks between. The store does not fail, and a header that is
  -- pushed has a new hash and a number above those on the stack.
  pub sync_to_latest_block-IsOnTop :
      (top : MiniHeader) (below : List MiniHeader)
      → IsLinked (top ∷ below)
      → top.number < newest
      → length (top ∷ below) + (newest - top.number) ≤ w.block_retention_limit
      → IsOnTop
          (chain newest)
          (length (top ∷ below) + (newest - top.number))
          (sync_to_latest_block w c (top ∷ below))
  unfolding sync_to_latest_block sync_from
  sync_to_latest_block-IsOnTop top below l lower room =
      let rounds = newest - top.number - 1 in
      let height = length (top ∷ below) + (newest - top.number) in
      let count : suc rounds ≡ (chain newest).number - top.number =
        let numbered = served.numbered newest in omega arith in
      subst (λ a. IsOnTop (chain newest) height (sync_from w c a (top ∷ below))) (sym served.latest)
        (subst (λ k. IsOnTop (chain newest) height (poll_blocks w c k (top ∷ below))) count
          (rounds-IsOnTop rounds height top below l (omega (arith, lower)) room (omega arith)))
