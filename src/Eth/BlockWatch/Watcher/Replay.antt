-- ===== src/Eth/BlockWatch/Watcher/Replay.antt =====
-- eth/blockwatch/block_watcher.go: the events tell what happens to the stack.
use livepeer.Base.{
  ℕ, zero, suc, ◌-◌, ◌≡◌, refl, ap, sym, subst, ◌∙◌, List, [], ◌∷◌, ◌++◌, Option, none, some, ◌==◌,
  if◌then◌else◌, inl, inr, ==_iff, Option-cases,
}
use mathlib.Core.Path.{fun_ext}
use livepeer.Eth.BlockWatch.Stack.{
  MiniHeader, Failure, not_found, unknown_block, other, panic, Answer, answer, fail,
}
use livepeer.Eth.BlockWatch.Stack.Refine.{pushed}
use livepeer.Eth.BlockWatch.Watcher.Steps.{build_cases, poll_blocks-failed, poll_blocks-next}
use livepeer.Eth.BlockWatch.Watcher.{
  Event, added, removed, Watcher, Client, Built, add_logs, add_block, after_parent, no_parent,
  build_canonical_chain, next_header, poll_answer, poll_next_block, poll_blocks, sync_from,
  sync_to_latest_block,
}

-- A subscriber that keeps its own stack: a removed header must be the one on top.
abbrev pub replay_one : ℕ → Event → List MiniHeader → Option (List MiniHeader)
replay_one limit (added h) hs = some (pushed limit h hs)
replay_one limit (removed h) [] = none
replay_one limit (removed h) (top ∷ hs) = if h.hash == top.hash then some hs else none

abbrev and_then :
    Option (List MiniHeader)
    → (List MiniHeader → Option (List MiniHeader))
    → Option (List MiniHeader)
and_then none f = none
and_then (some hs) f = f hs

unfoldable pub replay : ℕ → List Event → List MiniHeader → Option (List MiniHeader)
replay limit [] hs = some hs
replay limit (e ∷ es) hs = and_then (replay_one limit e hs) (replay limit es)

ends : (o : Option (List MiniHeader)) → and_then o (λ hs. some hs) ≡ o
ends none = refl
ends (some hs) = refl

and_then_assoc :
    (o : Option (List MiniHeader)) (f g : List MiniHeader → Option (List MiniHeader))
    → and_then (and_then o f) g ≡ and_then o (λ hs. and_then (f hs) g)
and_then_assoc none f g = refl
and_then_assoc (some hs) f g = refl

pub replay-append :
    (limit : ℕ) (es es' : List Event) (hs : List MiniHeader)
    → replay limit (es ++ es') hs ≡ and_then (replay limit es hs) (replay limit es')
unfolding replay
replay-append limit [] es' hs = refl
replay-append limit (e ∷ es) es' hs =
    ap (and_then (replay_one limit e hs)) (fun_ext (replay-append limit es es'))
    ∙ sym (and_then_assoc (replay_one limit e hs) (replay limit es) (replay limit es'))

module _ (w : Watcher) (c : Client) where
  own_top :
      (h : MiniHeader) (hs : List MiniHeader)
      → replay_one w.block_retention_limit (removed h) (h ∷ hs) ≡ some hs
  own_top h hs = rw ((==_iff h.hash h.hash).1 refl)

  -- Replaying the events from where a subscriber started gives the stack.
  abbrev pub IsFollowed : List MiniHeader → Built → Type 0
  IsFollowed start b = replay w.block_retention_limit b.events start ≡ some b.stack

  append-one :
      (start : List MiniHeader) (es : List Event) (hs : List MiniHeader) (e : Event)
      → replay w.block_retention_limit es start ≡ some hs
      → replay w.block_retention_limit (es ++ e ∷ []) start
        ≡ replay_one w.block_retention_limit e hs
  append-one start es hs e h =
      replay-append w.block_retention_limit es (e ∷ []) start
      ∙ ap (λ o. and_then o (replay w.block_retention_limit (e ∷ []))) h
      ∙ unfold replay in ends (replay_one w.block_retention_limit e hs)

  add_block-IsFollowed :
      (start : List MiniHeader) (a : Answer MiniHeader) (es : List Event) (hs : List MiniHeader)
      → replay w.block_retention_limit es start ≡ some hs
      → IsFollowed start (add_block w c a es hs)
  unfolding add_block
  add_block-IsFollowed start (answer h) es hs f = append-one start es hs (added h) f
  add_block-IsFollowed start (fail not_found) es hs f = f
  add_block-IsFollowed start (fail unknown_block) es hs f = f
  add_block-IsFollowed start (fail other) es hs f = f
  add_block-IsFollowed start (fail panic) es hs f = f

  no_parent-IsFollowed :
      (start : List MiniHeader) (e : Failure) (es : List Event) (hs : List MiniHeader)
      → replay w.block_retention_limit es start ≡ some hs
      → IsFollowed start (no_parent w c e es hs)
  unfolding no_parent
  no_parent-IsFollowed start not_found es hs f = f
  no_parent-IsFollowed start unknown_block es hs f = f
  no_parent-IsFollowed start other es hs f = f
  no_parent-IsFollowed start panic es hs f = f

  after_parent-IsFollowed :
      (start : List MiniHeader) (next : MiniHeader) (b : Built)
      → IsFollowed start b
      → IsFollowed start (after_parent w c next b)
  unfolding after_parent
  after_parent-IsFollowed start next b f = elim (Option-cases b.failed) [
    | inl h ↦ rw (h) (add_block-IsFollowed start (add_logs w c next) b.events b.stack f)
    | inr (e, h) ↦ rw (h) f
  ]

  build-IsFollowed :
      (start hs : List MiniHeader) (next : MiniHeader) (es : List Event)
      → replay w.block_retention_limit es start ≡ some hs
      → IsFollowed start (build_canonical_chain w c hs next es)
  unfolding build_canonical_chain
  build-IsFollowed start [] next es f = add_block-IsFollowed start (add_logs w c next) es [] f
  build-IsFollowed start (latest ∷ rest) next es f =
      let popped : replay w.block_retention_limit (es ++ removed latest ∷ []) start ≡ some rest =
        append-one start es (latest ∷ rest) (removed latest) f ∙ own_top latest rest in
      build_cases (IsFollowed start) w c latest rest next es
        (add_block-IsFollowed start (add_logs w c next) es (latest ∷ rest) f)
        (λ e. no_parent-IsFollowed start e (es ++ removed latest ∷ []) rest popped)
        (λ parent.
          after_parent-IsFollowed start next
            (build_canonical_chain w c rest parent (es ++ removed latest ∷ []))
            (build-IsFollowed start rest parent (es ++ removed latest ∷ []) popped))

  poll_answer-IsFollowed :
      (a : Answer MiniHeader) (hs : List MiniHeader) → IsFollowed hs (poll_answer w c a hs)
  unfolding poll_answer replay
  poll_answer-IsFollowed (answer next) hs = build-IsFollowed hs hs next [] refl
  poll_answer-IsFollowed (fail not_found) hs = refl
  poll_answer-IsFollowed (fail unknown_block) hs = refl
  poll_answer-IsFollowed (fail other) hs = refl
  poll_answer-IsFollowed (fail panic) hs = refl

  poll_next_block-IsFollowed : (hs : List MiniHeader) → IsFollowed hs (poll_next_block w c hs)
  unfolding poll_next_block
  poll_next_block-IsFollowed hs = poll_answer-IsFollowed (next_header w c hs) hs

  poll_blocks-IsFollowed : (k : ℕ) (hs : List MiniHeader) → IsFollowed hs (poll_blocks w c k hs)
  unfolding poll_blocks replay
  poll_blocks-IsFollowed zero hs = refl
  poll_blocks-IsFollowed (suc k) hs =
      let b = poll_next_block w c hs in
      let first = poll_next_block-IsFollowed hs in
      let later = poll_blocks-IsFollowed k b.stack in
      elim (Option-cases b.failed) [
        | inl h ↦ subst (IsFollowed hs) (sym (poll_blocks-next w c k hs h)) (
            replay-append w.block_retention_limit b.events (poll_blocks w c k b.stack).events hs
            ∙ ap
                (λ o.
                  and_then o (replay w.block_retention_limit (poll_blocks w c k b.stack).events))
                first
            ∙ later)
        | inr (e, h) ↦ subst (IsFollowed hs) (sym (poll_blocks-failed w c k hs e h)) first
      ]

  sync_from-IsFollowed :
      (a : Answer MiniHeader) (hs : List MiniHeader) → IsFollowed hs (sync_from w c a hs)
  unfolding sync_from replay
  sync_from-IsFollowed (fail e) hs = refl
  sync_from-IsFollowed (answer newest) [] = poll_next_block-IsFollowed []
  sync_from-IsFollowed (answer newest) (last ∷ rest) =
      poll_blocks-IsFollowed (newest.number - last.number) (last ∷ rest)

  -- Whatever the node answers, and also where it fails, the events that a synchronisation sends are
  -- what happened to the stack: a removed header was on top of it, and replaying them from the old
  -- stack gives the new one. The store does not fail, and a header that is pushed has a new hash and a
  -- number above those on the stack; a push onto a full stack replaces the newest header.
  pub sync_to_latest_block-IsFollowed :
      (hs : List MiniHeader) → IsFollowed hs (sync_to_latest_block w c hs)
  unfolding sync_to_latest_block
  sync_to_latest_block-IsFollowed hs = sync_from-IsFollowed c.latest hs
