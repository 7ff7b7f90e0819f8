-- ===== src/Eth/BlockWatch/Watcher/Steps.antt =====
-- eth/blockwatch/block_watcher.go: the cases of `buildCanonicalChain` on a stack that is not empty, and
-- of a loop round of `syncToLatestBlock`.
use livepeer.Base.{
  ℕ, suc, ◌≡◌, refl, false, true, List, [], ◌∷◌, ◌++◌, some, none, ◌==◌, ◌⊎◌, inl, inr, Bool-cases,
  sym, subst,
}
use livepeer.Eth.BlockWatch.Stack.{MiniHeader, Failure, Answer, answer, fail}
use livepeer.Eth.BlockWatch.Watcher.{
  removed, Event, Watcher, Client, Built, add_logs, add_block, after_parent, no_parent,
  build_canonical_chain, poll_next_block, poll_blocks,
}

pub Answer-cases {ℓ} :
    {A : Type ℓ} (r : Answer A) → ((a : A) × (r ≡ answer a)) ⊎ ((e : Failure) × (r ≡ fail e))
Answer-cases (answer a) = inl (a, refl)
Answer-cases (fail e) = inr (e, refl)

module _ (w : Watcher) (c : Client) (latest : MiniHeader) (rest : List MiniHeader)
    (next : MiniHeader) (events : List Event) where
  pub build-extended :
      (next.parent == latest.hash) ≡ true
      → build_canonical_chain w c (latest ∷ rest) next events
        ≡ add_block w c (add_logs w c next) events (latest ∷ rest)
  unfolding build_canonical_chain
  build-extended h = rw (h)

  pub build-orphaned :
      (e : Failure)
      → (next.parent == latest.hash) ≡ false
      → c.header_by_hash next.parent ≡ fail e
      → build_canonical_chain w c (latest ∷ rest) next events
        ≡ no_parent w c e (events ++ removed latest ∷ []) rest
  unfolding build_canonical_chain
  build-orphaned e h missing = rw (h, missing)

  pub build-reorganised :
      (parent : MiniHeader)
      → (next.parent == latest.hash) ≡ false
      → c.header_by_hash next.parent ≡ answer parent
      → build_canonical_chain w c (latest ∷ rest) next events
        ≡ after_parent w c next
            (build_canonical_chain w c rest parent (events ++ removed latest ∷ []))
  unfolding build_canonical_chain
  build-reorganised parent h found = rw (h, found)

-- A predicate that holds on each of the three cases holds of what is built.
pub build_cases {ℓ} :
    (P : Built → Type ℓ) (w : Watcher) (c : Client) (latest : MiniHeader) (rest : List MiniHeader)
    (next : MiniHeader) (events : List Event)
    → P (add_block w c (add_logs w c next) events (latest ∷ rest))
    → ((e : Failure) → P (no_parent w c e (events ++ removed latest ∷ []) rest))
    → ((parent : MiniHeader)
        → P (
            after_parent w c next
              (build_canonical_chain w c rest parent (events ++ removed latest ∷ []))))
    → P (build_canonical_chain w c (latest ∷ rest) next events)
build_cases P w c latest rest next events extended orphaned reorganised =
    elim (Bool-cases (next.parent == latest.hash)) [
      | inl h ↦ subst P (sym (build-extended w c latest rest next events h)) extended
      | inr h ↦ elim (Answer-cases (c.header_by_hash next.parent)) [
        | inl (parent, e) ↦
            subst P (sym (build-reorganised w c latest rest next events parent h e))
              (reorganised parent)
        | inr (e, missing) ↦
            subst P (sym (build-orphaned w c latest rest next events e h missing)) (orphaned e)
      ]
    ]

module _ (w : Watcher) (c : Client) (k : ℕ) (stack : List MiniHeader) where
  pub poll_blocks-failed :
      (e : Failure)
      → (poll_next_block w c stack).failed ≡ some e
      → poll_blocks w c (suc k) stack ≡ poll_next_block w c stack
  unfolding poll_blocks
  poll_blocks-failed e h = rw (h, poll_blocks)

  pub poll_blocks-next :
      (poll_next_block w c stack).failed ≡ none
      → poll_blocks w c (suc k) stack ≡ (
          let b = poll_next_block w c stack in
          let rest = poll_blocks w c k b.stack in record rest { events = b.events ++ rest.events })
  unfolding poll_blocks
  poll_blocks-next h = rw (h, poll_blocks)
