-- ===== src/Eth/BlockWatch/Watcher/Linked.antt =====
-- eth/blockwatch/block_watcher.go: each block on the stack is the parent of the one above it, where the
-- node answers every question of a call.
use livepeer.Base.{
  ℕ, suc, ◌<◌, ap, ◌≡◌, ◌≢◌, refl, sym, subst, ◌∙◌, false, List, [], ◌∷◌, ◌++◌, none, ◌==◌,
  Bool-cases, inl, inr, arith, ==_iff, length,
}
use livepeer.Eth.BlockWatch.Stack.{MiniHeader, not_found, answer, fail}
use livepeer.Eth.BlockWatch.Stack.Refine.{pushed, stored}
use livepeer.Eth.BlockWatch.Watcher.Steps.{build-extended, build-reorganised, build-orphaned}
use livepeer.Eth.BlockWatch.Watcher.{
  Event, removed, Watcher, Client, Built, add_logs, add_block, after_parent, no_parent,
  build_canonical_chain,
}

==-ne : {a b : ℕ} → a ≢ b → (a == b) ≡ false
==-ne h = ground arith

-- The node knows every block that it is asked for, and its logs.
pub record IsAnswering (c : Client) : Type 0 where
  pub headers : (k : ℕ) → (h : MiniHeader) × (c.header_by_hash k ≡ answer h) × (h.hash ≡ k)
  pub logs : (k : ℕ) → (l : List ℕ) × (c.filter_logs k ≡ answer l)

abbrev pub IsLinked : List MiniHeader → Type 0
IsLinked [] = Unit {0}
IsLinked (h ∷ []) = Unit {0}
IsLinked (h ∷ h' ∷ hs) = (h.parent ≡ h'.hash) × IsLinked (h' ∷ hs)

-- The block is on top of a linked stack of so many headers, and there was no error.
pub record IsOnTop (next : MiniHeader) (height : ℕ) (b : Built) : Type 0 where
  pub succeeded : b.failed ≡ none
  pub top : MiniHeader
  pub below : List MiniHeader
  pub stack : b.stack ≡ top ∷ below
  pub hash : top.hash ≡ next.hash
  pub parent : top.parent ≡ next.parent
  pub number : top.number ≡ next.number
  pub linked : IsLinked (top ∷ below)
  pub size : length (top ∷ below) ≡ height

-- A push below the limit leaves what is there.
pushed-free :
    (limit : ℕ) (h : MiniHeader) (hs : List MiniHeader)
    → length hs < limit
    → pushed limit h hs ≡ stored h ∷ hs
pushed-free limit h hs low =
    let free : (length hs == limit) ≡ false = ground (arith, low) in rw (free) refl

-- A header may lie on a stack if its parent is on top of it.
abbrev Fits : MiniHeader → List MiniHeader → Type 0
Fits next [] = Unit {0}
Fits next (h ∷ hs) = next.parent ≡ h.hash

Fits-IsLinked :
    (next : MiniHeader) (hs : List MiniHeader) → Fits next hs → IsLinked hs → IsLinked (next ∷ hs)
Fits-IsLinked next [] f l = tt
Fits-IsLinked next (h ∷ hs) f l = (f, l)

Fits-same :
    (next h : MiniHeader) (hs : List MiniHeader) → h.parent ≡ next.parent → Fits next hs → Fits h hs
Fits-same next h [] e f = tt
Fits-same next h (h' ∷ hs) e f = e ∙ f

tail-IsLinked : (h : MiniHeader) (hs : List MiniHeader) → IsLinked (h ∷ hs) → IsLinked hs
tail-IsLinked h [] l = tt
tail-IsLinked h (h' ∷ hs) l = l.1

module _ (w : Watcher) (c : Client) (node : IsAnswering c) where
  add_logs-answer :
      (next : MiniHeader) → (l : List ℕ) × (add_logs w c next ≡ answer (record next { logs = l }))
  unfolding add_logs
  add_logs-answer next =
      let (l, e) = node.logs next.hash in
      elim (Bool-cases w.with_logs) [ inl h ↦ (l, rw (h, e)) | inr h ↦ (next.logs, rw (h)) ]

  add_block-IsOnTop :
      (next : MiniHeader) (es : List Event) (hs : List MiniHeader)
      → Fits next hs
      → IsLinked hs
      → length hs < w.block_retention_limit
      → IsOnTop next (suc (length hs)) (add_block w c (add_logs w c next) es hs)
  unfolding add_block
  add_block-IsOnTop next es hs fits l room =
      let (logs, e) = add_logs-answer next in
      let h : MiniHeader = record next { logs = logs } in
      subst (λ a. IsOnTop next (suc (length hs)) (add_block w c a es hs)) (sym e)
        (record {
          succeeded = refl;
          top = stored h;
          below = hs;
          stack = pushed-free w.block_retention_limit h hs room;
          hash = refl;
          parent = refl;
          number = refl;
          linked = Fits-IsLinked (stored h) hs (Fits-same next h hs refl fits) l;
          size = refl;
        })

  after_parent-IsOnTop :
      (next parent : MiniHeader) (b : Built) (height : ℕ)
      → IsOnTop parent height b
      → parent.hash ≡ next.parent
      → height < w.block_retention_limit
      → IsOnTop next (suc height) (after_parent w c next b)
  unfolding after_parent
  after_parent-IsOnTop next parent b height t e room =
      let size : length b.stack ≡ height = ap length t.stack ∙ t.size in
      subst (λ n. IsOnTop next (suc n) (after_parent w c next b)) size
        (rw (t.succeeded, after_parent)
          (add_block-IsOnTop next b.events b.stack
            (subst (Fits next) (sym t.stack) (sym e ∙ sym t.hash))
            (subst IsLinked (sym t.stack) t.linked) (omega (arith, size, room))))

  -- While the node answers and the limit of the stack has room for one more header,
  -- `buildCanonicalChain` brings the block to the top of a linked stack, which stays linked and
  -- has one header more, through any reorganisation.
  pub build_canonical_chain-IsOnTop :
      (hs : List MiniHeader) (next : MiniHeader) (es : List Event)
      → IsLinked hs
      → length hs < w.block_retention_limit
      → IsOnTop next (suc (length hs)) (build_canonical_chain w c hs next es)
  unfolding build_canonical_chain
  build_canonical_chain-IsOnTop [] next es l room = add_block-IsOnTop next es [] tt tt room
  build_canonical_chain-IsOnTop (latest ∷ rest) next es l room =
      elim (Bool-cases (next.parent == latest.hash)) [
        | inl h ↦
            subst (IsOnTop next (suc (suc (length rest))))
              (sym (build-extended w c latest rest next es h))
              (add_block-IsOnTop next es (latest ∷ rest) ((==_iff next.parent latest.hash).0 h) l
                room)
        | inr h ↦
            let (parent, found, same) = node.headers next.parent in
            let popped = es ++ removed latest ∷ [] in
            subst (IsOnTop next (suc (suc (length rest))))
              (sym (build-reorganised w c latest rest next es parent h found))
              (after_parent-IsOnTop next parent (build_canonical_chain w c rest parent popped)
                (suc (length rest))
                (build_canonical_chain-IsOnTop rest parent popped (tail-IsLinked latest rest l)
                  (omega (arith, room)))
                same room)
      ]

-- Where a reorganisation is two blocks deep and the node does not know the second block's parent, the
-- call returns no error, and the new block is pushed although its parent was never added.
pub build_canonical_chain-gap :
    (w : Watcher) (c : Client) (a b next parent next' : MiniHeader) (rest : List MiniHeader)
    (es : List Event)
    → next.parent ≢ b.hash
    → c.header_by_hash next.parent ≡ answer parent
    → parent.parent ≢ a.hash
    → c.header_by_hash parent.parent ≡ fail not_found
    → add_logs w c next ≡ answer next'
    → let built = build_canonical_chain w c (b ∷ a ∷ rest) next es in
      (built.failed ≡ none) × (built.stack ≡ pushed w.block_retention_limit next' rest)
unfolding after_parent add_block no_parent
build_canonical_chain-gap w c a b next parent next' rest es ne found ne' missing logs =
    let outer = build-reorganised w c b (a ∷ rest) next es parent (==-ne ne) found in
    let inner =
      build-orphaned w c a rest parent (es ++ removed b ∷ []) not_found (==-ne ne') missing in
    (rw (outer, inner, logs), rw (outer, inner, logs))
