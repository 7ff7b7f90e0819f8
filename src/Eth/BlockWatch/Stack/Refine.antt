-- ===== src/Eth/BlockWatch/Stack/Refine.antt =====
-- eth/blockwatch/stack.go: over a store that keeps headers by their hash and finds the latest one, the
-- stack is a bounded list, newest first.
use livepeer.Base.{
  ℕ, ◌≡◌, ◌≢◌, refl, ap, ◌∙◌, List, [], ◌∷◌, Option, none, some, ◌==◌, arith, if◌then◌else◌, length,
  ◌<◌,
}
use livepeer.Eth.BlockWatch.Stack.{MiniHeader, answer, MiniHeaderStore, pop, peek}

abbrev pub head : List MiniHeader → Option MiniHeader
head [] = none
head (h ∷ hs) = some h

abbrev pub tail : List MiniHeader → List MiniHeader
tail [] = []
tail (h ∷ hs) = hs

-- What the store keeps of a header: it has no column for the L1 block number.
abbrev pub stored : MiniHeader → MiniHeader
stored h = record h { l1_block_number = 0 }

-- What a stack holds after a push. Where the limit is reached, the newest header is dropped.
abbrev pub pushed : ℕ → MiniHeader → List MiniHeader → List MiniHeader
pushed limit h hs = stored h ∷ (if length hs == limit then tail hs else hs)

-- Deleting the headers with a hash.
abbrev pub without_hash : ℕ → List MiniHeader → List MiniHeader
without_hash k [] = []
without_hash k (h ∷ hs) = if h.hash == k then without_hash k hs else h ∷ without_hash k hs

abbrev pub IsFreshHash : ℕ → List MiniHeader → Type 0
IsFreshHash k [] = Unit {0}
IsFreshHash k (h ∷ hs) = (h.hash ≢ k) × IsFreshHash k hs

abbrev pub HasDistinctHashes : List MiniHeader → Type 0
HasDistinctHashes [] = Unit {0}
HasDistinctHashes (h ∷ hs) = IsFreshHash h.hash hs × HasDistinctHashes hs

-- The header is higher than all of these.
abbrev pub IsAbove : MiniHeader → List MiniHeader → Type 0
IsAbove h [] = Unit {0}
IsAbove h (h' ∷ hs) = (h'.number < h.number) × IsAbove h hs

-- What a store promises, where no call of it fails: `view` are its headers from the highest number
-- down, as common/db.go lists them. A header that is inserted has a new hash and a number above all.
pub record StoreLaws {ℓ} (S : Type ℓ) (store : MiniHeaderStore S) : Type ℓ where
  pub view : S → List MiniHeader
  pub latest : (s : S) → store.find_latest s ≡ answer (head (view s))
  pub all : (s : S) → store.find_all s ≡ answer (view s)
  pub insert :
      (h : MiniHeader) (s : S)
      → IsAbove h (view s)
      → IsFreshHash h.hash (view s)
      → (s' : S) × (store.insert h s ≡ answer s') × (view s' ≡ stored h ∷ view s)
  pub delete :
      (k : ℕ) (s : S)
      → (s' : S) × (store.delete k s ≡ answer s') × (view s' ≡ without_hash k (view s))

without_hash-fresh : (k : ℕ) (hs : List MiniHeader) → IsFreshHash k hs → without_hash k hs ≡ hs
without_hash-fresh k [] f = refl
without_hash-fresh k (h ∷ hs) f = ground (arith, without_hash-fresh k hs f.1, f.0)

without_hash-head :
    (h : MiniHeader) (hs : List MiniHeader)
    → HasDistinctHashes (h ∷ hs)
    → without_hash h.hash (h ∷ hs) ≡ hs
without_hash-head h hs d = ground (arith, without_hash-fresh h.hash hs d.0)

module _ {ℓ} {S : Type ℓ} {store : MiniHeaderStore S} (laws : StoreLaws S store) where
  latest-view :
      (s : S) (hs : List MiniHeader) → laws.view s ≡ hs → store.find_latest s ≡ answer (head hs)
  latest-view s hs v = laws.latest s ∙ ap (λ l. answer (head l)) v

  pop-view :
      (s : S) (hs : List MiniHeader)
      → laws.view s ≡ hs
      → HasDistinctHashes hs
      → ((pop store s).0 ≡ answer (head hs)) × (laws.view (pop store s).1 ≡ tail hs)
  unfolding pop
  pop-view s [] v d = (rw (latest-view s [] v, pop), rw (latest-view s [] v, pop) v)
  pop-view s (h ∷ hs) v d =
      let (s', e, left) = laws.delete h.hash s in
      (
        rw (latest-view s (h ∷ hs) v, pop, e),
        rw (latest-view s (h ∷ hs) v, pop, e)
            (left ∙ ap (without_hash h.hash) v ∙ without_hash-head h hs d),
      )

  -- `Peek` and `Pop` give the newest header, or none if there is none, and `Pop` removes it.
  pub pop-head :
      (s : S)
      → HasDistinctHashes (laws.view s)
      → (peek store s ≡ answer (head (laws.view s)))
        × ((pop store s).0 ≡ answer (head (laws.view s)))
        × (laws.view (pop store s).1 ≡ tail (laws.view s))
  unfolding peek
  pop-head s d = let popped = pop-view s (laws.view s) refl d in (laws.latest s, popped.0, popped.1)
