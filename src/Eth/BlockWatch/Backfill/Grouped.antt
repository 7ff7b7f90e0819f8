-- ===== src/Eth/BlockWatch/Backfill/Grouped.antt =====
-- eth/blockwatch/block_watcher.go: a backfill gives every log of the missed blocks once.
use livepeer.Base.{
  ℕ, ◌+◌, ◌≡◌, ◌≢◌, refl, sym, List, [], ◌∷◌, ◌++◌, ◌==◌, if◌then◌else◌, Bool-cases, inl, inr,
  arith,
}
use livepeer.Eth.BlockWatch.Stack.{MiniHeader}
use livepeer.Eth.BlockWatch.Stack.Refine.{IsFreshHash, HasDistinctHashes}
use livepeer.Eth.BlockWatch.Backfill.{group_log, group_logs}

-- How often a log stands in a list, and in some headers.
abbrev pub occurrences : ℕ → List ℕ → ℕ
occurrences k [] = 0
occurrences k (l ∷ ls) = (if k == l then 1 else 0) + occurrences k ls

abbrev pub occurrences_in : ℕ → List MiniHeader → ℕ
occurrences_in k [] = 0
occurrences_in k (h ∷ hs) = occurrences k h.logs + occurrences_in k hs

occurrences-append :
    (k : ℕ) (ls ms : List ℕ) → occurrences k (ls ++ ms) ≡ occurrences k ls + occurrences k ms
occurrences-append k [] ms = omega arith
occurrences-append k (l ∷ ls) ms = omega (arith, occurrences-append k ls ms)

module _ (block_of : ℕ → ℕ × ℕ) where
  occurrences_in-group_log :
      (k l : ℕ) (hs : List MiniHeader)
      → occurrences_in k (group_log block_of l hs) ≡ (if k == l then 1 else 0) + occurrences_in k hs
  unfolding group_log
  occurrences_in-group_log k l [] = omega arith
  occurrences_in-group_log k l (h ∷ hs) = elim (Bool-cases (h.hash == (block_of l).0)) [
    | inl same ↦ rw (same) (omega (arith, occurrences-append k h.logs (l ∷ [])))
    | inr other ↦ rw (other) (omega (arith, occurrences_in-group_log k l hs))
  ]

  occurrences_in-group_logs :
      (k : ℕ) (ls : List ℕ) (hs : List MiniHeader)
      → occurrences_in k (group_logs block_of ls hs) ≡ occurrences k ls + occurrences_in k hs
  unfolding group_logs
  occurrences_in-group_logs k [] hs = omega arith
  occurrences_in-group_logs k (l ∷ ls) hs = omega (
    arith,
    occurrences_in-group_logs k ls (group_log block_of l hs),
    occurrences_in-group_log k l hs,
  )

  -- Each header has logs of its own block only, and no block has two headers.
  abbrev pub AreOfBlock : ℕ → List ℕ → Type 0
  AreOfBlock b [] = Unit
  AreOfBlock b (l ∷ ls) = ((block_of l).0 ≡ b) × AreOfBlock b ls

  abbrev pub HaveOwnLogs : List MiniHeader → Type 0
  HaveOwnLogs [] = Unit
  HaveOwnLogs (h ∷ hs) = AreOfBlock h.hash h.logs × HaveOwnLogs hs

  AreOfBlock-append :
      (b l : ℕ) (ls : List ℕ) → AreOfBlock b ls → (block_of l).0 ≡ b → AreOfBlock b (ls ++ l ∷ [])
  AreOfBlock-append b l [] p e = (e, tt)
  AreOfBlock-append b l (m ∷ ls) (p, ps) e = (p, AreOfBlock-append b l ls ps e)

  group_log-HaveOwnLogs :
      (l : ℕ) (hs : List MiniHeader) → HaveOwnLogs hs → HaveOwnLogs (group_log block_of l hs)
  unfolding group_log
  group_log-HaveOwnLogs l [] p = ((refl, tt), tt)
  group_log-HaveOwnLogs l (h ∷ hs) (p, ps) = elim (Bool-cases (h.hash == (block_of l).0)) [
    | inl same ↦ rw (same) (
      AreOfBlock-append h.hash l h.logs p (let e : h.hash ≡ (block_of l).0 = ground arith in sym e),
      ps,
    )
    | inr other ↦ rw (other) (p, group_log-HaveOwnLogs l hs ps)
  ]

  group_log-IsFreshHash :
      (k l : ℕ) (hs : List MiniHeader)
      → IsFreshHash k hs
      → (block_of l).0 ≢ k
      → IsFreshHash k (group_log block_of l hs)
  unfolding group_log
  group_log-IsFreshHash k l [] p e = (e, tt)
  group_log-IsFreshHash k l (h ∷ hs) (p, ps) e = elim (Bool-cases (h.hash == (block_of l).0)) [
    | inl same ↦ rw (same) (p, ps)
    | inr other ↦ rw (other) (p, group_log-IsFreshHash k l hs ps e)
  ]

  group_log-HasDistinctHashes :
      (l : ℕ) (hs : List MiniHeader)
      → HasDistinctHashes hs
      → HasDistinctHashes (group_log block_of l hs)
  unfolding group_log
  group_log-HasDistinctHashes l [] p = (tt, tt)
  group_log-HasDistinctHashes l (h ∷ hs) (p, ps) = elim (Bool-cases (h.hash == (block_of l).0)) [
    | inl same ↦ rw (same) (p, ps)
    | inr other ↦ rw (other) (
      group_log-IsFreshHash h.hash l hs p (λ e. ground (arith, e, other)),
      group_log-HasDistinctHashes l hs ps,
    )
  ]

  -- The headers of some logs.
  pub record IsGrouped (ls : List ℕ) (hs : List MiniHeader) : Type 0 where
    pub logs : (k : ℕ) → occurrences_in k hs ≡ occurrences k ls
    pub own : HaveOwnLogs hs
    pub distinct : HasDistinctHashes hs

  group_logs-kept :
      (ls : List ℕ) (hs : List MiniHeader)
      → HaveOwnLogs hs
      → HasDistinctHashes hs
      → HaveOwnLogs (group_logs block_of ls hs) × HasDistinctHashes (group_logs block_of ls hs)
  unfolding group_logs
  group_logs-kept [] hs p q = (p, q)
  group_logs-kept (l ∷ ls) hs p q =
      group_logs-kept ls (group_log block_of l hs) (group_log-HaveOwnLogs l hs p)
        (group_log-HasDistinctHashes l hs q)

  pub group_logs-IsGrouped : (ls : List ℕ) → IsGrouped ls (group_logs block_of ls [])
  group_logs-IsGrouped ls =
      let kept = group_logs-kept ls [] tt tt in
      record {
        logs = λ k. omega (arith, occurrences_in-group_logs k ls []);
        own = kept.0;
        distinct = kept.1;
      }
