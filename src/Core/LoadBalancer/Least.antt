-- ===== src/Core/LoadBalancer/Least.antt =====
-- core/lb.go: the search for the least loaded transcoder, which starts at a moving index.
use native.Mathlib.Nat.{mod-eq_of_lt, add-mod_right, mod-lt}
use livepeer.Base.{
  ℕ, zero, suc, ◌+◌, ◌-◌, ◌%◌, ◌^◌, ◌≤◌, ◌<◌, ◌≡◌, ap, ◌∙◌, subst, ◌==◌, ltb, length, Bool-cases,
  inl, inr, arith,
}
use livepeer.Core.LoadBalancer.{
  LoadBalancer, transcoder_at, max_int64, int_order, less_loaded, scan_loads, least_loaded,
}

module _ (lb : LoadBalancer) where
  -- The place of a transcoder's load in the order of the ints.
  abbrev load_at : ℕ → ℕ
  load_at k = int_order (lb.load (transcoder_at lb k))

  abbrev index_at : ℕ → ℕ
  index_at i = (i + lb.idx) % length lb.transcoders

  less_loaded_lem :
      (k least best : ℕ)
      → load_at best ≤ int_order least
      → (load_at (less_loaded lb k (least, best)).1 ≤ int_order (less_loaded lb k (least, best)).0)
        × (int_order (less_loaded lb k (least, best)).0 ≤ int_order least)
        × (int_order (less_loaded lb k (least, best)).0 ≤ load_at k)
  less_loaded_lem k least best h = elim (Bool-cases (ltb (load_at k) (int_order least))) [
    | inl less ↦ rw (less) (omega arith, ground arith, omega arith)
    | inr more ↦ rw (more) (h, omega arith, ground arith)
  ]

  -- What is found has no more load than the least before, nor than any transcoder that is looked at.
  scan_loads-least :
      (n i least best : ℕ)
      → load_at best ≤ int_order least
      → (load_at (scan_loads lb n i (least, best)) ≤ int_order least)
        × ((j : ℕ)
            → i ≤ j
            → j < i + n
            → load_at (scan_loads lb n i (least, best)) ≤ load_at (index_at j))
  unfolding scan_loads
  scan_loads-least zero i least best h = (h, λ j low high. absurd (omega arith))
  scan_loads-least (suc n) i least best h =
      let found = less_loaded lb (index_at i) (least, best) in
      let (fits, less, here) = less_loaded_lem (index_at i) least best h in
      let (least_after, later) = scan_loads-least n (i + 1) found.0 found.1 fits in
      (
        omega arith,
        λ j low high. elim (Bool-cases (j == i)) [
          | inl same ↦ let j_eq : j ≡ i = ground arith in rw (j_eq) (omega arith)
          | inr other ↦ later j (ground arith) (omega arith)
        ],
      )

  -- Every index is looked at.
  index_at-covers :
      (j : ℕ)
      → lb.idx < length lb.transcoders
      → j < length lb.transcoders
      → (i : ℕ) × (i < length lb.transcoders) × (index_at i ≡ j)
  index_at-covers j h bound = elim (Bool-cases (ltb j lb.idx)) [
    | inl before ↦
        let i = j + length lb.transcoders - lb.idx in
        let sum : i + lb.idx ≡ j + length lb.transcoders = ground arith in
        (
          i,
          ground arith,
          ap (λ x. x % length lb.transcoders) sum
              ∙ add-mod_right j (length lb.transcoders)
              ∙ mod-eq_of_lt bound,
        )
    | inr behind ↦
        let i = j - lb.idx in
        let sum : i + lb.idx ≡ j = ground arith in
        (i, omega arith, ap (λ x. x % length lb.transcoders) sum ∙ mod-eq_of_lt bound)
  ]

  -- No transcoder has less load than the one that is found.
  pub least_loaded-least :
      (j : ℕ)
      → lb.idx < length lb.transcoders
      → j < length lb.transcoders
      → int_order (lb.load (least_loaded lb)) ≤ load_at j
  unfolding least_loaded
  least_loaded-least j h bound =
      let low_word : load_at 0 < 2 ^ 64 =
        mod-lt (lb.load (transcoder_at lb 0) + 2 ^ 63) (omega arith) in
      let fits : load_at 0 ≤ int_order max_int64 = omega (arith, low_word) in
      let (i, low, eq) = index_at-covers j h bound in
      let all = (scan_loads-least (length lb.transcoders) 0 max_int64 0 fits).1 in
      subst (λ k. int_order (lb.load (least_loaded lb)) ≤ load_at k) eq
        (all i (omega arith) (omega arith))
