-- ===== src/Eth/BlockWatch/Logs/Split.antt =====
-- eth/blockwatch/block_watcher.go: a request that has too many results is split until it is answered.
use mathlib.Core.List.{append_assoc}
use livepeer.Base.{
  ℕ, zero, suc, ◌+◌, ◌-◌, ◌/◌, ◌≤◌, ◌<◌, ◌≡◌, ◌≢◌, ◌⊎◌, refl, ap, sym, ◌∙◌, List, [], ◌∷◌, ◌++◌,
  some, arith, ◌==◌, Bool-cases, Option-cases, inl, inr, count_from, count_from-add,
}
use livepeer.Eth.BlockWatch.Logs.{Filtered, logs, too_many, failed, filter_logs_recursively}

Filtered-cases : (r : Filtered) → ((l : List ℕ) × (r ≡ logs l)) ⊎ ((r ≡ too_many) ⊎ (r ≡ failed))
Filtered-cases (logs l) = inl (l, refl)
Filtered-cases too_many = inr (inl refl)
Filtered-cases failed = inr (inr refl)

module _ (logs_of : ℕ → List ℕ) where
  -- The logs of some blocks in their order.
  unfoldable pub logs_of_all : List ℕ → List ℕ
  logs_of_all [] = []
  logs_of_all (b ∷ blocks) = logs_of b ++ logs_of_all blocks

  pub logs_of_all-append :
      (bs bs' : List ℕ) → logs_of_all (bs ++ bs') ≡ logs_of_all bs ++ logs_of_all bs'
  unfolding logs_of_all
  logs_of_all-append [] bs' = refl
  logs_of_all-append (b ∷ bs) bs' =
      ap (λ l. logs_of b ++ l) (logs_of_all-append bs bs')
      ∙ sym (append_assoc (logs_of b) (logs_of_all bs) (logs_of_all bs'))

  -- The logs of the blocks from one to another.
  abbrev pub logs_between : ℕ → ℕ → List ℕ
  logs_between from to = logs_of_all (count_from (to + 1 - from) from)

  pub logs_between-append :
      (from mid to : ℕ)
      → from ≤ mid + 1
      → mid ≤ to
      → logs_between from mid ++ logs_between (mid + 1) to ≡ logs_between from to
  logs_between-append from mid to h h' =
      let j = mid + 1 - from in
      let k = to + 1 - (mid + 1) in
      let whole : to + 1 - from ≡ j + k = omega arith in
      let start : mid + 1 ≡ from + j = omega arith in
      sym (logs_of_all-append (count_from j from) (count_from k (mid + 1)))
      ∙ ap logs_of_all (
          ap (λ n. count_from j from ++ count_from k n) start
          ∙ sym (count_from-add j k from)
          ∙ ap (λ n. count_from n from) (sym whole))

  -- A node that answers a range by its logs or that they are too many, which they are for no single
  -- block.
  pub record IsLogNode (node : ℕ → ℕ → Filtered) : Type 0 where
    pub ranges :
        (from to : ℕ) → (node from to ≡ logs (logs_between from to)) ⊎ (node from to ≡ too_many)
    pub single : (b : ℕ) → node b b ≡ logs (logs_between b b)

  -- While the node answers each request with the logs of the blocks or that they are too many, and has
  -- not too many for a single block: with fuel for its blocks, a range that is split in any way gives
  -- the logs of its blocks in their order, after those that were there.
  pub filter_logs_recursively-logs_between :
      (node : ℕ → ℕ → Filtered) (fuel from to : ℕ) (all : List ℕ)
      → IsLogNode node
      → from ≤ to
      → to - from < fuel
      → filter_logs_recursively node fuel from to all ≡ some (all ++ logs_between from to)
  unfolding filter_logs_recursively
  filter_logs_recursively-logs_between node zero from to all n h f = absurd (omega arith)
  filter_logs_recursively-logs_between node (suc fuel) from to all n h f = elim (n.ranges from to) [
    | inl e ↦ rw (e, filter_logs_recursively)
    | inr e ↦ elim (Bool-cases (from == to)) [
      | inl one ↦
          let same : from ≡ to = ground arith in
          let clash : logs (logs_between from from) ≡ too_many =
            sym (n.single from) ∙ ap (node from) same ∙ e in
          cc
      | inr more ↦
          let mid = from + (to - from) / 2 in
          let ne : from ≢ to = ground arith in
          let first =
            filter_logs_recursively-logs_between node fuel from mid all n (omega arith)
              (omega arith) in
          let second =
            filter_logs_recursively-logs_between node fuel (mid + 1) to
              (all ++ logs_between from mid) n (omega arith) (omega arith) in
          rw (e, filter_logs_recursively, more, first)
            (second
              ∙ ap some (
                  append_assoc all (logs_between from mid) (logs_between (mid + 1) to)
                  ∙ ap (λ l. all ++ l)
                      (logs_between-append from mid to (omega arith) (omega arith))))
    ]
  ]

  -- A node that may also fail.
  pub record IsHonest (node : ℕ → ℕ → Filtered) : Type 0 where
    pub answers : (from to : ℕ) (l : List ℕ) → node from to ≡ logs l → l ≡ logs_between from to

  -- What a split request returns, if it returns, are the logs of its blocks.
  pub filter_logs_recursively-IsHonest :
      (node : ℕ → ℕ → Filtered) (fuel from to : ℕ) (all result : List ℕ)
      → IsHonest node
      → from ≤ to
      → filter_logs_recursively node fuel from to all ≡ some result
      → result ≡ all ++ logs_between from to
  unfolding filter_logs_recursively
  filter_logs_recursively-IsHonest node zero from to all result n h e = cc
  filter_logs_recursively-IsHonest node (suc fuel) from to all result n h e =
      elim (Filtered-cases (node from to)) [
        | inl (l, p) ↦
            let q = rw (p, filter_logs_recursively) at e in
            let same : all ++ l ≡ result = ground (arith, q) in
            sym same ∙ ap (λ l'. all ++ l') (n.answers from to l p)
        | inr (inr p) ↦ let q = rw (p, filter_logs_recursively) at e in cc
        | inr (inl p) ↦ elim (Bool-cases (from == to)) [
          | inl one ↦ let q = rw (p, one, filter_logs_recursively) at e in cc
          | inr more ↦
              let mid = from + (to - from) / 2 in
              let ne : from ≢ to = ground arith in
              elim (Option-cases (filter_logs_recursively node fuel from mid all)) [
                | inl none' ↦ let q = rw (p, more, none', filter_logs_recursively) at e in cc
                | inr (first, some') ↦
                    let q = rw (p, more, some', filter_logs_recursively) at e in
                    let first_half =
                      filter_logs_recursively-IsHonest node fuel from mid all first n (omega arith)
                        some' in
                    filter_logs_recursively-IsHonest node fuel (mid + 1) to first result n
                      (omega arith) q
                    ∙ ap (λ l. l ++ logs_between (mid + 1) to) first_half
                    ∙ append_assoc all (logs_between from mid) (logs_between (mid + 1) to)
                    ∙ ap (λ l. all ++ l)
                        (logs_between-append from mid to (omega arith) (omega arith))
              ]
        ]
      ]
