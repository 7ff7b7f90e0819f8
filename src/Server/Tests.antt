-- ===== src/Server/Tests.antt =====
-- Package server at concrete inputs.
use livepeer.Server.Selection.MinLatency.{HeapLib, MinLsSelector, Draws, select}
use livepeer.Server.Selection.MinLatency.Conserved.{
  HeapLaws, IsLowest, IsConserved, select-IsConserved,
}
use livepeer.Base.{
  List, Option, none, true, false, refl, ◌-◌, ◌⊎◌, if◌then◌else◌, ℕ, [], ◌∷◌, some, arith, ◌≡◌, ◌+◌,
  ◌≤◌, ◌≢◌, ◌↔◌,
}
use livepeer.Server.Suspensions.{new_suspender, suspend, suspended}
use livepeer.Server.Suspensions.Duration.{refresh_times, suspended_iff}
use livepeer.Base.Int.{◌*ℤ◌}
use livepeer.Base.Rat.{of_frac, leb_rat, ltb_rat}
use livepeer.Server.Selection.{Session, Score, pick, select_lifo, complete_lifo}
use livepeer.Server.Selection.Weighted.{weight, pick_succeeds, select_lifo-complete_lifo}

-- Ten refreshes after the start, a penalty of three does not suspend.
suspended_iff_example :
    ((suspended "orch" (refresh_times 0 (suspend "orch" 3 (record new_suspender { count = 10 })))).0
      ≢ 0)
    ↔ ((10 + 0 ≤ 0 + 3) × (0 + 3 ≢ 0))
suspended_iff_example = suspended_iff "orch" 3 0 (record new_suspender { count = 10 })

abbrev session : ℕ → Session
session n = record {
  id = n;
  transcoder = "orch";
  score = Score.score_trusted;
  recipient = some n;
  latency_score = of_frac n 1;
}

-- The recipient of two sessions is counted once.
weight_5 : 4 ≤ weight (λ a. a) (session 3 ∷ session 3 ∷ session 2 ∷ [])
unfolding weight
weight_5 = omega arith

four_picks :
    (i : ℕ) × (s : Session) × (pick (λ a. a) 4 (session 3 ∷ session 3 ∷ session 2 ∷ [])
      ≡ some (i, s))
four_picks =
    pick_succeeds (λ a. a) 4 (session 3 ∷ session 3 ∷ session 2 ∷ []) (omega arith) weight_5

completed_is_selected :
    select_lifo (complete_lifo (session 4) (session 3 ∷ [])) ≡ (some (session 4), session 3 ∷ [])
completed_is_selected = select_lifo-complete_lifo (session 4) (session 3 ∷ [])

-- A heap that is kept in order.
abbrev insert_sorted : Session → List Session → List Session
insert_sorted s [] = s ∷ []
insert_sorted s (t ∷ l) =
    let rest = insert_sorted s l in
    if leb_rat s.latency_score t.latency_score then s ∷ t ∷ l else t ∷ rest

abbrev pop_first : List Session → Option Session × List Session
pop_first [] = (none, [])
pop_first (s ∷ l) = (some s, l)

abbrev IsSorted : List Session → Type 0
IsSorted [] = Unit
IsSorted (s ∷ l) = IsLowest s l × IsSorted l

abbrev sorted_heap : HeapLib
sorted_heap = record { push = insert_sorted; pop = pop_first }

abbrev sorted_laws : HeapLaws sorted_heap
sorted_laws = record {
  IsHeap = IsSorted;
  lowest = λ x l h. h.0;
  popped = λ x l h. refl;
  left = λ x l h. h.1;
  count = λ k x l h. refl;
}

abbrev draws : Draws
draws = record { is_frequent = false; intn = λ n. n - 1; int63n = λ n. 0 }

abbrev selector : MinLsSelector
selector = record {
  unknown_sessions = session 1 ∷ session 2 ∷ [];
  known_sessions = session 3 ∷ session 7 ∷ [];
  has_stake_reader = true;
  min_ls = of_frac 5 1;
}

abbrev stakes : List ℕ → Option (List (ℕ × ℕ))
stakes addrs = some ((1, 4) ∷ (2, 6) ∷ [])

-- A score of 3 is good enough; without the known sessions, the first stake decides.
selects_known : (select sorted_heap stakes draws selector).0 ≡ some (session 3)
unfolding select ◌*ℤ◌
selects_known = refl

selects_by_stake :
    select sorted_heap stakes draws (record selector { known_sessions = [] })
    ≡ (some (session 1), record selector { unknown_sessions = session 2 ∷ []; known_sessions = [] })
unfolding select
selects_by_stake = refl

select-IsConserved_example :
    IsConserved sorted_heap sorted_laws stakes draws
      (λ n. omega arith)
      selector
      (select sorted_heap stakes draws selector)
    × ((x : Session) (l : List Session)
        → session 3 ∷ session 7 ∷ [] ≡ x ∷ l
        → (ltb_rat (of_frac 5 1) x.latency_score ≡ false) ⊎ (selector.unknown_sessions ≡ [])
        → ((select sorted_heap stakes draws selector).0 ≡ some x) × IsLowest x l)
unfolding ◌*ℤ◌
select-IsConserved_example =
    select-IsConserved sorted_heap sorted_laws stakes draws (λ n. omega arith) selector
      ((refl, tt), (tt, tt))
