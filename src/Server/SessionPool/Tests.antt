-- ===== src/Server/SessionPool/Tests.antt =====
-- server/broadcast.go: a pool with the LIFO selector at concrete inputs.
use livepeer.Base.{
  ℕ, ◌≡◌, refl, List, [], ◌∷◌, Option, none, some, ◌==◌, Bool-cases, inl, inr, arith,
}
use livepeer.Base.Maps.{insert, empty_map, string_eq}
use livepeer.Base.Rat.{of_frac}
use livepeer.Server.Selection.{Session, score_trusted, LifoSelector, select_lifo, add_lifo}
use livepeer.Server.Selection.Lifo.{lifo_selector, lifo_laws}
use livepeer.Server.Suspensions.{new_suspender}
use livepeer.Server.SessionPool.{
  SegFlight, Flights, SessionPool, set_flights, new_session_pool, finish_refresh, complete_session,
  select_session, push_seg_in_flight,
}
use livepeer.Server.SessionPool.Distinct.{IsPool}
use livepeer.Server.SessionPool.Select.{Round, select_sessions, pass}
use livepeer.Server.SessionPool.Selected.{IsSelected, select_sessions-IsSelected}
use livepeer.Server.SessionPool.Steps.{
  Reach, new, then_step, finishes, selects, completes, push_all,
}
use livepeer.Server.SessionPool.Invariant.{Reach-IsPool}
use livepeer.Server.SessionPool.Twice.{complete_session_twice}

abbrev orch_a : Session
orch_a = record {
  id = 1;
  transcoder = "a";
  score = score_trusted;
  recipient = none;
  latency_score = of_frac 1 1;
}

abbrev orch_b : Session
orch_b = record {
  id = 2;
  transcoder = "b";
  score = score_trusted;
  recipient = none;
  latency_score = of_frac 1 1;
}

abbrev seg : SegFlight
seg = record { start_time = 10; seg_dur = 2 }

-- The first session is in flight, the second one waits in the selector.
abbrev flights : Flights
flights = set_flights 1 (seg ∷ []) (λ k. [])

abbrev pool : SessionPool LifoSelector
pool = record (new_session_pool 2 2 new_suspender []) {
  sel = orch_b ∷ [];
  last_sess = orch_a ∷ [];
  sess_map = insert "a" orch_a (insert "b" orch_b (empty_map string_eq Session));
}

pool-IsPool : IsPool lifo_selector lifo_laws flights pool
pool-IsPool = record {
  good = tt;
  once = λ k. ground arith;
  flying = λ k h. elim (Bool-cases (k == 1)) [
    | inl same ↦ ground (arith, same)
    | inr other ↦ absurd (h (rw (other) refl))
  ];
}

abbrev ids : List Session → List ℕ
ids [] = []
ids (s ∷ l) = s.id ∷ ids l

abbrev selected_ids : Option (Round LifoSelector) → List ℕ
selected_ids none = []
selected_ids (some r) = ids r.selected

-- The segment has been in flight for less than its duration: the session is used again first.
both_selected : selected_ids (select_sessions lifo_selector 11 2 flights pool) ≡ 1 ∷ 2 ∷ []
unfolding select_sessions select_session select_lifo pass
both_selected = refl

-- For longer than twice its duration: it is not.
one_selected : selected_ids (select_sessions lifo_selector 14 2 flights pool) ≡ 2 ∷ []
unfolding select_sessions select_session select_lifo pass
one_selected = refl

select_sessions-IsSelected_example :
    (r : Round LifoSelector) × (select_sessions lifo_selector 11 2 flights pool ≡ some r)
    × IsSelected lifo_selector lifo_laws 2 pool r
select_sessions-IsSelected_example =
    select_sessions-IsSelected lifo_selector lifo_laws 11 2 flights pool pool-IsPool

complete_session_twice_example :
    let first = complete_session lifo_selector orch_a (flights, pool) in
    let second = complete_session lifo_selector orch_a first in
    (first.0 1 ≡ []) × (lifo_laws.holds 1 first.1.sel ≡ 1) × (lifo_laws.holds 1 second.1.sel ≡ 2)
complete_session_twice_example =
    complete_session_twice lifo_selector lifo_laws orch_a seg flights pool pool-IsPool
      (orch_a, refl, refl) refl

-- The first session is discovered, selected for a segment, and completed.
abbrev found_pool : SessionPool LifoSelector
found_pool = record (new_session_pool 2 2 new_suspender []) {
  sel = orch_a ∷ [];
  sess_map = insert "a" orch_a (empty_map string_eq Session);
}

abbrev in_use : SessionPool LifoSelector
in_use = record found_pool { sel = []; last_sess = orch_a ∷ [] }

abbrev pushed : Flights
pushed = push_all seg (orch_a ∷ []) (λ k. [])

selected_once :
    select_sessions lifo_selector 11 1
      (λ k. [])
      (finish_refresh lifo_selector (some (orch_a ∷ [])) (new_session_pool 2 2 new_suspender []))
    ≡ some (record { pool = in_use; flights = λ k. []; selected = orch_a ∷ []; refreshes = 0 })
unfolding select_sessions pass select_session select_lifo finish_refresh add_lifo
selected_once = refl

reached :
    Reach lifo_selector lifo_laws 2 2 new_suspender []
      (complete_session lifo_selector orch_a (pushed, in_use)).0
      (complete_session lifo_selector orch_a (pushed, in_use)).1
unfolding push_seg_in_flight
reached =
    then_step
      (then_step (then_step new (finishes (orch_a ∷ []) (λ k. (ground arith, λ h. refl))))
        (selects 11 1 seg selected_once))
      (completes orch_a (λ e. ground (arith, e)))

Reach-IsPool_example :
    IsPool lifo_selector lifo_laws
      (complete_session lifo_selector orch_a (pushed, in_use)).0
      (complete_session lifo_selector orch_a (pushed, in_use)).1
Reach-IsPool_example = Reach-IsPool lifo_selector lifo_laws tt (λ k. refl) reached
