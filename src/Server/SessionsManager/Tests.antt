-- ===== src/Server/SessionsManager/Tests.antt =====
-- server/broadcast.go: the manager with LIFO selectors at concrete inputs.
use Prim.Native.String.{String}
use livepeer.Base.{ℕ, ◌-◌, ◌≡◌, refl, true, false, List, [], ◌∷◌, Option, none, some}
use livepeer.Base.Maps.{insert, empty_map, string_eq}
use livepeer.Base.Rat.{of_frac}
use livepeer.Server.Selection.{
  Session, score_trusted, score_untrusted, Score, LifoSelector, select_lifo, complete_lifo,
}
use livepeer.Server.Selection.Lifo.{lifo_selector}
use livepeer.Server.Suspensions.{new_suspender}
use livepeer.Server.SessionPool.{
  Flights, set_flights, new_session_pool, complete_session, select_session,
}
use livepeer.Server.SessionPool.Select.{select_sessions, pass}
use livepeer.Server.SessionsManager.{
  SessionsManager, Selection, Managed, select_managed, complete_session_unsafe,
}
use livepeer.Server.SessionsManager.Results.{Received, check_results}
use livepeer.Server.SessionsManager.Results.Checked.{IsVerified, check_results-IsVerified}

abbrev session : ℕ → String → Score → Session
session k orch score = record {
  id = k;
  transcoder = orch;
  score = score;
  recipient = none;
  latency_score = of_frac 1 1;
}

abbrev trusted : Session
trusted = session 1 "a" score_trusted

abbrev reused : Session
reused = session 2 "b" score_untrusted

abbrev verified : Session
verified = session 3 "c" score_untrusted

-- The untrusted session 2 has a segment in flight, the verified session 3 waits.
abbrev flights : Flights
flights = set_flights 2 (record { start_time = 10; seg_dur = 2 } ∷ []) (λ k. [])

abbrev manager : SessionsManager LifoSelector
manager = record {
  verification_freq = 5;
  is_finished = false;
  trusted_pool = record (new_session_pool 1 1 new_suspender []) {
    sel = trusted ∷ [];
    sess_map = insert "a" trusted (empty_map string_eq Session);
  };
  untrusted_pool = record (new_session_pool 2 2 new_suspender []) {
    sel = verified ∷ [];
    last_sess = reused ∷ [];
    sess_map = insert "b" reused (insert "c" verified (empty_map string_eq Session));
  };
  verified_session = some verified;
}

abbrev untrusted_left : Option (Managed LifoSelector) → Flights × List Session
untrusted_left none = (λ k. [], [])
untrusted_left (some (fl, m)) = (fl, m.untrusted_pool.sel)

abbrev managed_left : Option (Selection × Managed LifoSelector) → Option (Managed LifoSelector)
managed_left none = none
managed_left (some (s, m)) = some m

abbrev completed_after : Option (Managed LifoSelector) → Option (Managed LifoSelector)
completed_after none = none
completed_after (some m) = complete_session_unsafe lifo_selector reused m

-- The verified session is used again, and the reused session is completed with the segment that it
-- still transcodes.
forgets_flight :
    (untrusted_left (managed_left (select_managed lifo_selector 11 true flights manager))).0 2 ≡ []
unfolding select_managed select_sessions pass select_session select_lifo complete_session_unsafe
    complete_session complete_lifo
forgets_flight = refl

-- When that segment is completed, the session is in the selector twice.
completed_again :
    (untrusted_left
      (completed_after (managed_left (select_managed lifo_selector 11 true flights manager)))).1
    ≡ reused ∷ reused ∷ []
unfolding select_managed select_sessions pass select_session select_lifo complete_session_unsafe
    complete_session complete_lifo
completed_again = refl

abbrev received : Session → List String → Received
received s segments = record { session = s; segments = segments }

-- Hashes are the texts at the addresses themselves.
abbrev hash_at : String → Option String
hash_at url = some url

check_results-IsVerified_example :
    IsVerified {E = ℕ} hash_at string_eq.beq "h" 1
      (received trusted ("g" ∷ "h" ∷ []))
      []
      (received reused ("g" ∷ "x" ∷ []) ∷ received verified ("g" ∷ "h" ∷ []) ∷ [])
      (check_results hash_at string_eq.beq
        (λ n. n - 1)
        (received trusted ("g" ∷ "h" ∷ []))
        (received reused ("g" ∷ "x" ∷ []) ∷ received verified ("g" ∷ "h" ∷ []) ∷ []))
check_results-IsVerified_example =
    check_results-IsVerified hash_at string_eq.beq (λ n. n - 1) (received trusted ("g" ∷ "h" ∷ []))
      (received reused ("g" ∷ "x" ∷ []) ∷ received verified ("g" ∷ "h" ∷ []) ∷ []) "h" "h" refl refl
