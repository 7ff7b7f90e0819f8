-- ===== src/Core/LoadBalancer/Tests.antt =====
-- core/lb.go at concrete inputs.
use livepeer.Base.{ℕ, ◌<◌, ◌≤◌, ◌≡◌, refl, true, false, List, [], ◌∷◌, some, get_or, arith}
use livepeer.Core.LoadBalancer.{
  TranscoderSession, new_load_balancer, create_session, calculate_cost, cleanup_session, int_order,
}
use livepeer.Core.LoadBalancer.Balanced.{
  Call, create, finish, after_all, int_cost, create_session-least,
}

-- A denominator above the frame rate makes the cost 0, and an unknown resolution is left out.
costs :
    calculate_cost (
      record { resolution = some (10, 20); framerate = 0; framerate_den = 0 }
      ∷ record { resolution = some (10, 20); framerate = 1; framerate_den = 2 }
      ∷ [])
    ≡ 6000
unfolding calculate_cost
costs = refl

-- Two devices; the session on the first one has ended.
abbrev history : List Call
history = create 1 50 true ∷ create 2 30 true ∷ create 3 9 false ∷ create 1 70 true ∷ finish 1 ∷ []

abbrev devices : List ℕ
devices = 100 ∷ 101 ∷ []

loads :
    ((after_all history (new_load_balancer devices)).load 100 ≡ 0)
    × ((after_all history (new_load_balancer devices)).load 101 ≡ 30)
unfolding create_session cleanup_session
loads = (refl, refl)

create_session-least_example :
    let lb = after_all history (new_load_balancer devices) in
    (s : TranscoderSession) × ((create_session 4 8 true lb).0 ≡ some s)
    × ((j : ℕ)
        → j < 2
        → int_order (int_cost s.transcoder lb.sessions)
          ≤ int_order (int_cost (get_or devices j 0) lb.sessions))
unfolding create_session cleanup_session
create_session-least_example = create_session-least devices history 4 8 (omega arith) refl
