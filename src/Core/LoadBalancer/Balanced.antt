-- ===== src/Core/LoadBalancer/Balanced.antt =====
-- core/lb.go: the load of a transcoder is the cost of its open sessions, over any history of calls.
use native.Mathlib.Nat.{mod-lt}
use livepeer.Base.{
  ℕ, ◌+◌, ◌-◌, ◌%◌, ◌^◌, ◌≤◌, ◌<◌, ◌≡◌, refl, ap, subst, ◌∙◌, Bool, true, false, List, [], ◌∷◌,
  none, some, ◌==◌, if◌then◌else◌, length, get_or, Bool-cases, Option-cases, inl, inr, arith,
}
use livepeer.Core.LoadBalancer.{
  LoadBalancer, TranscoderSession, new_load_balancer, find_session, delete_session, transcoder_at,
  int_order, least_loaded, create_session, cleanup_session,
}
use livepeer.Core.LoadBalancer.Least.{least_loaded-least}

-- The sum of the costs of the sessions on a transcoder.
abbrev pub share : ℕ → TranscoderSession → ℕ
share t s = if t == s.transcoder then s.cost else 0

abbrev pub total_cost : ℕ → List TranscoderSession → ℕ
total_cost t [] = 0
total_cost t (s ∷ l) = share t s + total_cost t l

total_cost-delete_session :
    (t job : ℕ) (l : List TranscoderSession) (s : TranscoderSession)
    → find_session job l ≡ some s
    → share t s + total_cost t (delete_session job l) ≡ total_cost t l
total_cost-delete_session t job [] s e = absurd (ground (arith, e))
total_cost-delete_session t job (r ∷ l) s e = elim (Bool-cases (job == r.job)) [
  | inl same ↦
      let first : some r ≡ some s = rw (same) at e in
      let r_eq : r ≡ s = ap (λ o. elim o [ none ↦ r | some x ↦ x ]) first in
      rw (same) (omega (arith, ap (share t) r_eq))
  | inr other ↦ rw (other) (omega (arith, total_cost-delete_session t job l s (rw (other) at e)))
]

-- That sum as an int, which wraps around.
abbrev pub int_cost : ℕ → List TranscoderSession → ℕ
int_cost t l = total_cost t l % 2 ^ 64

wrap-add : (n m : ℕ) → (n % 2 ^ 64 + m) % 2 ^ 64 ≡ (m + n) % 2 ^ 64
wrap-add n m = omega arith

wrap-sub : (n m k : ℕ) → m + k ≡ n → (n % 2 ^ 64 + (2 ^ 64 - m % 2 ^ 64)) % 2 ^ 64 ≡ k % 2 ^ 64
wrap-sub n m k e = omega (arith, e)

-- The calls of the balancer: a session is created, or the loop of a job's session has ended.
pub data Call : Type 0 where
  create : ℕ → ℕ → Bool → Call
  finish : ℕ → Call

abbrev pub after : Call → LoadBalancer → LoadBalancer
after (create job cost starts) lb = (create_session job cost starts lb).1
after (finish job) lb = cleanup_session job lb

abbrev pub after_all : List Call → LoadBalancer → LoadBalancer
after_all [] lb = lb
after_all (call ∷ calls) lb = after_all calls (after call lb)

pub record IsBalanced (devices : List ℕ) (lb : LoadBalancer) : Type 0 where
  pub transcoders : lb.transcoders ≡ devices
  pub idx : lb.idx < length lb.transcoders
  pub load : (t : ℕ) → lb.load t ≡ int_cost t lb.sessions

load-add :
    (u t job cost : ℕ) (lb : LoadBalancer)
    → lb.load u ≡ int_cost u lb.sessions
    → (if u == t then (lb.load u + cost) % 2 ^ 64 else lb.load u)
      ≡ int_cost u (record { job = job; transcoder = t; cost = cost } ∷ lb.sessions)
load-add u t job cost lb e = elim (Bool-cases (u == t)) [
  | inl same ↦ rw (same, e) (wrap-add (total_cost u lb.sessions) cost)
  | inr other ↦ rw (other, e) (omega arith)
]

load-sub :
    (t job : ℕ) (s : TranscoderSession) (lb : LoadBalancer)
    → lb.load t ≡ int_cost t lb.sessions
    → share t s + total_cost t (delete_session job lb.sessions) ≡ total_cost t lb.sessions
    → (if t == s.transcoder then (lb.load t + (2 ^ 64 - s.cost % 2 ^ 64)) % 2 ^ 64 else lb.load t)
      ≡ int_cost t (delete_session job lb.sessions)
load-sub t job s lb e sum = elim (Bool-cases (t == s.transcoder)) [
  | inl same ↦
      rw (same, e)
        (wrap-sub (total_cost t lb.sessions) s.cost (total_cost t (delete_session job lb.sessions))
          (rw (same) at sum))
  | inr other ↦
      let rest : total_cost t (delete_session job lb.sessions) ≡ total_cost t lb.sessions =
        omega (arith, rw (other) at sum) in
      rw (other, e, rest)
]

create_session-IsBalanced :
    (devices : List ℕ) (job cost : ℕ) (starts : Bool) (lb : LoadBalancer)
    → IsBalanced devices lb
    → IsBalanced devices (create_session job cost starts lb).1
unfolding create_session
create_session-IsBalanced devices job cost false lb p =
    elim (Option-cases (find_session job lb.sessions)) [
      | inl absent ↦ rw (create_session, absent) p
      | inr (s, present) ↦ rw (create_session, present) p
    ]
create_session-IsBalanced devices job cost true lb p =
    elim (Option-cases (find_session job lb.sessions)) [
      | inl absent ↦
          rw (create_session, absent)
            (record {
              transcoders = p.transcoders;
              idx = mod-lt (lb.idx + 1) (let h = p.idx in omega arith);
              load = λ u. load-add u (least_loaded lb) job cost lb (p.load u);
            })
      | inr (s, present) ↦ rw (create_session, present) p
    ]

cleanup_session-IsBalanced :
    (devices : List ℕ) (job : ℕ) (lb : LoadBalancer)
    → IsBalanced devices lb
    → IsBalanced devices (cleanup_session job lb)
unfolding cleanup_session
cleanup_session-IsBalanced devices job lb p = elim (Option-cases (find_session job lb.sessions)) [
  | inl absent ↦ rw (cleanup_session, absent) p
  | inr (s, present) ↦
      rw (cleanup_session, present)
        (record {
          transcoders = p.transcoders;
          idx = p.idx;
          load = λ t.
              load-sub t job s lb (p.load t)
                (total_cost-delete_session t job lb.sessions s present);
        })
]

after_all-IsBalanced :
    (devices : List ℕ) (calls : List Call) (lb : LoadBalancer)
    → IsBalanced devices lb
    → IsBalanced devices (after_all calls lb)
after_all-IsBalanced devices [] lb p = p
after_all-IsBalanced devices (create job cost starts ∷ calls) lb p =
    after_all-IsBalanced devices calls (create_session job cost starts lb).1
      (create_session-IsBalanced devices job cost starts lb p)
after_all-IsBalanced devices (finish job ∷ calls) lb p =
    after_all-IsBalanced devices calls (cleanup_session job lb)
      (cleanup_session-IsBalanced devices job lb p)

create_session-opens :
    (job cost : ℕ) (lb : LoadBalancer)
    → find_session job lb.sessions ≡ none
    → (create_session job cost true lb).0
      ≡ some (record { job = job; transcoder = least_loaded lb; cost = cost })
unfolding create_session
create_session-opens job cost lb absent = rw (create_session, absent) refl

-- After any history of calls on some transcoders, a session of a job that has none, and whose
-- transcoder starts, is opened on a transcoder with the least total cost of open sessions, where costs
-- and totals are the ints of the code, which may be negative and wrap around.
pub create_session-least :
    (devices : List ℕ) (calls : List Call) (job cost : ℕ)
    → 0 < length devices
    → find_session job (after_all calls (new_load_balancer devices)).sessions ≡ none
    → (let lb = after_all calls (new_load_balancer devices) in
        (s : TranscoderSession) × ((create_session job cost true lb).0 ≡ some s)
        × ((j : ℕ)
            → j < length devices
            → int_order (int_cost s.transcoder lb.sessions)
              ≤ int_order (int_cost (get_or devices j 0) lb.sessions)))
create_session-least devices calls job cost some_device absent =
    let lb = after_all calls (new_load_balancer devices) in
    let p : IsBalanced devices lb =
      after_all-IsBalanced devices calls (new_load_balancer devices)
        (record { transcoders = refl; idx = some_device; load = λ t. refl }) in
    let at : (j : ℕ) → transcoder_at lb j ≡ get_or devices j 0 =
      λ j. ap (λ l. get_or l j 0) p.transcoders in
    let load_of : (j : ℕ)
        → lb.load (transcoder_at lb j) ≡ int_cost (get_or devices j 0) lb.sessions =
      λ j. p.load (transcoder_at lb j) ∙ ap (λ t. int_cost t lb.sessions) (at j) in
    (
      record { job = job; transcoder = least_loaded lb; cost = cost },
      create_session-opens job cost lb absent,
      λ j bound.
          subst (λ c. int_order c ≤ int_order (int_cost (get_or devices j 0) lb.sessions))
            (p.load (least_loaded lb))
            (subst (λ c. int_order (lb.load (least_loaded lb)) ≤ int_order c) (load_of j)
              (least_loaded-least lb j p.idx (omega (arith, ap length p.transcoders, bound)))),
    )
