-- ===== src/Server/SessionPool/Fuel.antt =====
-- server/broadcast.go: the loop of `selectSessions` ends, and what each pass keeps holds at its end.
use livepeer.Base.{ℕ, zero, suc, ◌+◌, ◌≤◌, ◌<◌, ◌≡◌, refl, some, arith}
use livepeer.Server.Selection.Selector.{Selector}
use livepeer.Server.SessionPool.Lookup.{unselected}
use livepeer.Server.SessionPool.Select.{Round, Next, done, again, pass, select_loop}

module _ {S : Type 0} (selector : Selector S) where
  -- What a pass makes smaller: the sessions of the selector, and the last ones that are not selected.
  abbrev pub todo : Round S → ℕ
  todo r = selector.size r.pool.sel + unselected r.pool.last_sess r.selected

  -- What a pass has to keep: `P` where the loop goes on, with less to do, and `Q` at its end.
  abbrev pub Keeps : (Round S → Type 0) → (Round S → Type 0) → ℕ → Next S → Type 0
  Keeps P Q n (done r) = Q r
  Keeps P Q n (again r) = P r × (todo r < n)

  module _ (now num : ℕ) (P Q : Round S → Type 0)
      (kept : (r : Round S) → P r → Keeps P Q (todo r) (pass selector now num r)) where
    next-ends :
        (fuel n : ℕ) (next : Next S)
        → ((r : Round S)
            → P r
            → todo r < fuel
            → (r' : Round S) × (select_loop selector now fuel num r ≡ some r') × Q r')
        → n ≤ fuel
        → Keeps P Q n next
        → (r' : Round S) × ((elim next [
          | done r ↦ some r
          | again r ↦ select_loop selector now fuel num r
        ])
            ≡ some r')
          × Q r'
    next-ends fuel n (done r) ends h keeps = (r, refl, keeps)
    next-ends fuel n (again r) ends h (p, less) = ends r p (omega arith)

    -- With more fuel than there is to do the loop ends.
    pub select_loop-ends :
        (fuel : ℕ) (r : Round S)
        → P r
        → todo r < fuel
        → (r' : Round S) × (select_loop selector now fuel num r ≡ some r') × Q r'
    unfolding select_loop
    select_loop-ends zero r p h = absurd (omega arith)
    select_loop-ends (suc fuel) r p h =
        next-ends fuel (todo r) (pass selector now num r) (select_loop-ends fuel) (omega arith)
          (kept r p)
