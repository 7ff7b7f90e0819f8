-- ===== src/Server/SessionPool/Selected.antt =====
-- server/broadcast.go: what `selectSessions` of a pool gives.
use livepeer.Base.{
  ℕ, ◌+◌, ◌≤◌, ◌≡◌, ◌≢◌, refl, ap, Bool, true, false, [], Option, none, some, ◌==◌, ==_iff,
  if◌then◌else◌, Bool-cases, inl, inr, length, arith,
}
use livepeer.Server.Selection.{Session}
use livepeer.Server.Selection.MinLatency.Count.{count}
use livepeer.Server.Selection.Selector.{Selector, SelectorLaws}
use livepeer.Server.SessionPool.{Flights, SessionPool, select_session}
use livepeer.Server.SessionPool.Lookup.{unselected-length, select_session-IsReused}
use livepeer.Server.SessionPool.Fuel.{todo, Keeps, select_loop-ends}
use livepeer.Server.SessionPool.Distinct.{
  AreMapped, IsPool, IsRound, IsGoing, IsOver, checked-IsRound, take_found-Keeps,
  find_session-IsFound,
}
use livepeer.Server.SessionPool.Select.{
  Round, Next, done, take_found, check_sessions, found_selected, find_session, pass, keep_selected,
  enough_fuel, after_loop, select_sessions,
}

module _ {S : Type 0} (selector : Selector S) where
  found_selected-selected :
      (now : ℕ) (q : Option Session × S) (r : Round S)
      → (found_selected selector now q r).1.selected ≡ r.selected
  unfolding found_selected
  found_selected-selected now (none, sel) r = refl
  found_selected-selected now (some s, sel) r = refl

  find_session-selected :
      (now : ℕ) (o : Option Session) (r : Round S)
      → (find_session selector now o r).1.selected ≡ r.selected
  unfolding find_session
  find_session-selected now none r = found_selected-selected now (selector.select r.pool.sel) r
  find_session-selected now (some s) r = refl

  if-Keeps :
      (P Q : Round S → Type 0) (n : ℕ) (b : Bool) (next : Next S) (r : Round S)
      → Keeps selector P Q n next
      → Q r
      → Keeps selector P Q n (if b then next else done r)
  if-Keeps P Q n true next r h q = h
  if-Keeps P Q n false next r h q = q

module _ {S : Type 0} (selector : Selector S) (laws : SelectorLaws selector) where
  pass-Keeps :
      (now num : ℕ) (pool : SessionPool S) (r : Round S)
      → IsGoing selector laws num pool r
      → Keeps selector
          (IsGoing selector laws num pool)
          (IsOver selector laws num pool)
          (todo selector r)
          (pass selector now num r)
  unfolding pass check_sessions
  pass-Keeps now num pool r (p, few) =
      let reused = select_session now r.flights r.pool.last_sess r.selected 1 in
      let r1 = (check_sessions selector now r).1 in
      let p1 = checked-IsRound selector laws pool num now r p in
      let f = find_session selector now reused r1 in
      let found =
        find_session-IsFound selector laws pool num now reused r1
          (select_session-IsReused now 1 r.flights r.pool.last_sess r.selected) p1 in
      let same = ap length (find_session-selected selector now reused r1) in
      let going : IsGoing selector laws num pool f.1 =
        (found.0, λ h. let b = few h in omega (arith, b, same)) in
      if-Keeps selector _ _ (todo selector r) (check_sessions selector now r).0
        (take_found num f.0 f.1) r1
        (take_found-Keeps selector laws pool num (todo selector r) f.0 f.1 going found.1)
        (p1, λ h. let b = few h in omega (arith, b))

  -- What a pool gives: each session once, and it is not in the selector any more; the map knows
  -- its transcoder, and it was in the selector or one of the last sessions.
  pub record IsSelected (num : ℕ) (pool : SessionPool S) (r : Round S) : Type 0 where
    pub left : IsPool selector laws r.flights r.pool
    pub same_map : r.pool.sess_map ≡ pool.sess_map
    pub once : (k : ℕ) → laws.holds k r.pool.sel + count k r.selected ≤ 1
    pub mapped : AreMapped pool.sess_map r.selected
    pub known : (k : ℕ) → count k r.selected ≤ laws.holds k pool.sel + count k pool.last_sess
    pub few : num ≢ 0 → length r.selected ≤ num
    pub last : pool.pool_size ≢ 0 → r.pool.last_sess ≡ r.selected

  keep_selected-IsSelected :
      (now num : ℕ) (pool : SessionPool S) (r : Round S)
      → IsOver selector laws num pool r
      → IsSelected num pool (keep_selected selector now r)
  keep_selected-IsSelected now num pool r (p, few) = record {
    left = record { good = p.good; once = λ k. omega (arith, p.once k); flying = p.flying };
    same_map = p.same_map;
    once = p.once;
    mapped = p.mapped;
    known = λ k. omega (arith, p.known k);
    few = few;
    last = λ h. refl;
  }

  start-IsRound :
      (flights : Flights) (pool : SessionPool S)
      → IsPool selector laws flights pool
      → IsRound selector laws pool
          (record { pool = pool; flights = flights; selected = []; refreshes = 0 })
  start-IsRound flights pool p = record {
    good = p.good;
    same_map = refl;
    once = λ k. omega (arith, p.once k);
    flying = p.flying;
    mapped = tt;
    last = λ k. omega arith;
    known = λ k. omega arith;
  }

  -- In a pool where each session is at most once in the selector, and not while it has segments in
  -- flight, a selection of some sessions ends. It gives at most as many sessions as are asked for,
  -- each once, out of the selector or the last sessions, with transcoders that the map knows, and
  -- none of them is in the selector afterwards; they are the last sessions then. The pool is still
  -- such a pool, with the same map. For 0 sessions the number that it gives has no bound.
  pub select_sessions-IsSelected :
      (now num : ℕ) (flights : Flights) (pool : SessionPool S)
      → IsPool selector laws flights pool
      → (r : Round S) × (select_sessions selector now num flights pool ≡ some r)
        × IsSelected num pool r
  unfolding select_sessions
  select_sessions-IsSelected now num flights pool p =
      let start : Round S = record {
        pool = pool;
        flights = flights;
        selected = [];
        refreshes = 0;
      } in
      let p0 = start-IsRound flights pool p in
      let enough = unselected-length pool.last_sess [] in
      let (r, e, over) =
        select_loop-ends selector now num (IsGoing selector laws num pool)
          (IsOver selector laws num pool) (pass-Keeps now num pool) (enough_fuel selector now pool)
          start (p0, λ h. omega (arith, h)) (omega (arith, enough)) in
      elim (Bool-cases (pool.pool_size == 0)) [
        | inl none_there ↦
            let empty : pool.pool_size ≡ 0 = (==_iff _ _).0 none_there in
            (
              start,
              rw (none_there) refl,
              record {
                left = p;
                same_map = refl;
                once = p0.once;
                mapped = tt;
                known = λ k. omega arith;
                few = λ h. omega arith;
                last = λ h. absurd (h empty);
              },
            )
        | inr some_there ↦ (
          keep_selected selector now r,
          rw (some_there) (ap (after_loop selector now) e),
          keep_selected-IsSelected now num pool r over,
        )
      ]
