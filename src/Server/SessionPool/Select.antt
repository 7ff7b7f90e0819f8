-- ===== src/Server/SessionPool/Select.antt =====
-- server/broadcast.go: `selectSessions` of a pool. The refreshes that the loop starts run in threads
-- of their own, which wait for the mutex; here they are counted.
use livepeer.Base.{
  ℕ, zero, suc, ◌+◌, ◌/◌, Bool, true, false, ◌||◌, List, [], ◌∷◌, ◌++◌, Option, none, some, ◌==◌,
  ltb, if◌then◌else◌, length,
}
use livepeer.Server.Selection.{Session}
use livepeer.Server.Selection.Selector.{Selector}
use livepeer.Server.SessionPool.{
  Flights, SessionPool, set_flights, select_session, remove_session_from_list,
}

-- What the loop works on: the pool and the flights, the sessions that are selected so far, and the
-- number of refreshes that were started.
pub record Round (S : Type 0) : Type 0 where
  pub pool : SessionPool S
  pub flights : Flights
  pub selected : List Session
  pub refreshes : ℕ

-- A pass of the loop breaks it or goes on.
pub data Next (S : Type 0) : Type 0 where
  done : Round S → Next S
  again : Round S → Next S

-- Below this number of sessions in the selector, a refresh is started.
abbrev pub refresh_threshold : ℕ → ℕ
refresh_threshold num_orchs = let half = (num_orchs + 1) / 2 in if ltb 8 half then 8 else half

-- A session that was found, and whether it is one of the last ones.
abbrev pub Found : Type 0
Found = Option (Session × Bool)

abbrev pub found_last : Option Session → Found
found_last none = none
found_last (some s) = some (s, true)

-- `sp.lastSess` and `SegsInFlight` without a session that is not in the map any more.
abbrev pub drop_last : {S : Type 0} → Session → Round S → Round S
drop_last s r = record r {
  pool = record r.pool { last_sess = remove_session_from_list r.pool.last_sess s };
  flights = set_flights s.id [] r.flights;
}

abbrev pub append_selected : {S : Type 0} → Session → Round S → Round S
append_selected s r = record r { selected = r.selected ++ s ∷ [] }

abbrev pub has_some : {A : Type 0} → Option A → Bool
has_some none = false
has_some (some a) = true

-- The end of a pass, from the session that was found.
unfoldable pub take_found : {S : Type 0} → ℕ → Found → Round S → Next S
take_found num none r = Next.done r
take_found num (some (s, from_last)) r =
    let more = append_selected s r in
    if has_some (r.pool.sess_map s.transcoder)
    then if length more.selected == num then Next.done more else Next.again more
    else if from_last
    then Next.again (drop_last s r)
    else Next.again r

module _ {S : Type 0} (selector : Selector S) (now : ℕ) where
  -- `checkSessions`: whether the loop goes on, and the round with a refresh that it started.
  unfoldable pub check_sessions : Round S → Bool × Round S
  check_sessions r =
      let num_sess = selector.size r.pool.sel in
      let is_low = ltb num_sess (refresh_threshold r.pool.num_orchs) in
      (
        ltb 0 num_sess || ltb 0 (length r.pool.last_sess),
        record r { refreshes = if is_low then r.refreshes + 1 else r.refreshes },
      )

  -- What the selector gave, or else a last session whose segment is in flight for longer.
  unfoldable pub found_selected : Option Session × S → Round S → Found × Round S
  found_selected (some s, sel) r =
      (some (s, false), record r { pool = record r.pool { sel = sel } })
  found_selected (none, sel) r = (
    found_last (select_session now r.flights r.pool.last_sess r.selected 2),
    record r { pool = record r.pool { sel = sel } },
  )

  -- The session of a pass: a last one that can be used again, or one of the selector.
  unfoldable pub find_session : Option Session → Round S → Found × Round S
  unfolding found_selected
  find_session (some s) r = (some (s, true), r)
  find_session none r = found_selected (selector.select r.pool.sel) r

  -- A pass of the loop.
  unfoldable pub pass : ℕ → Round S → Next S
  unfolding check_sessions find_session take_found
  pass num r =
      let checked = check_sessions r in
      let found =
        find_session (select_session now r.flights r.pool.last_sess r.selected 1) checked.1 in
      if checked.0 then take_found num found.0 found.1 else Next.done checked.1

  -- The loop, with fuel; none stands for a loop that has not ended.
  unfoldable pub select_loop : ℕ → ℕ → Round S → Option (Round S)
  select_loop zero num r = none
  select_loop (suc fuel) num r = elim (pass num r) [
    | done r' ↦ some r'
    | again r' ↦ select_loop fuel num r'
  ]

  -- The last sessions are those that are selected.
  abbrev pub keep_selected : Round S → Round S
  keep_selected r = record r { pool = record r.pool { last_sess = r.selected } }

  -- A pass takes a session out of the selector, or adds one of the last ones to the selected ones, or
  -- drops it.
  abbrev pub enough_fuel : SessionPool S → ℕ
  enough_fuel pool = selector.size pool.sel + length pool.last_sess + 1

  abbrev pub after_loop : Option (Round S) → Option (Round S)
  after_loop none = none
  after_loop (some r) = some (keep_selected r)

  -- `selectSessions` of a pool
  unfoldable pub select_sessions : ℕ → Flights → SessionPool S → Option (Round S)
  unfolding select_loop
  select_sessions num flights pool =
      let start : Round S = record {
        pool = pool;
        flights = flights;
        selected = [];
        refreshes = 0;
      } in
      if pool.pool_size == 0
      then some start
      else after_loop (select_loop (enough_fuel pool) num start)
