-- ===== src/Server/SessionPool.antt =====
-- server/broadcast.go: the pool of the sessions with the orchestrators of a stream. Its mutex makes
-- each call one step, but for a refresh, which lets go of it while it discovers sessions and is two.
-- A session is known by its number; what the code changes in a session while the pool holds it are
-- its segments in flight, which are kept by number. Times are nanoseconds, and the clock is an argument.
pub mod Select
pub mod Lookup
pub mod Fuel
pub mod Distinct
pub mod Selected
pub mod Steps
pub mod Invariant
pub mod Twice
mod Tests
use Prim.Native.String.{String}
use livepeer.Base.{
  ℕ, ◌+◌, ◌-◌, ◌*◌, ◌/◌, Bool, true, false, not, ◌&&◌, List, [], ◌∷◌, ◌++◌, Option, none, some,
  ◌==◌, ltb, if◌then◌else◌,
}
use livepeer.Base.Maps.{empty_map, insert, erase, string_eq}
use livepeer.Server.Selection.{Session}
use livepeer.Server.Selection.Selector.{Selector}
use livepeer.Server.Suspensions as Suspensions
use livepeer.Server.Suspensions.{Suspender}

-- `SegFlightMetadata`
pub record SegFlight : Type 0 where
  pub start_time : ℕ
  pub seg_dur : ℕ

-- The field `SegsInFlight` of each session.
abbrev pub Flights : Type 0
Flights = ℕ → List SegFlight

abbrev pub set_flights : ℕ → List SegFlight → Flights → Flights
set_flights k segs flights j = if j == k then segs else flights j

-- `SessionPool`
pub record SessionPool (S : Type 0) : Type 0 where
  pub sel : S
  pub last_sess : List Session
  pub sess_map : String → Option Session
  pub num_orchs : ℕ
  pub pool_size : ℕ
  pub is_refreshing : Bool
  pub is_finished : Bool
  pub sus : Suspender

-- `NewSessionPool`
abbrev pub new_session_pool : {S : Type 0} → ℕ → ℕ → Suspender → S → SessionPool S
new_session_pool pool_size num_orchs sus sel = record {
  sel = sel;
  last_sess = [];
  sess_map = empty_map string_eq Session;
  num_orchs = num_orchs;
  pool_size = pool_size;
  is_refreshing = false;
  is_finished = false;
  sus = sus;
}

abbrev pub at_least_one : ℕ → ℕ
at_least_one n = if n == 0 then 1 else n

-- `suspend` of a pool: the penalty is the quotient, rounded up.
unfoldable pub suspend : {S : Type 0} → String → SessionPool S → SessionPool S
suspend orch pool =
    let size = at_least_one pool.pool_size in
    let orchs = at_least_one pool.num_orchs in
    record pool { sus = Suspensions.suspend orch ((size + orchs - 1) / orchs) pool.sus }

-- `includesSession`
abbrev pub includes_session : List Session → Session → Bool
includes_session [] s = false
includes_session (t ∷ l) s = if t.id == s.id then true else includes_session l s

-- `removeSessionFromList`
abbrev pub remove_session_from_list : List Session → Session → List Session
remove_session_from_list [] s = []
remove_session_from_list (t ∷ l) s =
    let rest = remove_session_from_list l s in if t.id == s.id then rest else t ∷ rest

-- Whether the oldest segment in flight is in flight for less than some segment durations.
abbrev pub is_reusable : ℕ → ℕ → List SegFlight → Bool
is_reusable now dur_mult [] = false
is_reusable now dur_mult (f ∷ segs) = ltb (now - f.start_time) (dur_mult * f.seg_dur)

-- `selectSession`
unfoldable pub select_session : ℕ → Flights → List Session → List Session → ℕ → Option Session
select_session now flights [] exclude dur_mult = none
select_session now flights (s ∷ sessions) exclude dur_mult =
    let rest = select_session now flights sessions exclude dur_mult in
    if is_reusable now dur_mult (flights s.id) && not (includes_session exclude s)
    then some s
    else rest

-- `pushSegInFlight`
unfoldable pub push_seg_in_flight : SegFlight → Session → Flights → Flights
push_seg_in_flight seg s flights = set_flights s.id (flights s.id ++ seg ∷ []) flights

-- `removeSession` of a pool
unfoldable pub remove_session : {S : Type 0} → Session → SessionPool S → SessionPool S
remove_session s pool = record pool { sess_map = erase s.transcoder pool.sess_map }

-- The first locked part of `refreshSessions`, and the signal: none where it returns at once.
unfoldable pub start_refresh : {S : Type 0} → SessionPool S → Option (SessionPool S)
start_refresh pool =
    let begun = record pool { is_refreshing = true; sus = Suspensions.signal_refresh pool.sus } in
    if pool.is_finished then none else if pool.is_refreshing then none else some begun

-- The loop over the new sessions: those whose transcoder is not in the map are put there and listed.
unfoldable pub add_unique :
    List Session → (String → Option Session) → List Session × (String → Option Session)
add_unique [] m = ([], m)
add_unique (s ∷ l) m = elim (m s.transcoder) [
  | some t ↦ add_unique l m
  | none ↦ let rest = add_unique l (insert s.transcoder s m) in (s ∷ rest.0, rest.1)
]

module _ {S : Type 0} (selector : Selector S) where
  -- The second locked part of `refreshSessions`, from what `createSessions` gave.
  unfoldable pub finish_refresh : Option (List Session) → SessionPool S → SessionPool S
  unfolding add_unique
  finish_refresh none pool = record pool { is_refreshing = false }
  finish_refresh (some []) pool = record pool { is_refreshing = false }
  finish_refresh (some (s ∷ l)) pool =
      let added = add_unique (s ∷ l) pool.sess_map in
      if pool.is_finished then record pool { is_refreshing = false } else record pool {
        is_refreshing = false;
        sess_map = added.1;
        sel = selector.add added.0 pool.sel;
      }

  -- `cleanup`
  unfoldable pub cleanup : SessionPool S → SessionPool S
  cleanup pool = record pool {
    is_finished = true;
    last_sess = [];
    sel = selector.clear pool.sel;
    sess_map = empty_map string_eq Session;
  }

  -- `completeSession` of the session that the map has, by its segments in flight.
  unfoldable pub complete_mapped :
      Session → List SegFlight → Flights × SessionPool S → Flights × SessionPool S
  complete_mapped s [] (flights, pool) =
      (flights, record pool { sel = selector.complete s pool.sel })
  complete_mapped s (f ∷ []) (flights, pool) =
      (set_flights s.id [] flights, record pool { sel = selector.complete s pool.sel })
  complete_mapped s (f ∷ g ∷ segs) (flights, pool) = (set_flights s.id (g ∷ segs) flights, pool)

  -- `completeSession` of a pool
  unfoldable pub complete_session : Session → Flights × SessionPool S → Flights × SessionPool S
  unfolding complete_mapped
  complete_session s (flights, pool) = elim (pool.sess_map s.transcoder) [
    | none ↦ (flights, pool)
    | some t ↦
        if t.id == s.id then complete_mapped s (flights s.id) (flights, pool) else (flights, pool)
  ]
