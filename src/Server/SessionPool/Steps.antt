-- ===== src/Server/SessionPool/Steps.antt =====
-- server/broadcast.go: the calls on a pool, one after another in any order, as the threads of a
-- stream make them. A caller of `selectSessions` pushes a segment to each session that it got before
-- the next call, and completes a session once for each of its segments.
use Prim.Native.String.{String}
use livepeer.Base.{ℕ, ◌+◌, ◌≤◌, ◌≡◌, ◌≢◌, List, [], ◌∷◌, none, some}
use livepeer.Base.Maps.{string_eq}
use livepeer.Server.Selection.{Session}
use livepeer.Server.Selection.MinLatency.Count.{count}
use livepeer.Server.Selection.Selector.{Selector, SelectorLaws}
use livepeer.Server.Suspensions.{Suspender}
use livepeer.Server.SessionPool.{
  SegFlight, Flights, SessionPool, new_session_pool, suspend, push_seg_in_flight, remove_session,
  start_refresh, finish_refresh, cleanup, complete_session,
}
use livepeer.Server.SessionPool.Select.{Round, select_sessions}

-- A segment is pushed to each session of a list.
abbrev pub push_all : SegFlight → List Session → Flights → Flights
push_all seg [] flights = flights
push_all seg (s ∷ l) flights = push_all seg l (push_seg_in_flight seg s flights)

-- Sessions that were created after the pool's: each once, in no selector and with nothing in flight.
abbrev pub AreNew :
    {S : Type 0} {sel : Selector S}
    → SelectorLaws sel
    → Flights
    → SessionPool S
    → List Session
    → Type 0
AreNew laws flights pool l =
    (k : ℕ) → (laws.holds k pool.sel + count k l ≤ 1) × (1 ≤ count k l → flights k ≡ [])

module _ {S : Type 0} (selector : Selector S) (laws : SelectorLaws selector) where
  -- A call on a pool, and what it leaves.
  pub data Step : Flights → SessionPool S → Flights → SessionPool S → Type 0 where
    selects :
        {flights : Flights} {pool : SessionPool S} {r : Round S} (now num : ℕ) (seg : SegFlight)
        → select_sessions selector now num flights pool ≡ some r
        → Step flights pool (push_all seg r.selected r.flights) r.pool
    completes :
        {flights : Flights} {pool : SessionPool S} (s : Session)
        → flights s.id ≢ []
        → Step flights pool
            (complete_session selector s (flights, pool)).0
            (complete_session selector s (flights, pool)).1
    starts :
        {flights : Flights} {pool : SessionPool S} {begun : SessionPool S}
        → start_refresh pool ≡ some begun
        → Step flights pool flights begun
    finishes :
        {flights : Flights} {pool : SessionPool S} (l : List Session)
        → AreNew laws flights pool l
        → Step flights pool flights (finish_refresh selector (some l) pool)
    fails :
        {flights : Flights} {pool : SessionPool S}
        → Step flights pool flights (finish_refresh selector none pool)
    removes :
        {flights : Flights} {pool : SessionPool S} (s : Session)
        → Step flights pool flights (remove_session s pool)
    suspends :
        {flights : Flights} {pool : SessionPool S} (orch : String)
        → Step flights pool flights (suspend orch pool)
    cleans :
        {flights : Flights} {pool : SessionPool S}
        → Step flights pool flights (cleanup selector pool)

  -- What calls lead to, from a new pool.
  pub data Reach (pool_size num_orchs : ℕ) (sus : Suspender) (sel : S)
      : Flights → SessionPool S → Type 0 where
    new : Reach pool_size num_orchs sus sel (λ k. []) (new_session_pool pool_size num_orchs sus sel)
    then_step :
        {flights flights' : Flights} {pool pool' : SessionPool S}
        → Reach pool_size num_orchs sus sel flights pool
        → Step flights pool flights' pool'
        → Reach pool_size num_orchs sus sel flights' pool'
