-- ===== src/Server/SessionPool/Twice.antt =====
-- server/broadcast.go: `completeSession` of a pool, by the segments that the session has in flight.
use livepeer.Base.{◌≡◌, refl, ap, ◌∙◌, true, List, [], ◌∷◌, some, ◌==◌, ==_iff, arith}
use livepeer.Server.Selection.{Session}
use livepeer.Server.Selection.MinLatency.Count.{one_of}
use livepeer.Server.Selection.Selector.{Selector, SelectorLaws}
use livepeer.Server.SessionPool.{
  SegFlight, Flights, SessionPool, set_flights, complete_mapped, complete_session,
}
use livepeer.Server.SessionPool.Distinct.{IsPool}

module _ {S : Type 0} (selector : Selector S) (laws : SelectorLaws selector) where
  -- The map has this session, not another one with the same transcoder.
  abbrev pub IsCurrent : Session → SessionPool S → Type 0
  IsCurrent s pool = (t : Session) × (pool.sess_map s.transcoder ≡ some t) × (t.id ≡ s.id)

  complete_session-complete_mapped :
      (s : Session) (segs : List SegFlight) (flights : Flights) (pool : SessionPool S)
      → IsCurrent s pool
      → flights s.id ≡ segs
      → complete_session selector s (flights, pool)
        ≡ complete_mapped selector s segs (flights, pool)
  unfolding complete_session complete_mapped
  complete_session-complete_mapped s segs flights pool (t, here, ids) e =
      let same : (t.id == s.id) ≡ true = (==_iff t.id s.id).1 ids in rw (here, same, e) refl

  -- A session that the pool has, with one segment in flight, comes back to the selector when it is
  -- completed, and has none in flight then. When it is completed once more, although no segment of
  -- it is left, it stands in the selector twice.
  pub complete_session_twice :
      (s : Session) (f : SegFlight) (flights : Flights) (pool : SessionPool S)
      → IsPool selector laws flights pool
      → IsCurrent s pool
      → flights s.id ≡ f ∷ []
      → let first = complete_session selector s (flights, pool) in
        let second = complete_session selector s first in
        (first.0 s.id ≡ []) × (laws.holds s.id first.1.sel ≡ 1) × (laws.holds s.id second.1.sel ≡ 2)
  complete_session_twice s f flights pool p current e =
      let sel1 = selector.complete s pool.sel in
      let pool1 = record pool { sel = sel1 } in
      let flights1 = set_flights s.id [] flights in
      let self : (s.id == s.id) ≡ true = (==_iff s.id s.id).1 refl in
      let one : one_of s.id s ≡ 1 = rw (self) refl in
      let none_left : flights1 s.id ≡ [] = rw (self) refl in
      let out = p.flying s.id (λ h. ground (arith, h, e)) in
      let first : complete_session selector s (flights, pool) ≡ (flights1, pool1) =
        complete_session-complete_mapped s (f ∷ []) flights pool current e
        ∙ (unfold complete_mapped in refl) in
      let second : complete_session selector s (flights1, pool1)
          ≡ (flights1, record pool1 { sel = selector.complete s sel1 }) =
        complete_session-complete_mapped s [] flights1 pool1 current none_left
        ∙ (unfold complete_mapped in refl) in
      let held = laws.holds-complete s.id s pool.sel p.good in
      let held2 = laws.holds-complete s.id s sel1 (laws.complete-IsGood s pool.sel p.good) in
      (
        ap (λ q. q.0 s.id) first ∙ none_left,
        omega (arith, ap (λ q. laws.holds s.id q.1.sel) first, held, one, out),
        omega (
          arith,
          ap (λ q. laws.holds s.id (complete_session selector s q).1.sel) first,
          ap (λ q. laws.holds s.id q.1.sel) second,
          held,
          held2,
          one,
          out,
        ),
      )
