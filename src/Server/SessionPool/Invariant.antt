-- ===== src/Server/SessionPool/Invariant.antt =====
-- server/broadcast.go: whatever calls are made on a pool, each session stays at most once in the
-- selector, and not while it has segments in flight.
use Prim.Native.String.{String}
use livepeer.Base.{
  ℕ, ◌+◌, ◌≤◌, ◌≡◌, ◌≢◌, refl, ap, sym, ◌∙◌, subst, Bool, true, false, List, [], ◌∷◌, Option, none,
  some, some_inj, ◌==◌, ==_iff, if◌then◌else◌, Bool-cases, Option-cases, inl, inr, ltb, ltb→lt,
  arith,
}
use livepeer.Base.Maps.{insert, string_eq}
use livepeer.Server.Selection.{Session}
use livepeer.Server.Selection.MinLatency.Count.{count, one_of}
use livepeer.Server.Selection.Selector.{Selector, SelectorLaws}
use livepeer.Server.Suspensions.{Suspender}
use livepeer.Server.SessionPool.{
  SegFlight, Flights, SessionPool, set_flights, new_session_pool, suspend, push_seg_in_flight,
  remove_session, start_refresh, add_unique, finish_refresh, cleanup, complete_mapped,
  complete_session,
}
use livepeer.Server.SessionPool.Distinct.{IsPool, one_more}
use livepeer.Server.SessionPool.Selected.{IsSelected, select_sessions-IsSelected}
use livepeer.Server.SessionPool.Steps.{
  push_all, AreNew, Step, selects, completes, starts, finishes, fails, removes, suspends, cleans,
  Reach, new, then_step,
}

module _ {S : Type 0} (selector : Selector S) (laws : SelectorLaws selector) where
  sel-IsPool :
      (flights : Flights) (pool pool' : SessionPool S)
      → pool'.sel ≡ pool.sel
      → IsPool selector laws flights pool
      → IsPool selector laws flights pool'
  sel-IsPool flights pool pool' e p = record {
    good = subst laws.IsGood (sym e) p.good;
    once = λ k. subst (λ s. laws.holds k s ≤ 1) (sym e) (p.once k);
    flying = λ k h. ap (laws.holds k) e ∙ p.flying k h;
  }

  -- The segments of a session that is not in the selector are free to change.
  set_flights-IsPool :
      (j : ℕ) (segs : List SegFlight) (flights : Flights) (pool : SessionPool S)
      → laws.holds j pool.sel ≡ 0
      → IsPool selector laws flights pool
      → IsPool selector laws (set_flights j segs flights) pool
  set_flights-IsPool j segs flights pool out p = record {
    good = p.good;
    once = p.once;
    flying = λ k h. elim (Bool-cases (k == j)) [
      | inl same ↦ subst (λ i. laws.holds i pool.sel ≡ 0) (sym ((==_iff k j).0 same)) out
      | inr other ↦ p.flying k (λ e. h (rw (other) e))
    ];
  }

  push_all-IsPool :
      (seg : SegFlight) (l : List Session) (flights : Flights) (pool : SessionPool S)
      → ((k : ℕ) → laws.holds k pool.sel + count k l ≤ 1)
      → IsPool selector laws flights pool
      → IsPool selector laws (push_all seg l flights) pool
  unfolding push_seg_in_flight
  push_all-IsPool seg [] flights pool h p = p
  push_all-IsPool seg (s ∷ l) flights pool h p =
      let self = (==_iff s.id s.id).1 refl in
      let one : one_of s.id s ≡ 1 = rw (self) in
      push_all-IsPool seg l _ pool (λ k. omega (arith, h k))
        (set_flights-IsPool s.id _ flights pool (omega (arith, h s.id, one)) p)

  -- A session comes back to the selector when its only segment in flight is completed.
  completed-IsPool :
      (s : Session) (flights : Flights) (pool : SessionPool S)
      → laws.holds s.id pool.sel ≡ 0
      → IsPool selector laws flights pool
      → IsPool selector laws
          (set_flights s.id [] flights)
          (record pool { sel = selector.complete s pool.sel })
  completed-IsPool s flights pool out p = record {
    good = laws.complete-IsGood s pool.sel p.good;
    once = λ k. omega (
      arith,
      laws.holds-complete k s pool.sel p.good,
      one_more (λ j. laws.holds j pool.sel) (λ j. 1) s k out (omega arith) (p.once k),
    );
    flying = λ k h. elim (Bool-cases (k == s.id)) [
      | inl same ↦ absurd (h (rw (same) refl))
      | inr other ↦
          let one : one_of k s ≡ 0 = rw (other) in
          omega (
            arith,
            laws.holds-complete k s pool.sel p.good,
            one,
            p.flying k (λ e. h (rw (other) e)),
          )
    ];
  }

  complete_mapped-IsPool :
      (s : Session) (segs : List SegFlight) (flights : Flights) (pool : SessionPool S)
      → segs ≢ []
      → laws.holds s.id pool.sel ≡ 0
      → IsPool selector laws flights pool
      → IsPool selector laws
          (complete_mapped selector s segs (flights, pool)).0
          (complete_mapped selector s segs (flights, pool)).1
  unfolding complete_mapped
  complete_mapped-IsPool s [] flights pool ne out p = absurd (ne refl)
  complete_mapped-IsPool s (f ∷ []) flights pool ne out p = completed-IsPool s flights pool out p
  complete_mapped-IsPool s (f ∷ g ∷ segs) flights pool ne out p =
      set_flights-IsPool s.id (g ∷ segs) flights pool out p

  if-IsPool :
      (b : Bool) (q q' : Flights × SessionPool S)
      → IsPool selector laws q.0 q.1
      → IsPool selector laws q'.0 q'.1
      → IsPool selector laws (if b then q else q').0 (if b then q else q').1
  if-IsPool true q q' h h' = h
  if-IsPool false q q' h h' = h'

  complete_session-IsPool :
      (s : Session) (flights : Flights) (pool : SessionPool S)
      → flights s.id ≢ []
      → IsPool selector laws flights pool
      → IsPool selector laws
          (complete_session selector s (flights, pool)).0
          (complete_session selector s (flights, pool)).1
  unfolding complete_session
  complete_session-IsPool s flights pool ne p = elim (Option-cases (pool.sess_map s.transcoder)) [
    | inl absent ↦ rw (complete_session, absent) p
    | inr (t, present) ↦
        let out = p.flying s.id ne in
        rw (complete_session, present)
          (if-IsPool (t.id == s.id) (complete_mapped selector s (flights s.id) (flights, pool))
            (flights, pool) (complete_mapped-IsPool s (flights s.id) flights pool ne out p) p)
  ]

  count-add_unique :
      (k : ℕ) (l : List Session) (m : String → Option Session)
      → count k (add_unique l m).0 ≤ count k l
  unfolding add_unique
  count-add_unique k [] m = omega arith
  count-add_unique k (s ∷ l) m = elim (Option-cases (m s.transcoder)) [
    | inl absent ↦
        rw (add_unique, absent) (omega (arith, count-add_unique k l (insert s.transcoder s m)))
    | inr (t, present) ↦ rw (add_unique, present) (omega (arith, count-add_unique k l m))
  ]

  added-IsPool :
      (l : List Session) (flights : Flights) (pool : SessionPool S)
      → AreNew laws flights pool l
      → IsPool selector laws flights pool
      → IsPool selector laws flights (record pool { sel = selector.add l pool.sel })
  added-IsPool l flights pool fresh p = record {
    good = laws.add-IsGood l pool.sel p.good;
    once = λ k. omega (arith, laws.holds-add k l pool.sel p.good, (fresh k).0);
    flying = λ k h.
        let add = laws.holds-add k l pool.sel p.good in
        let old = p.flying k h in
        let none_new : count k l ≡ 0 = elim (Bool-cases (ltb 0 (count k l))) [
          | inl some_new ↦ absurd (h ((fresh k).1 (ltb→lt 0 (count k l) some_new)))
          | inr low ↦ ground (arith, low)
        ] in
        omega (arith, add, old, none_new);
  }

  finish_refresh-IsPool :
      (found : Option (List Session)) (flights : Flights) (pool : SessionPool S)
      → ((l : List Session) → found ≡ some l → AreNew laws flights pool l)
      → IsPool selector laws flights pool
      → IsPool selector laws flights (finish_refresh selector found pool)
  unfolding finish_refresh
  finish_refresh-IsPool none flights pool fresh p = sel-IsPool flights pool _ refl p
  finish_refresh-IsPool (some []) flights pool fresh p = sel-IsPool flights pool _ refl p
  finish_refresh-IsPool (some (s ∷ l)) flights pool fresh p =
      let added = add_unique (s ∷ l) pool.sess_map in
      let still : AreNew laws flights pool added.0 = λ k.
        let fewer = count-add_unique k (s ∷ l) pool.sess_map in
        let new_ones = fresh (s ∷ l) refl k in
        (omega (arith, fewer, new_ones.0), λ h. new_ones.1 (omega (arith, fewer, h))) in
      elim (Bool-cases pool.is_finished) [
        | inl over ↦ rw (over) (sel-IsPool flights pool _ refl p)
        | inr open_pool ↦ rw (open_pool) (
            sel-IsPool flights (record pool { sel = selector.add added.0 pool.sel }) _ refl
              (added-IsPool added.0 flights pool still p))
      ]

  unless_none :
      (b : Bool) (o : Option (SessionPool S)) (q : SessionPool S)
      → (if b then none else o) ≡ some q
      → o ≡ some q
  unless_none true o q e = ground (arith, e)
  unless_none false o q e = e

  start_refresh-sel :
      (pool begun : SessionPool S) → start_refresh pool ≡ some begun → begun.sel ≡ pool.sel
  unfolding start_refresh
  start_refresh-sel pool begun e =
      let goes = unless_none pool.is_refreshing _ begun (unless_none pool.is_finished _ begun e) in
      sym (ap (λ q. q.sel) (some_inj.0 goes))

  cleanup-IsPool :
      (flights : Flights) (pool : SessionPool S)
      → IsPool selector laws flights pool
      → IsPool selector laws flights (cleanup selector pool)
  unfolding cleanup
  cleanup-IsPool flights pool p =
      let empty = λ (k : ℕ). laws.holds-clear k pool.sel p.good in
      record {
        good = laws.clear-IsGood pool.sel p.good;
        once = λ k. omega (arith, empty k);
        flying = λ k h. empty k;
      }

  Step-IsPool :
      {flights : Flights} {pool : SessionPool S} {flights' : Flights} {pool' : SessionPool S}
      → Step selector laws flights pool flights' pool'
      → IsPool selector laws flights pool
      → IsPool selector laws flights' pool'
  Step-IsPool (selects {flights = flights} {pool = pool} {r = r} now num seg e) p =
      let (r', e', q) = select_sessions-IsSelected selector laws now num flights pool p in
      let given : IsSelected selector laws num pool r =
        subst (IsSelected selector laws num pool) (some_inj.0 (sym e' ∙ e)) q in
      push_all-IsPool seg r.selected r.flights r.pool given.once given.left
  Step-IsPool (completes {flights = flights} {pool = pool} s ne) p =
      complete_session-IsPool s flights pool ne p
  Step-IsPool (starts {flights = flights} {pool = pool} {begun = begun} e) p =
      sel-IsPool flights pool begun (start_refresh-sel pool begun e) p
  Step-IsPool (finishes {flights = flights} {pool = pool} l fresh) p =
      finish_refresh-IsPool (some l) flights pool
        (λ m e. subst (AreNew laws flights pool) (some_inj.0 e) fresh) p
  Step-IsPool (fails {flights = flights} {pool = pool}) p =
      finish_refresh-IsPool none flights pool (λ l e. ground (arith, e)) p
  Step-IsPool (removes {flights = flights} {pool = pool} s) p =
      sel-IsPool flights pool _ (unfold remove_session in refl) p
  Step-IsPool (suspends {flights = flights} {pool = pool} orch) p =
      sel-IsPool flights pool _ (unfold suspend in refl) p
  Step-IsPool (cleans {flights = flights} {pool = pool}) p = cleanup-IsPool flights pool p

  new_session_pool-IsPool :
      (pool_size num_orchs : ℕ) (sus : Suspender) (sel : S)
      → laws.IsGood sel
      → ((k : ℕ) → laws.holds k sel ≡ 0)
      → IsPool selector laws (λ k. []) (new_session_pool pool_size num_orchs sus sel)
  new_session_pool-IsPool pool_size num_orchs sus sel good empty = record {
    good = good;
    once = λ k. omega (arith, empty k);
    flying = λ k h. empty k;
  }

  -- Whatever calls are made on a pool that began with an empty selector, each session is at most once
  -- in the selector, and not there while it has segments in flight, if each caller of a selection
  -- pushes a segment to all the sessions that it got before the next call, completes a session only
  -- while it has a segment in flight, and discovers sessions that are new.
  pub Reach-IsPool :
      {pool_size num_orchs : ℕ} {sus : Suspender} {sel : S} {flights : Flights}
      {pool : SessionPool S}
      → laws.IsGood sel
      → ((k : ℕ) → laws.holds k sel ≡ 0)
      → Reach selector laws pool_size num_orchs sus sel flights pool
      → IsPool selector laws flights pool
  Reach-IsPool {pool_size = n} {num_orchs = m} {sus = sus} {sel = sel} good empty new =
      new_session_pool-IsPool n m sus sel good empty
  Reach-IsPool good empty (then_step before step) =
      Step-IsPool step (Reach-IsPool good empty before)
