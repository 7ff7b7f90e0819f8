-- ===== src/Server/SessionPool/Distinct.antt =====
-- server/broadcast.go: which sessions `selectSessions` gives.
use Prim.Native.String.{String}
use livepeer.Base.{
  ℕ, ◌+◌, ◌≤◌, ◌<◌, ◌≡◌, ◌≢◌, refl, ap, sym, ◌∙◌, subst, true, false, List, [], ◌∷◌, ◌++◌, Option,
  none, some, ◌==◌, ==_iff, if◌then◌else◌, Bool-cases, inl, inr, length, length-append, arith,
}
use livepeer.Server.Selection.{Session}
use livepeer.Server.Selection.MinLatency.Count.{count, one_of, count_some, count-append}
use livepeer.Server.Selection.Selector.{Selector, SelectorLaws, size_some}
use livepeer.Server.SessionPool.{
  SegFlight, Flights, SessionPool, set_flights, is_reusable, includes_session, select_session,
}
use livepeer.Server.SessionPool.Lookup.{
  unselected-append_le, unselected-append, remove-unselected, count-includes_session,
  count-remove_session_from_list, IsReused, select_session-IsReused,
}
use livepeer.Server.SessionPool.Fuel.{todo, Keeps}
use livepeer.Server.SessionPool.Select.{
  Round, done, again, Found, found_last, drop_last, append_selected, has_some, take_found,
  check_sessions, found_selected, find_session,
}

-- The map knows the transcoder of each session.
abbrev pub AreMapped : (String → Option Session) → List Session → Type 0
AreMapped m [] = Unit
AreMapped m (s ∷ l) = (has_some (m s.transcoder) ≡ true) × AreMapped m l

AreMapped-append :
    (m : String → Option Session) (l : List Session) (s : Session)
    → AreMapped m l
    → has_some (m s.transcoder) ≡ true
    → AreMapped m (l ++ s ∷ [])
AreMapped-append m [] s h e = (e, tt)
AreMapped-append m (t ∷ l) s h e = (h.0, AreMapped-append m l s h.1 e)

-- A bound that leaves room for a session holds with it.
pub one_more :
    (f g : ℕ → ℕ) (s : Session) (k : ℕ)
    → f s.id ≡ 0
    → 1 ≤ g s.id
    → f k ≤ g k
    → f k + one_of k s ≤ g k
one_more f g s k out room h = elim (Bool-cases (k == s.id)) [
  | inl same ↦
      let ids : s.id ≡ k = sym ((==_iff k s.id).0 same) in
      let f_zero : f k ≡ 0 = ap f (sym ids) ∙ out in
      let g_one : 1 ≤ g k = subst (λ j. 1 ≤ g j) ids room in
      rw (same) (omega (arith, f_zero, g_one))
  | inr other ↦ rw (other) (omega (arith, h))
]

is_reusable-ne : (now m : ℕ) (segs : List SegFlight) → is_reusable now m segs ≡ true → segs ≢ []
is_reusable-ne now m [] h e = ground (arith, h)
is_reusable-ne now m (f ∷ segs) h e = ground (arith, e)

-- Segments that are cleared are in flight no more.
pub cleared :
    (P : ℕ → Type 0) (j k : ℕ) (flights : Flights)
    → P j
    → (flights k ≢ [] → P k)
    → set_flights j [] flights k ≢ []
    → P k
cleared P j k flights p q h = elim (Bool-cases (k == j)) [
  | inl same ↦ subst P (sym ((==_iff k j).0 same)) p
  | inr other ↦ q (λ e. h (rw (other) e))
]

module _ {S : Type 0} (selector : Selector S) (laws : SelectorLaws selector) where
  -- A pool where each session is at most once in the selector, and not there while it has segments
  -- in flight.
  pub record IsPool (flights : Flights) (pool : SessionPool S) : Type 0 where
    pub good : laws.IsGood pool.sel
    pub once : (k : ℕ) → laws.holds k pool.sel ≤ 1
    pub flying : (k : ℕ) → flights k ≢ [] → laws.holds k pool.sel ≡ 0

  -- A round that began with a pool.
  pub record IsRound (pool : SessionPool S) (r : Round S) : Type 0 where
    pub good : laws.IsGood r.pool.sel
    pub same_map : r.pool.sess_map ≡ pool.sess_map
    pub once : (k : ℕ) → laws.holds k r.pool.sel + count k r.selected ≤ 1
    pub flying : (k : ℕ) → r.flights k ≢ [] → laws.holds k r.pool.sel ≡ 0
    pub mapped : AreMapped pool.sess_map r.selected
    pub last : (k : ℕ) → count k r.pool.last_sess ≤ count k pool.last_sess
    pub known :
        (k : ℕ)
        → laws.holds k r.pool.sel + count k r.selected
          ≤ laws.holds k pool.sel + count k pool.last_sess

  abbrev pub IsGoing : ℕ → SessionPool S → Round S → Type 0
  IsGoing num pool r = IsRound pool r × (num ≢ 0 → length r.selected < num)

  abbrev pub IsOver : ℕ → SessionPool S → Round S → Type 0
  IsOver num pool r = IsRound pool r × (num ≢ 0 → length r.selected ≤ num)

  -- What was found: in the list of the last sessions with a segment in flight and not in the
  -- selector, or just taken out of the selector. `n` is what there was to do.
  abbrev pub IsFound : SessionPool S → ℕ → Found → Round S → Type 0
  IsFound pool n none r = Unit
  IsFound pool n (some (s, true)) r =
      (1 ≤ count s.id r.pool.last_sess)
      × (includes_session r.selected s ≡ false)
      × (laws.holds s.id r.pool.sel ≡ 0)
      × (todo selector r ≤ n)
  IsFound pool n (some (s, false)) r =
      (laws.holds s.id r.pool.sel + count s.id r.selected ≡ 0)
      × (1 ≤ laws.holds s.id pool.sel + count s.id pool.last_sess)
      × (todo selector r < n)

  module _ (pool : SessionPool S) (num : ℕ) where
    appended-IsRound :
        (r : Round S) (s : Session)
        → IsRound pool r
        → laws.holds s.id r.pool.sel + count s.id r.selected ≡ 0
        → 1 ≤ laws.holds s.id pool.sel + count s.id pool.last_sess
        → has_some (r.pool.sess_map s.transcoder) ≡ true
        → IsRound pool (append_selected s r)
    appended-IsRound r s p out in_pool e =
        let f = λ (k : ℕ). laws.holds k r.pool.sel + count k r.selected in
        let g = λ (k : ℕ). laws.holds k pool.sel + count k pool.last_sess in
        let last = λ (k : ℕ). count-append k r.selected (s ∷ []) in
        record {
          good = p.good;
          same_map = p.same_map;
          once = λ k. omega (arith, last k, one_more f (λ j. 1) s k out (omega arith) (p.once k));
          flying = p.flying;
          mapped =
              AreMapped-append pool.sess_map r.selected s p.mapped
                (ap (λ m. has_some (m s.transcoder)) (sym p.same_map) ∙ e);
          last = p.last;
          known = λ k. omega (arith, last k, one_more f g s k out in_pool (p.known k));
        }

    -- A session that is selected ends the loop, or leaves less to do.
    appended-Keeps :
        (n : ℕ) (r : Round S) (s : Session)
        → IsGoing num pool r
        → IsRound pool (append_selected s r)
        → todo selector (append_selected s r) < n
        → Keeps selector (IsGoing num pool) (IsOver num pool) n (
            if length (append_selected s r).selected == num
            then done (append_selected s r)
            else again (append_selected s r))
    appended-Keeps n r s going p less =
        let more = append_selected s r in
        let one = length-append r.selected (s ∷ []) in
        elim (Bool-cases (length more.selected == num)) [
          | inl full ↦
              let len : length more.selected ≡ num = (==_iff _ _).0 full in
              rw (full) (p, λ h. omega (arith, len))
          | inr rest ↦
              let len : length more.selected ≢ num = λ e. ground (arith, rest, e) in
              rw (rest) ((p, λ h. let bound = going.1 h in omega (arith, one, len, bound)), less)
        ]

    dropped-IsRound :
        (r : Round S) (s : Session)
        → IsRound pool r
        → laws.holds s.id r.pool.sel ≡ 0
        → IsRound pool (drop_last s r)
    dropped-IsRound r s p out = record {
      good = p.good;
      same_map = p.same_map;
      once = p.once;
      flying = λ k. cleared (λ j. laws.holds j r.pool.sel ≡ 0) s.id k r.flights out (p.flying k);
      mapped = p.mapped;
      last = λ k. omega (arith, count-remove_session_from_list k r.pool.last_sess s, p.last k);
      known = p.known;
    }

    pub take_found-Keeps :
        (n : ℕ) (found : Found) (r : Round S)
        → IsGoing num pool r
        → IsFound pool n found r
        → Keeps selector (IsGoing num pool) (IsOver num pool) n (take_found num found r)
    unfolding take_found
    take_found-Keeps n none r going f = (going.0, λ h. let b = going.1 h in omega (arith, b))
    take_found-Keeps n (some (s, true)) r going (listed, free, out, less) =
        let here = r.pool.sess_map s.transcoder in
        let absent = count-includes_session r.selected s free in
        let fewer = unselected-append r.pool.last_sess r.selected s listed free in
        let dropped = remove-unselected r.pool.last_sess r.selected s listed free in
        elim (Bool-cases (has_some here)) [
          | inl known ↦
              let p =
                appended-IsRound r s going.0 (omega (arith, absent, out))
                  (let l = going.0.last s.id in omega (arith, l, listed)) known in
              rw (known) (appended-Keeps n r s going p (omega (arith, fewer, less)))
          | inr gone ↦
              rw (gone) ((dropped-IsRound r s going.0 out, going.1), omega (arith, dropped, less))
        ]
    take_found-Keeps n (some (s, false)) r going (out, in_pool, less) =
        let fewer = unselected-append_le r.pool.last_sess r.selected s in
        elim (Bool-cases (has_some (r.pool.sess_map s.transcoder))) [
          | inl known ↦
              let p = appended-IsRound r s going.0 out in_pool known in
              rw (known) (appended-Keeps n r s going p (omega (arith, fewer, less)))
          | inr gone ↦ rw (gone) (going, less)
        ]

    module _ (now : ℕ) where
      pub checked-IsRound :
          (r : Round S) → IsRound pool r → IsRound pool (check_sessions selector now r).1
      unfolding check_sessions
      checked-IsRound r p = record {
        good = p.good;
        same_map = p.same_map;
        once = p.once;
        flying = p.flying;
        mapped = p.mapped;
        last = p.last;
        known = p.known;
      }

      -- The selector is given by the parts of what `Select` returns.
      holds_rest :
          (o : Option Session) (sel : S) (r : Round S)
          → selector.select r.pool.sel ≡ (o, sel)
          → IsRound pool r
          → (k : ℕ) → count_some k o + laws.holds k sel ≡ laws.holds k r.pool.sel
      holds_rest o sel r e p k =
          ap (λ q. count_some k q.0 + laws.holds k q.1) (sym e)
          ∙ laws.holds-select k r.pool.sel p.good

      size_rest :
          (o : Option Session) (sel : S) (r : Round S)
          → selector.select r.pool.sel ≡ (o, sel)
          → IsRound pool r
          → selector.size r.pool.sel ≡ size_some o + selector.size sel
      size_rest o sel r e p =
          laws.size-select r.pool.sel p.good ∙ ap (λ q. size_some q.0 + selector.size q.1) e

      selected-IsRound :
          (o : Option Session) (sel : S) (r : Round S)
          → selector.select r.pool.sel ≡ (o, sel)
          → IsRound pool r
          → IsRound pool (record r { pool = record r.pool { sel = sel } })
      selected-IsRound o sel r e p =
          let rest = holds_rest o sel r e p in
          record {
            good = subst (λ q. laws.IsGood q.1) e (laws.select-IsGood r.pool.sel p.good);
            same_map = p.same_map;
            once = λ k. omega (arith, rest k, p.once k);
            flying = λ k h. omega (arith, rest k, p.flying k h);
            mapped = p.mapped;
            last = p.last;
            known = λ k. omega (arith, rest k, p.known k);
          }

      reused-IsFound :
          (m n : ℕ) (r : Round S) (o : Option Session)
          → ((s : Session) → o ≡ some s → IsReused now m r.flights r.pool.last_sess r.selected s)
          → IsRound pool r
          → todo selector r ≤ n
          → IsFound pool n (found_last o) r
      reused-IsFound m n r none h p less = tt
      reused-IsFound m n r (some s) h p less =
          let u = h s refl in
          (u.listed, u.free, p.flying s.id (is_reusable-ne now m (r.flights s.id) u.flying), less)

      -- What the selector gives, by the parts of what it returns.
      found_selected-IsFound :
          (o : Option Session) (sel : S) (r : Round S)
          → selector.select r.pool.sel ≡ (o, sel)
          → IsRound pool r
          → IsRound pool (found_selected selector now (o, sel) r).1
            × IsFound pool
                (todo selector r)
                (found_selected selector now (o, sel) r).0
                (found_selected selector now (o, sel) r).1
      unfolding found_selected
      found_selected-IsFound none sel r e p =
          let p' = selected-IsRound none sel r e p in
          (
            p',
            reused-IsFound 2 (todo selector r) _
                (select_session now r.flights r.pool.last_sess r.selected 2)
                (select_session-IsReused now 2 r.flights r.pool.last_sess r.selected) p'
                (omega (arith, size_rest none sel r e p)),
          )
      found_selected-IsFound (some s) sel r e p =
          let self = (==_iff s.id s.id).1 refl in
          let one : one_of s.id s ≡ 1 = rw (self) in
          let rest = holds_rest (some s) sel r e p s.id in
          (
            selected-IsRound (some s) sel r e p,
            (
              omega (arith, one, rest, p.once s.id),
              omega (arith, one, rest, p.known s.id),
              omega (arith, size_rest (some s) sel r e p),
            ),
          )

      pub find_session-IsFound :
          (o : Option Session) (r : Round S)
          → ((s : Session) → o ≡ some s → IsReused now 1 r.flights r.pool.last_sess r.selected s)
          → IsRound pool r
          → IsRound pool (find_session selector now o r).1
            × IsFound pool
                (todo selector r)
                (find_session selector now o r).0
                (find_session selector now o r).1
      unfolding find_session
      find_session-IsFound none r h p =
          found_selected-IsFound (selector.select r.pool.sel).0 (selector.select r.pool.sel).1 r
            refl p
      find_session-IsFound (some s) r h p =
          (p, reused-IsFound 1 (todo selector r) r (some s) h p (omega arith))
