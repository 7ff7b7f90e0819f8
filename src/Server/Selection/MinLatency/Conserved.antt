-- ===== src/Server/Selection/MinLatency/Conserved.antt =====
-- server/selection.go: the selector loses no session and selects the best known one.
use livepeer.Base.{
  ℕ, suc, ◌+◌, ◌<◌, ◌≡◌, ◌⊎◌, refl, ap, sym, ◌∙◌, subst, Bool, true, false, List, [], ◌∷◌, Option,
  none, some, if◌then◌else◌, length, get_or, inl, inr, ltb, arith,
}
use livepeer.Base.Rat.{leb_rat, ltb_rat}
use livepeer.Server.Selection.{Session, pick}
use livepeer.Server.Selection.MinLatency.{
  HeapLib, MinLsSelector, Draws, taken, drawn_stake, stake_of, total_stake, recipients,
  select_by_stake, select_unknown_session, pop_known, select_from, select,
}
use livepeer.Server.Selection.MinLatency.Count.{
  one_of, count, count_some, count-remove_unknown_session, IsAt, pick-IsAt, get_or_default,
}

-- No session of the list has a lower score.
abbrev pub IsLowest : Session → List Session → Type 0
IsLowest x [] = Unit
IsLowest x (y ∷ l) = (leb_rat x.latency_score y.latency_score ≡ true) × IsLowest x l

-- What container/heap promises: the lowest session of a heap is its first one, which `heap.Pop` takes
-- out; what it leaves is a heap again.
pub record HeapLaws (heap : HeapLib) : Type 1 where
  pub IsHeap : List Session → Type 0
  pub lowest : (x : Session) (l : List Session) → IsHeap (x ∷ l) → IsLowest x l
  pub popped : (x : Session) (l : List Session) → IsHeap (x ∷ l) → (heap.pop (x ∷ l)).0 ≡ some x
  pub left : (x : Session) (l : List Session) → IsHeap (x ∷ l) → IsHeap (heap.pop (x ∷ l)).1
  pub count :
      (k : ℕ) (x : Session) (l : List Session)
      → IsHeap (x ∷ l)
      → count k (heap.pop (x ∷ l)).1 ≡ count k l

-- `rand.Intn(n)` is below n.
abbrev pub IsDrawn : Draws → Type 0
IsDrawn draws = (n : ℕ) → draws.intn (suc n) < suc n

abbrev pub sessions_of : ℕ → MinLsSelector → ℕ
sessions_of k s = count k s.unknown_sessions + count k s.known_sessions

module _ (heap : HeapLib) (laws : HeapLaws heap) (stakes : List ℕ → Option (List (ℕ × ℕ)))
    (draws : Draws) (drawn : IsDrawn draws) where
  -- Every session is selected or stays, as often as it was there, and the known ones stay a heap.
  pub record IsConserved (s : MinLsSelector) (r : Option Session × MinLsSelector) : Type 0 where
    pub sessions : (k : ℕ) → count_some k r.0 + sessions_of k r.1 ≡ sessions_of k s
    pub known : laws.IsHeap r.1.known_sessions

  nothing-IsConserved : (s : MinLsSelector) → laws.IsHeap s.known_sessions → IsConserved s (none, s)
  nothing-IsConserved s h = record { sessions = λ k. omega arith; known = h }

  taken-IsConserved :
      (s : MinLsSelector) (o : Option (ℕ × Session))
      → laws.IsHeap s.known_sessions
      → IsAt s.unknown_sessions o
      → IsConserved s (taken o s)
  taken-IsConserved s none h p = nothing-IsConserved s h
  taken-IsConserved s (some (i, sess)) h (bound, e) = record {
    sessions = λ k. omega (
      arith,
      count-remove_unknown_session k i s.unknown_sessions sess bound,
      ap (one_of k) (e sess),
    );
    known = h;
  }

  select_by_stake-IsConserved :
      (s : MinLsSelector) (read : Option (List (ℕ × ℕ)))
      → laws.IsHeap s.known_sessions
      → IsConserved s (select_by_stake heap stakes draws read s)
  unfolding select_by_stake
  select_by_stake-IsConserved s none h = nothing-IsConserved s h
  select_by_stake-IsConserved s (some read) h =
      let r = drawn_stake draws (total_stake read) in
      taken-IsConserved s (pick (stake_of read) r s.unknown_sessions) h
        (pick-IsAt (stake_of read) r s.unknown_sessions)

  if-IsConserved :
      (s : MinLsSelector) (b : Bool) (r r' : Option Session × MinLsSelector)
      → IsConserved s r
      → IsConserved s r'
      → IsConserved s (if b then r else r')
  if-IsConserved s true r r' p p' = p
  if-IsConserved s false r r' p p' = p'

  -- The slice is given by its parts, as the code looks at its length first.
  select_unknown_session-IsConserved :
      (l : List Session) (s : MinLsSelector)
      → s.unknown_sessions ≡ l
      → laws.IsHeap s.known_sessions
      → IsConserved s (select_unknown_session heap stakes draws l s)
  unfolding select_unknown_session
  select_unknown_session-IsConserved [] s e h = nothing-IsConserved s h
  select_unknown_session-IsConserved (first ∷ rest) s e h =
      let i = draws.intn (suc (length rest)) in
      let chosen = get_or (first ∷ rest) i first in
      let bound = drawn (length rest) in
      let at_i : IsAt s.unknown_sessions (some (i, chosen)) =
        subst (λ m. IsAt m (some (i, chosen))) (sym e)
          (bound, λ d. get_or_default (first ∷ rest) i d first bound) in
      if-IsConserved s s.has_stake_reader _ _
        (if-IsConserved s draws.is_frequent _ _ (taken-IsConserved s (some (i, chosen)) h at_i)
          (select_by_stake-IsConserved s (stakes (recipients (first ∷ rest) [])) h))
        (record { sessions = λ k. omega (arith, ap (count k) e); known = h })

  pop_known-IsConserved :
      (x : Session) (l : List Session) (s : MinLsSelector)
      → s.known_sessions ≡ x ∷ l
      → laws.IsHeap s.known_sessions
      → IsConserved s (pop_known heap stakes draws s)
  unfolding pop_known
  pop_known-IsConserved x l s e h =
      let h' = subst laws.IsHeap e h in
      record {
        sessions = λ k. omega (
          arith,
          ap (λ m. count_some k (heap.pop m).0) e,
          ap (count_some k) (laws.popped x l h'),
          ap (λ m. count k (heap.pop m).1) e,
          laws.count k x l h',
          ap (count k) e,
        );
        known = subst (λ m. laws.IsHeap (heap.pop m).1) (sym e) (laws.left x l h');
      }

  select_from-IsConserved :
      (l : List Session) (s : MinLsSelector)
      → s.known_sessions ≡ l
      → laws.IsHeap s.known_sessions
      → IsConserved s (select_from heap stakes draws l s)
  unfolding select_from
  select_from-IsConserved [] s e h = select_unknown_session-IsConserved s.unknown_sessions s refl h
  select_from-IsConserved (least ∷ rest) s e h =
      let known = pop_known-IsConserved least rest s e h in
      if-IsConserved s (ltb_rat s.min_ls least.latency_score) _ _
        (if-IsConserved s (ltb 0 (length s.unknown_sessions)) _ _
          (select_unknown_session-IsConserved s.unknown_sessions s refl h) known)
        known

  if_same : (b : Bool) (r : Option Session × MinLsSelector) → (if b then r else r) ≡ r
  if_same true r = refl
  if_same false r = refl

  -- Where the best known session is good enough, or no other is there, it is selected.
  select_from-lowest :
      (x : Session) (l : List Session) (s : MinLsSelector)
      → s.known_sessions ≡ x ∷ l
      → laws.IsHeap s.known_sessions
      → (ltb_rat s.min_ls x.latency_score ≡ false) ⊎ (s.unknown_sessions ≡ [])
      → (select_from heap stakes draws (x ∷ l) s).0 ≡ some x
  unfolding select_from pop_known
  select_from-lowest x l s e h good =
      let first = ap (λ m. (heap.pop m).0) e ∙ laws.popped x l (subst laws.IsHeap e h) in
      elim good [
        | inl fast ↦ rw (fast) first
        | inr alone ↦
            let empty : ltb 0 (length s.unknown_sessions) ≡ false =
              ap (λ m. ltb 0 (length m)) alone in
            let b = ltb_rat s.min_ls x.latency_score in
            rw (empty) (ap (λ q. q.0) (if_same b (pop_known heap stakes draws s)) ∙ first)
      ]

  -- Whatever is drawn and whatever the stakes are, a selection loses and repeats no session: one is
  -- selected or none, the others stay, and the known ones stay a heap. If the first known session has
  -- a good enough score, or no unknown session is there, it is selected, and no other known session
  -- has a lower score.
  pub select-IsConserved :
      (s : MinLsSelector)
      → laws.IsHeap s.known_sessions
      → IsConserved s (select heap stakes draws s)
        × ((x : Session) (l : List Session)
            → s.known_sessions ≡ x ∷ l
            → (ltb_rat s.min_ls x.latency_score ≡ false) ⊎ (s.unknown_sessions ≡ [])
            → ((select heap stakes draws s).0 ≡ some x) × IsLowest x l)
  unfolding select
  select-IsConserved s h = (
    select_from-IsConserved s.known_sessions s refl h,
    λ x l e good. (
      ap (λ m. (select_from heap stakes draws m s).0) e ∙ select_from-lowest x l s e h good,
      laws.lowest x l (subst laws.IsHeap e h),
    ),
  )
