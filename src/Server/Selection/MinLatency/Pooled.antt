-- ===== src/Server/Selection/MinLatency/Pooled.antt =====
-- server/selection.go: the selector by latency is one that the pools can use.
use livepeer.Base.{
  ℕ, suc, ◌+◌, ◌-◌, ◌<◌, ◌≡◌, refl, ap, sym, subst, Bool, true, false, List, [], ◌∷◌, Option, none,
  some, if◌then◌else◌, length, get_or, set, ltb, length-set, length-take, arith,
}
use livepeer.Base.Rat.{ltb_rat}
use livepeer.Server.Selection.{Session, pick}
use livepeer.Server.Selection.Selector.{Selector, SelectorLaws, size_some}
use livepeer.Server.Selection.MinLatency.{
  HeapLib, MinLsSelector, Draws, size, add_sessions, clear_sessions, complete,
  remove_unknown_session, taken, drawn_stake, stake_of, total_stake, recipients, select_by_stake,
  select_unknown_session, pop_known, select_from, select,
}
use livepeer.Server.Selection.MinLatency.Count.{one_of, count, count-append, IsAt, pick-IsAt}
use livepeer.Server.Selection.MinLatency.Conserved.{
  HeapLaws, IsDrawn, sessions_of, select-IsConserved,
}

-- What container/heap promises of `heap.Push`, and of the lengths.
pub record HeapPushLaws (heap : HeapLib) (laws : HeapLaws heap) : Type 0 where
  pub empty : laws.IsHeap []
  pub push-IsHeap : (x : Session) (l : List Session) → laws.IsHeap l → laws.IsHeap (heap.push x l)
  pub count-push :
      (k : ℕ) (x : Session) (l : List Session)
      → laws.IsHeap l
      → count k (heap.push x l) ≡ one_of k x + count k l
  pub length-pop :
      (x : Session) (l : List Session)
      → laws.IsHeap (x ∷ l)
      → length (heap.pop (x ∷ l)).1 ≡ length l

abbrev pub IsSized : MinLsSelector → Option Session × MinLsSelector → Type 0
IsSized s r = size s ≡ size_some r.0 + size r.1

if-IsSized :
    (s : MinLsSelector) (b : Bool) (r r' : Option Session × MinLsSelector)
    → IsSized s r
    → IsSized s r'
    → IsSized s (if b then r else r')
if-IsSized s true r r' p p' = p
if-IsSized s false r r' p p' = p'

length-remove_unknown_session :
    (i : ℕ) (l : List Session) (d : Session)
    → i < length l
    → length l ≡ suc (length (remove_unknown_session i d l))
length-remove_unknown_session i l d h =
    let n = length l in
    let swapped = set l (n - 1) (get_or l i d) in
    let last = get_or l (n - 1) d in
    omega (
      arith,
      length-take (n - 1) (set swapped i last),
      length-set swapped i last,
      length-set l (n - 1) (get_or l i d),
    )

taken-IsSized :
    (s : MinLsSelector) (o : Option (ℕ × Session))
    → IsAt s.unknown_sessions o
    → IsSized s (taken o s)
taken-IsSized s none p = omega arith
taken-IsSized s (some (i, sess)) (bound, e) =
    omega (arith, length-remove_unknown_session i s.unknown_sessions sess bound)

module _ (heap : HeapLib) (laws : HeapLaws heap) (pushes : HeapPushLaws heap laws)
    (stakes : List ℕ → Option (List (ℕ × ℕ))) where
  module _ (draws : Draws) (drawn : IsDrawn draws) where
    select_by_stake-IsSized :
        (s : MinLsSelector) (read : Option (List (ℕ × ℕ)))
        → IsSized s (select_by_stake heap stakes draws read s)
    unfolding select_by_stake
    select_by_stake-IsSized s none = omega arith
    select_by_stake-IsSized s (some read) =
        let r = drawn_stake draws (total_stake read) in
        taken-IsSized s (pick (stake_of read) r s.unknown_sessions)
          (pick-IsAt (stake_of read) r s.unknown_sessions)

    select_unknown_session-IsSized :
        (l : List Session) (s : MinLsSelector)
        → s.unknown_sessions ≡ l
        → IsSized s (select_unknown_session heap stakes draws l s)
    unfolding select_unknown_session
    select_unknown_session-IsSized [] s e = omega arith
    select_unknown_session-IsSized (first ∷ rest) s e =
        let i = draws.intn (suc (length rest)) in
        let chosen = get_or (first ∷ rest) i first in
        let bound = subst (λ m. i < length m) (sym e) (drawn (length rest)) in
        if-IsSized s s.has_stake_reader _ _
          (if-IsSized s draws.is_frequent _ _
            (omega (arith, length-remove_unknown_session i s.unknown_sessions chosen bound))
            (select_by_stake-IsSized s (stakes (recipients (first ∷ rest) []))))
          (omega (arith, ap length e))

    pop_known-IsSized :
        (x : Session) (l : List Session) (s : MinLsSelector)
        → s.known_sessions ≡ x ∷ l
        → laws.IsHeap s.known_sessions
        → IsSized s (pop_known heap stakes draws s)
    unfolding pop_known
    pop_known-IsSized x l s e h =
        let h' = subst laws.IsHeap e h in
        omega (
          arith,
          ap (λ m. size_some (heap.pop m).0) e,
          ap size_some (laws.popped x l h'),
          ap (λ m. length (heap.pop m).1) e,
          pushes.length-pop x l h',
          ap length e,
        )

    pub select_from-IsSized :
        (l : List Session) (s : MinLsSelector)
        → s.known_sessions ≡ l
        → laws.IsHeap s.known_sessions
        → IsSized s (select_from heap stakes draws l s)
    unfolding select_from
    select_from-IsSized [] s e h = select_unknown_session-IsSized s.unknown_sessions s refl
    select_from-IsSized (least ∷ rest) s e h =
        let known = pop_known-IsSized least rest s e h in
        if-IsSized s (ltb_rat s.min_ls least.latency_score) _ _
          (if-IsSized s (ltb 0 (length s.unknown_sessions)) _ _
            (select_unknown_session-IsSized s.unknown_sessions s refl) known)
          known

  module _ {R : Type 0} (next : R → Draws × R) where
    -- The methods of `MinLSSelector`, with a source of random draws.
    abbrev pub select_drawn : MinLsSelector × R → Option Session × (MinLsSelector × R)
    select_drawn (s, r) =
        let draws = next r in let q = select heap stakes draws.0 s in (q.0, (q.1, draws.1))

    abbrev pub min_ls_selector : Selector (MinLsSelector × R)
    min_ls_selector = record {
      add = λ l s. (add_sessions l s.0, s.1);
      complete = λ x s. (complete heap stakes (next s.1).0 x s.0, s.1);
      select = select_drawn;
      size = λ s. size s.0;
      clear = λ s. (clear_sessions s.0, s.1);
    }

    -- `MinLSSelector` keeps what the pools rely on, whatever is drawn.
    abbrev pub min_ls_laws : ((r : R) → IsDrawn (next r).0) → SelectorLaws min_ls_selector
    unfolding add_sessions complete select
    min_ls_laws drawn = record {
      IsGood = λ s. laws.IsHeap s.0.known_sessions;
      holds = λ k s. sessions_of k s.0;
      add-IsGood = λ l s h. h;
      complete-IsGood = λ x s h. pushes.push-IsHeap x s.0.known_sessions h;
      select-IsGood =
          λ s h. (select-IsConserved heap laws stakes (next s.1).0 (drawn s.1) s.0 h).0.known;
      clear-IsGood = λ s h. pushes.empty;
      holds-add = λ k l s h. omega (arith, count-append k s.0.unknown_sessions l);
      holds-complete = λ k x s h. omega (arith, pushes.count-push k x s.0.known_sessions h);
      holds-select = λ k s h.
          (select-IsConserved heap laws stakes (next s.1).0 (drawn s.1) s.0 h).0.sessions k;
      holds-clear = λ k s h. refl;
      size-select =
          λ s h. select_from-IsSized (next s.1).0 (drawn s.1) s.0.known_sessions s.0 refl h;
    }
