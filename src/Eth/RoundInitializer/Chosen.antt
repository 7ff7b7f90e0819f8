-- ===== src/Eth/RoundInitializer/Chosen.antt =====
-- eth/roundinitializer.go: one member of the active set initializes the round.
use livepeer.Base.{
  ℕ, zero, suc, ◌+◌, ◌%◌, ◌<◌, ◌≡◌, ◌≢◌, ◌↔◌, refl, ap, sym, ◌∙◌, subst, Bool, true, false, List,
  [], ◌∷◌, Option, none, some, some_inj, ◌==◌, ==_iff, if◌then◌else◌, length, get_elem?, Bool-cases,
  inl, inr, arith,
}
use native.Mathlib.Nat.{mod-lt}
use livepeer.Crypto.{Crypto}
use livepeer.Eth.Watchers.TimeWatcher.{TimeWatcher}
use livepeer.Eth.RoundInitializer.{
  Outcome, initialized, skipped, failed, Client, current_epoch_seed, next_rank, rank_of, is_rank,
  should_initialize, if_chosen, try_initialize,
}

-- No address stands in the list twice.
abbrev pub IsAway : ℕ → List ℕ → Type 0
IsAway a [] = Unit
IsAway a (t ∷ l) = (t ≢ a) × IsAway a l

abbrev pub AreDistinct : List ℕ → Type 0
AreDistinct [] = Unit
AreDistinct (t ∷ l) = IsAway t l × AreDistinct l

get_elem?-in_range : (l : List ℕ) (i : ℕ) → i < length l → (a : ℕ) × (get_elem? l i ≡ some a)
get_elem?-in_range [] i h = absurd (omega arith)
get_elem?-in_range (t ∷ l) zero h = (t, refl)
get_elem?-in_range (t ∷ l) (suc i) h = get_elem?-in_range l i (omega arith)

IsAway-get_elem? : (a b : ℕ) (l : List ℕ) (i : ℕ) → IsAway a l → get_elem? l i ≡ some b → b ≢ a
IsAway-get_elem? a b [] i h e = absurd (ground (arith, e))
IsAway-get_elem? a b (t ∷ l) zero h e = let same = some_inj.0 e in λ f. h.0 (same ∙ f)
IsAway-get_elem? a b (t ∷ l) (suc i) h e = IsAway-get_elem? a b l i h.1 e

next_rank-inj : (i : ℕ) (o : Option ℕ) → next_rank o ≡ some (suc i) → o ≡ some i
next_rank-inj i none e = ground (arith, e)
next_rank-inj i (some j) e = let same = some_inj.0 e in ap some (omega (arith, same))

next_rank-positive : (o : Option ℕ) → next_rank o ≢ some 0
next_rank-positive none e = ground (arith, e)
next_rank-positive (some j) e = let same = some_inj.0 e in absurd (omega (arith, same))

-- The rank of an address that stands in the list once is its index.
rank_of-get_elem? :
    (l : List ℕ) (i a : ℕ) → AreDistinct l → get_elem? l i ≡ some a → rank_of a l ≡ some i
rank_of-get_elem? [] i a h e = ground (arith, e)
rank_of-get_elem? (t ∷ l) zero a h e =
    let same : (t == a) ≡ true = (==_iff t a).1 (some_inj.0 e) in rw (same) refl
rank_of-get_elem? (t ∷ l) (suc i) a h e =
    let apart = IsAway-get_elem? t a l i h.0 e in
    let other : (t == a) ≡ false = ground (arith, apart) in
    rw (other) (ap next_rank (rank_of-get_elem? l i a h.1 e))

later_rank :
    (t a : ℕ) (l : List ℕ)
    → ((i : ℕ) → rank_of a l ≡ some i → get_elem? l i ≡ some a)
    → (i : ℕ) → next_rank (rank_of a l) ≡ some i
    → get_elem? (t ∷ l) i ≡ some a
later_rank t a l here zero e = absurd (next_rank-positive (rank_of a l) e)
later_rank t a l here (suc i) e = here i (next_rank-inj i (rank_of a l) e)

get_elem?-rank_of : (l : List ℕ) (i a : ℕ) → rank_of a l ≡ some i → get_elem? l i ≡ some a
get_elem?-rank_of [] i a e = ground (arith, e)
get_elem?-rank_of (t ∷ l) i a e = elim (Bool-cases (t == a)) [
  | inl same ↦
      let whole : rank_of a (t ∷ l) ≡ some 0 = rw (same) refl in
      let first : 0 ≡ i = some_inj.0 (sym whole ∙ e) in
      subst (λ j. get_elem? (t ∷ l) j ≡ some a) first (ap some ((==_iff t a).0 same))
  | inr other ↦
      let whole : rank_of a (t ∷ l) ≡ next_rank (rank_of a l) = rw (other) refl in
      later_rank t a l (λ j. get_elem?-rank_of l j a) i (sym whole ∙ e)
]

is_rank_iff : (i : ℕ) (o : Option ℕ) → is_rank i o ≡ true → o ≡ some i
is_rank_iff i none e = ground (arith, e)
is_rank_iff i (some j) e = ap some (sym ((==_iff i j).0 e))

-- In an upcoming active set of different addresses that is not empty, each seed selects exactly one
-- member.
pub should_initialize-one :
    (t : ℕ) (l : List ℕ) (seed : ℕ)
    → AreDistinct (t ∷ l)
    → (a : ℕ) × (get_elem? (t ∷ l) (seed % length (t ∷ l)) ≡ some a)
      × ((caller : ℕ) → (should_initialize (some (t ∷ l)) caller seed ≡ some true) ↔ (caller ≡ a))
unfolding should_initialize
should_initialize-one t l seed distinct =
    let pool : List ℕ = t ∷ l in
    let i = seed % length pool in
    let (a, e) = get_elem?-in_range pool i (mod-lt seed (omega arith)) in
    (
      a,
      e,
      λ caller. (
        λ chosen.
            let rank = is_rank_iff i (rank_of caller pool) (some_inj.0 chosen) in
            some_inj.0 (sym (get_elem?-rank_of pool i caller rank) ∙ e),
        λ same.
            let rank = rank_of-get_elem? pool i a distinct e in
            let self : (i == i) ≡ true = (==_iff i i).1 refl in
            ap (λ b. some (is_rank i (rank_of b pool))) same
            ∙ ap (λ o. some (is_rank i o)) rank
            ∙ ap some self,
      ),
    )

outcome_ne :
    (b d : Bool) (round : ℕ)
    → (if b then if d then initialized round else failed else failed) ≢ skipped
outcome_ne true true round e = ground (arith, e)
outcome_ne true false round e = ground (arith, e)
outcome_ne false d round e = ground (arith, e)

-- Only a caller that should not initialize the round skips it.
if_chosen-skipped :
    (client : Client) (round : ℕ) (b : Bool)
    → (if_chosen client round (some b) ≢ skipped) ↔ (some b ≡ some true)
if_chosen-skipped client round true =
    (λ h. refl, λ e. outcome_ne client.initialize_round client.check_tx round)
if_chosen-skipped client round false = (λ h. absurd (h refl), λ e. absurd (ground (arith, e)))

chosen_iff :
    (caller a : ℕ) (client : Client) (round : ℕ) (r : Outcome) (t : ℕ) (l : List ℕ) (seed : ℕ)
    → r ≡ if_chosen client round (should_initialize (some (t ∷ l)) caller seed)
    → (should_initialize (some (t ∷ l)) caller seed ≡ some true) ↔ (caller ≡ a)
    → (r ≢ skipped) ↔ (caller ≡ a)
unfolding should_initialize
chosen_iff caller a client round r t l seed e one =
    let b = is_rank (seed % length (t ∷ l)) (rank_of caller (t ∷ l)) in
    let skips = if_chosen-skipped client round b in
    (λ h. one.0 (skips.0 (λ f. h (e ∙ f))), λ same f. skips.1 (one.1 same) (sym e ∙ f))

-- While the pool answers with an upcoming active set of different addresses that is not empty, there
-- is one member that does not skip the initialization of the round, and all other callers do
-- skip it, if they see the same L1 block and the same round.
pub try_initialize-one :
    (c : Crypto) (client : Client) (tw : TimeWatcher) (next_start current t : ℕ) (l : List ℕ)
    → tw.last_seen_l1_block ≡ some current
    → client.transcoder_pool ≡ some (t ∷ l)
    → AreDistinct (t ∷ l)
    → (a : ℕ) × (i : ℕ) × (get_elem? (t ∷ l) i ≡ some a)
      × ((caller : ℕ) → (try_initialize c client caller tw next_start ≢ skipped) ↔ (caller ≡ a))
unfolding try_initialize
try_initialize-one c client tw next_start current t l seen pool distinct =
    let seed = current_epoch_seed c current next_start tw.last_initialized_l1_block_hash in
    let round = tw.last_initialized_round + 1 in
    let (a, e, one) = should_initialize-one t l seed distinct in
    (
      a,
      seed % length (t ∷ l),
      e,
      λ caller.
          let goes : try_initialize c client caller tw next_start
              ≡ if_chosen client round (should_initialize (some (t ∷ l)) caller seed) =
            rw (try_initialize, seen, pool) refl in
          chosen_iff caller a client round _ t l seed goes (one caller),
    )
