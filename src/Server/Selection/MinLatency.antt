-- ===== src/Server/Selection/MinLatency.antt =====
-- server/selection.go: the selector of the session with the lowest latency score. The functions of
-- container/heap are a parameter, and so are the random numbers that are drawn.
pub mod Count
pub mod Conserved
pub mod Pooled
use livepeer.Base.{
  ℕ, zero, suc, ◌+◌, ◌-◌, Bool, true, false, List, [], ◌∷◌, ◌++◌, Option, none, some, ◌==◌, ltb,
  if◌then◌else◌, length, get_or, get_elem?, set, take, drop,
}
use livepeer.Base.Rat.{Rat, ltb_rat}
use livepeer.Server.Selection.{Session, pick}

-- `heap.Push` and `heap.Pop` on a slice of sessions that are compared by their latency score.
pub record HeapLib : Type 0 where
  pub push : Session → List Session → List Session
  pub pop : List Session → Option Session × List Session

-- `MinLSSelector`; a selector without a stake reader is off-chain.
pub record MinLsSelector : Type 0 where
  pub unknown_sessions : List Session
  pub known_sessions : List Session
  pub has_stake_reader : Bool
  pub min_ls : Rat

-- What is drawn in a call: whether `rand.Float64()` is below the frequency, `rand.Intn` and
-- `rand.Int63n`.
pub record Draws : Type 0 where
  pub is_frequent : Bool
  pub intn : ℕ → ℕ
  pub int63n : ℕ → ℕ

-- `NewMinLSSelector`
abbrev pub new_min_ls_selector : Bool → Rat → MinLsSelector
new_min_ls_selector has_reader min_ls = record {
  unknown_sessions = [];
  known_sessions = [];
  has_stake_reader = has_reader;
  min_ls = min_ls;
}

-- `MinLSSelector.Add`
unfoldable pub add_sessions : List Session → MinLsSelector → MinLsSelector
add_sessions sessions s = record s { unknown_sessions = s.unknown_sessions ++ sessions }

-- `MinLSSelector.Size`
abbrev pub size : MinLsSelector → ℕ
size s = length s.unknown_sessions + length s.known_sessions

-- `MinLSSelector.Clear`
abbrev pub clear_sessions : MinLsSelector → MinLsSelector
clear_sessions s = record s { unknown_sessions = []; known_sessions = []; has_stake_reader = false }

-- `removeUnknownSession` on the slice: the session at the index `i` changes places with the last one,
-- which is then cut off. `removed` stands for what is read out of range.
abbrev pub remove_unknown_session : ℕ → Session → List Session → List Session
remove_unknown_session i removed l =
    let n = length l in
    let last = get_or l (n - 1) removed in
    take (n - 1) (set (set l (n - 1) (get_or l i removed)) i last)

-- The recipients of the sessions, each once.
abbrev is_listed : ℕ → List ℕ → Bool
is_listed a [] = false
is_listed a (b ∷ bs) = if a == b then true else is_listed a bs

unfoldable pub recipients : List Session → List ℕ → List ℕ
recipients [] addrs = addrs
recipients (s ∷ sessions) addrs = elim s.recipient [
  | none ↦ recipients sessions addrs
  | some addr ↦ recipients sessions (if is_listed addr addrs then addrs else addrs ++ addr ∷ [])
]

-- The stakes that were read, by address.
abbrev pub stake_of : List (ℕ × ℕ) → ℕ → ℕ
stake_of [] a = 0
stake_of ((addr, stake) ∷ stakes) a = if a == addr then stake else stake_of stakes a

abbrev pub total_stake : List (ℕ × ℕ) → ℕ
total_stake [] = 0
total_stake ((addr, stake) ∷ stakes) = stake + total_stake stakes

-- A session that is taken out of the unknown ones at an index.
abbrev pub taken : Option (ℕ × Session) → MinLsSelector → Option Session × MinLsSelector
taken none s = (none, s)
taken (some (i, sess)) s =
    (some sess, record s { unknown_sessions = remove_unknown_session i sess s.unknown_sessions })

-- The random number between 1 and the total stake, or 0 without stake.
abbrev pub drawn_stake : Draws → ℕ → ℕ
drawn_stake draws zero = 0
drawn_stake draws (suc total) = 1 + draws.int63n (suc total)

module _ (heap : HeapLib) (stakes : List ℕ → Option (List (ℕ × ℕ))) (draws : Draws) where
  -- `MinLSSelector.Complete`
  unfoldable pub complete : Session → MinLsSelector → MinLsSelector
  complete sess s = record s { known_sessions = heap.push sess s.known_sessions }

  -- The choice by stake, and where the stakes cannot be read, none.
  unfoldable pub select_by_stake :
      Option (List (ℕ × ℕ)) → MinLsSelector → Option Session × MinLsSelector
  unfolding pick
  select_by_stake none s = (none, s)
  select_by_stake (some read) s =
      taken (pick (stake_of read) (drawn_stake draws (total_stake read)) s.unknown_sessions) s

  -- `selectUnknownSession`
  unfoldable pub select_unknown_session :
      List Session → MinLsSelector → Option Session × MinLsSelector
  unfolding select_by_stake recipients
  select_unknown_session [] s = (none, s)
  select_unknown_session (first ∷ rest) s =
      let i = draws.intn (suc (length rest)) in
      let chosen = get_or (first ∷ rest) i first in
      if s.has_stake_reader
      then if draws.is_frequent
        then taken (some (i, chosen)) s
        else select_by_stake (stakes (recipients (first ∷ rest) [])) s
      else (some first, record s { unknown_sessions = rest })

  -- The known session with the lowest score, out of the heap.
  unfoldable pub pop_known : MinLsSelector → Option Session × MinLsSelector
  pop_known s = let p = heap.pop s.known_sessions in (p.0, record s { known_sessions = p.1 })

  -- `Select`, from what `Peek` gives.
  unfoldable pub select_from : List Session → MinLsSelector → Option Session × MinLsSelector
  unfolding select_unknown_session pop_known
  select_from [] s = select_unknown_session s.unknown_sessions s
  select_from (least ∷ rest) s =
      if ltb_rat s.min_ls least.latency_score
      then if ltb 0 (length s.unknown_sessions)
        then select_unknown_session s.unknown_sessions s
        else pop_known s
      else pop_known s

  -- `MinLSSelector.Select`
  unfoldable pub select : MinLsSelector → Option Session × MinLsSelector
  unfolding select_from
  select s = select_from s.known_sessions s
