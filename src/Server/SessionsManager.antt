-- ===== src/Server/SessionsManager.antt =====
-- server/broadcast.go: the manager of a stream's two pools, of trusted and of untrusted
-- orchestrators, and the session whose results were verified. Each call holds its mutex or the
-- pools' for one step.
pub mod Results
mod Tests
use livepeer.Base.{
  ℕ, ◌+◌, ◌*◌, Bool, true, false, ◌&&◌, List, [], ◌∷◌, ◌++◌, Option, none, some, ◌==◌, ltb,
  if◌then◌else◌, length,
}
use livepeer.Server.Selection.{Session, score_untrusted, score_trusted, score_other}
use livepeer.Server.Selection.Selector.{Selector}
use livepeer.Server.Suspensions.{new_suspender}
use livepeer.Server.SessionPool.{
  Flights, SessionPool, new_session_pool, suspend, remove_session, includes_session,
  remove_session_from_list, start_refresh, finish_refresh, cleanup, complete_session,
}
use livepeer.Server.SessionPool.Select.{Round, select_sessions}

-- `BroadcastSessionsManager`; the type of its selectors is the same for both pools.
pub record SessionsManager (S : Type 0) : Type 0 where
  pub verification_freq : ℕ
  pub is_finished : Bool
  pub trusted_pool : SessionPool S
  pub untrusted_pool : SessionPool S
  pub verified_session : Option Session

abbrev pub is_untrusted : Session → Bool
is_untrusted s = elim s.score [
  | score_untrusted ↦ true
  | score_trusted ↦ false
  | score_other ↦ false
]

abbrev pub is_trusted : Session → Bool
is_trusted s = elim s.score [ score_untrusted ↦ false | score_trusted ↦ true | score_other ↦ false ]

-- A change of the pool that a session belongs to, by its score.
abbrev pub update_pool :
    {S : Type 0} → Session → (SessionPool S → SessionPool S) → SessionsManager S → SessionsManager S
update_pool s f m =
    if is_untrusted s
    then record m { untrusted_pool = f m.untrusted_pool }
    else record m { trusted_pool = f m.trusted_pool }

-- `suspendAndRemoveOrch`
unfoldable pub suspend_and_remove_orch :
    {S : Type 0} → Session → SessionsManager S → SessionsManager S
suspend_and_remove_orch s m = update_pool s (λ pool. remove_session s (suspend s.transcoder pool)) m

-- `removeSession` of the manager
unfoldable pub remove_managed_session :
    {S : Type 0} → Session → SessionsManager S → SessionsManager S
remove_managed_session s m = update_pool s (remove_session s) m

-- `sessionVerified` and `usingVerified`
unfoldable pub session_verified : {S : Type 0} → Session → SessionsManager S → SessionsManager S
session_verified s m = record m { verified_session = some s }

abbrev pub using_verified : {S : Type 0} → SessionsManager S → Bool
using_verified m = elim m.verified_session [ none ↦ false | some s ↦ true ]

-- The flights of all sessions, and the manager.
abbrev pub Managed : Type 0 → Type 0
Managed S = Flights × SessionsManager S

-- What `selectSessions` returns: the sessions, whether a perceptual hash is calculated, and whether
-- the verified session is used again.
pub record Selection : Type 0 where
  pub sessions : List Session
  pub calc_perceptual_hash : Bool
  pub verified : Bool

module _ {S : Type 0} (selector : Selector S) where
  -- A refresh that nothing interrupts, from what `createSessions` gives.
  abbrev pub refresh_sessions : Option (List Session) → SessionPool S → SessionPool S
  refresh_sessions created pool = elim (start_refresh pool) [
    | none ↦ pool
    | some begun ↦ finish_refresh selector created begun
  ]

  -- `NewSessionManager`, from the numbers of orchestrators with the two scores, the number of
  -- segments that fit the HTTP timeout, the selectors, and what is discovered at first.
  unfoldable pub new_session_manager :
      ℕ → ℕ → ℕ → ℕ → S → S → Option (List Session) → Option (List Session) → SessionsManager S
  new_session_manager freq trusted untrusted max_inflight sel sel' created created' =
      let trusted_orchs = if ltb (max_inflight * 2) trusted then max_inflight * 2 else trusted in
      record {
        verification_freq = freq;
        is_finished = false;
        trusted_pool =
            refresh_sessions created (new_session_pool trusted trusted_orchs new_suspender sel);
        untrusted_pool =
            refresh_sessions created' (new_session_pool untrusted untrusted new_suspender sel');
        verified_session = none;
      }

  -- `cleanup` of the manager
  unfoldable pub cleanup_managed : SessionsManager S → SessionsManager S
  cleanup_managed m = record m {
    is_finished = true;
    trusted_pool = cleanup selector m.trusted_pool;
    untrusted_pool = cleanup selector m.untrusted_pool;
  }

  -- `completeSessionUnsafe`; none stands for the panic on an unknown score.
  unfoldable pub complete_session_unsafe : Session → Managed S → Option (Managed S)
  complete_session_unsafe s (flights, m) =
      let left = complete_session selector s (flights, m.untrusted_pool) in
      let left' = complete_session selector s (flights, m.trusted_pool) in
      elim s.score [
        | score_untrusted ↦ some (left.0, record m { untrusted_pool = left.1 })
        | score_trusted ↦ some (left'.0, record m { trusted_pool = left'.1 })
        | score_other ↦ none
      ]

  -- Each session of a list is completed.
  unfoldable pub complete_each : List Session → Managed S → Option (Managed S)
  complete_each [] managed = some managed
  complete_each (s ∷ l) managed = elim (complete_session_unsafe s managed) [
    | none ↦ none
    | some managed' ↦ complete_each l managed'
  ]

  -- The sessions of both pools for a verification, from the draw that decides whether the verified
  -- session is used again.
  unfoldable pub choose_verified :
      Bool → List Session → Option Session → Managed S → Option (Selection × Managed S)
  unfolding complete_each
  choose_verified reuses sessions none managed =
      some (record { sessions = sessions; calc_perceptual_hash = true; verified = false }, managed)
  choose_verified reuses sessions (some v) (flights, m) =
      let reused : Selection = record {
        sessions = v ∷ [];
        calc_perceptual_hash = true;
        verified = true;
      } in
      let all : Selection = record {
        sessions = sessions;
        calc_perceptual_hash = true;
        verified = false;
      } in
      let completed : Option (Selection × Managed S) =
        elim (complete_each (remove_session_from_list sessions v) (flights, m)) [
          | none ↦ none
          | some managed ↦ some (reused, managed)
        ] in
      if includes_session sessions v
      then if reuses then completed else some (all, (flights, m))
      else some (all, (flights, record m { verified_session = none }))

  -- With a verification: a trusted session and two untrusted ones.
  unfoldable pub select_to_verify :
      ℕ → Bool → Flights → SessionsManager S → Option (Selection × Managed S)
  unfolding choose_verified
  select_to_verify now reuses flights m =
      elim (select_sessions selector now 1 flights m.trusted_pool) [
        | none ↦ none
        | some r ↦ elim (select_sessions selector now 2 r.flights m.untrusted_pool) [
          | none ↦ none
          | some r' ↦
              choose_verified reuses (r.selected ++ r'.selected) m.verified_session
                (r'.flights, record m { trusted_pool = r.pool; untrusted_pool = r'.pool })
        ]
      ]

  abbrev pub plain_selection : List Session → Selection
  plain_selection sessions = record {
    sessions = sessions;
    calc_perceptual_hash = false;
    verified = false;
  }

  -- A trusted session where no untrusted one was found.
  abbrev pub or_trusted :
      ℕ → Round S → SessionsManager S → List Session → Option (Selection × Managed S)
  or_trusted now r m [] = elim (select_sessions selector now 1 r.flights m.trusted_pool) [
    | none ↦ none
    | some r' ↦ some (
      plain_selection r'.selected,
      (r'.flights, record m { untrusted_pool = r.pool; trusted_pool = r'.pool }),
    )
  ]
  or_trusted now r m (s ∷ l) =
      some (plain_selection (s ∷ l), (r.flights, record m { untrusted_pool = r.pool }))

  -- Without: an untrusted session.
  unfoldable pub select_plainly : ℕ → Flights → SessionsManager S → Option (Selection × Managed S)
  select_plainly now flights m = elim (select_sessions selector now 1 flights m.untrusted_pool) [
    | none ↦ none
    | some r ↦ or_trusted now r m r.selected
  ]

  -- `selectSessions` of the manager; none stands for a panic or a loop that has not ended.
  unfoldable pub select_managed :
      ℕ → Bool → Flights → SessionsManager S → Option (Selection × Managed S)
  unfolding select_to_verify select_plainly
  select_managed now reuses flights m =
      if ltb 0 m.verification_freq
      then select_to_verify now reuses flights m
      else select_plainly now flights m
