-- ===== src/Core/RemoteTranscoders/Chosen.antt =====
-- core/orchestrator.go: which transcoder `selectTranscoder` gives.
use Prim.Native.String.{String}
use livepeer.Base.{
  ℕ, zero, suc, ◌≤◌, ◌<◌, ◌≡◌, ◌≢◌, ◌⊎◌, refl, ap, sym, ◌∙◌, subst, Bool, true, List, [], ◌∷◌,
  Option, none, some, some_inj, ◌==◌, ==_iff, length, Bool-cases, Option-cases, inl, inr, arith,
}
use livepeer.Core.Capabilities.{Capabilities, is_within}
use livepeer.Core.RemoteTranscoders.{
  TranscoderFields, StreamSession, RemoteTranscoderManager, find_stream_session, Selected,
  transcoder, no_transcoders_available, no_compatible_transcoders_available, Pass, returned, retry,
  complete_stream_session, find_compatible_transcoder, is_live, keep_assigned, assign, pass_from,
  select_pass, select_loop, select_transcoder,
}
use livepeer.Core.RemoteTranscoders.Removed.{remove_fewer}
use livepeer.Core.RemoteTranscoders.Loads.{
  IsSound, assigned-IsSound, other_list-IsSound, complete_stream_session-IsSound,
  complete_stream_session-length, find_stream_session_self,
}

module _ (fields : ℕ → TranscoderFields) (sort : (ℕ → ℕ → Bool) → List ℕ → List ℕ)
    (same_length : (less : ℕ → ℕ → Bool) (l : List ℕ) → length (sort less l) ≡ length l) where
  -- The transcoder has all capabilities that are asked for, if any are.
  abbrev pub CanTranscode : Option Capabilities → ℕ → Type 0
  CanTranscode none t = Unit
  CanTranscode (some c) t = is_within c.bitstring (fields t).bitstring ≡ true

  find_compatible-CanTranscode :
      (caps : Option Capabilities) (l : List ℕ) (t : ℕ)
      → find_compatible_transcoder fields sort caps l ≡ some t
      → CanTranscode caps t
  unfolding find_compatible_transcoder
  find_compatible-CanTranscode caps [] t e = ground (arith, e)
  find_compatible-CanTranscode none (u ∷ l) t e = tt
  find_compatible-CanTranscode (some c) (u ∷ l) t e =
      let rest = find_compatible_transcoder fields sort (some c) l in
      let whole = find_compatible_transcoder fields sort (some c) (u ∷ l) in
      elim (Option-cases rest) [
        | inr (v, later) ↦
            let same : whole ≡ some v = rw (find_compatible_transcoder, later) refl in
            find_compatible-CanTranscode (some c) l t (later ∙ sym same ∙ e)
        | inl none_later ↦ elim (Bool-cases (is_within c.bitstring (fields u).bitstring)) [
          | inl within ↦
              let same : whole ≡ some u =
                rw (find_compatible_transcoder, none_later, within) refl in
              subst (CanTranscode (some c)) (some_inj.0 (sym same ∙ e)) within
          | inr lacks ↦
              let same : whole ≡ none = rw (find_compatible_transcoder, none_later, lacks) refl in
              absurd (ground (arith, same, e))
        ]
      ]

  -- What holds of a choice and the manager after it, for the sessions that there were.
  abbrev pub IsChosen :
      String
      → Option Capabilities
      → List StreamSession
      → Selected
      → RemoteTranscoderManager
      → Type 0
  IsChosen name caps before (transcoder t) m =
      (is_live fields sort t m ≡ true)
      × (find_stream_session name m.stream_sessions ≡ some t)
      × (find_stream_session name before ≡ none → CanTranscode caps t)
  IsChosen name caps before no_transcoders_available m =
      (m.remote_transcoders ≡ [])
      ⊎ ((t : ℕ) × (find_compatible_transcoder fields sort caps m.remote_transcoders ≡ some t)
          × (m.load t ≡ (fields t).capacity))
  IsChosen name caps before no_compatible_transcoders_available m =
      find_compatible_transcoder fields sort caps m.remote_transcoders ≡ none

  abbrev pub PassHolds : String → Option Capabilities → RemoteTranscoderManager → Pass → Type 0
  PassHolds name caps m (returned s m') =
      IsSound fields sort m' × IsChosen name caps m.stream_sessions s m'
  PassHolds name caps m (retry m') =
      IsSound fields sort m'
      × (length m'.remote_transcoders < length m.remote_transcoders)
      × (find_stream_session name m.stream_sessions ≡ none
          → find_stream_session name m'.stream_sessions ≡ none)

  keep_assigned-PassHolds :
      (name : String) (caps : Option Capabilities) (t : ℕ) (m : RemoteTranscoderManager)
      → IsSound fields sort m
      → 1 ≤ length m.remote_transcoders
      → find_stream_session name m.stream_sessions ≡ some t
      → PassHolds name caps m (keep_assigned fields sort name t m)
  keep_assigned-PassHolds name caps t m p some_there e =
      elim (Bool-cases (is_live fields sort t m)) [
        | inl live ↦ rw (live) (p, (live, e, λ h. absurd (ground (arith, h, e))))
        | inr dead ↦
            let left = complete_stream_session fields sort name m in
            let same = complete_stream_session-length fields sort same_length name m in
            let fewer = remove_fewer t left.remote_transcoders (omega (arith, same, some_there)) in
            rw (dead) (
              other_list-IsSound fields sort _ left
                  (complete_stream_session-IsSound fields sort name m p),
              omega (arith, fewer, same),
              λ h. absurd (ground (arith, h, e)),
            )
      ]

  assign-PassHolds :
      (name : String) (caps : Option Capabilities) (t : ℕ) (m : RemoteTranscoderManager)
      → IsSound fields sort m
      → 1 ≤ length m.remote_transcoders
      → find_compatible_transcoder fields sort caps m.remote_transcoders ≡ some t
      → find_stream_session name m.stream_sessions ≡ none
      → PassHolds name caps m (assign fields sort name t m)
  assign-PassHolds name caps t m p some_there e absent =
      elim (Bool-cases (is_live fields sort t m)) [
        | inl live ↦ elim (Bool-cases (m.load t == (fields t).capacity)) [
          | inl full ↦ rw (live, full) (p, inr (t, e, (==_iff _ _).0 full))
          | inr free ↦
              let room : m.load t ≢ (fields t).capacity = λ h. ground (arith, free, h) in
              rw (live, free)
                (
                  assigned-IsSound fields sort name t _ m room p,
                  (
                    live,
                    find_stream_session_self name t m.stream_sessions,
                    λ h. find_compatible-CanTranscode caps m.remote_transcoders t e,
                  ),
                )
        ]
        | inr dead ↦ rw (dead) (
          other_list-IsSound fields sort _ m p,
          remove_fewer t m.remote_transcoders some_there,
          λ h. h,
        )
      ]

  pass_from-PassHolds :
      (name : String) (caps : Option Capabilities) (m : RemoteTranscoderManager) (l : List ℕ)
      (compatible current : Option ℕ)
      → IsSound fields sort m
      → m.remote_transcoders ≡ l
      → find_compatible_transcoder fields sort caps m.remote_transcoders ≡ compatible
      → find_stream_session name m.stream_sessions ≡ current
      → PassHolds name caps m (pass_from fields sort name m l compatible current)
  unfolding pass_from
  pass_from-PassHolds name caps m [] compatible current p e f g = (p, inl e)
  pass_from-PassHolds name caps m (r ∷ l) none current p e f g = (p, f)
  pass_from-PassHolds name caps m (r ∷ l) (some t) none p e f g =
      assign-PassHolds name caps t m p (omega (arith, ap length e)) f g
  pass_from-PassHolds name caps m (r ∷ l) (some t) (some u) p e f g =
      keep_assigned-PassHolds name caps u m p (omega (arith, ap length e)) g

  -- What a choice that was made comes to.
  abbrev pub Chosen :
      String
      → Option Capabilities
      → RemoteTranscoderManager
      → Option (Selected × RemoteTranscoderManager)
      → Type 0
  Chosen name caps m r =
      (s : Selected) × (m' : RemoteTranscoderManager) × (r ≡ some (s, m'))
      × IsSound fields sort m'
      × IsChosen name caps m.stream_sessions s m'

  IsChosen-before :
      (name : String) (caps : Option Capabilities) (before after : List StreamSession)
      (s : Selected) (m : RemoteTranscoderManager)
      → (find_stream_session name before ≡ none → find_stream_session name after ≡ none)
      → IsChosen name caps after s m
      → IsChosen name caps before s m
  IsChosen-before name caps before after (transcoder t) m keeps (live, has, can) =
      (live, has, λ h. can (keeps h))
  IsChosen-before name caps before after no_transcoders_available m keeps c = c
  IsChosen-before name caps before after no_compatible_transcoders_available m keeps c = c

  next-Chosen :
      (fuel : ℕ) (name : String) (caps : Option Capabilities) (m : RemoteTranscoderManager)
      (pass : Pass)
      → ((m' : RemoteTranscoderManager)
          → IsSound fields sort m'
          → length m'.remote_transcoders < fuel
          → Chosen name caps m' (select_loop fields sort fuel name caps m'))
      → length m.remote_transcoders ≤ fuel
      → PassHolds name caps m pass
      → Chosen name caps m (elim pass [
        | returned s m' ↦ some (s, m')
        | retry m' ↦ select_loop fields sort fuel name caps m'
      ])
  next-Chosen fuel name caps m (returned s m') ends h (p, c) = (s, m', refl, p, c)
  next-Chosen fuel name caps m (retry m') ends h (p, fewer, keeps) =
      let (s, m'', e, q, c) = ends m' p (omega (arith, fewer, h)) in
      (s, m'', e, q, IsChosen-before name caps m.stream_sessions m'.stream_sessions s m'' keeps c)

  select_loop-Chosen :
      (fuel : ℕ) (name : String) (caps : Option Capabilities) (m : RemoteTranscoderManager)
      → IsSound fields sort m
      → length m.remote_transcoders < fuel
      → Chosen name caps m (select_loop fields sort fuel name caps m)
  unfolding select_loop select_pass
  select_loop-Chosen zero name caps m p h = absurd (omega arith)
  select_loop-Chosen (suc fuel) name caps m p h =
      next-Chosen fuel name caps m (select_pass fields sort name caps m)
        (λ m' q less. select_loop-Chosen fuel name caps m' q less) (omega (arith, h))
        (pass_from-PassHolds name caps m m.remote_transcoders
          (find_compatible_transcoder fields sort caps m.remote_transcoders)
          (find_stream_session name m.stream_sessions) p refl refl refl)

  pub select_transcoder-IsChosen :
      (name : String) (caps : Option Capabilities) (m : RemoteTranscoderManager)
      → IsSound fields sort m
      → (s : Selected) × (m' : RemoteTranscoderManager) × (select_transcoder fields sort name caps m
          ≡ some (s, m'))
        × IsSound fields sort m'
        × IsChosen name caps m.stream_sessions s m'
  unfolding select_transcoder
  select_transcoder-IsChosen name caps m p =
      select_loop-Chosen (suc (length m.remote_transcoders)) name caps m p (omega arith)
