-- ===== src/Core/RemoteTranscoders/Reached.antt =====
-- core/orchestrator.go: the calls on the manager of remote transcoders, in any order.
use Prim.Native.String.{String}
use livepeer.Base.{
  ℕ, ◌≡◌, refl, ap, sym, ◌∙◌, subst, Bool, List, Option, some, some_inj, length, arith,
}
use livepeer.Core.Capabilities.{Capabilities}
use livepeer.Core.RemoteTranscoders.{
  TranscoderFields, RemoteTranscoderManager, new_remote_transcoder_manager, Selected, register,
  unregister, complete_stream_session, select_transcoder,
}
use livepeer.Core.RemoteTranscoders.Loads.{IsSound, complete_stream_session-IsSound}
use livepeer.Core.RemoteTranscoders.Chosen.{select_transcoder-IsChosen}

module _ (fields : ℕ → TranscoderFields) (sort : (ℕ → ℕ → Bool) → List ℕ → List ℕ) where
  -- The managers that calls lead to.
  pub data Reach : RemoteTranscoderManager → Type 0 where
    new : Reach new_remote_transcoder_manager
    registers : {m : RemoteTranscoderManager} (t : ℕ) → Reach m → Reach (register fields sort t m)
    unregisters :
        {m : RemoteTranscoderManager} (t : ℕ) → Reach m → Reach (unregister fields sort t m)
    completes :
        {m : RemoteTranscoderManager} (name : String)
        → Reach m
        → Reach (complete_stream_session fields sort name m)
    selects :
        {m m' : RemoteTranscoderManager} (name : String) (caps : Option Capabilities) (s : Selected)
        → Reach m
        → select_transcoder fields sort name caps m ≡ some (s, m')
        → Reach m'

  module _
      (same_length : (less : ℕ → ℕ → Bool) (l : List ℕ) → length (sort less l) ≡ length l) where
    selected-IsSound :
        (name : String) (caps : Option Capabilities) (s : Selected) (m m' : RemoteTranscoderManager)
        → IsSound fields sort m
        → select_transcoder fields sort name caps m ≡ some (s, m')
        → IsSound fields sort m'
    selected-IsSound name caps s m m' p e =
        let (s', q, e', sound, c) =
          select_transcoder-IsChosen fields sort same_length name caps m p in
        subst (IsSound fields sort) (ap (λ r. r.1) (some_inj.0 (sym e' ∙ e))) sound

    -- Whatever calls are made on a new manager, the load of each transcoder is the number of the
    -- sessions that it has, and at most its capacity.
    pub Reach-IsSound : (m : RemoteTranscoderManager) → Reach m → IsSound fields sort m
    unfolding register unregister
    Reach-IsSound m new = record { load = λ k. refl; bounded = λ k. omega arith }
    Reach-IsSound m (registers t r) =
        let p = Reach-IsSound _ r in record { load = p.load; bounded = p.bounded }
    Reach-IsSound m (unregisters t r) =
        let p = Reach-IsSound _ r in record { load = p.load; bounded = p.bounded }
    Reach-IsSound m (completes {m = before} name r) =
        complete_stream_session-IsSound fields sort name before (Reach-IsSound before r)
    Reach-IsSound m (selects {m = before} name caps s r e) =
        selected-IsSound name caps s before m (Reach-IsSound before r) e
