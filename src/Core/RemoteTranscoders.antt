-- ===== src/Core/RemoteTranscoders.antt =====
-- core/orchestrator.go: the remote transcoders of an orchestrator, and the sessions that are assigned to
-- them. Its mutex makes each call one step. A transcoder is known by its number, which stands for its
-- address in memory; the fields that never change are a parameter, and so is the sort of the library.
pub mod Removed
pub mod Loads
pub mod Chosen
pub mod Reached
mod Tests
use Prim.Native.String.{String}
use livepeer.Base.{
  ℕ, zero, suc, ◌+◌, ◌-◌, ◌*◌, Bool, true, false, List, [], ◌∷◌, ◌++◌, Option, none, some, ◌==◌,
  ltb, if◌then◌else◌, length,
}
use livepeer.Base.Maps.{string_eq}
use livepeer.Core.Capabilities.{Capabilities, is_within}

-- The fields of `RemoteTranscoder` that are set once: the number of its stream, its capacity, and the
-- bit string of its capabilities.
pub record TranscoderFields : Type 0 where
  pub stream : ℕ
  pub capacity : ℕ
  pub bitstring : List ℕ

-- A session and the transcoder that it is assigned to.
abbrev pub StreamSession : Type 0
StreamSession = String × ℕ

-- `RemoteTranscoderManager`, with the loads of the transcoders; a session has at most one entry.
pub record RemoteTranscoderManager : Type 0 where
  pub remote_transcoders : List ℕ
  pub live_transcoders : ℕ → Option ℕ
  pub stream_sessions : List StreamSession
  pub load : ℕ → ℕ

-- `NewRemoteTranscoderManager`
abbrev pub new_remote_transcoder_manager : RemoteTranscoderManager
new_remote_transcoder_manager = record {
  remote_transcoders = [];
  live_transcoders = λ stream. none;
  stream_sessions = [];
  load = λ t. 0;
}

abbrev pub find_stream_session : String → List StreamSession → Option ℕ
find_stream_session name [] = none
find_stream_session name ((n, t) ∷ l) =
    if string_eq.beq name n then some t else find_stream_session name l

abbrev pub delete_stream_session : String → List StreamSession → List StreamSession
delete_stream_session name [] = []
delete_stream_session name ((n, t) ∷ l) =
    let rest = delete_stream_session name l in if string_eq.beq name n then l else (n, t) ∷ rest

abbrev pub last_of : ℕ → List ℕ → ℕ
last_of t [] = t
last_of t (u ∷ l) = last_of u l

abbrev pub without_last : ℕ → List ℕ → List ℕ
without_last t [] = []
without_last t (u ∷ l) = t ∷ without_last u l

-- The loop of `removeFromRemoteTranscoders` from an index above 0, with the element in front of it.
abbrev pub keep_neighbours : ℕ → ℕ → List ℕ → List ℕ
keep_neighbours rt before [] = []
keep_neighbours rt before (t ∷ l) =
    let rest = keep_neighbours rt t l in if t == rt then before ∷ l else rest

-- `removeFromRemoteTranscoders`
unfoldable pub remove_from_remote_transcoders : ℕ → List ℕ → List ℕ
remove_from_remote_transcoders rt [] = []
remove_from_remote_transcoders rt (t ∷ l) =
    if rt == last_of t l then without_last t l else if t == rt then l else keep_neighbours rt t l

-- What `selectTranscoder` gives: a transcoder or one of two errors.
pub data Selected : Type 0 where
  transcoder : ℕ → Selected
  no_transcoders_available : Selected
  no_compatible_transcoders_available : Selected

-- A pass of its loop returns or goes on.
pub data Pass : Type 0 where
  returned : Selected → RemoteTranscoderManager → Pass
  retry : RemoteTranscoderManager → Pass

module _ (fields : ℕ → TranscoderFields) (sort : (ℕ → ℕ → Bool) → List ℕ → List ℕ) where
  -- `byLoadFactor.Less`: descending by load over capacity, for capacities that are not 0.
  abbrev pub has_more_load : (ℕ → ℕ) → ℕ → ℕ → Bool
  has_more_load load i j = ltb (load j * (fields i).capacity) (load i * (fields j).capacity)

  abbrev pub sort_by_load : RemoteTranscoderManager → RemoteTranscoderManager
  sort_by_load m = record m {
    remote_transcoders = sort (has_more_load m.load) m.remote_transcoders;
  }

  -- `Manage` up to the wait for the end of the stream.
  unfoldable pub register : ℕ → RemoteTranscoderManager → RemoteTranscoderManager
  register t m = sort_by_load (record m {
    live_transcoders = λ s. if s == (fields t).stream then some t else m.live_transcoders s;
    remote_transcoders = m.remote_transcoders ++ t ∷ [];
  })

  -- `Manage` when the stream has ended.
  unfoldable pub unregister : ℕ → RemoteTranscoderManager → RemoteTranscoderManager
  unregister t m = record m {
    live_transcoders = λ s. if s == (fields t).stream then none else m.live_transcoders s;
  }

  -- `completeStreamSession`; the load of a transcoder with a session is not 0.
  unfoldable pub complete_stream_session :
      String → RemoteTranscoderManager → RemoteTranscoderManager
  complete_stream_session name m = elim (find_stream_session name m.stream_sessions) [
    | none ↦ m
    | some t ↦ sort_by_load (record m {
      load = λ u. if u == t then m.load u - 1 else m.load u;
      stream_sessions = delete_stream_session name m.stream_sessions;
    })
  ]

  -- `findCompatibleTranscoder`: the last one, if any.
  unfoldable pub find_compatible_transcoder : Option Capabilities → List ℕ → Option ℕ
  find_compatible_transcoder caps [] = none
  find_compatible_transcoder caps (t ∷ l) =
      let here : Option ℕ = elim caps [
        | none ↦ some t
        | some c ↦ if is_within c.bitstring (fields t).bitstring then some t else none
      ] in
      elim (find_compatible_transcoder caps l) [ none ↦ here | some u ↦ some u ]

  abbrev pub is_live : ℕ → RemoteTranscoderManager → Bool
  is_live t m = elim (m.live_transcoders (fields t).stream) [ none ↦ false | some u ↦ true ]

  -- The end of a pass with the transcoder that a session has already.
  abbrev pub keep_assigned : String → ℕ → RemoteTranscoderManager → Pass
  keep_assigned name t m =
      let left = complete_stream_session name m in
      if is_live t m
      then returned (transcoder t) m
      else retry (record left {
        remote_transcoders = remove_from_remote_transcoders t left.remote_transcoders;
      })

  -- The end of a pass with a transcoder for a new session.
  abbrev pub assign : String → ℕ → RemoteTranscoderManager → Pass
  assign name t m =
      let assigned = sort_by_load (record m {
        stream_sessions = (name, t) ∷ m.stream_sessions;
        load = λ u. if u == t then m.load u + 1 else m.load u;
      }) in
      if is_live t m
      then if m.load t == (fields t).capacity
        then returned no_transcoders_available m
        else returned (transcoder t) assigned
      else retry
          (record m { remote_transcoders = remove_from_remote_transcoders t m.remote_transcoders })

  -- A pass, from the transcoders, the compatible one, and the one that the session has.
  unfoldable pub pass_from : String → RemoteTranscoderManager → List ℕ → Option ℕ → Option ℕ → Pass
  unfolding complete_stream_session remove_from_remote_transcoders
  pass_from name m [] compatible current = returned no_transcoders_available m
  pass_from name m (r ∷ l) none current = returned no_compatible_transcoders_available m
  pass_from name m (r ∷ l) (some t) none = assign name t m
  pass_from name m (r ∷ l) (some t) (some u) = keep_assigned name u m

  -- A pass of the loop of `selectTranscoder`.
  unfoldable pub select_pass : String → Option Capabilities → RemoteTranscoderManager → Pass
  unfolding pass_from find_compatible_transcoder
  select_pass name caps m =
      pass_from name m m.remote_transcoders (find_compatible_transcoder caps m.remote_transcoders)
        (find_stream_session name m.stream_sessions)

  -- The loop, with fuel; none stands for a loop that has not ended.
  unfoldable pub select_loop :
      ℕ
      → String
      → Option Capabilities
      → RemoteTranscoderManager
      → Option (Selected × RemoteTranscoderManager)
  select_loop zero name caps m = none
  select_loop (suc fuel) name caps m = elim (select_pass name caps m) [
    | returned s m' ↦ some (s, m')
    | retry m' ↦ select_loop fuel name caps m'
  ]

  -- `selectTranscoder`: a pass that goes on removes a transcoder.
  unfoldable pub select_transcoder :
      String
      → Option Capabilities
      → RemoteTranscoderManager
      → Option (Selected × RemoteTranscoderManager)
  unfolding select_loop
  select_transcoder name caps m = select_loop (suc (length m.remote_transcoders)) name caps m
