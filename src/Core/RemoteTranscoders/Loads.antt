-- ===== src/Core/RemoteTranscoders/Loads.antt =====
-- core/orchestrator.go: the load of a remote transcoder is the number of its sessions, and at most its
-- capacity.
use Prim.Native.String.{String}
use livepeer.Base.{
  ℕ, ◌+◌, ◌-◌, ◌≤◌, ◌≡◌, ◌≢◌, refl, ap, sym, ◌∙◌, subst, Bool, List, [], ◌∷◌, some, some_inj, ◌==◌,
  ==_iff, if◌then◌else◌, length, Bool-cases, Option-cases, inl, inr, arith,
}
use livepeer.Base.Maps.{string_eq, beq_self}
use livepeer.Core.RemoteTranscoders.{
  TranscoderFields, StreamSession, RemoteTranscoderManager, find_stream_session,
  delete_stream_session, complete_stream_session,
}

-- The number of sessions of a transcoder.
abbrev pub assigned : ℕ → List StreamSession → ℕ
assigned k [] = 0
assigned k ((n, t) ∷ l) = (if k == t then 1 else 0) + assigned k l

-- Deleting a session that is there takes one from its transcoder.
assigned-delete :
    (k : ℕ) (name : String) (l : List StreamSession) (t : ℕ)
    → find_stream_session name l ≡ some t
    → (if k == t then 1 else 0) + assigned k (delete_stream_session name l) ≡ assigned k l
assigned-delete k name [] t e = ground (arith, e)
assigned-delete k name ((n, u) ∷ l) t e = elim (Bool-cases (string_eq.beq name n)) [
  | inl same ↦
      let found : find_stream_session name ((n, u) ∷ l) ≡ some u = rw (same) refl in
      let u_eq : u ≡ t = some_inj.0 (sym found ∙ e) in
      rw (same) (ap (λ v. (if k == v then 1 else 0) + assigned k l) (sym u_eq))
  | inr other ↦
      let rest : find_stream_session name ((n, u) ∷ l) ≡ find_stream_session name l =
        rw (other) refl in
      let ih = assigned-delete k name l t (sym rest ∙ e) in rw (other) (omega (arith, ih))
]

pub find_stream_session_self :
    (name : String) (t : ℕ) (l : List StreamSession)
    → find_stream_session name ((name, t) ∷ l) ≡ some t
find_stream_session_self name t l = let self = beq_self name in rw (self) refl

module _ (fields : ℕ → TranscoderFields) (sort : (ℕ → ℕ → Bool) → List ℕ → List ℕ) where
  -- The load of each transcoder is the number of its sessions, and at most its capacity.
  pub record IsSound (m : RemoteTranscoderManager) : Type 0 where
    pub load : (k : ℕ) → m.load k ≡ assigned k m.stream_sessions
    pub bounded : (k : ℕ) → m.load k ≤ (fields k).capacity

  completed-IsSound :
      (name : String) (t : ℕ) (l : List ℕ) (m : RemoteTranscoderManager)
      → find_stream_session name m.stream_sessions ≡ some t
      → IsSound m
      → IsSound (record m {
        remote_transcoders = l;
        load = λ u. if u == t then m.load u - 1 else m.load u;
        stream_sessions = delete_stream_session name m.stream_sessions;
      })
  completed-IsSound name t l m e p = record {
    load = λ k.
        let one = assigned-delete k name m.stream_sessions t e in
        let load = p.load k in ground (arith, one, load);
    bounded = λ k. let bound = p.bounded k in ground (arith, bound);
  }

  pub assigned-IsSound :
      (name : String) (t : ℕ) (l : List ℕ) (m : RemoteTranscoderManager)
      → m.load t ≢ (fields t).capacity
      → IsSound m
      → IsSound (record m {
        remote_transcoders = l;
        load = λ u. if u == t then m.load u + 1 else m.load u;
        stream_sessions = (name, t) ∷ m.stream_sessions;
      })
  assigned-IsSound name t l m free p = record {
    load = λ k. let load = p.load k in ground (arith, load);
    bounded = λ k. elim (Bool-cases (k == t)) [
      | inl same ↦
          let k_eq : t ≡ k = sym ((==_iff k t).0 same) in
          let room = subst (λ j. m.load j ≢ (fields j).capacity) k_eq free in
          let bound = p.bounded k in rw (same) (omega (arith, room, bound))
      | inr other ↦ rw (other) (p.bounded k)
    ];
  }

  pub other_list-IsSound :
      (l : List ℕ) (m : RemoteTranscoderManager)
      → IsSound m
      → IsSound (record m { remote_transcoders = l })
  other_list-IsSound l m p = record { load = p.load; bounded = p.bounded }

  pub complete_stream_session-IsSound :
      (name : String) (m : RemoteTranscoderManager)
      → IsSound m
      → IsSound (complete_stream_session fields sort name m)
  unfolding complete_stream_session
  complete_stream_session-IsSound name m p =
      elim (Option-cases (find_stream_session name m.stream_sessions)) [
        | inl absent ↦ rw (complete_stream_session, absent) p
        | inr (t, here) ↦ rw (complete_stream_session, here) (completed-IsSound name t _ m here p)
      ]

  pub complete_stream_session-length :
      ((less : ℕ → ℕ → Bool) (l : List ℕ) → length (sort less l) ≡ length l)
      → (name : String) (m : RemoteTranscoderManager)
      → length (complete_stream_session fields sort name m).remote_transcoders
        ≡ length m.remote_transcoders
  unfolding complete_stream_session
  complete_stream_session-length same name m =
      elim (Option-cases (find_stream_session name m.stream_sessions)) [
        | inl absent ↦ rw (complete_stream_session, absent) refl
        | inr (t, here) ↦ rw (complete_stream_session, here) (same _ _)
      ]
