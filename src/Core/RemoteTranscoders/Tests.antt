-- ===== src/Core/RemoteTranscoders/Tests.antt =====
-- core/orchestrator.go: remote transcoders at concrete inputs.
use livepeer.Base.{
  ℕ, suc, ◌≡◌, ◌≢◌, refl, Bool, List, [], ◌∷◌, ◌++◌, Option, none, some, ◌==◌, if◌then◌else◌,
  length, Bool-cases, inl, inr, ap, ◌∙◌,
}
use livepeer.Core.RemoteTranscoders.{
  TranscoderFields, RemoteTranscoderManager, new_remote_transcoder_manager, Selected,
  no_transcoders_available, register, complete_stream_session, select_transcoder,
  remove_from_remote_transcoders, select_pass,
}
use livepeer.Core.RemoteTranscoders.Loads.{IsSound}
use livepeer.Core.RemoteTranscoders.Removed.{IsAbsent, remove_from_remote_transcoders-lost}
use livepeer.Core.RemoteTranscoders.Reached.{new, registers, completes, Reach-IsSound}

abbrev fields : ℕ → TranscoderFields
fields t = record { stream = t; capacity = 2; bitstring = 3 ∷ [] }

abbrev insert_sorted : (ℕ → ℕ → Bool) → ℕ → List ℕ → List ℕ
insert_sorted less t [] = t ∷ []
insert_sorted less t (u ∷ l) =
    let rest = insert_sorted less t l in if less u t then u ∷ rest else t ∷ (u ∷ l)

abbrev sort : (ℕ → ℕ → Bool) → List ℕ → List ℕ
sort less [] = []
sort less (t ∷ l) = insert_sorted less t (sort less l)

length-insert_sorted :
    (less : ℕ → ℕ → Bool) (t : ℕ) (l : List ℕ) → length (insert_sorted less t l) ≡ suc (length l)
length-insert_sorted less t [] = refl
length-insert_sorted less t (u ∷ l) = elim (Bool-cases (less u t)) [
  | inl more ↦ rw (more) (ap suc (length-insert_sorted less t l))
  | inr other ↦ rw (other) refl
]

length-sort : (less : ℕ → ℕ → Bool) (l : List ℕ) → length (sort less l) ≡ length l
length-sort less [] = refl
length-sort less (t ∷ l) = length-insert_sorted less t (sort less l) ∙ ap suc (length-sort less l)

-- Two sessions have the transcoder 7, whose stream has ended.
abbrev two_left : RemoteTranscoderManager
two_left = record {
  remote_transcoders = 7 ∷ 1 ∷ 2 ∷ [];
  live_transcoders = λ s. if s == 7 then none else some s;
  stream_sessions = ("a", 7) ∷ ("b", 7) ∷ [];
  load = λ t. if t == 7 then 2 else 0;
}

abbrev manager_of : Option (Selected × RemoteTranscoderManager) → RemoteTranscoderManager
manager_of none = two_left
manager_of (some (s, m)) = m

abbrev chosen_of : Option (Selected × RemoteTranscoderManager) → Option Selected
chosen_of none = none
chosen_of (some (s, m)) = some s

-- The first of the two sessions gets another transcoder, and both others are kept.
first_moves :
    (manager_of (select_transcoder fields sort "a" none two_left)).remote_transcoders ≡ 2 ∷ 1 ∷ []
unfolding select_transcoder select_pass
first_moves = refl

-- The second one finds none, although both others are live and free: removing the transcoder
-- once more has emptied the list.
second_fails :
    chosen_of (
      select_transcoder fields sort "b" none
        (manager_of (select_transcoder fields sort "a" none two_left)))
    ≡ some no_transcoders_available
unfolding select_transcoder select_pass
second_fails = refl

Reach-IsSound_example :
    IsSound fields sort (
      complete_stream_session fields sort "a"
        (register fields sort 1 new_remote_transcoder_manager))
Reach-IsSound_example = Reach-IsSound fields sort length-sort _ (completes "a" (registers 1 new))

abbrev lost : ℕ
lost = 7

remove_from_remote_transcoders-lost_example :
    (lost ≢ 1
      → IsAbsent lost (2 ∷ lost ∷ 3 ∷ [])
      → remove_from_remote_transcoders lost (1 ∷ 2 ∷ lost ∷ 3 ∷ []) ≡ [])
    × ((first : List ℕ) (u a : ℕ) (after : List ℕ)
        → 2 ∷ lost ∷ 3 ∷ [] ≡ first ++ (u ∷ (lost ∷ (a ∷ after)))
        → IsAbsent lost (1 ∷ first)
        → lost ≢ u
        → IsAbsent lost (a ∷ after)
        → remove_from_remote_transcoders lost (1 ∷ 2 ∷ lost ∷ 3 ∷ []) ≡ u ∷ (a ∷ after))
remove_from_remote_transcoders-lost_example =
    remove_from_remote_transcoders-lost lost 1 (2 ∷ lost ∷ 3 ∷ [])

-- The transcoder 1 is lost with the transcoder 7.
one_lost : remove_from_remote_transcoders 7 (1 ∷ 2 ∷ 7 ∷ 3 ∷ []) ≡ 2 ∷ 3 ∷ []
unfolding remove_from_remote_transcoders
one_lost = refl
