-- ===== src/Server/SessionsManager/Results.antt =====
-- server/broadcast.go: which of the results of a segment is used. The results arrive in any order.
-- Downloads, the comparison of perceptual hashes and which errors are not retried are parameters.
pub mod Checked
use Prim.Native.String.{String}
use livepeer.Base.{
  ℕ, ◌+◌, Bool, true, false, List, [], ◌∷◌, ◌++◌, Option, none, some, ◌==◌, if◌then◌else◌, length,
  get_elem?,
}
use livepeer.Server.Selection.{Session}
use livepeer.Server.Selection.Selector.{Selector}
use livepeer.Server.SessionsManager.{
  SessionsManager, Managed, is_trusted, suspend_and_remove_orch, session_verified,
  complete_session_unsafe, complete_each,
}
use livepeer.Server.SessionPool.{remove_session_from_list}

-- The addresses of the perceptual hashes of the segments of a `ReceivedTranscodeResult`.
abbrev pub TranscodeResult : Type 0
TranscodeResult = List String

-- `SubmitResult`, with the errors of a type.
pub record SubmitResult (E : Type 0) : Type 0 where
  pub session : Session
  pub transcode_result : Option TranscodeResult
  pub err : Option E

-- A result that came without an error.
pub record Received : Type 0 where
  pub session : Session
  pub segments : TranscodeResult

-- What `collectResults` gives: the trusted result, the untrusted ones, and the last error.
pub record Collected (E : Type 0) : Type 0 where
  pub trusted : Option Received
  pub untrusted : List Received
  pub err : Option E

abbrev pub is_session : Option Session → Session → Bool
is_session none s = false
is_session (some t) s = t.id == s.id

-- A received result among the others: the verified session's goes first.
unfoldable pub collect_received :
    {E : Type 0} → Option Session → Received → Collected E → Collected E
collect_received verified res c =
    if is_trusted res.session
    then record c { trusted = some res }
    else if is_session verified res.session
    then record c { untrusted = res ∷ c.untrusted }
    else record c { untrusted = c.untrusted ++ res ∷ [] }

-- What `chooseResults` gives: a result, an error, or a panic where an index is out of range.
pub data Choice (E : Type 0) : Type 0 where
  chosen : Received → Choice E
  no_results : Option E → Choice E
  download_failed : String → Choice E
  panicked : Choice E

-- What the loop over the untrusted results gives: the choice, and whether it is the verified one.
pub record Verified (E : Type 0) : Type 0 where
  pub choice : Choice E
  pub is_equal : Bool
  pub to_suspend : List Session

abbrev pub unverified : {E : Type 0} → Choice E → Verified E
unverified c = record { choice = c; is_equal = false; to_suspend = [] }

module _ {S : Type 0} (selector : Selector S) {E : Type 0} (is_non_retryable : E → Bool) where
  abbrev pub collect_error : SubmitResult E → Managed S → Option (Managed S)
  collect_error res (flights, m) = elim res.err [
    | none ↦ some (flights, m)
    | some e ↦
        if is_non_retryable e
        then complete_session_unsafe selector res.session (flights, m)
        else some (flights, suspend_and_remove_orch res.session m)
  ]

  -- A round of the loop of `collectResults`.
  abbrev pub collect_result : SubmitResult E → Option Session → Collected E → Collected E
  collect_result res verified c = elim res.err [
    | some e ↦ record c { err = some e }
    | none ↦ elim res.transcode_result [
      | none ↦ c
      | some segments ↦
          collect_received verified (record { session = res.session; segments = segments }) c
    ]
  ]

  -- `collectResults`, from the results in the order in which they arrive; none stands for a panic.
  unfoldable pub collect_results :
      List (SubmitResult E) → Collected E → Managed S → Option (Collected E × Managed S)
  unfolding collect_received
  collect_results [] c managed = some (c, managed)
  collect_results (res ∷ l) c managed = elim (collect_error res managed) [
    | none ↦ none
    | some managed' ↦ collect_results l (collect_result res managed.1.verified_session c) managed'
  ]

unfoldable pub suspend_each : {S : Type 0} → List Session → SessionsManager S → SessionsManager S
suspend_each [] m = m
suspend_each (s ∷ l) m = suspend_each l (suspend_and_remove_orch s m)

-- What the loop leaves behind: the verified session, and the suspended ones.
unfoldable pub apply_verified : {S E : Type 0} → Verified E → SessionsManager S → SessionsManager S
unfolding suspend_each
apply_verified v m = elim v.choice [
  | chosen u ↦ if v.is_equal then suspend_each v.to_suspend (session_verified u.session m) else m
  | no_results e ↦ m
  | download_failed url ↦ m
  | panicked ↦ m
]

module _ {E H : Type 0} (get_segment_data : String → Option H) (compare_hashes : H → H → Bool) where
  -- The loop of `chooseResults` over the untrusted results, with the sessions to suspend so far.
  unfoldable pub verify_untrusted : H → ℕ → Received → List Session → List Received → Verified E
  verify_untrusted hash i trusted to_suspend [] = record {
    choice = chosen trusted;
    is_equal = false;
    to_suspend = to_suspend;
  }
  verify_untrusted hash i trusted to_suspend (u ∷ l) =
      let rest = verify_untrusted hash i trusted (to_suspend ++ u.session ∷ []) l in
      let equal : Verified E = record {
        choice = chosen u;
        is_equal = true;
        to_suspend = to_suspend;
      } in
      elim (get_elem? u.segments i) [
        | none ↦ unverified panicked
        | some url ↦ elim (get_segment_data url) [
          | none ↦ unverified (download_failed url)
          | some hash' ↦ if compare_hashes hash hash' then equal else rest
        ]
      ]

  -- The choice of `chooseResults`, where trusted and untrusted results were received; `draw` is
  -- `rand.Intn`.
  unfoldable pub check_results : (ℕ → ℕ) → Received → List Received → Verified E
  unfolding verify_untrusted
  check_results draw trusted l =
      let i = draw (length trusted.segments) in
      elim (get_elem? trusted.segments i) [
        | none ↦ unverified panicked
        | some url ↦ elim (get_segment_data url) [
          | none ↦ unverified (download_failed url)
          | some hash ↦ verify_untrusted hash i trusted [] l
        ]
      ]

  -- `chooseResults`, from what was collected.
  unfoldable pub choose_results : (ℕ → ℕ) → Collected E → Verified E
  unfolding check_results
  choose_results draw c = elim c.trusted [
    | none ↦ elim c.untrusted [ [] ↦ unverified (no_results c.err) | u ∷ l ↦ unverified (chosen u) ]
    | some t ↦ elim c.untrusted [
      | [] ↦ unverified (chosen t)
      | u ∷ l ↦ check_results draw t (u ∷ l)
    ]
  ]

module _ {S : Type 0} (selector : Selector S) {E H : Type 0} (is_non_retryable : E → Bool)
    (get_segment_data : String → Option H) (compare_hashes : H → H → Bool) where
  -- `chooseResults`, with what it does to the manager; none stands for the panic on an unknown score.
  unfoldable pub choose_managed :
      (ℕ → ℕ) → List (SubmitResult E) → Managed S → Option (Choice E × Managed S)
  unfolding collect_results choose_results apply_verified
  choose_managed draw results managed =
      let start : Collected E = record { trusted = none; untrusted = []; err = none } in
      elim (collect_results selector is_non_retryable results start managed) [
        | none ↦ none
        | some (c, (flights, m)) ↦
            let v = choose_results get_segment_data compare_hashes draw c in
            some (v.choice, (flights, apply_verified v m))
      ]

-- The end of `transcodeSegment` with several sessions: those that are not used are completed.
unfoldable pub complete_unused :
    {S : Type 0} → Selector S → List Session → Session → Managed S → Option (Managed S)
complete_unused selector sessions used managed =
    complete_each selector (remove_session_from_list sessions used) managed
