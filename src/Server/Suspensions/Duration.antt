-- ===== src/Server/Suspensions/Duration.antt =====
-- server/suspensions.go: how long a suspension lasts.
use Prim.Native.String.{String}
use livepeer.Base.{
  ℕ, zero, suc, ◌+◌, ◌≤◌, ◌≡◌, ◌≢◌, ◌↔◌, refl, ap, ◌∙◌, Bool-cases, inl, inr, ltb, if◌then◌else◌,
  arith,
}
use livepeer.Base.Maps.{insert_self, erase, erase_self, string_eq}
use livepeer.Server.Suspensions.{Suspender, or_zero, listed, suspend, suspended, signal_refresh}

-- Some refreshes in a row.
unfoldable pub refresh_times : ℕ → Suspender → Suspender
refresh_times zero s = s
refresh_times (suc k) s = signal_refresh (refresh_times k s)

refresh_times-count : (k : ℕ) (s : Suspender) → (refresh_times k s).count ≡ s.count + k
unfolding refresh_times signal_refresh
refresh_times-count zero s = omega arith
refresh_times-count (suc k) s = let ih = refresh_times-count k s in omega arith

refresh_times-list : (k : ℕ) (s : Suspender) → (refresh_times k s).list ≡ s.list
unfolding refresh_times signal_refresh
refresh_times-list zero s = refl
refresh_times-list (suc k) s = refresh_times-list k s

listed-erase :
    (orch : String) (s : Suspender) → listed orch (record s { list = erase orch s.list }) ≡ 0
listed-erase orch s = ap or_zero (erase_self orch s.list)

-- An orchestrator that is listed below the refresh count is not suspended, any other has the
-- penalty that is listed.
suspended-listed :
    (orch : String) (s : Suspender)
    → (suspended orch s).0 ≡ (if ltb (listed orch s) s.count then 0 else listed orch s)
unfolding suspended
suspended-listed orch s = elim (Bool-cases (ltb (listed orch s) s.count)) [
  | inl low ↦ rw (low) (listed-erase orch s)
  | inr high ↦ rw (high)
]

suspended_cases :
    (orch : String) (s : Suspender)
    → ((suspended orch s).0 ≢ 0) ↔ ((s.count ≤ listed orch s) × (listed orch s ≢ 0))
suspended_cases orch s = ground (arith, suspended-listed orch s)

-- An orchestrator that is suspended for a penalty is still suspended after some refreshes exactly if
-- the refresh count does not exceed what was listed for it with the penalty, and this is not 0:
-- the count at which the suspension was made is not added.
pub suspended_iff :
    (orch : String) (penalty k : ℕ) (s : Suspender)
    → ((suspended orch (refresh_times k (suspend orch penalty s))).0 ≢ 0)
      ↔ ((s.count + k ≤ listed orch s + penalty) × (listed orch s + penalty ≢ 0))
suspended_iff orch penalty k s =
    let later = refresh_times k (suspend orch penalty s) in
    let cases = suspended_cases orch later in
    let count : later.count ≡ s.count + k =
      refresh_times-count k (suspend orch penalty s) ∙ unfold suspend in refl in
    let list : listed orch later ≡ listed orch s + penalty =
      ap (λ m. or_zero (m orch)) (refresh_times-list k (suspend orch penalty s))
      ∙ unfold suspend in ap or_zero (insert_self orch (listed orch s + penalty) s.list) in
    ground (arith, cases, count, list)
