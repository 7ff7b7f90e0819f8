-- ===== src/Server/Selection.antt =====
-- server/selection.go: the stake weighted choice of a session without a latency score, and the LIFO
-- selector. Stakes are not negative, and their sum fits an int64.
pub mod Weighted
pub mod Selector
pub mod Lifo
pub mod MinLatency
use Prim.Native.String.{String}
use livepeer.Base.{
  ℕ, zero, suc, ◌+◌, ◌-◌, Bool, List, [], ◌∷◌, ◌++◌, Option, none, some, leb, if◌then◌else◌,
}
use livepeer.Base.Maps.{nat_eq}
use livepeer.Base.Rat.{Rat}

-- `OrchestratorScore`: the two scores that the code knows, and any other number.
pub data Score : Type 0 where
  score_untrusted : Score
  score_trusted : Score
  score_other : Score

-- `BroadcastSession`: its number, which stands for its address in memory, the recipient of its ticket
-- parameters, if it has any, its latency score, a finite float as a fraction, the address of its
-- transcoder, and the score of its orchestrator.
pub record Session : Type 0 where
  pub id : ℕ
  pub transcoder : String
  pub score : Score
  pub recipient : Option ℕ
  pub latency_score : Rat

-- `stakes[addr] = 0`; an address that the store does not know has stake 0 too.
abbrev pub without_stake : ℕ → (ℕ → ℕ) → ℕ → ℕ
without_stake addr stakes a = if nat_eq.beq a addr then 0 else stakes a

abbrev pub next_index : Option (ℕ × Session) → Option (ℕ × Session)
next_index none = none
next_index (some (i, s)) = some (i + 1, s)

-- The last loop of `selectUnknownSession`: the index and the session that is chosen for a random
-- number that was drawn between 1 and the sum of the stakes.
unfoldable pub pick : (ℕ → ℕ) → ℕ → List Session → Option (ℕ × Session)
pick stakes r [] = none
pick stakes r (s ∷ sessions) = elim s.recipient [
  | none ↦ next_index (pick stakes r sessions)
  | some addr ↦
      let rest = next_index (pick (without_stake addr stakes) (r - stakes addr) sessions) in
      if leb r (stakes addr) then some (0, s) else rest
]

-- `LIFOSelector`
abbrev pub LifoSelector : Type 0
LifoSelector = List Session

-- `LIFOSelector.Add` and `Complete`
unfoldable pub add_lifo : List Session → LifoSelector → LifoSelector
add_lifo sessions l = sessions ++ l

unfoldable pub complete_lifo : Session → LifoSelector → LifoSelector
complete_lifo s l = l ++ (s ∷ [])

-- A session in front of what `Select` gives of the sessions after it.
abbrev pub keep_first : Session → Option Session × LifoSelector → Option Session × LifoSelector
keep_first s (none, l) = (some s, [])
keep_first s (some last, l) = (some last, s ∷ l)

-- `LIFOSelector.Select`: the last session, or none.
unfoldable pub select_lifo : LifoSelector → Option Session × LifoSelector
select_lifo [] = (none, [])
select_lifo (s ∷ l) = keep_first s (select_lifo l)
