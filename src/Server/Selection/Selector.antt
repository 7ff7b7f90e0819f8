-- ===== src/Server/Selection/Selector.antt =====
-- server/selection.go: the interface of a selector of sessions, as the pools of server/broadcast.go
-- use it, and what they rely on.
use livepeer.Base.{ℕ, ◌+◌, ◌≡◌, List, Option, none, some}
use livepeer.Server.Selection.{Session}
use livepeer.Server.Selection.MinLatency.Count.{count, count_some, one_of}

-- `BroadcastSessionsSelector`
pub record Selector (S : Type 0) : Type 0 where
  pub add : List Session → S → S
  pub complete : Session → S → S
  pub select : S → Option Session × S
  pub size : S → ℕ
  pub clear : S → S

abbrev pub size_some : Option Session → ℕ
size_some none = 0
size_some (some s) = 1

-- A selector loses and repeats no session: what is added or completed is there, what is selected is
-- there no more. `holds k` says how often the session with the number k stands in it, and `IsGood`
-- is what the selector keeps of itself.
pub record SelectorLaws {S : Type 0} (sel : Selector S) : Type 1 where
  pub IsGood : S → Type 0
  pub holds : ℕ → S → ℕ
  pub add-IsGood : (l : List Session) (s : S) → IsGood s → IsGood (sel.add l s)
  pub complete-IsGood : (x : Session) (s : S) → IsGood s → IsGood (sel.complete x s)
  pub select-IsGood : (s : S) → IsGood s → IsGood (sel.select s).1
  pub clear-IsGood : (s : S) → IsGood s → IsGood (sel.clear s)
  pub holds-add :
      (k : ℕ) (l : List Session) (s : S) → IsGood s → holds k (sel.add l s) ≡ count k l + holds k s
  pub holds-complete :
      (k : ℕ) (x : Session) (s : S) → IsGood s → holds k (sel.complete x s) ≡ one_of k x + holds k s
  pub holds-select :
      (k : ℕ) (s : S)
      → IsGood s
      → count_some k (sel.select s).0 + holds k (sel.select s).1 ≡ holds k s
  pub holds-clear : (k : ℕ) (s : S) → IsGood s → holds k (sel.clear s) ≡ 0
  pub size-select :
      (s : S) → IsGood s → sel.size s ≡ size_some (sel.select s).0 + sel.size (sel.select s).1
