-- ===== src/Server/Suspensions.antt =====
-- server/suspensions.go: which orchestrators are suspended. Each call holds the mutex, so it is one
-- step. Penalties and counts are small numbers that are not negative.
pub mod Duration
use Prim.Native.String.{String}
use livepeer.Base.{ℕ, ◌+◌, Option, none, some, ltb, if◌then◌else◌}
use livepeer.Base.Maps.{insert, erase, empty_map, string_eq}

-- `suspender`
pub record Suspender : Type 0 where
  pub list : String → Option ℕ
  pub count : ℕ

-- `newSuspender`
abbrev pub new_suspender : Suspender
new_suspender = record { list = empty_map string_eq ℕ; count = 0 }

-- The zero value of a missing key.
abbrev pub or_zero : Option ℕ → ℕ
or_zero none = 0
or_zero (some n) = n

-- `s.list[orch]`, which is 0 for a missing key
abbrev pub listed : String → Suspender → ℕ
listed orch s = or_zero (s.list orch)

-- `suspend`
unfoldable pub suspend : String → ℕ → Suspender → Suspender
suspend orch penalty s = record s { list = insert orch (listed orch s + penalty) s.list }

-- `Suspended`
unfoldable pub suspended : String → Suspender → ℕ × Suspender
suspended orch s =
    let s' : Suspender =
      if ltb (listed orch s) s.count then record s { list = erase orch s.list } else s in
    (listed orch s', s')

-- `signalRefresh`
unfoldable pub signal_refresh : Suspender → Suspender
signal_refresh s = record s { count = s.count + 1 }
