-- ===== src/Core/Accounting.antt =====
-- core/accounting.go: credit balances per address and stream. Times are nanoseconds, 0 is the zero
-- value of time.Time; every call carries the time at which it runs.
pub mod Stage
use Prim.Native.String.{String}
use livepeer.Base.{ℕ, ◌+◌, ◌-◌, ◌≡◌, Bool, Option, none, some, ltb, ◌==◌, if◌then◌else◌}
use livepeer.Base.Int.{ℤ, pos, ◌+ℤ◌, eq_ℤ}
use livepeer.Base.Maps.{insert, erase_if, empty_map, string_eq, nat_eq}
use livepeer.Base.Rat.{Rat, zero_rat, of_int, add, sub, mul, quo, leb_rat, is_int, floor}
use livepeer.Base.Words.{int64_of_int}

-- `balance`
pub record Entry : Type 0 where
  pub last_update : ℕ
  pub amount : Rat

-- `Balances`: a stream's manifest ID to its entry.
abbrev pub Balances : Type 0
Balances = String → Option Entry

-- `NewBalances`
abbrev pub new_balances : Balances
new_balances = empty_map string_eq Entry

-- The amount that a call works on: a missing entry is made with amount 0 first.
abbrev pub amount_of : Balances → String → Rat
amount_of b id = elim (b id) [ none ↦ zero_rat | some e ↦ e.amount ]

abbrev pub last_update_of : Balances → String → ℕ
last_update_of b id = elim (b id) [ none ↦ 0 | some e ↦ e.last_update ]

-- `Balances.Credit`
unfoldable pub credit : ℕ → String → Rat → Balances → Balances
credit now id amount b =
    insert id (record { last_update = now; amount = add (amount_of b id) amount }) b

-- `Balances.Debit`
unfoldable pub debit : ℕ → String → Rat → Balances → Balances
debit now id amount b =
    insert id (record { last_update = now; amount = sub (amount_of b id) amount }) b

-- `Balances.Reserve`: the time of the last update stays.
unfoldable pub reserve : String → Balances → Rat × Balances
reserve id b =
    (amount_of b id, insert id (record { last_update = last_update_of b id; amount = zero_rat }) b)

-- `Balances.Balance`
unfoldable pub balance : String → Balances → Option Rat
balance id b = elim (b id) [ none ↦ none | some e ↦ some e.amount ]

-- `Balances.cleanup`
unfoldable pub cleanup : ℕ → ℕ → Balances → Balances
cleanup ttl now = erase_if (λ e. ltb ttl (now - e.last_update))

-- `AddressBalances`
pub record AddressBalances : Type 0 where
  pub balances : ℕ → Option Balances
  pub ttl : ℕ

-- `balancesForAddr`, which makes the balances of a new address.
abbrev pub balances_for : AddressBalances → ℕ → Balances
balances_for a addr = elim (a.balances addr) [ none ↦ new_balances | some b ↦ b ]

abbrev pub store_balances : AddressBalances → ℕ → Balances → AddressBalances
store_balances a addr b = record a { balances = insert addr b a.balances }

-- `AddressBalances.Credit`, `Debit`, `Reserve` and `Balance`
unfoldable pub credit_address : ℕ → ℕ → String → Rat → AddressBalances → AddressBalances
credit_address now addr id amount a =
    store_balances a addr (credit now id amount (balances_for a addr))

unfoldable pub debit_address : ℕ → ℕ → String → Rat → AddressBalances → AddressBalances
debit_address now addr id amount a =
    store_balances a addr (debit now id amount (balances_for a addr))

unfoldable pub reserve_address : ℕ → String → AddressBalances → Rat × AddressBalances
reserve_address addr id a =
    let (amount, b) = reserve id (balances_for a addr) in (amount, store_balances a addr b)

unfoldable pub balance_address : ℕ → String → AddressBalances → Option Rat × AddressBalances
balance_address addr id a = let b = balances_for a addr in (balance id b, store_balances a addr b)

-- What `StageUpdate` returns: the number of tickets, their value, the credit before.
pub record Staged : Type 0 where
  pub size : ℤ
  pub new_credit : Rat
  pub existing_credit : Rat

-- The number of tickets for a credit gap: the quotient by the EV, rounded up.
unfoldable pub ticket_count : Rat → Rat → ℤ
ticket_count credit_gap ev =
    let size_rat = quo credit_gap ev in
    int64_of_int (if is_int size_rat then floor size_rat else floor size_rat +ℤ pos 1)

-- `StageUpdate` after the reservation. `none` is the panic of a division by an EV of 0.
unfoldable pub stage : Rat → Rat → Rat → Option Staged
stage existing min_credit ev =
    if leb_rat min_credit existing
    then some (record { size = pos 0; new_credit = zero_rat; existing_credit = existing })
    else if eq_ℤ ev.num (pos 0)
    then none
    else let size = ticket_count (sub min_credit existing) ev in
      some (record { size = size; new_credit = mul (of_int size) ev; existing_credit = existing })

-- `Balance.StageUpdate`
unfoldable pub stage_update :
    ℕ → String → Rat → Rat → AddressBalances → Option Staged × AddressBalances
unfolding reserve_address stage
stage_update addr id min_credit ev a =
    let (existing, a') = reserve_address addr id a in (stage existing min_credit ev, a')
