-- ===== src/Eth/TransactionManager.antt =====
-- eth/transactionManager.go: sending transactions, and replacing those that are not mined in time. What
-- the node, the signer and the gas price monitor answer is an argument of each attempt.
pub mod Bumped
pub mod Replaced
mod Tests
use livepeer.Base.{
  ℕ, zero, suc, ◌+◌, ◌-◌, ◌*◌, ◌/◌, Bool, true, false, List, [], ◌∷◌, ◌++◌, Option, none, some, ltb,
  leb, if◌then◌else◌, length,
}

-- `priceBump`
abbrev pub price_bump : ℕ
price_bump = 11

-- The prices of a transaction: of a legacy one, or the cap of the fee and of the tip.
pub data Fees : Type 0 where
  legacy : (gas_price : ℕ) → Fees
  dynamic : (gas_fee_cap gas_tip_cap : ℕ) → Fees

-- A transaction without its signature.
pub record RawTransaction : Type 0 where
  pub nonce : ℕ
  pub fees : Fees
  pub gas : ℕ
  pub to : Option ℕ
  pub value : ℕ
  pub payload : List ℕ

-- A signed transaction, with its hash.
pub record Transaction : Type 0 where
  pub raw : RawTransaction
  pub hash : ℕ

-- `applyPriceBump`, rounded up.
unfoldable pub apply_price_bump : ℕ → ℕ
apply_price_bump val = ((100 + price_bump) * val + 99) / 100

-- `GasFeeCap` and `GasTipCap` of go-ethereum: for a legacy transaction both are its gas price, never nil.
abbrev pub gas_fee_cap : Fees → ℕ
gas_fee_cap (legacy gas_price) = gas_price
gas_fee_cap (dynamic fee tip) = fee

abbrev pub gas_tip_cap : Fees → ℕ
gas_tip_cap (legacy gas_price) = gas_price
gas_tip_cap (dynamic fee tip) = tip

-- `calcGasPrice`, whose branch for a nil cap is never taken; `big.Int.Div` rounds down where the tip is
-- above the cap of the fee.
unfoldable pub calc_gas_price : Fees → ℕ
calc_gas_price f =
    let fee = gas_fee_cap f in
    let tip = gas_tip_cap f in
    if leb tip fee then (fee - tip) / 2 + tip else tip - (tip - fee + 1) / 2

-- The replacement is a dynamic fee transaction, since the cap is never nil.
abbrev pub bump_fees : Fees → Fees
bump_fees f = dynamic (apply_price_bump (gas_fee_cap f)) (apply_price_bump (gas_tip_cap f))

-- `newReplacementTx`
unfoldable pub new_replacement_tx : Transaction → RawTransaction
new_replacement_tx tx = record tx.raw { fees = bump_fees tx.raw.fees }

-- What `TransactionByHash` answers.
pub data Lookup : Type 0 where
  pending mined not_found lookup_error : Lookup

-- Why a transaction has no receipt.
pub data TxError : Type 0 where
  deadline_exceeded wait_failed lookup_failed replacing_mined_tx exceeds_max_gas_price : TxError
  sign_failed send_failed : TxError

-- What `wait` gives: a receipt by its number, or an error.
pub data Waited : Type 0 where
  receipt : ℕ → Waited
  not_mined : TxError → Waited

-- The answers in an attempt to replace a transaction: of the lookup, the highest gas price if there is
-- one, the hash of the signed transaction if it can be signed, whether sending succeeds, and
-- what comes of the wait.
pub record Attempt : Type 0 where
  pub lookup : Lookup
  pub max_gas_price : Option ℕ
  pub sign : RawTransaction → Option ℕ
  pub is_sent : Bool
  pub waited : Waited

-- What `replace` gives: the transaction, where one was signed, and an error.
pub record Replacement : Type 0 where
  pub tx : Option Transaction
  pub err : Option TxError

abbrev pub refused : TxError → Replacement
refused e = record { tx = none; err = some e }

abbrev pub is_too_high : Option ℕ → ℕ → Bool
is_too_high none price = false
is_too_high (some m) price = ltb m price

abbrev pub signed : Attempt → RawTransaction → Option ℕ → Replacement
signed a raw none = refused sign_failed
signed a raw (some hash) = record {
  tx = some (record { raw = raw; hash = hash });
  err = if a.is_sent then none else some send_failed;
}

abbrev pub bump : Attempt → RawTransaction → Replacement
bump a raw =
    if is_too_high a.max_gas_price (calc_gas_price raw.fees)
    then refused exceeds_max_gas_price
    else signed a raw (a.sign raw)

-- What follows on the lookup of the transaction.
abbrev pub after_lookup : Attempt → Transaction → Lookup → Replacement
after_lookup a tx pending = bump a (new_replacement_tx tx)
after_lookup a tx not_found = bump a (new_replacement_tx tx)
after_lookup a tx mined = refused replacing_mined_tx
after_lookup a tx lookup_error = refused lookup_failed

-- `replace`
unfoldable pub replace : Attempt → Transaction → Replacement
replace a tx = after_lookup a tx a.lookup

-- What comes of a transaction: the replacements that were submitted, and the last answer.
pub record Checked : Type 0 where
  pub submitted : List Transaction
  pub waited : Waited

abbrev pub submit : Transaction → Checked → Checked
submit t c = record c { submitted = t ∷ c.submitted }

abbrev pub ended : List Transaction → TxError → Checked
ended l e = record { submitted = l; waited = not_mined e }

-- The rest of a round of the loop, from what `replace` gave.
abbrev pub after_replace : (Transaction → Checked) → Replacement → Checked
after_replace rest r = elim r.tx [
  | none ↦ elim r.err [
    | none ↦ record { submitted = []; waited = not_mined deadline_exceeded }
    | some e ↦ ended [] e
  ]
  | some t ↦ elim r.err [ none ↦ submit t (rest t) | some e ↦ ended (t ∷ []) e ]
]

-- The loop over the replacements, with the number of those that are left and the index of the next.
unfoldable pub replace_loop : ℕ → (ℕ → Attempt) → ℕ → Transaction → Waited → Checked
replace_loop zero attempts i tx waited = record { submitted = []; waited = waited }
replace_loop (suc n) attempts i tx (receipt r) = record { submitted = []; waited = receipt r }
replace_loop (suc n) attempts i tx (not_mined deadline_exceeded) =
    let a = attempts i in
    after_replace (λ t. replace_loop n attempts (i + 1) t a.waited) (replace a tx)
replace_loop (suc n) attempts i tx (not_mined e) = ended [] e

-- `transactionReceipt`
pub record TransactionReceipt : Type 0 where
  pub origin_tx_hash : ℕ
  pub waited : Waited

-- `TransactionManager`, with the receipts that were sent to its subscribers, oldest first.
pub record TransactionManager : Type 0 where
  pub max_replacements : ℕ
  pub queue : List Transaction
  pub feed : List TransactionReceipt

-- `SendTransaction`, with whether the node takes it.
unfoldable pub send_transaction :
    Bool → Transaction → TransactionManager → Bool × TransactionManager
send_transaction taken tx m = (taken, if taken then record m { queue = m.queue ++ tx ∷ [] } else m)

-- What is answered while a transaction is checked: the first wait, and the attempts.
pub record Answers : Type 0 where
  pub first : Waited
  pub attempts : ℕ → Attempt

-- `pop`, and a pass of `checkTxLoop` for what it gives.
unfoldable pub check_tx : Answers → TransactionManager → TransactionManager
check_tx answers m = elim m.queue [
  | [] ↦ m
  | tx ∷ queue ↦
      let checked = replace_loop m.max_replacements answers.attempts 0 tx answers.first in
      record m {
        queue = queue;
        feed = m.feed ++ record { origin_tx_hash = tx.hash; waited = checked.waited } ∷ [];
      }
]
