-- ===== src/Eth/TransactionManager/Tests.antt =====
-- eth/transactionManager.go at concrete inputs.
use livepeer.Base.{ℕ, ◌≡◌, refl, true, [], some, length}
use livepeer.Eth.TransactionManager.{
  Transaction, Attempt, legacy, dynamic, pending, deadline_exceeded, exceeds_max_gas_price,
  not_mined, Checked, apply_price_bump, calc_gas_price, new_replacement_tx, replace, replace_loop,
}
use livepeer.Eth.TransactionManager.Replaced.{IsChecked, replace_loop-IsChecked}

abbrev tx : Transaction
tx = record {
  raw = record {
    nonce = 4;
    fees = dynamic 1000 101;
    gas = 21000;
    to = some 5;
    value = 0;
    payload = [];
  };
  hash = 77;
}

abbrev attempts : ℕ → Attempt
attempts i = record {
  lookup = pending;
  max_gas_price = some 650;
  sign = λ raw. some i;
  is_sent = true;
  waited = not_mined deadline_exceeded;
}

-- A legacy transaction is replaced by one with caps.
legacy_fees :
    (new_replacement_tx (record tx { raw = record tx.raw { fees = legacy 100 } })).fees
    ≡ dynamic 111 111
unfolding new_replacement_tx apply_price_bump
legacy_fees = refl

-- Rounded up: 101 becomes 113.
bumped_fees : (new_replacement_tx tx).fees ≡ dynamic 1110 113
unfolding new_replacement_tx apply_price_bump
bumped_fees = refl

abbrev checked : Checked
checked = replace_loop 3 attempts 0 tx (not_mined deadline_exceeded)

-- The first bumped price is 611, the second one would be 679.
one_replacement : length checked.submitted ≡ 1
unfolding replace_loop replace new_replacement_tx apply_price_bump calc_gas_price
one_replacement = refl

too_expensive : checked.waited ≡ not_mined exceeds_max_gas_price
unfolding replace_loop replace new_replacement_tx apply_price_bump calc_gas_price
too_expensive = refl

replace_loop-IsChecked_example : IsChecked 3 attempts 0 tx checked
replace_loop-IsChecked_example =
    replace_loop-IsChecked 3 attempts 0 tx (not_mined deadline_exceeded)
