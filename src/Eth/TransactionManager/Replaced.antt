-- ===== src/Eth/TransactionManager/Replaced.antt =====
-- eth/transactionManager.go: the replacements of a transaction, and the receipts of a queue.
use livepeer.Base.{
  ℕ, zero, suc, ◌+◌, ◌*◌, ◌≤◌, ◌≡◌, ◌≢◌, ◌⊎◌, refl, ap, sym, subst, Bool, false, List, [], ◌∷◌,
  Option, none, some, if◌then◌else◌, length, Bool-cases, inl, inr, arith,
}
use livepeer.Eth.TransactionManager.{
  Fees, gas_fee_cap, gas_tip_cap, RawTransaction, Transaction, calc_gas_price, new_replacement_tx,
  Lookup, pending, mined, not_found, lookup_error, TxError, deadline_exceeded, lookup_failed,
  replacing_mined_tx, exceeds_max_gas_price, sign_failed, send_failed, Waited, receipt, not_mined,
  Attempt, Replacement, refused, is_too_high, signed, bump, after_lookup, replace, Checked, submit,
  after_replace, replace_loop,
}
use livepeer.Eth.TransactionManager.Bumped.{IsBumped, bump_fees-IsBumped, calc_gas_price_iff}

-- All but the prices is the same.
pub record IsSameCall (a b : RawTransaction) : Type 0 where
  pub nonce : b.nonce ≡ a.nonce
  pub gas : b.gas ≡ a.gas
  pub to : b.to ≡ a.to
  pub value : b.value ≡ a.value
  pub payload : b.payload ≡ a.payload

-- The mean of both caps, rounded down, is at most the maximum, where there is one.
abbrev pub IsWithin : Option ℕ → Fees → Type 0
IsWithin none f = Unit
IsWithin (some m) f = gas_fee_cap f + gas_tip_cap f ≤ 2 * m + 1

-- A replacement of a transaction.
pub record IsReplacement (a : Attempt) (tx t : Transaction) : Type 0 where
  pub same : IsSameCall tx.raw t.raw
  pub bumped : IsBumped tx.raw.fees t.raw.fees
  pub within : IsWithin a.max_gas_price t.raw.fees

-- What `replace` can give: an error, or a transaction that was sent or not.
abbrev pub IsReplaced : Attempt → Transaction → Replacement → Type 0
IsReplaced a tx r =
    ((e : TxError) × (e ≢ deadline_exceeded) × (r ≡ refused e))
    ⊎ ((t : Transaction) × IsReplacement a tx t
        × ((r ≡ record { tx = some t; err = none })
            ⊎ (r ≡ record { tx = some t; err = some send_failed })))

is_too_high-IsWithin :
    (m : Option ℕ) (f : Fees) → is_too_high m (calc_gas_price f) ≡ false → IsWithin m f
is_too_high-IsWithin none f h = tt
is_too_high-IsWithin (some m) f h = (calc_gas_price_iff f m).0 (ground (arith, h))

signed-IsReplaced :
    (a : Attempt) (tx : Transaction) (hash : Option ℕ)
    → IsWithin a.max_gas_price (new_replacement_tx tx).fees
    → IsReplaced a tx (signed a (new_replacement_tx tx) hash)
unfolding new_replacement_tx
signed-IsReplaced a tx none h = inl (sign_failed, λ e. ground (arith, e), refl)
signed-IsReplaced a tx (some hash) h =
    let t : Transaction = record { raw = new_replacement_tx tx; hash = hash } in
    inr (
      t,
      record {
        same = record { nonce = refl; gas = refl; to = refl; value = refl; payload = refl };
        bumped = bump_fees-IsBumped tx.raw.fees;
        within = h;
      },
      elim (Bool-cases a.is_sent) [
        | inl sent ↦
            inl (ap (λ b. record { tx = some t; err = if b then none else some send_failed }) sent)
        | inr lost ↦
            inr (ap (λ b. record { tx = some t; err = if b then none else some send_failed }) lost)
      ],
    )

bump-IsReplaced :
    (a : Attempt) (tx : Transaction) → IsReplaced a tx (bump a (new_replacement_tx tx))
bump-IsReplaced a tx =
    let raw = new_replacement_tx tx in
    let price = calc_gas_price raw.fees in
    let choose =
      λ (b : Bool). if b then refused exceeds_max_gas_price else signed a raw (a.sign raw) in
    elim (Bool-cases (is_too_high a.max_gas_price price)) [
      | inl high ↦ inl (exceeds_max_gas_price, λ e. ground (arith, e), ap choose high)
      | inr low ↦
          subst (IsReplaced a tx) (sym (ap choose low)) (
            signed-IsReplaced a tx (a.sign raw) (is_too_high-IsWithin a.max_gas_price raw.fees low))
    ]

lookup-IsReplaced :
    (a : Attempt) (tx : Transaction) (l : Lookup) → IsReplaced a tx (after_lookup a tx l)
lookup-IsReplaced a tx pending = bump-IsReplaced a tx
lookup-IsReplaced a tx not_found = bump-IsReplaced a tx
lookup-IsReplaced a tx mined = inl (replacing_mined_tx, λ e. ground (arith, e), refl)
lookup-IsReplaced a tx lookup_error = inl (lookup_failed, λ e. ground (arith, e), refl)

replace-IsReplaced : (a : Attempt) (tx : Transaction) → IsReplaced a tx (replace a tx)
unfolding replace
replace-IsReplaced a tx = lookup-IsReplaced a tx a.lookup

-- Each transaction replaces the one before it, in one attempt after the other.
abbrev pub AreReplacements : (ℕ → Attempt) → ℕ → Transaction → List Transaction → Type 0
AreReplacements attempts i tx [] = Unit
AreReplacements attempts i tx (t ∷ l) =
    IsReplacement (attempts i) tx t × AreReplacements attempts (i + 1) t l

-- What comes of a transaction that may be replaced some times.
pub record IsChecked (n : ℕ) (attempts : ℕ → Attempt) (i : ℕ) (tx : Transaction) (c : Checked)
    : Type 0 where
  pub replacements : AreReplacements attempts i tx c.submitted
  pub few : length c.submitted ≤ n
  pub exhausted : c.waited ≡ not_mined deadline_exceeded → length c.submitted ≡ n

at_once-IsChecked :
    (n : ℕ) (attempts : ℕ → Attempt) (i : ℕ) (tx : Transaction) (w : Waited)
    → (w ≡ not_mined deadline_exceeded → n ≡ 0)
    → IsChecked n attempts i tx (record { submitted = []; waited = w })
at_once-IsChecked n attempts i tx w h = record {
  replacements = tt;
  few = omega arith;
  exhausted = λ e. omega (arith, h e);
}

submit-IsChecked :
    (n : ℕ) (attempts : ℕ → Attempt) (i : ℕ) (tx t : Transaction) (c : Checked)
    → IsReplacement (attempts i) tx t
    → IsChecked n attempts (i + 1) t c
    → IsChecked (suc n) attempts i tx (submit t c)
submit-IsChecked n attempts i tx t c p q = record {
  replacements = (p, q.replacements);
  few = let h = q.few in omega (arith, h);
  exhausted = λ e. omega (arith, q.exhausted e);
}

not_mined_inj : (e e' : TxError) → not_mined e ≡ not_mined e' → e ≡ e'
not_mined_inj e e' h = ap (λ w. elim w [ receipt r ↦ e | not_mined f ↦ f ]) h

-- A transaction is replaced at most as often as is allowed. Each replacement is the same call with the
-- same nonce, so that at most one of them can be mined; it pays at least 11 percent more than the
-- one before it, by both caps, and its gas price, the mean of the caps, is at most the maximum at that
-- time, if there is one. Only where all
-- replacements that are allowed were submitted can it end because nothing was mined in time.
pub replace_loop-IsChecked :
    (n : ℕ) (attempts : ℕ → Attempt) (i : ℕ) (tx : Transaction) (w : Waited)
    → IsChecked n attempts i tx (replace_loop n attempts i tx w)
unfolding replace_loop
replace_loop-IsChecked zero attempts i tx w = at_once-IsChecked zero attempts i tx w (λ e. refl)
replace_loop-IsChecked (suc n) attempts i tx (receipt r) =
    at_once-IsChecked (suc n) attempts i tx (receipt r) (λ e. ground (arith, e))
replace_loop-IsChecked (suc n) attempts i tx (not_mined deadline_exceeded) =
    let a = attempts i in
    let rest = λ (t : Transaction). replace_loop n attempts (i + 1) t a.waited in
    let given =
      λ (r : Replacement) (e : replace a tx ≡ r)
          (p : IsChecked (suc n) attempts i tx (after_replace rest r)).
        subst (λ q. IsChecked (suc n) attempts i tx (after_replace rest q)) (sym e) p in
    elim (replace-IsReplaced a tx) [
      | inl (e, ne, r) ↦ given (refused e) r (
          at_once-IsChecked (suc n) attempts i tx (not_mined e)
            (λ h. absurd (ne (not_mined_inj e deadline_exceeded h))))
      | inr (t, p, inl r) ↦
          given (record { tx = some t; err = none }) r
            (submit-IsChecked n attempts i tx t (rest t) p
              (replace_loop-IsChecked n attempts (i + 1) t a.waited))
      | inr (t, p, inr r) ↦
          given (record { tx = some t; err = some send_failed }) r
            (record {
              replacements = (p, tt);
              few = omega arith;
              exhausted = λ e.
                  let h = not_mined_inj send_failed deadline_exceeded e in
                  absurd (ground (arith, h));
            })
    ]
replace_loop-IsChecked (suc n) attempts i tx (not_mined e) =
    at_once-IsChecked (suc n) attempts i tx (not_mined e)
      (λ h. let same = not_mined_inj e deadline_exceeded h in absurd (ground (arith, same)))
