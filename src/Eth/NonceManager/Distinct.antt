-- ===== src/Eth/NonceManager/Distinct.antt =====
-- eth/noncemanager.go: the nonces that an address gets one after the other.
use livepeer.Base.{ℕ, ◌+◌, ◌%◌, ◌≤◌, ◌<◌, ◌≡◌, ◌⊎◌, refl, arith, ltb, inl, inr, Bool-cases}
use livepeer.Base.Words.{u64_mod}
use livepeer.Pm.Error.{ok}
use livepeer.Eth.NonceManager.{NonceManager, local_nonce, next_nonce, update_nonce}

-- A nonce that is given is neither below the local one nor below what the remote node answers, and
-- is one of the two.
next_nonce_cases :
    (addr remote : ℕ) (m : NonceManager)
    → (n : ℕ) × ((next_nonce addr (ok remote) m).0 ≡ ok n)
      × (local_nonce addr m ≤ n)
      × (remote ≤ n)
      × ((n ≡ remote) ⊎ (n ≡ local_nonce addr m))
unfolding next_nonce
next_nonce_cases addr remote m = elim (Bool-cases (ltb (local_nonce addr m) remote)) [
  | inl h ↦ (remote, rw (h), ground arith, omega arith, inl refl)
  | inr h ↦ (local_nonce addr m, rw (h), omega arith, ground arith, inr refl)
]

update_nonce-local :
    (addr n : ℕ) (m : NonceManager) → local_nonce addr (update_nonce addr n m) ≡ (n + 1) % u64_mod
unfolding update_nonce
update_nonce-local addr n m = ground arith

-- After a transaction was sent with a nonce below the largest uint64, the next nonce of its address
-- is the larger of the nonce after it and of what the remote node then answers.
pub next_nonce-update_nonce :
    (addr n remote : ℕ) (m : NonceManager)
    → n + 1 < u64_mod
    → (n' : ℕ) × ((next_nonce addr (ok remote) (update_nonce addr n m)).0 ≡ ok n')
      × (n < n')
      × (remote ≤ n')
      × ((n' ≡ remote) ⊎ (n' ≡ n + 1))
next_nonce-update_nonce addr n remote m small =
    let (n', e, above, remote_below, which) =
      next_nonce_cases addr remote (update_nonce addr n m) in
    let local = update_nonce-local addr n m in (n', e, omega arith, remote_below, ground arith)
