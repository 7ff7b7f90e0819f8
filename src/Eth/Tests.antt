-- ===== src/Eth/Tests.antt =====
-- eth/noncemanager.go at concrete inputs.
use livepeer.Base.{ℕ, ◌+◌, ◌≤◌, ◌<◌, ◌≡◌, ◌⊎◌, arith}
use livepeer.Pm.Error.{ok}
use livepeer.Eth.NonceManager.{new_nonce_manager, next_nonce, update_nonce}
use livepeer.Eth.NonceManager.Distinct.{next_nonce-update_nonce}

nonce_after_update :
    (n' : ℕ) × ((next_nonce 4 (ok 7) (update_nonce 4 6 (next_nonce 4 (ok 6) new_nonce_manager).1)).0
      ≡ ok n')
    × (6 < n')
    × (7 ≤ n')
    × ((n' ≡ 7) ⊎ (n' ≡ 6 + 1))
nonce_after_update =
    next_nonce-update_nonce 4 6 7 (next_nonce 4 (ok 6) new_nonce_manager).1 (omega arith)
