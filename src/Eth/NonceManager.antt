-- ===== src/Eth/NonceManager.antt =====
-- eth/noncemanager.go: transaction nonces of the node's addresses. The caller holds the lock of an
-- address around Next and Update, so each pair is one step of that address. Nonces are uint64.
pub mod Distinct
use livepeer.Base.{ℕ, ◌+◌, ◌%◌, Option, none, some, ltb, ◌==◌, if◌then◌else◌}
use livepeer.Base.Maps.{insert, empty_map, nat_eq}
use livepeer.Base.Words.{u64_mod}
use livepeer.Pm.Error.{Result, ok, err}

-- `NonceManager`: the nonce of an address that has a lock.
pub record NonceManager : Type 0 where
  pub nonces : ℕ → Option ℕ

-- `NewNonceManager`
abbrev pub new_nonce_manager : NonceManager
new_nonce_manager = record { nonces = empty_map nat_eq ℕ }

-- `getNonceLock`: the lock of a new address has nonce 0.
abbrev pub local_nonce : ℕ → NonceManager → ℕ
local_nonce addr m = elim (m.nonces addr) [ none ↦ 0 | some n ↦ n ]

abbrev pub get_nonce_lock : ℕ → NonceManager → NonceManager
get_nonce_lock addr m = record m { nonces = insert addr (local_nonce addr m) m.nonces }

-- `Next`, with what `PendingNonceAt` answers.
unfoldable pub next_nonce : ℕ → Result ℕ → NonceManager → Result ℕ × NonceManager
next_nonce addr remote m =
    let m' = get_nonce_lock addr m in
    elim remote [
      | err e ↦ (err e, m')
      | ok remote_nonce ↦ (
        if ltb (local_nonce addr m) remote_nonce then ok remote_nonce else ok (local_nonce addr m),
        m',
      )
    ]

-- `Update`
unfoldable pub update_nonce : ℕ → ℕ → NonceManager → NonceManager
update_nonce addr last_nonce m =
    let local = local_nonce addr m in
    let next = if last_nonce == local then (local + 1) % u64_mod else (last_nonce + 1) % u64_mod in
    record m { nonces = insert addr next m.nonces }
