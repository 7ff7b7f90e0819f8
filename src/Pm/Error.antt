-- ===== src/Pm/Error.antt =====
-- The errors of package pm, and results that may be an error.
use livepeer.Base.{◌≡◌, ◌⊎◌, inl, inr, refl, Option, none, some}

-- `fatal` is FatalReceiveErr, `sender_validation` is ErrSenderValidation; `external` stands for an
-- error of a call that the package does not make itself (RPC, database, signer).
pub data Error : Type 0 where
  invalid_ticket_recipient invalid_ticket_sender : Error
  invalid_ticket_recipient_rand invalid_ticket_signature : Error
  is_used_ticket : Error
  ticket_params_expired insufficient_sender_reserve : Error
  invalid_sender_nonce : Error
  unlock_soon no_sender_reserve no_sender_deposit : Error
  ticket_params_nil face_value_too_low total_ev_too_high face_value_too_high : Error
  session_not_found : Error
  insufficient_pending insufficient_sender_funds insufficient_ticket_face_value : Error
  transaction_failed external : Error
  fatal sender_validation : Error → Error

pub data Result {ℓ} (A : Type ℓ) : Type ℓ where
  ok : A → Result A
  err : Error → Result A

infixl 5 ◌>>=◌
abbrev pub ◌>>=◌ {ℓ κ} : {A : Type ℓ} {B : Type κ} → Result A → (A → Result B) → Result B
ok a >>= f = f a
err e >>= f = err e

-- `if err != nil { return err }` before a step that has no value of its own.
abbrev pub check {ℓ} : {A : Type ℓ} → Option Error → Result A → Result A
check none r = r
check (some e) r = err e

pub Result-cases {ℓ} :
    {A : Type ℓ} (r : Result A) → ((a : A) × (r ≡ ok a)) ⊎ ((e : Error) × (r ≡ err e))
Result-cases (ok a) = inl (a, refl)
Result-cases (err e) = inr (e, refl)
