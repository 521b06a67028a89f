-- ===== src/Errors.antt =====
-- app/errors.py: a call returns, or raises. Messages are left out.
use backend_project.Prelude.{ℕ, Bool, true, false}

-- The `code` of an `AppException`.
pub data ErrorCode : Type 0 where
  unauthorized invalid_token not_found forbidden email_not_verified invalid_cursor : ErrorCode
  email_conflict tenant_required tenant_slug_conflict email_required user_not_found : ErrorCode
  invalid_verification_token verification_token_expired already_verified : ErrorCode
  invalid_reset_token reset_token_expired rate_limit_exceeded : ErrorCode
  invalid_credentials tenant_inactive refresh_token_revoked : ErrorCode
  invalid_transfer insufficient_stock invalid_transfer_state transfer_over_received : ErrorCode
  supplier_conflict purchase_order_conflict invalid_purchase_order_state : ErrorCode
  purchase_order_over_received sku_conflict variant_conflict invalid_price : ErrorCode

pub data Fault : Type 0 where
  -- `AppException(status_code, code)`
  app_exception : ℕ → ErrorCode → Fault
  -- sqlalchemy's `IntegrityError`, `NoResultFound` and `MultipleResultsFound`
  integrity_error no_result_found multiple_results_found : Fault
  -- any other exception
  failure : Fault

pub data Result {ℓ} (A : Type ℓ) : Type ℓ where
  ok : A → Result A
  raised : Fault → Result A

infixl 5 ◌>>=◌ ◌>>◌
unfoldable pub ◌>>=◌ {ℓ κ} : {A : Type ℓ} {B : Type κ} → Result A → (A → Result B) → Result B
ok a >>= f = f a
raised e >>= f = raised e

abbrev pub ◌>>◌ {ℓ κ} : {A : Type ℓ} {B : Type κ} → Result A → Result B → Result B
m >> k = m >>= λ _. k

abbrev pub raise_if : Bool → Fault → Result (Unit {0})
raise_if true e = raised e
raise_if false e = ok tt
