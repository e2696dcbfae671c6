-- ===== src/Failure.antt =====
-- Go's `error` values: the sentinels of internal/service, what a driver or the database reports,
-- and `fmt.Errorf("…: %w", err)`. A nil dereference is the error `panicked`.
use Prim.Native.String
use wallet_ledger_service.Common.{
  ℕ, String, ◌≡◌, refl, Bool, true, false, ⊤, ◌==◌, Option, none, some,
}

pub data Sentinel : Type 0 where
  self_transfer insufficient_balance unauthorized transaction_not_found : Sentinel
  target_wallet_not_found wallet_not_found email_conflict invalid_credentials : Sentinel

-- What the constraints of database/migrations refuse.
pub data Violation : Type 0 where
  unique_violation check_violation foreign_key_violation not_null_violation : Violation
  value_too_long numeric_out_of_range : Violation

pub data Error : Type 0 where
  sentinel : Sentinel → Error
  violates : Violation → Error
  no_rows connection_failed tx_closed missing_tx rand_failed hash_failed sign_failed : Error
  malformed : Error
  panicked : Error
  wrapped : String → Error → Error

pub data Result (A : Type 0) : Type 0 where
  ok : A → Result A
  err : Error → Result A

infixl 5 ◌>>=◌ ◌>>◌
abbrev pub ◌>>=◌ : {A B : Type 0} → Result A → (A → Result B) → Result B
ok a >>= f = f a
err e >>= f = err e

abbrev pub ◌>>◌ : {B : Type 0} → Result ⊤ → Result B → Result B
m >> k = m >>= λ _. k

abbrev pub require : Bool → Violation → Result ⊤
require true v = ok tt
require false v = err (violates v)

abbrev pub not_null : {A : Type 0} → Option A → Result A
not_null none = err (violates not_null_violation)
not_null (some a) = ok a

abbrev sentinel_code : Sentinel → ℕ
sentinel_code self_transfer = 0
sentinel_code insufficient_balance = 1
sentinel_code unauthorized = 2
sentinel_code transaction_not_found = 3
sentinel_code target_wallet_not_found = 4
sentinel_code wallet_not_found = 5
sentinel_code email_conflict = 6
sentinel_code invalid_credentials = 7

-- `errors.Is(err, target)`, which looks through the wrapping.
abbrev pub is_error : Error → Sentinel → Bool
is_error (sentinel s) t = sentinel_code s == sentinel_code t
is_error (wrapped _ e) t = is_error e t
is_error _ t = false

-- Some service's own error is at the root.
abbrev pub has_sentinel : Error → Bool
has_sentinel (sentinel s) = true
has_sentinel (wrapped _ e) = has_sentinel e
has_sentinel _ = false

pub not-is_error : (e : Error) (s : Sentinel) → has_sentinel e ≡ false → is_error e s ≡ false
not-is_error (sentinel t) s h = cc
not-is_error (wrapped text e) s h = not-is_error e s h
not-is_error (violates v) s h = refl
not-is_error no_rows s h = refl
not-is_error connection_failed s h = refl
not-is_error tx_closed s h = refl
not-is_error missing_tx s h = refl
not-is_error rand_failed s h = refl
not-is_error hash_failed s h = refl
not-is_error sign_failed s h = refl
not-is_error malformed s h = refl
not-is_error panicked s h = refl

abbrev pub sentinel_text : Sentinel → String
sentinel_text self_transfer = "cannot transfer to your own wallet"
sentinel_text insufficient_balance = "insufficient balance"
sentinel_text unauthorized = "unauthorized to view this transaction"
sentinel_text transaction_not_found = "transaction not found"
sentinel_text target_wallet_not_found = "target wallet not found"
sentinel_text wallet_not_found = "wallet not found"
sentinel_text email_conflict = "email already registered"
sentinel_text invalid_credentials = "invalid email or password"

-- `err.Error()`: the texts of the errors of others are theirs.
abbrev pub error_text : (Error → String) → Error → String
error_text library (sentinel s) = sentinel_text s
error_text library (wrapped text e) = String.◌++◌ text (String.◌++◌ ": " (error_text library e))
error_text library e = library e

-- A panic, which no `err != nil` sees.
abbrev pub is_panic : Error → Bool
is_panic panicked = true
is_panic (wrapped _ e) = is_panic e
is_panic _ = false
