-- ===== src/Utils/Ids.antt =====
-- internal/utils/id_generator.go. A draw of `crypto/rand` below 36 is the environment's.
pub mod Effects
pub mod Widths
use Prim.Native.String
use wallet_ledger_service.Common.{ℕ, zero, suc, String, Option, none, some}
use wallet_ledger_service.Failure.{ok, err, rand_failed, panicked, wrapped}
use wallet_ledger_service.World.{Env, M, ◌>>=◌, pure, read_clock}

abbrev pub charset : String
charset = "ABCDEFGHIJKLMNOPQRSTUVWXYZ0123456789"

-- The byte at an index of an ASCII text, as a text; Go panics past the end.
abbrev pub letter_at : String → ℕ → Option String
letter_at String.[] i = none
letter_at (String.◌∷◌ c s) zero = some (String.◌∷◌ c String.[])
letter_at (String.◌∷◌ c s) (suc i) = letter_at s i

-- `rand.Int(rand.Reader, 36)` and the letter there.
random_letter : Env → M String
random_letter env w =
    let w' = record w { calls = suc w.calls } in
    elim (env.random_index w.calls) [
      | none ↦ (err (wrapped "failed to generate random index" rand_failed), w')
      | some i ↦ elim (letter_at charset i) [ none ↦ (err panicked, w') | some l ↦ (ok l, w') ]
    ]

unfoldable pub random_alphanumeric : Env → ℕ → M String
unfolding random_letter
random_alphanumeric env zero = pure ""
random_alphanumeric env (suc n) = do
  l ← random_letter env
  rest ← random_alphanumeric env n
  pure (String.◌++◌ l rest)

unfoldable pub generate_wallet_id : Env → M String
generate_wallet_id env = do r ← random_alphanumeric env 8; pure (String.◌++◌ "WLT-" r)

unfoldable pub generate_transaction_ref : Env → M String
generate_transaction_ref env = do
  r ← random_alphanumeric env 8
  now ← read_clock env
  pure (String.◌++◌ "TXN-" (String.◌++◌ (env.date_stamp now) (String.◌++◌ "-" r)))

unfoldable pub generate_ledger_entry_id : Env → M String
generate_ledger_entry_id env = do r ← random_alphanumeric env 10; pure (String.◌++◌ "LED-" r)

unfoldable pub generate_audit_log_id : Env → M String
generate_audit_log_id env = do r ← random_alphanumeric env 10; pure (String.◌++◌ "AUD-" r)
