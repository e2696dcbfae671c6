-- ===== src/Repository/Common.antt =====
-- What the repositories share: the conversions of numbers, and ways to run a statement.
use wallet_ledger_service.Common.{ℕ, String, Option, none, some, List, map, ⊤}
use wallet_ledger_service.Common.Int.{ℤ, pos, negsuc}
use wallet_ledger_service.Common.Words.{int32}
use wallet_ledger_service.Model.{Decimal}
use wallet_ledger_service.Failure.{
  Error, Result, ok, err, no_rows, wrapped, violates, numeric_out_of_range,
}
use wallet_ledger_service.Failure
use wallet_ledger_service.Database.{Numeric, null, nan, num, Database}
use wallet_ledger_service.World.{Env, M, Handle, no_tx, query, wrap, ◌>>=◌, pure}

-- `decimalToNumeric`: `Scan` of the decimal's text is pgtype's.
unfoldable pub decimal_to_numeric : (Decimal → Option Numeric) → Decimal → Numeric
decimal_to_numeric scan d = elim (scan d) [ none ↦ null | some n ↦ n ]

unfoldable pub numeric_to_decimal : Numeric → Decimal
numeric_to_decimal null = pos 0
numeric_to_decimal nan = pos 0
numeric_to_decimal (num x) = x

-- `if v.Valid { x = v.… }` over the zero value.
abbrev pub valid_or_zero : Option ℕ → ℕ
valid_or_zero none = 0
valid_or_zero (some x) = x

abbrev pub valid_or_empty : Option String → String
valid_or_empty none = ""
valid_or_empty (some s) = s

-- A statement that reads.
abbrev pub reading : {A : Type 0} → (Database → Result A) → ℕ → Database → Result (A × Database)
reading f n d = Failure.◌>>=◌ (f d) (λ a. ok (a, d))

-- A statement that writes and returns no row.
abbrev pub writing : (Database → Result Database) → Database → Result (⊤ × Database)
writing f d = Failure.◌>>=◌ (f d) (λ d'. ok (tt, d'))

-- `errors.Is(err, pgx.ErrNoRows)` gives nil and no error; another error is wrapped.
abbrev pub absent : {A B : Type 0} → String → (A → B) → Result A → Result (Option B)
absent text f (ok a) = ok (some (f a))
absent text f (err no_rows) = ok none
absent text f (err e) = err (wrapped text e)

unfoldable pub optional : {A B : Type 0} → String → (A → B) → M A → M (Option B)
optional text f m w = (absent text f (m w).0, (m w).1)

unfoldable pub find_row :
    {A B : Type 0} → Env → Handle → String → (A → B) → (Database → Result A) → M (Option B)
unfolding optional
find_row env h text f q = optional text f (query env h (reading q))

-- LIMIT and OFFSET refuse a negative number.
abbrev pub bound : ℤ → Result ℕ
bound (pos n) = ok n
bound (negsuc n) = err (violates numeric_out_of_range)

-- One page of a list by `int32(limit)` and `int32(offset)`, and then the count of all its rows.
unfoldable pub list_page :
    {A B : Type 0}
    → Env
    → String
    → String
    → (A → B)
    → ℤ
    → ℤ
    → (ℕ → ℕ → Database → List A)
    → (Database → ℕ)
    → M (List B × ℕ)
list_page env text count_text f limit offset rows count = do
  found ← wrap text (
      query env no_tx (
        reading λ d.
          Failure.◌>>=◌ (bound (int32 limit))
            λ l. Failure.◌>>=◌ (bound (int32 offset)) λ o. ok (rows l o d)))
  total ← wrap count_text (query env no_tx (reading λ d. ok (count d)))
  pure (map f found, total)
