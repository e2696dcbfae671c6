-- ===== src/Service/Transactions/Balances.antt =====
-- The balances of the wallets, and what the ledger's entries make of them.
use mathlib.Core.Option
use wallet_ledger_service.Common.{
  String, ◌≡◌, refl, sym, ap, ◌∙◌, true, false, Option, none, some, List, [], ◌∷◌, ◌++◌, ◌⊎◌, arith,
  str_eq, eq_iff, if◌then◌else◌, first, exists, update,
}
use wallet_ledger_service.Common.Int.{pos, ◌+ℤ◌, ◌-ℤ◌, +ℤ_assoc, zero-+ℤ}
use wallet_ledger_service.Model.{Time, Decimal, Wallet, entry_type_credit}
use wallet_ledger_service.Database.{Numeric, num, WalletRow, LedgerEntryRow, Database, store}
use wallet_ledger_service.Failure.{ok}
use wallet_ledger_service.Sql.Wallets.{set_balance}
use wallet_ledger_service.World.{Env}
use wallet_ledger_service.Repository.Common.{numeric_to_decimal, decimal_to_numeric}
use wallet_ledger_service.Repository.Wallets.{map_wallet}
use wallet_ledger_service.Repository.Effects.{row_at, wallet_at}

abbrev pub balance_of : Option WalletRow → Decimal
balance_of none = pos 0
balance_of (some w) = numeric_to_decimal w.balance

-- The balance that the tables hold under an id; zero where they have no such wallet.
abbrev pub balance_at : String → Database → Decimal
balance_at id d = balance_of (row_at id d)

-- A credit raises a balance, and any other entry lowers it.
abbrev pub signed_amount : LedgerEntryRow → Decimal
signed_amount e =
    if str_eq e.entry_type entry_type_credit
    then numeric_to_decimal e.amount
    else pos 0 -ℤ numeric_to_decimal e.amount

-- What the entries of one wallet add up to.
abbrev pub ledger_sum : String → List LedgerEntryRow → Decimal
ledger_sum id [] = pos 0
ledger_sum id (e ∷ es) =
    (if str_eq e.wallet_id id then signed_amount e else pos 0) +ℤ ledger_sum id es

pub ledger_sum-++ :
    (id : String) (xs ys : List LedgerEntryRow)
    → ledger_sum id (xs ++ ys) ≡ ledger_sum id xs +ℤ ledger_sum id ys
ledger_sum-++ id [] ys = sym (zero-+ℤ (ledger_sum id ys))
ledger_sum-++ id (x ∷ xs) ys = rw (ledger_sum-++ id xs ys) (+ℤ_assoc _ _ _)

pub wallet_at-balance :
    (id : String) (d : Database) (w : Wallet)
    → wallet_at id d ≡ some w
    → balance_at id d ≡ w.balance
unfolding map_wallet
wallet_at-balance id d w h =
    let (row, found, same) = (Option.map-eq-some_iff _ _).0 h in
    ap balance_of found ∙ ap (λ (x : Wallet). x.balance) same

-- The wallet that gets a balance, and every other one.
other_id : (a s id : String) → str_eq s id ≡ false → str_eq a s ≡ true → str_eq a id ≡ false
other_id a s id h k = ap (λ x. str_eq x id) ((eq_iff a s).0 k) ∙ h

pub first-set_balance :
    (id s : String) (b : Numeric) (t : Time) (ws : List WalletRow)
    → str_eq s id ≡ false
    → first
        (λ (w : WalletRow). str_eq w.id id)
        (update (λ (w : WalletRow). str_eq w.id s) (set_balance b t) ws)
      ≡ first (λ (w : WalletRow). str_eq w.id id) ws
first-set_balance id s b t [] h = refl
first-set_balance id s b t (w ∷ ws) h =
    ground (arith, first-set_balance id s b t ws h, other_id w.id s id h)

pub balance_of-set_balance :
    (id : String) (b : Numeric) (t : Time) (ws : List WalletRow)
    → exists (λ (w : WalletRow). str_eq w.id id) ws ≡ true
    → balance_of (
        first
          (λ (w : WalletRow). str_eq w.id id)
          (update (λ (w : WalletRow). str_eq w.id id) (set_balance b t) ws))
      ≡ numeric_to_decimal b
balance_of-set_balance id b t [] h = cc
balance_of-set_balance id b t (w ∷ ws) h = ground (arith, balance_of-set_balance id b t ws)

-- Amounts that the tables keep as they are: what pgtype and a column DECIMAL(18,2) do with a whole
-- number of cents. A number that the column has no room for is refused.
pub record Exact (env : Env) : Type 1 where
  pub IsCents : Decimal → Type 0
  pub zero : IsCents (pos 0)
  pub plus : (a b : Decimal) → IsCents a → IsCents b → IsCents (a +ℤ b)
  pub minus : (a b : Decimal) → IsCents a → IsCents b → IsCents (a -ℤ b)
  pub scans : (a : Decimal) → env.scan a ≡ some (num a)
  pub keeps : (a : Decimal) → IsCents a → (env.column a ≡ some a) ⊎ (env.column a ≡ none)

-- Each balance is what the wallet's entries add up to, in whole cents.
pub record IsReconciled {env : Env} (x : Exact env) (d : Database) : Type 0 where
  pub balance : (id : String) → balance_at id d ≡ ledger_sum id d.ledger_entries
  pub cents : (id : String) → x.IsCents (balance_at id d)

module _ {env : Env} (x : Exact env) where
  pub store-Exact :
      (a : Decimal) (n : Numeric)
      → x.IsCents a
      → store env.column (decimal_to_numeric env.scan a) ≡ ok n
      → numeric_to_decimal n ≡ a
  unfolding decimal_to_numeric numeric_to_decimal
  store-Exact a n c h = ground (arith, x.scans a, x.keeps a c)
