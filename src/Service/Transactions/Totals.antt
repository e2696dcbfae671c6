-- ===== src/Service/Transactions/Totals.antt =====
-- The money in all wallets.
use wallet_ledger_service.Common.{
  String, ◌≡◌, refl, sym, ap, ◌∙◌, Bool, Bool-cases, inl, inr, true, false, List, [], ◌∷◌, arith,
  str_eq, eq_iff, if◌then◌else◌, first, exists, update,
}
use wallet_ledger_service.Common.Int.{pos, ◌+ℤ◌, int_laws, +ℤ_assoc}
use wallet_ledger_service.Model.{Time, Decimal}
use wallet_ledger_service.Database.{Numeric, WalletRow, is_nonneg}
use wallet_ledger_service.Sql.Wallets.{set_balance}
use wallet_ledger_service.Repository.Common.{numeric_to_decimal}
use wallet_ledger_service.Service.Transactions.Balances.{balance_of}

abbrev pub total : List WalletRow → Decimal
total [] = pos 0
total (w ∷ ws) = numeric_to_decimal w.balance +ℤ total ws

-- The primary key: no two rows have an id in common.
abbrev pub distinct_ids : List WalletRow → Bool
distinct_ids [] = true
distinct_ids (w ∷ ws) =
    if exists (λ (v : WalletRow). str_eq v.id w.id) ws then false else distinct_ids ws

absent_of_distinct :
    (w : WalletRow) (ws : List WalletRow)
    → distinct_ids (w ∷ ws) ≡ true
    → exists (λ (v : WalletRow). str_eq v.id w.id) ws ≡ false
absent_of_distinct w ws h = ground arith

distinct_of_distinct :
    (w : WalletRow) (ws : List WalletRow) → distinct_ids (w ∷ ws) ≡ true → distinct_ids ws ≡ true
distinct_of_distinct w ws h = ground arith

add_first : (x a b c d : Decimal) → a +ℤ b ≡ c +ℤ d → x +ℤ a +ℤ b ≡ x +ℤ c +ℤ d
add_first x a b c d h = sym (+ℤ_assoc x a b) ∙ ap (λ y. x +ℤ y) h ∙ +ℤ_assoc x c d

module _ (s : String) (b : Numeric) (t : Time) where
  abbrev pub set : List WalletRow → List WalletRow
  set ws = update (λ (w : WalletRow). str_eq w.id s) (set_balance b t) ws

  exists-set :
      (id : String) (ws : List WalletRow)
      → exists (λ (w : WalletRow). str_eq w.id id) (set ws)
        ≡ exists (λ (w : WalletRow). str_eq w.id id) ws
  exists-set id [] = refl
  exists-set id (w ∷ ws) = ground (arith, exists-set id ws)

  pub distinct_ids-set : (ws : List WalletRow) → distinct_ids (set ws) ≡ distinct_ids ws
  distinct_ids-set [] = refl
  distinct_ids-set (w ∷ ws) = ground (arith, distinct_ids-set ws, exists-set w.id ws)

  set-absent :
      (ws : List WalletRow) → exists (λ (w : WalletRow). str_eq w.id s) ws ≡ false → set ws ≡ ws
  set-absent [] h = refl
  set-absent (w ∷ ws) h = ground (arith, set-absent ws)

  exists_tail :
      (w : WalletRow) (ws : List WalletRow)
      → exists (λ (v : WalletRow). str_eq v.id s) (w ∷ ws) ≡ true
      → str_eq w.id s ≡ false
      → exists (λ (v : WalletRow). str_eq v.id s) ws ≡ true
  exists_tail w ws h k = ground arith

  pub total-set :
      (ws : List WalletRow)
      → distinct_ids ws ≡ true
      → exists (λ (w : WalletRow). str_eq w.id s) ws ≡ true
      → total (set ws) +ℤ balance_of (first (λ (w : WalletRow). str_eq w.id s) ws)
        ≡ total ws +ℤ numeric_to_decimal b
  total-set [] u h = cc
  total-set (w ∷ ws) u h = elim (Bool-cases (str_eq w.id s)) [
    | inl here ↦
        let gone : exists (λ (v : WalletRow). str_eq v.id s) ws ≡ false =
          ap (λ id. exists (λ (v : WalletRow). str_eq v.id id) ws) (sym ((eq_iff w.id s).0 here))
          ∙ absent_of_distinct w ws u in
        rw (here, set-absent ws gone) (omega int_laws)
    | inr there ↦
        let rest = total-set ws (distinct_of_distinct w ws u) (exists_tail w ws h there) in
        rw there (add_first _ _ _ _ _ rest)
  ]

-- No row has a balance below zero.
abbrev pub all_nonneg : List WalletRow → Bool
all_nonneg [] = true
all_nonneg (w ∷ ws) = if is_nonneg w.balance then all_nonneg ws else false

pub all_nonneg-set :
    (s : String) (b : Numeric) (t : Time) (ws : List WalletRow)
    → is_nonneg b ≡ true
    → all_nonneg ws ≡ true
    → all_nonneg (set s b t ws) ≡ true
all_nonneg-set s b t [] h k = refl
all_nonneg-set s b t (w ∷ ws) h k = ground (arith, all_nonneg-set s b t ws h)
