-- ===== src/Sql/Order.antt =====
-- `ORDER BY created_at`, `LIMIT` and `OFFSET`. PostgreSQL promises nothing of rows with one time:
-- here they stay in the order of the table.
use wallet_ledger_service.Common.{
  ℕ, Bool, true, false, Option, none, some, List, [], ◌∷◌, ltb, take, drop, if◌then◌else◌,
}
use wallet_ledger_service.Model.{Time}

-- `a` comes after `b`; nulls come last in ascending order.
abbrev pub is_later : Option Time → Option Time → Bool
is_later (some a) (some b) = ltb b a
is_later none (some b) = true
is_later _ none = false

module _ {A : Type 0} (stamp : A → Option Time) where
  -- In front of the first row that is older, or that is not newer where the order is ascending.
  abbrev pub insert_desc : A → List A → List A
  insert_desc x [] = x ∷ []
  insert_desc x (y ∷ ys) =
      let rest = y ∷ insert_desc x ys in if is_later (stamp y) (stamp x) then rest else x ∷ y ∷ ys

  abbrev pub insert_asc : A → List A → List A
  insert_asc x [] = x ∷ []
  insert_asc x (y ∷ ys) =
      let rest = y ∷ insert_asc x ys in if is_later (stamp x) (stamp y) then rest else x ∷ y ∷ ys

  abbrev pub order_desc : List A → List A
  order_desc [] = []
  order_desc (x ∷ xs) = insert_desc x (order_desc xs)

  abbrev pub order_asc : List A → List A
  order_asc [] = []
  order_asc (x ∷ xs) = insert_asc x (order_asc xs)

abbrev pub page {ℓ} : {A : Type ℓ} → ℕ → ℕ → List A → List A
page limit offset xs = take limit (drop offset xs)
