-- ===== src/Tests/Fixtures.antt =====
-- Two users with a wallet each, and an environment in which every call goes through.
use wallet_ledger_service.Common.{ℕ, ◌+◌, ◌%◌, String, false, some, none, List, [], ◌∷◌, map}
use wallet_ledger_service.Common.Int.{pos}
use wallet_ledger_service.Model.{
  user_role_user, entry_type_credit, transaction_type_top_up, transaction_status_completed,
}
use wallet_ledger_service.Database.{
  num, Numeric, UserRow, WalletRow, TransactionRow, LedgerEntryRow, NotificationRow, Database,
  empty,
}
use wallet_ledger_service.World.{Env, World, committed}
use wallet_ledger_service.Dto.Bodies.{TransferRequest, TopUpRequest, RegisterRequest}

abbrev pub calm : Env
calm = record {
  fails = λ n. false;
  applied = λ n. false;
  others = λ n d. d;
  commit_result = λ n. committed;
  now = λ n. n;
  new_uuid = λ n. 100 + n;
  random_index = λ n. some (n % 36);
  date_stamp = λ t. "20260101";
  uuid_string = λ u. "uuid";
  scan = λ d. some (num d);
  column = λ d. some d;
  hash_password = λ p. some p;
  check_password = λ p h. false;
  sign_token = λ u e r. none;
}

abbrev pub user_row : ℕ → String → UserRow
user_row id email = record {
  id = some id;
  email = email;
  password_hash = "hash";
  role = user_role_user;
  created_at = some 1;
  updated_at = some 1;
}

abbrev pub wallet_row : String → ℕ → ℕ → WalletRow
wallet_row id owner balance = record {
  id = id;
  user_id = some owner;
  balance = num (pos balance);
  currency = "IDR";
  created_at = some 1;
  updated_at = some 1;
}

abbrev pub ann : UserRow
ann = user_row 1 "ann@example.com"

abbrev pub bob : UserRow
bob = user_row 2 "bob@example.com"

abbrev pub first_credit : String → String → ℕ → LedgerEntryRow
first_credit id wallet_id amount = record {
  id = id;
  transaction_id = some 50;
  wallet_id = wallet_id;
  entry_type = entry_type_credit;
  amount = num (pos amount);
  created_at = some 2;
}

abbrev pub past : TransactionRow
past = record {
  id = some 50;
  reference_no = "TXN-1";
  type = transaction_type_top_up;
  status = transaction_status_completed;
  amount = num (pos 500);
  source_wallet_id = none;
  target_wallet_id = some "WLT-A";
  created_at = some 2;
}

abbrev pub note : ℕ → ℕ → NotificationRow
note id owner = record {
  id = some id;
  user_id = some owner;
  title = "title";
  message = "message";
  is_read = false;
  created_at = some 3;
}

-- Two wallets whose balances are what their entries add up to.
abbrev pub two_wallets : Database
two_wallets = record empty {
  users = ann ∷ bob ∷ [];
  wallets = wallet_row "WLT-A" 1 500 ∷ wallet_row "WLT-B" 2 100 ∷ [];
  transactions = past ∷ [];
  ledger_entries = first_credit "LED-1" "WLT-A" 500 ∷ first_credit "LED-2" "WLT-B" 100 ∷ [];
  notifications = note 7 1 ∷ note 8 2 ∷ [];
}

abbrev pub ready : World
ready = record { db = two_wallets; tx = none; calls = 0; events = []; pushes = [] }

abbrev pub sends : TransferRequest
sends = record { target_wallet_id = "WLT-B"; amount = pos 70 }

abbrev pub sends_too_much : TransferRequest
sends_too_much = record { target_wallet_id = "WLT-B"; amount = pos 501 }

abbrev pub sends_to_itself : TransferRequest
sends_to_itself = record { target_wallet_id = "WLT-A"; amount = pos 70 }

abbrev pub deposits : TopUpRequest
deposits = record { amount = pos 30 }

abbrev pub joins : RegisterRequest
joins = record { email = "eve@example.com"; password = "secret"; confirm_password = "secret" }

abbrev pub balances : World → List Numeric
balances w = map (λ (v : WalletRow). v.balance) w.db.wallets
