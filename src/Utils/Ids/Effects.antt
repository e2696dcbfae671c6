-- ===== src/Utils/Ids/Effects.antt =====
-- The generators leave the open transaction alone.
use wallet_ledger_service.Common.{ℕ, zero, suc, refl, ◌∙◌, arith}
use wallet_ledger_service.World.{Env, M, pure, ◌>>=◌}
use wallet_ledger_service.World.Rules.{
  Runs, Runs-pure, Runs-read_clock, Runs-weaken, Runs-bind, Stays,
}
use wallet_ledger_service.Utils.Ids.{
  random_letter, random_alphanumeric, generate_transaction_ref, generate_ledger_entry_id,
  generate_wallet_id, generate_audit_log_id,
}

module _ {A B : Type 0} where
  -- Two steps that leave it alone.
  Stays-bind :
      {m : M A} {f : A → M B} → Runs m Stays → ((a : A) → Runs (f a) Stays) → Runs (m >>= f) Stays
  Stays-bind k l = Runs-weaken (Runs-bind k l) (λ d b d' (a, d1, e, e'). e' ∙ e)

Stays-pure : {A : Type 0} (a : A) → Runs (pure a) Stays
Stays-pure a = Runs-weaken (Runs-pure a) (λ d b d' (e, _). e)

module _ (env : Env) where
  random_letter-Stays : Runs (random_letter env) Stays
  unfolding random_letter
  random_letter-Stays = record {
    db_same = λ w. ground arith;
    events_same = λ w. ground arith;
    moves = λ w d a h e. (d, ground arith, refl);
  }

  random_alphanumeric-Stays : (n : ℕ) → Runs (random_alphanumeric env n) Stays
  unfolding random_alphanumeric
  random_alphanumeric-Stays zero = Stays-pure _
  random_alphanumeric-Stays (suc n) =
      Stays-bind random_letter-Stays
        (λ l. Stays-bind (random_alphanumeric-Stays n) (λ rest. Stays-pure _))

  pub generate_transaction_ref-Stays : Runs (generate_transaction_ref env) Stays
  unfolding generate_transaction_ref
  generate_transaction_ref-Stays =
      Stays-bind (random_alphanumeric-Stays 8)
        (λ r. Stays-bind (Runs-read_clock env) (λ now. Stays-pure _))

  pub generate_ledger_entry_id-Stays : Runs (generate_ledger_entry_id env) Stays
  unfolding generate_ledger_entry_id
  generate_ledger_entry_id-Stays = Stays-bind (random_alphanumeric-Stays 10) (λ r. Stays-pure _)

  pub generate_wallet_id-Stays : Runs (generate_wallet_id env) Stays
  unfolding generate_wallet_id
  generate_wallet_id-Stays = Stays-bind (random_alphanumeric-Stays 8) (λ r. Stays-pure _)

  pub generate_audit_log_id-Stays : Runs (generate_audit_log_id env) Stays
  unfolding generate_audit_log_id
  generate_audit_log_id-Stays = Stays-bind (random_alphanumeric-Stays 10) (λ r. Stays-pure _)
