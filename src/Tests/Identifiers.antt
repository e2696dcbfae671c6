-- ===== src/Tests/Identifiers.antt =====
-- The theorem on the identifiers at the draws and the day of the fixtures.
use wallet_ledger_service.Common.{refl, ◌%◌, arith}
use wallet_ledger_service.Utils.Ids.{
  generate_transaction_ref, generate_wallet_id, generate_ledger_entry_id, generate_audit_log_id,
}
use wallet_ledger_service.Utils.Ids.Widths.{Draws, Generated, dated, identifiers-Generated}
use wallet_ledger_service.Tests.Fixtures.{calm, ready}

draws : Draws calm
draws n = (n % 36, refl, omega arith)

identifiers-Generated_example :
    Generated (generate_transaction_ref calm) (dated calm 8) 8 9 30 ready
    × Generated (generate_wallet_id calm) "WLT-" 8 8 20 ready
    × Generated (generate_ledger_entry_id calm) "LED-" 10 10 20 ready
    × Generated (generate_audit_log_id calm) "AUD-" 10 10 20 ready
identifiers-Generated_example = identifiers-Generated calm draws (λ t. refl) ready
