-- ===== src/Record/Tests.antt =====
-- Runs of packages/db/src/record.ts on a small database.
use new_bnbhack.Common.{◌≡◌, refl, true, false, [], ◌∷◌, none, some, update_first}
use new_bnbhack.Common.Text.{
  Text, codes, eq_text, to_lower, big_int, trim, drop_while, drop_end_while, is_space, span_digits,
  pad_start, pad_end, to_string,
}
use new_bnbhack.Amounts.{
  to_units, from_units, match_decimal, truncate_decimal, from_magnitude, with_fraction,
}
use new_bnbhack.Holdings.{multiplier_units, shares_from_tokens}
use new_bnbhack.Domain.{yield, weekly, anytime, active, bstocks, Instrument}
use new_bnbhack.Ledger.{house, reserved, spent, LedgerRow, settled_rows, settled_row}
use new_bnbhack.Plans.{PlanRow, plan_allowed, get_plan, write_plan}
use new_bnbhack.Record.{
  ReceiptKind, deposit, redeem, swap, success, ReceiptFacts, Db, receipt_row, insert_receipt_row,
  update_plan_tx, claim, with_receipt, new_holding, apply_deposit, apply_position_redeem,
  apply_swap, add_to_holding_tx, warn_of_change, use_interest, get_holding, upsert_holding,
}
use new_bnbhack.Record.Redeems.{status_patch, IsRedeemed, apply_position_redeem-IsRedeemed}
use new_bnbhack.Record.Once.{
  deposits, begins, applies, AreDistinct, IsNewOrIgnored, Reports-AreDistinct,
}
use new_bnbhack.Record.Swaps.{IsSwapped, apply_swap-IsSwapped}

abbrev plan_y : PlanRow
plan_y = record {
  id = codes "y";
  owner_kind = house;
  owner_ref = none;
  wallet_address = none;
  mode = yield;
  ticker = codes "AAPL";
  issuer_preference = [];
  principal_usd = 100;
  contribution_usd = 0;
  harvested_unspent_usd = 3;
  vtoken_units = 10;
  cadence = weekly;
  window = anytime;
  max_per_buy_usd = 5;
  max_daily_usd = 10;
  status = active;
  paused_reason = none;
  created_at = 0;
  next_due_at = 100;
  expires_at = none;
  lock_until = none;
}

abbrev empty_db : Db
empty_db = record {
  plans = plan_y ∷ [];
  cycles = record { rows = []; next_id = 1 };
  receipts = [];
  holdings = [];
  events = [];
  spend_ledger = [];
  next_ledger_id = 1;
}

abbrev facts_of : ReceiptKind → Text → ReceiptFacts
facts_of kind tx_hash = record {
  kind = kind;
  tx_hash = tx_hash;
  broadcast_via = codes "rpc";
  block_number = codes "7";
  status = success;
  simulated_at = none;
  amounts = [];
}

abbrev with_deposit : Db
with_deposit = record empty_db {
  plans = record plan_y { principal_usd = 150; vtoken_units = 15 } ∷ [];
  receipts = receipt_row (codes "y") none (facts_of deposit (codes "0xAB")) ∷ [];
}

first_report :
    apply_deposit (codes "y") (facts_of deposit (codes "0xAB")) 5 50 empty_db
    ≡ some (with_deposit, true)
unfolding apply_deposit with_receipt claim insert_receipt_row receipt_row update_plan_tx write_plan
    plan_allowed get_plan update_first eq_text to_lower
first_report = refl

-- the same transaction with its hash in another spelling
second_report :
    apply_deposit (codes "y") (facts_of deposit (codes "0xab")) 5 50 with_deposit
    ≡ some (with_deposit, false)
unfolding apply_deposit with_receipt claim insert_receipt_row receipt_row get_plan eq_text to_lower
second_report = refl

Reports-AreDistinct_example :
    AreDistinct (to_lower (codes "0xAB") ∷ [])
    × IsNewOrIgnored (to_lower (codes "0xAB") ∷ []) (codes "0xab") with_deposit with_deposit false
Reports-AreDistinct_example =
    Reports-AreDistinct
      (applies begins (deposits (codes "y") (facts_of deposit (codes "0xAB")) 5 50) first_report)
      (deposits (codes "y") (facts_of deposit (codes "0xab")) 5 50) with_deposit false second_report

apply_position_redeem-IsRedeemed_example :
    (db' : Db) × (row' : PlanRow) × (apply_position_redeem
        (codes "y")
        (facts_of redeem (codes "0x1"))
        120
        10
        (status_patch none none)
        empty_db
      ≡ some (db', true))
    × (get_plan (codes "y") db'.plans ≡ some row')
    × IsRedeemed plan_y row' 120 10
unfolding get_plan eq_text plan_allowed
apply_position_redeem-IsRedeemed_example =
    apply_position_redeem-IsRedeemed (codes "y") (facts_of redeem (codes "0x1")) 120 10 none none
      empty_db plan_y refl refl refl

abbrev apple : Instrument
apple = record {
  id = codes "aapl";
  ticker = codes "AAPL";
  issuer = bstocks;
  address = codes "0x2";
  symbol = codes "AAPLB";
  decimals = 18;
  multiplier = codes "1";
  verified_at = [];
}

abbrev reservation : LedgerRow
reservation = record {
  id = 1;
  plan_id = codes "y";
  cycle_id = 4;
  owner_kind = house;
  day = codes "2026-09-28";
  amount_usd = 5;
  status = reserved;
}

abbrev reserved_db : Db
reserved_db = record empty_db { spend_ledger = reservation ∷ [] }

abbrev swapped_db : Db
swapped_db = record reserved_db {
  plans = record plan_y { harvested_unspent_usd = 1 } ∷ [];
  receipts = receipt_row (codes "y") (some 4) (facts_of swap (codes "0x3")) ∷ [];
  holdings = new_holding (codes "y") apple 1_500_000_000_000_000_000 4 (codes "1.5") ∷ [];
  spend_ledger = record reservation { status = spent; amount_usd = 4 } ∷ [];
}

swapped :
    apply_swap
      (codes "y")
      (some 4)
      (facts_of swap (codes "0x3"))
      apple
      1_500_000_000_000_000_000
      4
      (some 2)
      reserved_db
    ≡ some (swapped_db, true)
unfolding apply_swap with_receipt claim insert_receipt_row receipt_row settled_rows settled_row
    add_to_holding_tx warn_of_change get_holding upsert_holding use_interest update_plan_tx
    write_plan plan_allowed get_plan update_first eq_text to_lower shares_from_tokens
    multiplier_units big_int trim drop_while drop_end_while is_space span_digits pad_start pad_end
    to_string to_units from_units match_decimal truncate_decimal from_magnitude with_fraction
swapped = refl

apply_swap-IsSwapped_example :
    IsSwapped (codes "y") (some 4) apple 1_500_000_000_000_000_000 4 (some 2) reserved_db swapped_db
apply_swap-IsSwapped_example =
    apply_swap-IsSwapped (codes "y") (some 4) (facts_of swap (codes "0x3")) apple
      1_500_000_000_000_000_000 4 (some 2) reserved_db swapped_db swapped
