-- ===== src/Stats/History.antt =====
-- `getBPDepositHistory` of src/stats/stats.service.ts, and `getHistory` of
-- src/stats/stats.controller.ts.
use backend.Common.{
  ℕ, Option, none, some, Bool, true, false, ◌&&◌, List, map, keep, ◌==◌, if◌then◌else◌,
}
use backend.Schema.{Address, Caller, EventType, EventServiceLog, LogData, points, buds, deposit_bp}
use backend.Db.{Exec, gets}

-- An entry of the history.
pub record BpDeposit : Type 0 where
  pub tx_hash : ℕ
  pub block_number : ℕ
  pub created_at : ℕ
  -- in hundredths of a point
  pub amount : Option ℕ

-- `JSON.parse(data)?.amount / 100 || null`: 0 and what is no amount are null.
abbrev pub amount_of : LogData → Option ℕ
amount_of (points amount balance) = if amount == 0 then none else some amount
amount_of (buds male female gen1) = none

abbrev is_deposit : EventType → Bool
is_deposit deposit_bp = true
is_deposit _ = false

abbrev pub deposit_of : Address → EventServiceLog → Bool
deposit_of a l = l.address == a && is_deposit l.type

abbrev pub bp_deposit : EventServiceLog → BpDeposit
bp_deposit l = record {
  tx_hash = l.tx_hash;
  block_number = l.block_number;
  created_at = l.created_at;
  amount = amount_of l.data_;
}

-- `getBPDepositHistory`.
unfoldable pub get_bp_deposit_history : Address → Exec (List BpDeposit)
get_bp_deposit_history a = gets λ s. map bp_deposit (keep (deposit_of a) s.logs)

-- `getHistory`.
unfoldable pub get_history : Caller → Exec (List BpDeposit)
unfolding get_bp_deposit_history
get_history req = get_bp_deposit_history req.user
