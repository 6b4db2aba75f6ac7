-- ===== src/Admin/Service.antt =====
-- src/admin/admin.service.ts.
use backend.Common.{ℕ, Bool, true, false, not, ◌&&◌, ltb, ◌==◌, tally}
use backend.Schema.{
  Error, Address, EventType, EventServiceLog, burn_gen0, mint_land, deposit_bp, withdraw_bp,
}
use backend.Db.{Exec, gets, throw_if, ◌>>=◌, ◌>>◌}
use backend.Env.{Env, Network, goerli, mainnet, addresses}

-- `AdminDtoBase`.
pub record AdminDto : Type 0 where
  pub address : Address
  pub tx_hash : ℕ
  pub block : ℕ
  pub network : Network

abbrev pub same_network : Network → Network → Bool
same_network goerli goerli = true
same_network goerli mainnet = false
same_network mainnet goerli = false
same_network mainnet mainnet = true

abbrev pub same_event : EventType → EventType → Bool
same_event burn_gen0 burn_gen0 = true
same_event mint_land mint_land = true
same_event deposit_bp deposit_bp = true
same_event withdraw_bp withdraw_bp = true
same_event _ _ = false

abbrev pub is_event : ℕ → EventType → EventServiceLog → Bool
is_event tx_hash type l = l.tx_hash == tx_hash && same_event l.type type

-- `validateTransaction`.
unfoldable pub validate_transaction : Env → AdminDto → EventType → Exec (Unit {0})
validate_transaction env dto type = do
  throw_if (not (same_network dto.network env.network)) (Error.bad_request "Invalid network")
  existing ← gets (λ s. tally (is_event dto.tx_hash type) s.logs)
  throw_if (ltb 0 existing) (Error.unprocessable "Already handled this transaction")

-- The contract that `checkTransaction` asks for.
abbrev pub contract_of : Network → EventType → Address
unfolding addresses
contract_of network burn_gen0 = (addresses network).bud_burn
contract_of network deposit_bp = (addresses network).bud_burn
contract_of network mint_land = (addresses network).game_item
contract_of network withdraw_bp = (addresses network).bud_burn

-- `checkTransaction`, which only comments call: it compares the body's address.
unfoldable pub check_transaction : Env → AdminDto → EventType → Exec (Unit {0})
unfolding contract_of
check_transaction env dto type =
    throw_if (not (dto.address == contract_of env.network type))
      (Error.unprocessable "Incorrect transaction")
