-- ===== src/Env.antt =====
-- What a request meets outside the code: the configuration (src/config/app.config.ts and
-- src/config.ts), the clock, `Math.random()`, and the services that the code calls.
-- The services are parameters: the RPC node behind `multicall`, the metadata API behind `axios`,
-- and the wallet that signs. A service that fails answers `none`. One request reads one time.
use backend.Common.{ℕ, ◌*◌, List, Option, Bool, String}
use backend.Common.Int.{ℤ, pos}
use backend.Schema.{Address, BudWithId}

pub data Network : Type 0 where
  goerli mainnet : Network

-- `ADDRESSES` of src/config.ts; an address is the number that it writes in hexadecimal.
pub record Addresses : Type 0 where
  pub bud : Address
  pub bud_burn : Address
  pub game_item : Address
  pub game_key : Address
  pub staking : Address

unfoldable pub addresses : Network → Addresses
addresses goerli = record {
  bud = 0xfF566FdA12c2Aaab3b5cc04fd523A1F4E0aCB4a5;
  bud_burn = 0x8b29E498a4F7e876fc310FE25BEFAb44515244E3;
  game_item = 0x0fBA7ac394d74Ccb4C0F874a37b3C362FdcCBbd3;
  game_key = 0x798B64aEF56313b18D71DD95088Ba3d054Fe4CcB;
  staking = 0x04e5b0453C2A3DDca06EB67E29Da85538e3AC4C6;
}
addresses mainnet = record {
  bud = 0xebbd75122a9e292b5205d9a374b5ea2c1933f903;
  bud_burn = 0x8EAa25F71D059293a8bFF0Da7974ea29a77D4154;
  game_item = 0x300b3C45f90744a219DEe4c7441Eae15cE42ef84;
  game_key = 0xb8bE3Baea710c42b1fee566F1086B169B726F4a8;
  staking = 0xcCA03DD3843079e0BEb0e98E0d7A946556caA097;
}

-- The numbers of `config()`. Times are in seconds but `rename_allowed_time`, in milliseconds;
-- rates are in tenths, points are whole.
pub record Config : Type 0 where
  pub rename_allowed_time : ℕ
  pub time_period : ℕ
  pub base_success_rate : ℤ
  pub indoor_slot_bonus_rate : ℤ
  pub breeding_point_per_level : ℕ
  pub breeding_point_to_open_slot : ℕ
  pub breeding_point_to_convert_indoor : ℕ
  pub burn_success_rate : ℤ
  pub target_level : ℕ
  pub land_price : ℕ

unfoldable pub config : Network → Config
config network = record {
  rename_allowed_time = 10 * 60 * 1000;
  time_period = elim network [ mainnet ↦ 1 * 60 * 60 * 24 | goerli ↦ 10 ];
  base_success_rate = pos 100;
  indoor_slot_bonus_rate = pos 50;
  breeding_point_per_level = 15;
  breeding_point_to_open_slot = 42;
  breeding_point_to_convert_indoor = 69;
  burn_success_rate = pos 600;
  target_level = 5;
  land_price = 140;
}

-- `typeString` of a mint request.
pub data MintType : Type 0 where
  gen1_bud land ticket game_item convert_bp2high : MintType

pub record Env : Type 0 where
  pub network : Network
  -- `Date.now()`
  pub now : ℕ
  -- the n-th value of `Math.random()`, times 2 ^ 53
  pub random : ℕ → ℕ
  -- which row comes where a query fixes no order
  pub row_choice : ℕ
  -- `multicall` of `ownerOf` on a contract, one call for each token
  pub owners_of : Address → List ℤ → Option (List Address)
  -- `multicall` of one `balanceOf(user, id)` on the game item contract
  pub game_item_balance : Address → ℕ → Option ℕ
  -- `multicall` of `burntAmount(address)` on the burn contract, one call for each address
  pub burnt_amounts : Address → List Address → Option (List ℕ)
  -- `multicall` of `balanceOfBatch` of the five items, one call for each address
  pub item_balances : Address → List Address → Option (List (List ℕ))
  -- `multicall` of one `balanceOf(user, 1)` on the OG ERC1155 contract, and of one
  -- `balanceOf(user)` on the OG ERC20 contract
  pub og_erc1155_balance : Address → Option ℕ
  pub og_erc20_balance : Address → Option ℕ
  -- `toLowerCase` on an address, and `getAddress` of ethers, which throws on what is no address
  pub lower_case : Address → Address
  pub get_address : Address → Option Address
  -- `isAddress` of ethers
  pub is_address : Address → Bool
  -- the metadata API on one request's ids
  pub fetch_metadatas : List ℤ → Option (List BudWithId)
  -- the bud name API
  pub name_allowed : String → Option Bool
  -- `String.prototype.trim`
  pub trim : String → String
  -- `TRIM` of the database
  pub sql_trim : String → String
  -- the issuer's key, and the wallet's signature of a mint request by a key
  pub wallet_key : Option ℕ
  pub sign_message : ℕ → Address → MintType → ℕ → ℕ → ℕ → Option String
  -- `jwt.passPhrase`, and `admin.key`, which may be missing
  pub pass_phrase : String
  pub admin_key : Option String
  -- `BigNumber.from` of ethers on a text, which throws on what it cannot read
  pub big_number : String → Option ℤ
  -- `verifyMessage` of ethers: who has signed a message with this signature
  pub verify_message : String → String → Option Address
  -- `jwt.sign` and `jwt.verify` with the options of the code, by the pass phrase: at a time they
  -- sign an address and a game key, and read them again
  pub jwt_sign : String → ℕ → Address → ℕ → String
  pub jwt_verify : String → ℕ → String → Option (Address × ℕ)
