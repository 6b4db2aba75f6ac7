-- ===== src/Schema/Rows.antt =====
-- prisma/schema.prisma: the enums and the models.
use backend.Common.{ℕ, String, Option, Bool, true, false}
use backend.Common.Int.{ℤ}
use backend.Schema.Request.{Address}

pub data BreedPairStatus : Type 0 where
  paired completed canceled failed : BreedPairStatus

pub data BreedSlotType : Type 0 where
  indoor outdoor : BreedSlotType

pub data BudGender : Type 0 where
  m f : BudGender

pub data BudColor : Type 0 where
  light medium dark : BudColor

pub data BudShine : Type 0 where
  shine no_shine : BudShine

pub data GiftAmount : Type 0 where
  usd50 usd100 usd200 usd420 usd1000 usd5000 usd10000 : GiftAmount

pub data EventType : Type 0 where
  burn_gen0 mint_land deposit_bp withdraw_bp : EventType

-- `=== BreedPairStatus.PAIRED`.
abbrev pub is_paired : BreedPairStatus → Bool
is_paired paired = true
is_paired completed = false
is_paired canceled = false
is_paired failed = false

abbrev pub is_completed : BreedPairStatus → Bool
is_completed paired = false
is_completed completed = true
is_completed canceled = false
is_completed failed = false

abbrev pub is_indoor : BreedSlotType → Bool
is_indoor indoor = true
is_indoor outdoor = false

abbrev pub is_male : BudGender → Bool
is_male m = true
is_male f = false

-- `User`. `breedingPoint` is an `Int` column, and nothing keeps it from going below zero.
pub record User : Type 0 where
  pub address : Address
  pub signature : String
  pub game_key_id : Option ℕ
  pub breeding_point : ℤ

pub record BreedPair : Type 0 where
  pub id : ℕ
  pub male_bud_id : ℤ
  pub female_bud_id : ℤ
  pub rate : ℤ
  pub created_at : ℕ
  pub user_address : Address
  pub current_level : ℕ
  pub status : BreedPairStatus
  pub slot_id : ℕ
  pub game_key_id : ℕ
  pub game_item_id : Option ℕ

pub record BreedLevel : Type 0 where
  pub id : ℕ
  pub pair_id : ℕ
  pub level : ℕ
  pub created_at : ℕ
  pub bonus_rate : ℤ
  pub male_breed_bud_id : Option ℕ
  pub female_breed_bud_id : Option ℕ

-- `Bud` of src/types.ts: the traits that every bud has.
pub record Bud : Type 0 where
  pub name : String
  pub image : String
  pub thc : ℕ
  pub bud_size : ℕ
  pub gender : BudGender
  pub shine : BudShine
  pub color : BudColor

pub record BreedBud : Type 0 where
  pub id : ℕ
  pub bud : Bud
  pub level_id : ℕ

pub record BreedSlot : Type 0 where
  pub id : ℕ
  pub is_open : Bool
  pub is_used : Bool
  pub type : BreedSlotType
  pub game_key_id : Option ℕ
  pub land_token_id : Option ℕ
  pub user_address : Address
  pub deleted_at : Option ℕ

-- What the handlers put into `data` with JSON.stringify, as a value: the amount of a report of
-- points with the balance before it, and the buds of a burn with the Gen1 bud issued.
pub data LogData : Type 0 where
  points : (amount : ℕ) → (balance : ℤ) → LogData
  buds : (male female : ℤ) → Option ℕ → LogData

pub record EventServiceLog : Type 0 where
  pub address : Address
  pub tx_hash : ℕ
  pub block_number : ℕ
  pub type : EventType
  pub data_ : LogData
  pub created_at : ℕ

pub record Gen1Bud : Type 0 where
  pub id : ℕ
  pub bud : Bud
  pub created_at : ℕ
  pub minter_address : Address
  pub signature : String
  pub pair_id : Option ℕ

pub record GiftCard : Type 0 where
  pub id : ℕ
  pub value : GiftAmount
  pub created_at : ℕ
  pub minter_address : Address
  pub signature : String
  pub pair_id : Option ℕ

-- The nullable columns of `Stats`.
pub record StatsCounts : Type 0 where
  pub total_success : Option ℕ
  pub total_failure : Option ℕ
  pub total_cancels : Option ℕ
  pub total_hours : Option ℕ
  pub bp_for_breeding : Option ℕ
  pub bp_for_land_upgrade : Option ℕ
  pub burned_buds : Option ℕ

pub record Stats : Type 0 where
  pub id : ℕ
  pub address : Address
  pub counts : StatsCounts

-- `BudWithId` of src/types.ts: what the metadata service knows of a Gen0 bud.
pub record BudWithId : Type 0 where
  pub id : ℤ
  pub revealed : Bool
  pub bud : Bud
