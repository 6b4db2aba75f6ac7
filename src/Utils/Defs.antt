-- ===== src/Utils/Defs.antt =====
-- src/utils/number.ts, breed.ts, gift-card.ts, bud.ts and onchain/sign.ts.
use backend.Common.{
  ℕ, suc, ◌+◌, ◌-◌, ◌*◌, ◌/◌, ◌^◌, String, Option, none, some, Bool, true, false, ◌&&◌, List, [],
  ◌∷◌, if◌then◌else◌, get_elem?, length,
}
use text.Mathlib.Text.{◌==◌ as str_eq}
use backend.Common.Int.{ℤ, pos, ltb_ℤ, leb_ℤ, ◌==ℤ◌}
use backend.Schema.{
  Error, ok, err, is_item, superweed_serum, farmer_pass, Bud, BudGender, m, f, BudColor, light,
  medium, dark, BudShine, shine, no_shine, GiftAmount, usd50, usd100, usd200, usd420, usd1000,
  usd5000, usd10000, Address,
}
use backend.Db.{Exec, pure, ◌>>=◌}
use backend.Env.{Env, MintType}
use backend.Utils.Names.{bud_names}

-- The range of `Math.random()` in units of its last bit.
abbrev pub random_unit : ℕ
random_unit = 2 ^ 53

-- `Math.floor(Math.random() * (max - min)) + min` at one value of `Math.random()`.
unfoldable pub scale : ℕ → ℕ → ℕ → ℕ
scale max min draw = draw * (max - min) / random_unit + min

-- `randomNumber(max, min)`.
unfoldable pub random_number : Env → ℕ → ℕ → Exec ℕ
unfolding scale
random_number env max min s =
    (ok (scale max min (env.random s.drawn)), record s { drawn = suc s.drawn })

-- The comparison of `winRandomChance` at one random number; the chance is in tenths of a percent.
unfoldable pub wins : ℤ → ℕ → Bool
wins chance random = leb_ℤ (pos (10 * random)) chance

-- `winRandomChance(chance)`.
unfoldable pub win_random_chance : Env → ℤ → Exec Bool
unfolding random_number wins
win_random_chance env chance =
    if chance ==ℤ pos 1000
    then pure true
    else if ltb_ℤ (pos 0) chance && ltb_ℤ chance (pos 1000)
    then (do random ← random_number env 100 0; pure (wins chance random))
    else pure false

pub data BonusRateStatus : Type 0 where
  positive neutral negative : BonusRateStatus

-- `getBonusRateStatus(rate)`.
unfoldable pub get_bonus_rate_status : ℤ → BonusRateStatus
get_bonus_rate_status rate =
    if rate ==ℤ pos 0 then neutral else if ltb_ℤ (pos 0) rate then positive else negative

-- `checksumAddress(address)` of src/utils/address.ts: what `getAddress` refuses stays as it is.
unfoldable pub checksum_address : Env → Address → Address
checksum_address env a = elim (env.get_address (env.lower_case a)) [ none ↦ a | some b ↦ b ]

-- `getBreedTime(baseTime, gameItemId)`.
unfoldable pub get_breed_time : ℕ → Option ℕ → ℕ
get_breed_time base_time game_item_id =
    if is_item game_item_id farmer_pass
    then 1 * base_time / 2
    else if is_item game_item_id superweed_serum
    then 4 * base_time / 5
    else base_time

-- `getGiftCardTypeId(value)`; its -1 is for a value outside the enum.
unfoldable pub get_gift_card_type_id : GiftAmount → ℤ
get_gift_card_type_id usd50 = pos 0
get_gift_card_type_id usd100 = pos 1
get_gift_card_type_id usd200 = pos 2
get_gift_card_type_id usd420 = pos 3
get_gift_card_type_id usd1000 = pos 4
get_gift_card_type_id usd5000 = pos 5
get_gift_card_type_id usd10000 = pos 6

-- `getGiftCardSupply(value)`.
unfoldable pub get_gift_card_supply : GiftAmount → ℕ
get_gift_card_supply usd100 = 200
get_gift_card_supply usd200 = 65
get_gift_card_supply usd420 = 22
get_gift_card_supply usd1000 = 10
get_gift_card_supply _ = 0

abbrev pub bud_shines : List BudShine
bud_shines = shine ∷ no_shine ∷ []

abbrev pub bud_genders : List BudGender
bud_genders = m ∷ f ∷ []

abbrev pub bud_colors : List BudColor
bud_colors = light ∷ medium ∷ dark ∷ []

-- `Options` of src/utils/bud.ts, after the defaults: the callers set no `maxThc` or `maxBudSize`.
pub record BudOptions : Type 0 where
  pub max_thc : ℕ
  pub max_bud_size : ℕ
  pub target_gender : Option BudGender
  pub target_name : Option String
  pub target_image : Option String
  pub gen1 : Bool

abbrev pub default_options : BudOptions
default_options = record {
  max_thc = 22;
  max_bud_size = 20;
  target_gender = none;
  target_name = none;
  target_image = none;
  gen1 = false;
}

-- `array[i]`, and the use of what it returns.
abbrev pub read_or_throw : {A : Type 0} → Option A → Exec A
read_or_throw none s = (err Error.type_error, s)
read_or_throw (some x) s = (ok x, s)

unfoldable pub pick : {A : Type 0} → List A → ℕ → Exec A
pick xs i = read_or_throw (get_elem? xs i)

-- `if (target) field = target`.
abbrev pub overridden : {A : Type 0} → Option A → A → A
overridden none a = a
overridden (some t) a = t

-- The same for a text: an empty one is no target.
abbrev pub overridden_text : Option String → String → String
overridden_text none a = a
overridden_text (some t) a = if str_eq t "" then a else t

-- `generateRandomBud(options)`.
unfoldable pub generate_random_bud : Env → BudOptions → Exec Bud
unfolding random_number pick
generate_random_bud env o = do
  i ← random_number env (length bud_names) 0
  name_and_image ← pick bud_names i
  thc ← random_number env o.max_thc 1
  bud_size ← random_number env o.max_bud_size 1
  shine_index ← random_number env (length bud_shines) 0
  random_shine ← pick bud_shines shine_index
  gender_index ← random_number env (length bud_genders) 0
  random_gender ← pick bud_genders gender_index
  color_index ← random_number env (length bud_colors) 0
  random_color ← pick bud_colors color_index
  pure (record {
    name = overridden_text o.target_name name_and_image.name;
    image =
        overridden_text o.target_image
          (if o.gen1 then name_and_image.gen1_video else name_and_image.image);
    thc = thc;
    bud_size = bud_size;
    gender = overridden o.target_gender random_gender;
    shine = random_shine;
    color = random_color;
  })

-- `signMintRequest(address, typeString, tokenId, amount, timestamp)`: `null` with no key, and
-- where the wallet throws.
unfoldable pub sign_mint_request : Env → Address → MintType → ℕ → ℕ → ℕ → Option String
sign_mint_request env a type_string token_id amount timestamp = elim env.wallet_key [
  | none ↦ none
  | some k ↦ env.sign_message k a type_string token_id amount timestamp
]
