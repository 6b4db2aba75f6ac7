-- ===== src/GiftCard.antt =====
-- src/gift-card/gift-card.service.ts: gift cards within their supply.
pub mod Supply
use backend.Common.{
  ℕ, Option, none, some, Bool, true, false, ◌&&◌, List, leb, ◌==◌, if◌then◌else◌, ◌+◌,
}
use backend.Common.Int.{ℤ, pos, ltb_ℤ, pos_part}
use backend.Schema.{
  Address, Caller, GiftAmount, GiftCard, usd50, usd100, usd200, usd420, usd1000, usd5000, usd10000,
}
use backend.Db.{Exec, pure, ◌>>=◌, ◌>>◌, card_table, find_many, count, create, update, required}
use backend.Env.{Env, MintType}
use backend.Utils.{random_number, get_gift_card_type_id, get_gift_card_supply, sign_mint_request}
use backend.HashTable.{Reward, look_up_reward_table}

abbrev pub amount_index : GiftAmount → ℕ
amount_index usd50 = 0
amount_index usd100 = 1
amount_index usd200 = 2
amount_index usd420 = 3
amount_index usd1000 = 4
amount_index usd5000 = 5
amount_index usd10000 = 6

-- `value` equal to an amount.
abbrev pub is_amount : GiftAmount → GiftCard → Bool
is_amount v c = amount_index c.value == amount_index v

-- `issueGitCardMint`, past the test of the type id.
unfoldable pub issue_within_supply :
    Env → Address → GiftAmount → Option ℕ → ℕ → Exec (Option GiftCard)
unfolding get_gift_card_supply sign_mint_request
issue_within_supply env minter value pair_id token_id = do
  n ← count card_table (is_amount value)
  if leb (get_gift_card_supply value) n then pure none else do
    card ← create card_table λ i. record {
      id = i;
      value = value;
      created_at = env.now;
      minter_address = minter;
      signature = "";
      pair_id = pair_id;
    }
    signature ← required (sign_mint_request env minter MintType.ticket token_id 1 card.created_at)
    signed ← update card_table card.id λ c. record c { signature = signature }
    pure (some signed)

-- `issueGitCardMint`.
unfoldable pub issue_gift_card_mint : Env → Address → GiftAmount → Option ℕ → Exec (Option GiftCard)
unfolding get_gift_card_type_id issue_within_supply
issue_gift_card_mint env minter value pair_id =
    if ltb_ℤ (get_gift_card_type_id value) (pos 0)
    then pure none
    else issue_within_supply env minter value pair_id (pos_part (get_gift_card_type_id value))

abbrev pub issue_reward : Env → Address → Option ℕ → Option Reward → Exec (Option GiftCard)
issue_reward env minter pair_id none = pure none
issue_reward env minter pair_id (some r) = issue_gift_card_mint env minter r.price pair_id

-- `dice`.
unfoldable pub dice : Env → Address → Option ℕ → Exec (Option GiftCard)
unfolding issue_gift_card_mint look_up_reward_table random_number
dice env minter pair_id = do
  chance ← random_number env 100 0
  issue_reward env minter pair_id (look_up_reward_table chance)

-- `getGiftCards` of src/gift-card/gift-card.controller.ts.
unfoldable pub get_gift_cards : Caller → Option ℕ → Option GiftAmount → Exec (List GiftCard)
get_gift_cards req id value = find_many card_table λ c.
    elim id [ none ↦ true | some i ↦ c.id == i ]
    && elim value [ none ↦ true | some v ↦ is_amount v c ]
    && c.minter_address == req.user
