-- ===== src/Tests/Fixtures.antt =====
-- A database and surroundings to run the code on.
use Prim.Native.String.{compare}
use text.Mathlib.Text.{is_eq}
use backend.Common.{none, some, Bool, true, false, [], ◌∷◌, map, if◌then◌else◌}
use backend.Common.Int.{ℤ, pos, ◌==ℤ◌}
use backend.Schema.{Caller, User, Bud, BudWithId, BreedSlot, m, f, outdoor, shine, light}
use backend.Db.{State, Rows}
use backend.Env.{Env, goerli}

abbrev pub bud : Bool → Bud
bud is_male = record {
  name = "Kush";
  image = "kush.png";
  thc = 2;
  bud_size = 3;
  gender = if is_male then m else f;
  shine = shine;
  color = light;
}

-- Of the Gen0 buds, number 1 alone is male.
abbrev pub metadata : ℤ → BudWithId
metadata i = record { id = i; revealed = true; bud = bud (i ==ℤ pos 1) }

-- The user 7 owns every token.
abbrev pub env : Env
env = record {
  network = goerli;
  now = 1000000;
  random = λ n. 0;
  row_choice = 0;
  owners_of = λ contract ids. some (map (λ i. 7) ids);
  game_item_balance = λ user item. some 1;
  burnt_amounts = λ contract addresses. some (map (λ a. 2) addresses);
  item_balances = λ contract addresses. some (map (λ a. 1 ∷ 0 ∷ 3 ∷ 0 ∷ 0 ∷ []) addresses);
  og_erc1155_balance = λ user. some 0;
  og_erc20_balance = λ user. some 0;
  lower_case = λ a. a;
  get_address = λ a. some a;
  is_address = λ a. true;
  fetch_metadatas = λ ids. some (map metadata ids);
  name_allowed = λ name. some true;
  trim = λ name. name;
  sql_trim = λ name. name;
  wallet_key = some 1;
  pass_phrase = "secret";
  admin_key = some "key";
  big_number = λ text. if is_eq (compare text "0000001000000") then some (pos 1000000) else none;
  verify_message = λ message signature. some 7;
  jwt_sign = λ phrase time user game_key_id. "token";
  jwt_verify = λ phrase time token. some (7, 3);
  sign_message = λ key user type id amount time. some "0x0";
}

abbrev pub caller : Caller
caller = record { user = 7; game_key_id = 3 }

abbrev pub user : User
user = record { address = 7; signature = ""; game_key_id = some 3; breeding_point = pos 50 }

abbrev pub slot : BreedSlot
slot = record {
  id = 1;
  is_open = true;
  is_used = false;
  type = outdoor;
  game_key_id = some 3;
  land_token_id = none;
  user_address = 7;
  deleted_at = none;
}

abbrev pub no_rows : {R : Type 0} → Rows R
no_rows = record { rows = []; next = 1 }

-- One user with one open slot.
abbrev pub start : State
start = record {
  users = user ∷ [];
  pairs = no_rows;
  levels = no_rows;
  breed_buds = no_rows;
  slots = record { rows = slot ∷ []; next = 2 };
  logs = [];
  gen1_buds = no_rows;
  gift_cards = no_rows;
  stats = no_rows;
  drawn = 0;
  emitted = [];
  rejections = [];
}
