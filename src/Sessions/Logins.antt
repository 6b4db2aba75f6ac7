-- ===== src/Sessions/Logins.antt =====
-- Logins, the statistics, gift cards and new names keep the invariant.
use backend.Common.{
  ◌∙◌, ◌≡◌, List, [], ◌∷◌, false, ℕ, refl, Option, none, some, Bool, String, arith, ◌==◌,
}
use backend.Common.Int.{ℤ}
use backend.Schema.{Error, Result, ok, err, Address, Caller, GiftAmount, GiftCard, Gen1Bud}
use backend.Db.{not_awaited, left_over, State, Exec, card_table, gen1_table, count, create, update}
use backend.Db.Triple.{Outcome, Frame, Frame-pure, Frame-raise, Frame-bind, frame_rules}
use backend.Env.{Env}
use backend.Auth.{
  is_staking, is_game_key_staked, LoginBody, valid_at, is_valid_message, caught, or_throw, let_in,
  log_in_as, login,
}
use backend.Auth.Upsert.{upserted_user, upsert_user}
use backend.Stats.{
  snapshot_breeding, snapshot_successful_breedings, snapshot_failed_breedings,
  snapshot_canceled_breedings, snapshot_total_breeding_hours, snapshot_spent_bps_for_breeding,
  snapshot_spent_bps_for_land_upgrade, snapshot_burned_g0_buds,
}
use backend.GiftCard.{issue_within_supply, issue_gift_card_mint, issue_reward, dice}
use backend.HashTable.{Reward, look_up_reward_table}
use backend.Bud.{check_bud_name, rename_found, rename_gen1_bud}
use backend.Sessions.Good.{IsGood}
use backend.Sessions.Rules.{Keeps, Keeps-bind, Keeps-Frame, Keeps-if, Keeps-state, keeps_rules}
use backend.Sessions.Lands.{create_free_land_slots-Keeps}
use backend.Sessions.Frames.{
  random_number-Frame, required-Frame, update_gen1-Frame, count-Frame, find_first-Frame,
}

caught-Outcome :
    {A : Type 0} (e : Error) (r : Result A) (s : State)
    → IsGood s
    → Outcome IsGood (λ a. IsGood) (caught e r, s)
caught-Outcome e (ok a) s g = g
caught-Outcome e (err x) s g = g

or_throw-Keeps : {A : Type 0} (m : Exec A) (e : Error) → Keeps m → Keeps (or_throw m e)
or_throw-Keeps m e h = record {
  ensures = record { at = λ s g. caught-Outcome e (m s).0 (m s).1 (Keeps-state m h s g) };
}

valid_at-Frame :
    (env : Env) (k : ℕ) (message : String) (o : Option ℤ) → Frame (valid_at env k message o)
unfolding valid_at
valid_at-Frame env k message none = Frame-raise _
valid_at-Frame env k message (some t) = Frame-pure _

pub is_valid_message-Frame :
    (env : Env) (k : ℕ) (message : String) → Frame (is_valid_message env k message)
unfolding is_valid_message
is_valid_message-Frame env k message = valid_at-Frame env k message _

pub upsert_user-Frame :
    (a : Address) (signature : String) (k : ℕ) → Frame (upsert_user a signature k)
unfolding upsert_user upserted_user
upsert_user-Frame a signature k = record { pairs = λ s. ground arith; slots = λ s. ground arith }

let_in-Keeps : (env : Env) (body : LoginBody) → Keeps (let_in env body)
unfolding let_in
let_in-Keeps env body =
    Keeps-bind _ _ (or_throw-Keeps _ _ (create_free_land_slots-Keeps body.address body.game_key_id))
      λ _. Keeps-Frame _ (Frame-bind _ _ (upsert_user-Frame _ _ _) λ u. Frame-pure _)

log_in_as-Keeps : (env : Env) (body : LoginBody) (o : Option Address) → Keeps (log_in_as env body o)
unfolding log_in_as
log_in_as-Keeps env body none = Keeps-Frame _ (Frame-raise _)
log_in_as-Keeps env body (some derived) =
    Keeps-if (env.lower_case derived == env.lower_case body.address) _ _ (let_in-Keeps env body)
      (Keeps-Frame _ (Frame-raise _))

is_staking-Frame : (env : Env) (o : Option (List Address)) → Frame (is_staking env o)
unfolding is_staking
is_staking-Frame env none = Frame-raise _
is_staking-Frame env (some []) = Frame-pure false
is_staking-Frame env (some (a ∷ more)) = Frame-pure _

left_over-pairs : {A : Type 0} (r : Result A) (s : State) → (left_over r s).pairs ≡ s.pairs
left_over-pairs (ok a) s = refl
left_over-pairs (err e) s = refl

left_over-slots : {A : Type 0} (r : Result A) (s : State) → (left_over r s).slots ≡ s.slots
left_over-slots (ok a) s = refl
left_over-slots (err e) s = refl

not_awaited-Frame : {A : Type 0} (m : Exec A) → Frame m → Frame (not_awaited m)
not_awaited-Frame m h = record {
  pairs = λ s. left_over-pairs (m s).0 (m s).1 ∙ h.pairs s;
  slots = λ s. left_over-slots (m s).0 (m s).1 ∙ h.slots s;
}

pub staked-Frame : (env : Env) (k : ℕ) → Frame (not_awaited (is_game_key_staked env k))
unfolding is_game_key_staked
staked-Frame env k = not_awaited-Frame _ (is_staking-Frame env _)

-- A login keeps the invariant, whatever the answer.
pub login-Keeps : (env : Env) (body : LoginBody) → Keeps (login env body)
unfolding login
login-Keeps env body =
    search (keeps_rules, is_valid_message-Frame, staked-Frame, log_in_as-Keeps) depth 20

-- The statistics are a table of their own.
pub snapshot_breeding-Frame : Frame snapshot_breeding
unfolding snapshot_breeding snapshot_successful_breedings snapshot_failed_breedings
    snapshot_canceled_breedings snapshot_total_breeding_hours snapshot_spent_bps_for_breeding
    snapshot_spent_bps_for_land_upgrade snapshot_burned_g0_buds
snapshot_breeding-Frame = record { pairs = λ s. refl; slots = λ s. refl }

card_count-Frame : (w : GiftCard → Bool) → Frame (count card_table w)
card_count-Frame w = record { pairs = λ s. refl; slots = λ s. refl }

create_card-Frame : (f : ℕ → GiftCard) → Frame (create card_table f)
create_card-Frame f = record { pairs = λ s. refl; slots = λ s. refl }

update_card-Frame : (i : ℕ) (f : GiftCard → GiftCard) → Frame (update card_table i f)
update_card-Frame i f = record { pairs = λ s. ground arith; slots = λ s. ground arith }

ruleset card_frames = (
  frame_rules, card_count-Frame, create_card-Frame, update_card-Frame, random_number-Frame,
  required-Frame,
)

mint-Frame :
    (env : Env) (minter : Address) (value : GiftAmount) (pair_id : Option ℕ)
    → Frame (issue_gift_card_mint env minter value pair_id)
unfolding issue_gift_card_mint issue_within_supply
mint-Frame env minter value pair_id = search card_frames depth 30

reward-Frame :
    (env : Env) (minter : Address) (pair_id : Option ℕ) (o : Option Reward)
    → Frame (issue_reward env minter pair_id o)
reward-Frame env minter pair_id none = Frame-pure none
reward-Frame env minter pair_id (some r) = mint-Frame env minter r.price pair_id

-- Gift cards are a table of their own.
pub dice-Frame :
    (env : Env) (minter : Address) (pair_id : Option ℕ) → Frame (dice env minter pair_id)
unfolding dice
dice-Frame env minter pair_id =
    Frame-bind _ _ (random_number-Frame env 100 0)
      λ chance. reward-Frame env minter pair_id (look_up_reward_table chance)

check_bud_name-Frame : (env : Env) (name : String) → Frame (check_bud_name env name)
unfolding check_bud_name
check_bud_name-Frame env name = search (frame_rules, count-Frame)

rename_found-Frame :
    (env : Env) (i : ℕ) (name : String) (o : Option Gen1Bud) → Frame (rename_found env i name o)
unfolding rename_found
rename_found-Frame env i name none = Frame-raise _
rename_found-Frame env i name (some b) =
    search (frame_rules, check_bud_name-Frame, update_gen1-Frame)

-- A rename changes Gen1 buds alone.
pub rename_gen1_bud-Frame :
    (env : Env) (req : Caller) (i : ℕ) (name : String) → Frame (rename_gen1_bud env req i name)
unfolding rename_gen1_bud
rename_gen1_bud-Frame env req i name =
    Frame-bind _ _ (find_first-Frame gen1_table _) λ o. rename_found-Frame env i name o
