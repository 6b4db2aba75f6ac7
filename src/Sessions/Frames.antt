-- ===== src/Sessions/Frames.antt =====
-- The actions that touch neither pairs nor slots.
use backend.Common.{ℕ, refl, Option, none, some, Bool, List, [], ◌∷◌, arith}
use backend.Common.Int.{ℤ, ◌+ℤ◌}
use backend.Schema.{Address, Bud, BreedPair, BreedLevel, BreedSlot, BreedBud, Gen1Bud, User}
use backend.Db.{
  State, Table, gets, ◌>>=◌, level_table, gen1_table, breed_bud_table, pair_table, count, find_many,
  find_first, update, create, create_many, update_user, find_user, required,
}
use backend.Db.Triple.{Frame, frame_rules, Frame-bind}
use backend.Env.{Env}
use backend.Utils.{random_number, pick, win_random_chance, generate_random_bud, BudOptions}
use backend.HashTable.{Traits, pick_traits, look_up_gen1_bud}
use backend.Bud.{
  verify_metadatas, require_owners, verify_bud_pairs, dice_gen1_bud, issue_gen1_bud_mint,
}
use backend.User.{consume_found, consume_breeding_point}
use backend.Breed.{
  get_start_success_rate, base_rate, create_level, create_level_buds, evaluate_breed_level,
  evaluate_level, evaluate_list, finalize_rate, bonus_sum, find_pair_in_breeding, in_breeding,
  check_game_item_balance, verify_game_item_possession,
}

pub random_number-Frame : (env : Env) (max min : ℕ) → Frame (random_number env max min)
unfolding random_number
random_number-Frame env max min = record { pairs = λ s. refl; slots = λ s. refl }

module _ {A : Type 0} where
  pub pick-Frame : (xs : List A) (i : ℕ) → Frame (pick xs i)
  unfolding pick
  pick-Frame xs i = record { pairs = λ s. ground arith; slots = λ s. ground arith }

pub win_random_chance-Frame : (env : Env) (chance : ℤ) → Frame (win_random_chance env chance)
unfolding win_random_chance
win_random_chance-Frame env chance = search (frame_rules, random_number-Frame)

pub generate_random_bud-Frame : (env : Env) (o : BudOptions) → Frame (generate_random_bud env o)
unfolding generate_random_bud
generate_random_bud-Frame env o = search (frame_rules, random_number-Frame, pick-Frame) depth 30

module _ {R : Type 0} (t : Table R) where
  pub count-Frame : (w : R → Bool) → Frame (count t w)
  count-Frame w = record { pairs = λ s. refl; slots = λ s. refl }

  pub find_many-Frame : (w : R → Bool) → Frame (find_many t w)
  find_many-Frame w = record { pairs = λ s. refl; slots = λ s. refl }

  pub find_first-Frame : (w : R → Bool) → Frame (find_first t w)
  find_first-Frame w = record { pairs = λ s. refl; slots = λ s. refl }

pub update_level-Frame : (i : ℕ) (f : BreedLevel → BreedLevel) → Frame (update level_table i f)
update_level-Frame i f = record { pairs = λ s. ground arith; slots = λ s. ground arith }

pub update_gen1-Frame : (i : ℕ) (f : Gen1Bud → Gen1Bud) → Frame (update gen1_table i f)
update_gen1-Frame i f = record { pairs = λ s. ground arith; slots = λ s. ground arith }

pub update_user-Frame : (a : Address) (f : User → User) → Frame (update_user a f)
update_user-Frame a f = record { pairs = λ s. ground arith; slots = λ s. ground arith }

pub create_level_row-Frame : (f : ℕ → BreedLevel) → Frame (create level_table f)
create_level_row-Frame f = record { pairs = λ s. refl; slots = λ s. refl }

pub create_gen1-Frame : (f : ℕ → Gen1Bud) → Frame (create gen1_table f)
create_gen1-Frame f = record { pairs = λ s. refl; slots = λ s. refl }

pub create_buds-Frame : (fs : List (ℕ → BreedBud)) → Frame (create_many breed_bud_table fs)
create_buds-Frame fs = record { pairs = λ s. refl; slots = λ s. refl }

pub required-Frame : {A : Type 0} (o : Option A) → Frame (required o)
required-Frame none = record { pairs = λ s. refl; slots = λ s. refl }
required-Frame (some a) = record { pairs = λ s. refl; slots = λ s. refl }

pub find_user-Frame : (a : Address) → Frame (find_user a)
find_user-Frame a = record { pairs = λ s. refl; slots = λ s. refl }

ruleset query_frames = (
  frame_rules, count-Frame, find_many-Frame, find_first-Frame, update_level-Frame,
  update_gen1-Frame, update_user-Frame, create_level_row-Frame, create_gen1-Frame,
  create_buds-Frame, required-Frame, find_user-Frame, random_number-Frame, pick-Frame,
)

pick_traits-Frame : (env : Env) (group : Option (List Traits)) → Frame (pick_traits env group)
unfolding pick_traits
pick_traits-Frame env none = record { pairs = λ s. refl; slots = λ s. refl }
pick_traits-Frame env (some g) =
    let h : Frame (random_number env _ 0 >>= λ i. pick g i) =
      search (frame_rules, random_number-Frame, pick-Frame) in
    record { pairs = h.pairs; slots = h.slots }

look_up_gen1_bud-Frame : (env : Env) (rate : ℤ) → Frame (look_up_gen1_bud env rate)
unfolding look_up_gen1_bud
look_up_gen1_bud-Frame env rate = pick_traits-Frame env _

verify_metadatas-Frame : (env : Env) (male female : ℤ) → Frame (verify_metadatas env male female)
unfolding verify_metadatas
verify_metadatas-Frame env male female = search query_frames

require_owners-Frame : (a : Address) (o : Option (List Address)) → Frame (require_owners a o)
unfolding require_owners
require_owners-Frame a none = search frame_rules
require_owners-Frame a (some owners) = search frame_rules

pub verify_bud_pairs-Frame :
    (env : Env) (a : Address) (male female : ℤ) (b : Bool)
    → Frame (verify_bud_pairs env a male female b)
unfolding verify_bud_pairs
verify_bud_pairs-Frame env a male female b =
    search (frame_rules, require_owners-Frame, verify_metadatas-Frame) depth 9

pub dice_gen1_bud-Frame : (env : Env) (rate : ℤ) → Frame (dice_gen1_bud env rate)
unfolding dice_gen1_bud
dice_gen1_bud-Frame env rate =
    search (frame_rules, win_random_chance-Frame, generate_random_bud-Frame, look_up_gen1_bud-Frame)
      depth 9

pub issue_gen1_bud_mint-Frame :
    (env : Env) (a : Address) (b : Bud) (i : Option ℕ) → Frame (issue_gen1_bud_mint env a b i)
unfolding issue_gen1_bud_mint
issue_gen1_bud_mint-Frame env a b i = search query_frames

consume_found-Frame : (a : Address) (n : ℕ) (o : Option User) → Frame (consume_found a n o)
unfolding consume_found
consume_found-Frame a n none = search frame_rules
consume_found-Frame a n (some u) = search query_frames

pub consume_breeding_point-Frame : (a : Address) (n : ℕ) → Frame (consume_breeding_point a n)
unfolding consume_breeding_point
consume_breeding_point-Frame a n = search (query_frames, consume_found-Frame)

base_rate-Frame : (env : Env) (i : Option ℕ) → Frame (base_rate env i)
unfolding base_rate
base_rate-Frame env i = search query_frames depth 9

pub get_start_success_rate-Frame :
    (env : Env) (male female : ℤ) (i : Option ℕ) (x : BreedSlot)
    → Frame (get_start_success_rate env male female i x)
unfolding get_start_success_rate
get_start_success_rate-Frame env male female i x = search (frame_rules, base_rate-Frame)

create_level-Frame : (env : Env) (i l : ℕ) → Frame (create_level env i l)
unfolding create_level
create_level-Frame env i l = search query_frames depth 9

pub create_level_buds-Frame :
    (env : Env) (i l : ℕ) (male female : Bud) → Frame (create_level_buds env i l male female)
unfolding create_level_buds
create_level_buds-Frame env i l male female =
    search (query_frames, create_level-Frame, generate_random_bud-Frame) depth 12

pub check_game_item_balance-Frame :
    (env : Env) (a : Address) (item n : ℕ) → Frame (check_game_item_balance env a item n)
unfolding check_game_item_balance
check_game_item_balance-Frame env a item n = search frame_rules

pub verify_game_item_possession-Frame :
    (env : Env) (p : BreedPair) → Frame (verify_game_item_possession env p)
unfolding verify_game_item_possession
verify_game_item_possession-Frame env p =
    search (query_frames, check_game_item_balance-Frame) depth 9

gets-Frame : {A : Type 0} (f : State → A) → Frame (gets f)
gets-Frame f = record { pairs = λ s. refl; slots = λ s. refl }

pub finalize_rate-Frame : (env : Env) (p : BreedPair) → Frame (finalize_rate env p)
unfolding finalize_rate
finalize_rate-Frame env p =
    Frame-bind (gets (λ s. bonus_sum p.id s.levels.rows)) _ (gets-Frame _)
      λ bonus. dice_gen1_bud-Frame env (p.rate +ℤ bonus)

evaluate_list-Frame : (bs : List BreedBud) → Frame (evaluate_list bs)
unfolding evaluate_list
evaluate_list-Frame [] = search frame_rules
evaluate_list-Frame (b ∷ []) = search frame_rules
evaluate_list-Frame (b ∷ c ∷ bs) = search frame_rules

evaluate_level-Frame :
    (env : Env) (p : BreedPair) (male female : ℕ) (l : Option BreedLevel)
    → Frame (evaluate_level env p male female l)
unfolding evaluate_level
evaluate_level-Frame env p male female none = search frame_rules
evaluate_level-Frame env p male female (some l) = search (query_frames, evaluate_list-Frame) depth 9

pub evaluate_breed_level-Frame :
    (env : Env) (p : BreedPair) (male female : ℕ) → Frame (evaluate_breed_level env p male female)
unfolding evaluate_breed_level
evaluate_breed_level-Frame env p male female = search (query_frames, evaluate_level-Frame)

pub find_pair_in_breeding-Frame : (male female : ℤ) → Frame (find_pair_in_breeding male female)
unfolding find_pair_in_breeding
find_pair_in_breeding-Frame male female = count-Frame pair_table (in_breeding male female)
