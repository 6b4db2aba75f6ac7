-- ===== src/Tests/Slots.antt =====
-- What slots cost, and how long a level takes.
use backend.Common.{◌↔◌, ◌+◌, ◌*◌, ◌≤◌, ◌≡◌, refl, true, false, some, ◌∷◌, [], first}
use backend.Common.Int.{pos}
use backend.Schema.{User, BreedSlot, farmer_pass}
use backend.Db.{State}
use backend.Env.{config}
use backend.User.{consume_breeding_point, consume_found}
use backend.Land.{is_own_slot, open_slot, open_found}
use backend.Land.Charges.{Charged, open_slot-ok}
use backend.Breed.{breed_time_elapsed}
use backend.Breed.Time.{level_seconds, breed_time_elapsed-exact}
use backend.Tests.Fixtures.{env, caller, user, slot, start}

abbrev closed_slot : BreedSlot
closed_slot = record slot { is_open = false }

abbrev rich : User
rich = record user { breeding_point = pos 100 }

-- A user with 100 points, and a slot that is closed.
abbrev closed : State
closed = record start { users = rich ∷ []; slots = record { rows = closed_slot ∷ []; next = 2 } }

open_slot-ok_example :
    (x : BreedSlot) × (first (is_own_slot 7 1) closed.slots.rows ≡ some x)
    × (x.is_open ≡ false)
    × Charged 7 42 closed (open_slot env caller 1 closed).1
    × (true ≡ true)
unfolding open_slot open_found consume_breeding_point consume_found config
open_slot-ok_example = open_slot-ok env caller 1 closed (open_slot env caller 1 closed).1 slot refl

breed_time_elapsed-exact_example :
    (breed_time_elapsed env 995000 (some farmer_pass) ≡ true)
    ↔ (995000 + level_seconds env.network (some farmer_pass) * 1000 ≤ 1000000)
breed_time_elapsed-exact_example = breed_time_elapsed-exact env 995000 (some farmer_pass)
