-- ===== src/Breed/Time.antt =====
-- How long a level takes: `breedTimeElapsed` of src/breed/breed.service.ts.
use backend.Common.{ℕ, ◌+◌, ◌*◌, ◌≤◌, ◌≡◌, refl, true, arith, Option, leb, if◌then◌else◌, ◌↔◌}
use backend.Schema.{is_item, farmer_pass, superweed_serum}
use backend.Env.{Env, Network, goerli, mainnet, config}
use backend.Utils.{get_breed_time}
use backend.Breed.Service.{breed_time_elapsed}

-- The seconds of a level with a farmer pass, with a serum, and without.
abbrev pub level_seconds : Network → Option ℕ → ℕ
level_seconds goerli item =
    if is_item item farmer_pass then 5 else if is_item item superweed_serum then 8 else 10
level_seconds mainnet item =
    if is_item item farmer_pass
    then 43200
    else if is_item item superweed_serum
    then 69120
    else 86400

pub same_time :
    (network : Network) (item : Option ℕ)
    → get_breed_time (config network).time_period item ≡ level_seconds network item
unfolding config get_breed_time
same_time goerli item = refl
same_time mainnet item = refl

leb-le : (a b : ℕ) → (leb a b ≡ true) ↔ (a ≤ b)
leb-le a b = (λ h. ground arith, λ h. ground arith)

-- The breeding time has elapsed exactly from the millisecond on that lies the level's seconds
-- after its start: a day on mainnet and ten seconds on goerli, half of it with a farmer pass,
-- four fifths with a serum.
pub breed_time_elapsed-exact :
    (env : Env) (start_date : ℕ) (item : Option ℕ)
    → (breed_time_elapsed env start_date item ≡ true)
      ↔ (start_date + level_seconds env.network item * 1000 ≤ env.now)
unfolding breed_time_elapsed
breed_time_elapsed-exact env start_date item =
    rw (same_time env.network item)
      (leb-le (start_date + level_seconds env.network item * 1000) env.now)
