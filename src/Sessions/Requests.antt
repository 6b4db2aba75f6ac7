-- ===== src/Sessions/Requests.antt =====
-- Any sequence of requests: each is handled whole, one after the other.
use backend.Common.{ℕ, Option, String, ◌≤◌, refl, List, [], ◌∷◌, arith, tally}
use backend.Common.Int.{ℤ}
use backend.Common.Counting.{tally-le}
use backend.Schema.{Address, Caller}
use backend.Db.{Rows, State}
use backend.Env.{Env}
use backend.Land.{open_slot, convert_indoor, purchase_land}
use backend.Breed.{
  CreateBreedPair, create_pair, level_breeding_up, cancel_breeding, finalize_breeding,
  invalidate_pair,
}
use backend.Admin.{
  AdminDto, InvalidateSlots, invalidate_breeding, invalidate_slots, add_breeding_point,
  withdraw_breeding_point, burn_gen0_buds,
}
use backend.Auth.{LoginBody, login}
use backend.GiftCard.{dice}
use backend.Bud.{rename_gen1_bud}
use backend.Stats.{snapshot_breeding}
use backend.Sessions.Logins.{
  login-Keeps, snapshot_breeding-Frame, dice-Frame, rename_gen1_bud-Frame,
}
use backend.Sessions.Good.{IsGood, on_slot, is_row, is_used_row}
use backend.Sessions.Rules.{Keeps-state, Keeps-Frame}
use backend.Sessions.Begins.{create_pair-Keeps}
use backend.Sessions.Ends.{cancel_breeding-Keeps, finalize_breeding-Keeps, level_breeding_up-Keeps}
use backend.Sessions.Invalidations.{
  invalidate_pair-Keeps, invalidate_breeding-Keeps, invalidate_slots-Keeps,
}
use backend.Sessions.Lands.{open_slot-Keeps, convert_indoor-Keeps, purchase_land-Keeps}
use backend.Sessions.Points.{
  add_breeding_point-Frame, withdraw_breeding_point-Frame, burn_gen0_buds-Frame,
}

-- A request with what it meets outside the code, and the hourly snapshot.
pub data Request : Type 0 where
  pair : Env → Caller → CreateBreedPair → Request
  level_up : Env → Caller → ℕ → ℕ → ℕ → Request
  cancel : Caller → ℕ → Request
  finalize : Env → Caller → ℕ → ℕ → ℕ → Request
  invalidate : Env → Caller → ℤ → ℤ → Request
  transfer_bud : Env → Address → Address → ℤ → Request
  transfer_key : Env → InvalidateSlots → Request
  open_land : Env → Caller → ℕ → Request
  convert : Env → Caller → ℕ → Request
  purchase : Env → Caller → Request
  log_in : Env → LoginBody → Request
  deposit : Env → AdminDto → ℕ → Request
  withdraw : Env → AdminDto → ℕ → Request
  burn : Env → AdminDto → ℤ → ℤ → Request
  gift : Env → Address → Option ℕ → Request
  rename : Env → Caller → ℕ → String → Request
  snapshot : Request

unfoldable pub handle : Request → State → State
handle (pair env req body) s = (create_pair env req body s).1
handle (level_up env req i male female) s = (level_breeding_up env req i male female s).1
handle (cancel req i) s = (cancel_breeding req i s).1
handle (finalize env req i male female) s = (finalize_breeding env req i male female s).1
handle (invalidate env req male female) s = (invalidate_pair env req male female s).1
handle (transfer_bud env a b i) s = (invalidate_breeding env a b i s).1
handle (transfer_key env body) s = (invalidate_slots env body s).1
handle (open_land env req i) s = (open_slot env req i s).1
handle (convert env req i) s = (convert_indoor env req i s).1
handle (purchase env req) s = (purchase_land env req s).1
handle (log_in env body) s = (login env body s).1
handle (deposit env dto n) s = (add_breeding_point env dto n s).1
handle (withdraw env dto n) s = (withdraw_breeding_point env dto n s).1
handle (burn env dto male female) s = (burn_gen0_buds env dto male female s).1
handle (gift env minter i) s = (dice env minter i s).1
handle (rename env req i name) s = (rename_gen1_bud env req i name s).1
handle snapshot s = (snapshot_breeding s).1

unfoldable pub serve : List Request → State → State
unfolding handle
serve [] s = s
serve (r ∷ rs) s = serve rs (handle r s)

handle-IsGood : (r : Request) (s : State) → IsGood s → IsGood (handle r s)
unfolding handle
handle-IsGood (pair env req body) = Keeps-state _ (create_pair-Keeps body env req)
handle-IsGood (level_up env req i male female) =
    Keeps-state _ (level_breeding_up-Keeps env req i male female)
handle-IsGood (cancel req i) = Keeps-state _ (cancel_breeding-Keeps req i)
handle-IsGood (finalize env req i male female) =
    Keeps-state _ (finalize_breeding-Keeps env req i male female)
handle-IsGood (invalidate env req male female) =
    Keeps-state _ (invalidate_pair-Keeps env req male female)
handle-IsGood (transfer_bud env a b i) = Keeps-state _ (invalidate_breeding-Keeps env a b i)
handle-IsGood (transfer_key env body) = Keeps-state _ (invalidate_slots-Keeps env body)
handle-IsGood (open_land env req i) = Keeps-state _ (open_slot-Keeps env req i)
handle-IsGood (convert env req i) = Keeps-state _ (convert_indoor-Keeps env req i)
handle-IsGood (purchase env req) = Keeps-state _ (purchase_land-Keeps env req)
handle-IsGood (log_in env body) = Keeps-state _ (login-Keeps env body)
handle-IsGood (deposit env dto n) =
    Keeps-state _ (Keeps-Frame _ (add_breeding_point-Frame env dto n))
handle-IsGood (withdraw env dto n) =
    Keeps-state _ (Keeps-Frame _ (withdraw_breeding_point-Frame env dto n))
handle-IsGood (burn env dto male female) =
    Keeps-state _ (Keeps-Frame _ (burn_gen0_buds-Frame env dto male female))
handle-IsGood (gift env minter i) = Keeps-state _ (Keeps-Frame _ (dice-Frame env minter i))
handle-IsGood (rename env req i name) =
    Keeps-state _ (Keeps-Frame _ (rename_gen1_bud-Frame env req i name))
handle-IsGood snapshot = Keeps-state _ (Keeps-Frame _ snapshot_breeding-Frame)

-- From a state with the invariant every sequence of requests leads to a state with it, whatever
-- the requests answer: sessions run on used slots alone and at most one on each, a slot's id is
-- given to one row, and a Gen0 bud is in at most one session in its role.
pub serve-IsGood : (rs : List Request) (s : State) → IsGood s → IsGood (serve rs s)
unfolding serve
serve-IsGood [] s g = g
serve-IsGood (r ∷ rs) s g = serve-IsGood rs (handle r s) (handle-IsGood r s g)

abbrev pub no_rows : {R : Type 0} → Rows R
no_rows = record { rows = []; next = 1 }

abbrev pub empty : State
empty = record {
  users = [];
  pairs = no_rows;
  levels = no_rows;
  breed_buds = no_rows;
  slots = no_rows;
  logs = [];
  gen1_buds = no_rows;
  gift_cards = no_rows;
  stats = no_rows;
  drawn = 0;
  emitted = [];
  rejections = [];
}

pub empty-IsGood : IsGood empty
empty-IsGood = record {
  one_row = λ i. omega arith;
  occupied = λ i. omega arith;
  male_once = λ b. omega arith;
  female_once = λ b. omega arith;
  fresh = λ i h. refl;
}

-- Two running sessions never share a slot: after any sequence of requests on the empty database
-- each slot has at most one.
pub one_session : (rs : List Request) (i : ℕ) → tally (on_slot i) (serve rs empty).pairs.rows ≤ 1
one_session rs i =
    let s = serve rs empty in
    let g = serve-IsGood rs empty empty-IsGood in
    omega (
      arith,
      g.occupied i,
      g.one_row i,
      tally-le (is_used_row i) (is_row i) s.slots.rows (λ x e. ground arith),
    )
