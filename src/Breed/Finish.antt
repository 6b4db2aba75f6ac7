-- ===== src/Breed/Finish.antt =====
-- A session that is finished: `finalizeBreeding` of src/breed/breed.controller.ts.
use backend.Utils.{sign_mint_request}
use backend.Common.{
  suc, ◌++◌, [], ◌∷◌, ℕ, ◌≤◌, ◌≡◌, refl, ap, ◌∙◌, Bool, true, false, not, ◌&&◌, Option, none, some,
  ltb, ◌==◌, if◌then◌else◌, is_some, tally, first, change,
}
use backend.Common.Counting.{counted_row, first-change}
use backend.Common.Int.{◌+ℤ◌}
use backend.Schema.{
  err, Error, Gen1Bud, ok, Caller, Bud, BreedPair, BreedLevel, BreedBud, BreedSlot, completed,
  failed,
}
use backend.Db.{Rows, State, pair_table, slot_table, find_any, update, updated, ◌>>=◌}
use backend.Db.Inversion.{bind-runs}
use backend.Env.{MintType, Env, config}
use backend.Utils.Buds.{DrawsBelowOne}
use backend.Bud.{dice_gen1_bud, issue_gen1_bud_mint}
use backend.Breed.Service.{bonus_sum, finalize_rate, evaluate_breed_level}
use backend.Breed.Controller.{
  own_paired, find_own_pair, Finalized, open_found_slot, reward, settle, finalize_pair,
  finalize_breeding,
}
use backend.Breed.Advance.{evaluated, IsReady, evaluated_state, evaluate_breed_level-runs}
use backend.Breed.Stages.{update_slot-runs}
use backend.Breed.Rewards.{
  WalletSigns, dice_gen1_bud-runs, IsIssued, issue_gen1_bud_mint-runs, IsUnusedRow,
  open_found_slot-runs,
}

-- The tables after `settle`: the session has ended, its slot is unused, and with success the bud
-- is issued for it.
abbrev pub IsSettled : Env → Caller → ℕ → BreedPair → Option Finalized → State → Type 0
IsSettled env req pair_id pair none s =
    (first (λ x. x.id == pair_id) s.pairs.rows ≡ some (record pair { status = failed }))
    × IsUnusedRow pair.slot_id s.slots
IsSettled env req pair_id pair (some done) s =
    (first (λ x. x.id == pair_id) s.pairs.rows ≡ some (record pair { status = completed }))
    × IsUnusedRow pair.slot_id s.slots
    × IsIssued env req.user (some pair.id) done.bud s

abbrev with_unused : ℕ → Rows BreedSlot → Rows BreedSlot
with_unused i t = record t {
  rows = change (λ y. y.id == i) (λ y. record y { is_used = false }) t.rows;
}

unused_row :
    (i : ℕ) (t : Rows BreedSlot)
    → 1 ≤ tally (λ y. y.id == i) t.rows
    → IsUnusedRow i (with_unused i t)
unused_row i t h =
    let (x, e) = counted_row (λ y. y.id == i) t.rows h in
    (
      _,
      first-change (λ y. y.id == i) (λ y. record y { is_used = false }) t.rows x (λ _. refl) e,
      refl,
    )

-- The state in which the session has ended.
abbrev ended_state : ℕ → BreedPair → Bool → State → State
ended_state pair_id pair success s = record s {
  slots = with_unused pair.slot_id s.slots;
  pairs = record s.pairs {
    rows =
        change (λ x. x.id == pair_id)
          (λ x. record x { status = if success then completed else failed }) s.pairs.rows;
  };
}

ended_row :
    (pair_id : ℕ) (pair : BreedPair) (success : Bool) (s : State)
    → first (λ x. x.id == pair_id) s.pairs.rows ≡ some pair
    → first (λ x. x.id == pair_id) (ended_state pair_id pair success s).pairs.rows
      ≡ some (record pair { status = if success then completed else failed })
ended_row pair_id pair success s e =
    first-change (λ x. x.id == pair_id)
      (λ x. record x { status = if success then completed else failed }) s.pairs.rows pair
      (λ _. refl) e

reward-runs :
    (env : Env) (req : Caller) (pair_id : ℕ) (pair : BreedPair) (result : Option Bud) (s : State)
    → first (λ x. x.id == pair_id) s.pairs.rows ≡ some pair
    → WalletSigns env req.user
    → 1 ≤ tally (λ y. y.id == pair.slot_id) s.slots.rows
    → tally (λ x. x.id == s.gen1_buds.next) s.gen1_buds.rows ≡ 0
    → (done : Option Finalized) × (s' : State) × (reward env req pair result
          (ended_state pair_id pair (is_some result) s)
        ≡ (ok done, s'))
      × IsSettled env req pair_id pair done s'
unfolding reward
reward-runs env req pair_id pair none s found signs there new =
    (none, _, refl, (ended_row pair_id pair false s found, unused_row pair.slot_id s.slots there))
reward-runs env req pair_id pair (some bud) s found signs there new =
    let s1 = ended_state pair_id pair true s in
    let w : BreedSlot → Bool =
      λ x. x.user_address == req.user && not x.is_open && not (is_some x.deleted_at) in
    let (o, t, opened, unused) = open_found_slot-runs w env.row_choice s1 in
    let s2 = record s1 { slots = t } in
    let (b, g, issued, is_issued) =
      issue_gen1_bud_mint-runs env req.user bud (some pair.id) s2 signs new in
    (
      some (record { bud = b; slot = o }),
      record s2 { gen1_buds = g },
      bind-runs (find_any slot_table w env.row_choice >>= open_found_slot) _ s1 s2 o opened
          ∙ bind-runs (issue_gen1_bud_mint env req.user bud (some pair.id)) _ s2 _ b issued,
      (
        ended_row pair_id pair true s found,
        unused pair.slot_id (unused_row pair.slot_id s.slots there),
        is_issued,
      ),
    )

settle-runs :
    (env : Env) (req : Caller) (pair_id : ℕ) (pair : BreedPair) (result : Option Bud) (s : State)
    → first (λ x. x.id == pair_id) s.pairs.rows ≡ some pair
    → WalletSigns env req.user
    → 1 ≤ tally (λ y. y.id == pair.slot_id) s.slots.rows
    → tally (λ x. x.id == s.gen1_buds.next) s.gen1_buds.rows ≡ 0
    → (done : Option Finalized) × (s' : State) × (settle env req pair_id pair result s
        ≡ (ok done, s'))
      × IsSettled env req pair_id pair done s'
unfolding settle
settle-runs env req pair_id pair result s found signs there new =
    let (x, freed) = update_slot-runs pair.slot_id (λ y. record y { is_used = false }) s there in
    let s1 = record s { slots = with_unused pair.slot_id s.slots } in
    let end : BreedPair → BreedPair =
      λ p. record p { status = if is_some result then completed else failed } in
    let (done, s', rewarded, settled) =
      reward-runs env req pair_id pair result s found signs there new in
    (
      done,
      s',
      bind-runs (update slot_table pair.slot_id (λ y. record y { is_used = false })) _ s s1 x freed
          ∙ bind-runs (update pair_table pair_id end) _ s1
              (ended_state pair_id pair (is_some result) s) (end pair)
              (ap (λ o. updated pair_table pair_id end o s1) found)
          ∙ rewarded,
      settled,
    )

-- For a running session of the caller, found by its id, at the level 5 or above, whose level's
-- row is not evaluated and has bred for its time, with two buds named that are of the level and
-- fit their roles, on a slot that has a row, the next Gen1 bud's id being unused, every draw of
-- a random number below one, and the wallet having a key and signing for the caller's Gen1 buds:
-- the request to finalize it answers; its row is completed with success and failed without, its
-- slot is unused, and with success a Gen1 bud is in its row, the caller's, of the session and
-- with the wallet's signature.
pub finalize_breeding-settles :
    (env : Env) (req : Caller) (pair : BreedPair) (level : BreedLevel) (a b : BreedBud)
    (pair_id male female : ℕ) (s : State)
    → DrawsBelowOne env
    → first (own_paired req.user pair_id) s.pairs.rows ≡ some pair
    → first (λ x. x.id == pair_id) s.pairs.rows ≡ some pair
    → ltb pair.current_level 5 ≡ false
    → IsReady env pair level a b male female s
    → WalletSigns env req.user
    → 1 ≤ tally (λ y. y.id == pair.slot_id) s.slots.rows
    → tally (λ x. x.id == s.gen1_buds.next) s.gen1_buds.rows ≡ 0
    → (done : Option Finalized) × (s' : State) × (finalize_breeding env req pair_id male female s
        ≡ (ok done, s'))
      × IsSettled env req pair_id pair done s'
unfolding finalize_breeding find_own_pair finalize_pair finalize_rate config
finalize_breeding-settles env req pair level a b pair_id male female s below own found h ready signs
      there new =
    let s1 = evaluated_state level (evaluated a b).bonus_rate male female s in
    let evaluation = evaluate_breed_level-runs env pair level a b male female s ready in
    let rate = pair.rate +ℤ bonus_sum pair.id s1.levels.rows in
    let (result, d, thrown) = dice_gen1_bud-runs env rate s1 below in
    let s2 = record s1 { drawn = d } in
    let (done, s', settled, is_settled) =
      settle-runs env req pair_id pair result s2 found signs there new in
    (
      done,
      s',
      rw own rw h (
          bind-runs (evaluate_breed_level env pair male female) _ s s1 (evaluated a b) evaluation
          ∙ bind-runs (dice_gen1_bud env rate) _ s1 s2 result thrown
          ∙ settled),
      is_settled,
    )

-- The next Gen1 bud's row before the wallet has signed for it.
abbrev unsigned_bud : Env → Caller → BreedPair → Bud → ℕ → Gen1Bud
unsigned_bud env req pair bud i = record {
  id = i;
  bud = bud;
  created_at = env.now;
  minter_address = req.user;
  signature = "";
  pair_id = some pair.id;
}

-- The session is completed on an unused slot, and its bud has the row with no signature.
abbrev pub LacksSignature : Env → Caller → ℕ → BreedPair → Bud → State → State → Type 0
LacksSignature env req pair_id pair bud s s' =
    (first (λ x. x.id == pair_id) s'.pairs.rows ≡ some (record pair { status = completed }))
    × IsUnusedRow pair.slot_id s'.slots
    × (s'.gen1_buds.rows ≡ s.gen1_buds.rows ++ unsigned_bud env req pair bud s.gen1_buds.next ∷ [])

-- Where the server has no key or the wallet does not sign for the next Gen1 bud: finalizing a
-- session found by its id, on a slot that has a row, with a bud that was won, ends with the
-- database client's error; the session is completed all the same, its slot is unused, and the
-- bud's row is there with an empty signature.
pub settle-unsigned :
    (env : Env) (req : Caller) (pair_id : ℕ) (pair : BreedPair) (bud : Bud) (s : State)
    → sign_mint_request env req.user MintType.gen1_bud s.gen1_buds.next 1 env.now ≡ none
    → first (λ x. x.id == pair_id) s.pairs.rows ≡ some pair
    → 1 ≤ tally (λ y. y.id == pair.slot_id) s.slots.rows
    → (s' : State) × (settle env req pair_id pair (some bud) s ≡ (err Error.prisma, s'))
      × LacksSignature env req pair_id pair bud s s'
unfolding settle reward issue_gen1_bud_mint
settle-unsigned env req pair_id pair bud s unsigned found there =
    let s1 = ended_state pair_id pair true s in
    let w : BreedSlot → Bool =
      λ x. x.user_address == req.user && not x.is_open && not (is_some x.deleted_at) in
    let (o, t, opened, unused) = open_found_slot-runs w env.row_choice s1 in
    let (x, freed) = update_slot-runs pair.slot_id (λ y. record y { is_used = false }) s there in
    let s0 = record s { slots = with_unused pair.slot_id s.slots } in
    let end : BreedPair → BreedPair = λ p. record p { status = completed } in
    let buds = s.gen1_buds in
    let s2 = record s1 {
      slots = t;
      gen1_buds = record {
        rows = buds.rows ++ unsigned_bud env req pair bud buds.next ∷ [];
        next = suc buds.next;
      };
    } in
    (
      s2,
      bind-runs (update slot_table pair.slot_id (λ y. record y { is_used = false })) _ s s0 x freed
          ∙ bind-runs (update pair_table pair_id end) _ s0 s1 (end pair)
              (ap (λ p. updated pair_table pair_id end p s0) found)
          ∙ bind-runs (find_any slot_table w env.row_choice >>= open_found_slot) _ s1
              (record s1 { slots = t }) o opened
          ∙ rw unsigned refl,
      (
        ended_row pair_id pair true s found,
        unused pair.slot_id (unused_row pair.slot_id s.slots there),
        refl,
      ),
    )
