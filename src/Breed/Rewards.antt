-- ===== src/Breed/Rewards.antt =====
-- The dice and the bud of `finalizeBreeding` (`diceGen1Bud` and `issueGen1BudMint` of
-- src/bud/bud.service.ts), where they go through.
use backend.Common.{
  ℕ, zero, suc, ◌+◌, ◌%◌, ◌≤◌, ◌≡◌, refl, ap, ◌∙◌, arith, Bool, true, false, not, ◌&&◌, Option,
  none, some, List, [], ◌∷◌, ◌++◌, ◌==◌, eq→==, if◌then◌else◌, length, get_elem?, keep, tally,
  String, first, change, Bool-cases, inl, inr,
}
use backend.Common.Counting.{
  none_found, tally-keep, tally-le, first-append_new, first-change, first-change_other,
}
use backend.Common.Int.{ℤ, pos, ltb_ℤ, ◌==ℤ◌}
use backend.Schema.{ok, Address, Bud, BreedSlot, Gen1Bud}
use backend.Db.{Rows, State, pure, ◌>>=◌, find_any, slot_table, update, updated, gen1_table}
use backend.Db.Inversion.{bind-runs}
use backend.Env.{Env, MintType}
use backend.Utils.{
  win_random_chance, generate_random_bud, default_options, random_number, sign_mint_request,
}
use backend.Utils.Buds.{DrawsBelowOne, generate_random_bud-total}
use backend.HashTable.{look_up_gen1_bud}
use backend.HashTable.Picks.{look_up_gen1_bud-total}
use backend.Bud.{dice_gen1_bud, issue_gen1_bud_mint}
use backend.Breed.Controller.{open_found_slot}
use backend.Breed.Stages.{update_slot-runs}

win_random_chance-runs :
    (env : Env) (chance : ℤ) (s : State)
    → (b : Bool) × (d : ℕ) × (win_random_chance env chance s ≡ (ok b, record s { drawn = d }))
unfolding win_random_chance random_number
win_random_chance-runs env chance s = elim (Bool-cases (chance ==ℤ pos 1000)) [
  | inl t ↦ rw t (true, s.drawn, refl)
  | inr t ↦ elim (Bool-cases (ltb_ℤ (pos 0) chance && ltb_ℤ chance (pos 1000))) [
    | inl u ↦ rw t rw u (_, _, refl)
    | inr u ↦ rw t rw u (false, s.drawn, refl)
  ]
]

-- With draws below one the dice answer, and only numbers are drawn.
pub dice_gen1_bud-runs :
    (env : Env) (rate : ℤ) (s : State)
    → DrawsBelowOne env
    → (o : Option Bud) × (d : ℕ) × (dice_gen1_bud env rate s ≡ (ok o, record s { drawn = d }))
unfolding dice_gen1_bud
dice_gen1_bud-runs env rate s below =
    let (b, d, e) = win_random_chance-runs env rate s in
    let (o, d', rest) = thrown b (record s { drawn = d }) in
    (o, d', bind-runs (win_random_chance env rate) _ s (record s { drawn = d }) b e ∙ rest)
  where
    thrown :
        (b : Bool) (t : State)
        → (o : Option Bud) × (d : ℕ) × ((if not b then pure none else do
          bud ← generate_random_bud env (record default_options { gen1 = true })
          (thc, bud_size) ← look_up_gen1_bud env rate
          pure (some (record bud { thc = thc; bud_size = bud_size })))
              t
            ≡ (ok o, record t { drawn = d }))
    thrown false t = (none, t.drawn, refl)
    thrown true t =
        let (bud, e, fit) =
          generate_random_bud-total env (record default_options { gen1 = true }) t below
            (omega arith) (omega arith) in
        let t' = record t { drawn = 6 + t.drawn } in
        let (group, i, traits, found, bound, at, picked) =
          look_up_gen1_bud-total env rate t' (below _) in
        (
          _,
          _,
          bind-runs (generate_random_bud env (record default_options { gen1 = true })) _ t t' bud e
              ∙ bind-runs (look_up_gen1_bud env rate) _ t' _ traits picked,
        )

-- The wallet has a key, and signs each mint of a Gen1 bud at this time for the minter.
abbrev pub WalletSigns : Env → Address → Type 0
WalletSigns env minter =
    (i : ℕ)
    → (signature : String) × (sign_mint_request env minter MintType.gen1_bud i 1 env.now
        ≡ some signature)

-- The bud of a mint request: in its row, the minter's, of the session, and signed by the wallet.
abbrev pub IsIssued : Env → Address → Option ℕ → Gen1Bud → State → Type 0
IsIssued env minter pair_id b s =
    (first (λ x. x.id == b.id) s.gen1_buds.rows ≡ some b)
    × (b.minter_address ≡ minter)
    × (b.pair_id ≡ pair_id)
    × (sign_mint_request env minter MintType.gen1_bud b.id 1 env.now ≡ some b.signature)

pub issue_gen1_bud_mint-runs :
    (env : Env) (minter : Address) (bud : Bud) (pair_id : Option ℕ) (s : State)
    → WalletSigns env minter
    → tally (λ x. x.id == s.gen1_buds.next) s.gen1_buds.rows ≡ 0
    → (b : Gen1Bud) × (g : Rows Gen1Bud) × (issue_gen1_bud_mint env minter bud pair_id s
        ≡ (ok b, record s { gen1_buds = g }))
      × IsIssued env minter pair_id b (record s { gen1_buds = g })
unfolding issue_gen1_bud_mint
issue_gen1_bud_mint-runs env minter bud pair_id s signs new =
    let i = s.gen1_buds.next in
    let (signature, signed) = signs i in
    let b : Gen1Bud = record {
      id = i;
      bud = bud;
      created_at = env.now;
      minter_address = minter;
      signature = "";
      pair_id = pair_id;
    } in
    let sign : Gen1Bud → Gen1Bud = λ x. record x { signature = signature } in
    let rows = s.gen1_buds.rows ++ b ∷ [] in
    let there =
      first-append_new (λ x. x.id == i) s.gen1_buds.rows b
        (none_found (λ x. x.id == i) s.gen1_buds.rows new) (eq→== i i refl) in
    (
      sign b,
      record { rows = change (λ x. x.id == i) sign rows; next = suc i },
      rw signed (
          ap
            (λ o.
              updated gen1_table i sign o
                (record s { gen1_buds = record { rows = rows; next = suc i } }))
            there),
      (first-change (λ x. x.id == i) sign rows b (λ _. refl) there, refl, refl, signed),
    )

same_id : (y x : BreedSlot) → y ≡ x → (y.id == x.id) ≡ true
same_id y x e = ground (arith, e)

-- A row that is taken from a list is in it.
taken_row :
    (ys : List BreedSlot) (i : ℕ) (x : BreedSlot)
    → get_elem? ys i ≡ some x
    → 1 ≤ tally (λ y. y.id == x.id) ys
taken_row [] i x e = ground arith
taken_row (y ∷ ys) zero x e = ground (arith, same_id y x)
taken_row (y ∷ ys) (suc i) x e = ground (arith, taken_row ys i x e)

kept_row :
    (w : BreedSlot → Bool) (xs : List BreedSlot) (i : ℕ) (x : BreedSlot)
    → get_elem? (keep w xs) i ≡ some x
    → 1 ≤ tally (λ y. y.id == x.id) xs
kept_row w xs i x e = omega (
  arith,
  taken_row (keep w xs) i x e,
  tally-keep (λ y. y.id == x.id) w xs,
  tally-le (λ y. y.id == x.id && w y) (λ y. y.id == x.id) xs (λ y k. ground arith),
)

-- The slot has a row, which is unused.
abbrev pub IsUnusedRow : ℕ → Rows BreedSlot → Type 0
IsUnusedRow i t = (x : BreedSlot) × (first (λ y. y.id == i) t.rows ≡ some x) × (x.is_used ≡ false)

abbrev set_open : BreedSlot → BreedSlot
set_open y = record y { is_open = true }

still_unused :
    (b : Bool) (x : BreedSlot) → x.is_used ≡ false → (if b then set_open x else x).is_used ≡ false
still_unused true x h = h
still_unused false x h = h

opened-IsUnusedRow :
    (i k : ℕ) (t : Rows BreedSlot)
    → IsUnusedRow i t
    → IsUnusedRow i (record t { rows = change (λ y. y.id == k) set_open t.rows })
opened-IsUnusedRow i k t (x, e, h) = (
  _,
  first-change_other (λ y. y.id == i) (λ y. y.id == k) set_open t.rows x (λ _. refl) e,
  still_unused (x.id == k) x h,
)

-- A slot that is found is opened: unused ones stay unused, and no other table is changed.
pub open_found_slot-runs :
    (w : BreedSlot → Bool) (choice : ℕ) (s : State)
    → (o : Option BreedSlot) × (t : Rows BreedSlot) × ((find_any slot_table w choice
            >>= open_found_slot)
          s
        ≡ (ok o, record s { slots = t }))
      × ((i : ℕ) → IsUnusedRow i s.slots → IsUnusedRow i t)
open_found_slot-runs w choice s = found (get_elem? fits (choice % length fits)) refl
  where
    fits : List BreedSlot
    fits = keep w s.slots.rows

    found :
        (x : Option BreedSlot)
        → get_elem? fits (choice % length fits) ≡ x
        → (o : Option BreedSlot) × (t : Rows BreedSlot) × (open_found_slot x s
            ≡ (ok o, record s { slots = t }))
          × ((i : ℕ) → IsUnusedRow i s.slots → IsUnusedRow i t)
    found none e = (none, s.slots, refl, λ i h. h)
    found (some x) e =
        let (y, done) =
          update_slot-runs x.id set_open s (kept_row w s.slots.rows (choice % length fits) x e) in
        (
          some y,
          _,
          bind-runs (update slot_table x.id set_open) _ s _ y done,
          λ i h. opened-IsUnusedRow i x.id s.slots h,
        )
