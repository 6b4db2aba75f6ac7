-- ===== src/Bud/Renames.antt =====
-- When `renameGen1Buds` of src/bud/bud.controller.ts gives a bud a new name.
use backend.Common.{
  ℕ, ◌+◌, ◌≤◌, ◌≡◌, refl, ◌∙◌, ap, if◌then◌else◌, Bool, true, false, arith, Option, none, some,
  ◌&&◌, ◌==◌, String, tally, first, first_passes,
}
use text.Mathlib.Text.{◌==◌ as str_eq}
use backend.Schema.{Error, Caller, Gen1Bud, ok}
use backend.Db.{State, updated, update, raise, gen1_table}
use backend.Db.Inversion.{bind-ok, refuse-ok, pure-ok}
use backend.Env.{Env, config}
use backend.Bud.Controller.{check_bud_name, rename_too_late, rename_found, rename_gen1_bud}

check_bud_name-ok :
    (env : Env) (name : String) (s s' : State) (b : Bool)
    → check_bud_name env name s ≡ (ok b, s')
    → b ≡ true
    → (env.name_allowed name ≡ some true)
      × (tally (λ b. str_eq (env.sql_trim b.bud.name) (env.trim name)) s.gen1_buds.rows ≡ 0)
      × (s' ≡ s)
unfolding check_bud_name
check_bud_name-ok env name s s' b h t = ground arith

updated-name :
    (i : ℕ) (f : Gen1Bud → Gen1Bud) (name : String) (o : Option Gen1Bud) (s s' : State)
    (renamed : Gen1Bud)
    → ((b : Gen1Bud) → (f b).bud.name ≡ name)
    → updated gen1_table i f o s ≡ (ok renamed, s')
    → renamed.bud.name ≡ name
updated-name i f name none s s' renamed h e = ground arith
updated-name i f name (some b) s s' renamed h e =
    ap (λ b. b.bud.name) (pure-ok (f b) renamed _ s' e).0 ∙ h b

-- What is said of the name where a rename answers.
abbrev pub Accepted : Env → String → State → Type 0
Accepted env name s =
    (env.name_allowed name ≡ some true)
    × (tally (λ b. str_eq (env.sql_trim b.bud.name) (env.trim name)) s.gen1_buds.rows ≡ 0)

renamed-ok :
    (env : Env) (bud_id : ℕ) (name : String) (b : Bool) (s t s' : State) (renamed : Gen1Bud)
    → check_bud_name env name s ≡ (ok b, t)
    → (if b
          then (update gen1_table bud_id
              λ b. record b { bud = record b.bud { name = env.trim name } })
          else raise (
              Error.unprocessable
                "Proposed bud name cannot be accepted or duplicated. Please try the other one"))
        t
      ≡ (ok renamed, s')
    → Accepted env name s × (renamed.bud.name ≡ env.trim name)
renamed-ok env bud_id name true s t s' renamed c h =
    let (allowed, unique, same) = check_bud_name-ok env name s t true c refl in
    (
      (allowed, unique),
      updated-name bud_id (λ b. record b { bud = record b.bud { name = env.trim name } })
          (env.trim name) (first (λ b. b.id == bud_id) t.gen1_buds.rows) t s' renamed (λ b. refl) h,
    )
renamed-ok env bud_id name false s t s' renamed c h = ground arith

in_time :
    (env : Env) (bud : Gen1Bud)
    → rename_too_late env bud ≡ false
    → env.now ≤ bud.created_at + 600000
unfolding config
in_time env bud h = ground arith

own :
    (req : Caller) (bud_id : ℕ) (bud : Gen1Bud)
    → (bud.id == bud_id && bud.minter_address == req.user) ≡ true
    → (bud.id ≡ bud_id) × (bud.minter_address ≡ req.user)
own req bud_id bud h = (ground arith, ground arith)

found-ok :
    (env : Env) (bud_id : ℕ) (name : String) (o : Option Gen1Bud) (s s' : State) (renamed : Gen1Bud)
    → rename_found env bud_id name o s ≡ (ok renamed, s')
    → (bud : Gen1Bud) × (o ≡ some bud)
      × (env.now ≤ bud.created_at + 600000)
      × Accepted env name s
      × (renamed.bud.name ≡ env.trim name)
unfolding rename_found
found-ok env bud_id name none s s' renamed h = ground arith
found-ok env bud_id name (some bud) s s' renamed h =
    let (late, h1) = refuse-ok (rename_too_late env bud) _ _ s (renamed, s') h in
    let (b, t, checked, h2) = bind-ok (check_bud_name env name) _ s s' renamed h1 in
    let (accepted, named) = renamed-ok env bud_id name b s t s' renamed checked h2 in
    (bud, refl, in_time env bud late, accepted, named)

-- A rename answers only where the bud is the caller's, at most ten minutes old, the name service
-- allows the name and no bud had it; the answer has the trimmed name.
pub rename_gen1_bud-ok :
    (env : Env) (req : Caller) (bud_id : ℕ) (name : String) (s s' : State) (renamed : Gen1Bud)
    → rename_gen1_bud env req bud_id name s ≡ (ok renamed, s')
    → (bud : Gen1Bud) × (bud.id ≡ bud_id)
      × (bud.minter_address ≡ req.user)
      × (env.now ≤ bud.created_at + 600000)
      × (env.name_allowed name ≡ some true)
      × (tally (λ b. str_eq (env.sql_trim b.bud.name) (env.trim name)) s.gen1_buds.rows ≡ 0)
      × (renamed.bud.name ≡ env.trim name)
unfolding rename_gen1_bud
rename_gen1_bud-ok env req bud_id name s s' renamed h =
    let w = λ (b : Gen1Bud). b.id == bud_id && b.minter_address == req.user in
    let (bud, e, time, (allowed, unique), named) =
      found-ok env bud_id name (first w s.gen1_buds.rows) s s' renamed h in
    let (same_id, same_user) = own req bud_id bud (first_passes w s.gen1_buds.rows bud e) in
    (bud, same_id, same_user, time, allowed, unique, named)
