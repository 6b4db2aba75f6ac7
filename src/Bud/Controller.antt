-- ===== src/Bud/Controller.antt =====
-- src/bud/bud.controller.ts.
use backend.Common.{
  ℕ, ◌+◌, Option, none, some, Bool, true, false, ◌&&◌, List, ltb, ◌==◌, if◌then◌else◌, String,
}
use text.Mathlib.Text.{◌==◌ as str_eq}
use backend.Schema.{Error, Caller, Gen1Bud}
use backend.Db.{
  Exec, pure, raise, throw_if, ◌>>=◌, ◌>>◌, gen1_table, find_first, find_many, count, update,
}
use backend.Env.{Env, config}

-- `getGen1Buds`.
unfoldable pub get_gen1_buds : Caller → Option ℕ → Exec (List Gen1Bud)
get_gen1_buds req bud_id =
    find_many gen1_table
      λ b. elim bud_id [ none ↦ true | some i ↦ b.id == i ] && b.minter_address == req.user

abbrev or_false : Option Bool → Bool
or_false none = false
or_false (some b) = b

-- `checkBudName`: no bud has the name, and the name service allows it.
unfoldable pub check_bud_name : Env → String → Exec Bool
check_bud_name env name = do
  same ← count gen1_table λ b. str_eq (env.sql_trim b.bud.name) (env.trim name)
  if ltb 0 same then pure false else pure (or_false (env.name_allowed name))

-- `bud.createdAt.getTime() + limit < Date.now()`.
abbrev pub rename_too_late : Env → Gen1Bud → Bool
unfolding config
rename_too_late env b = ltb (b.created_at + (config env.network).rename_allowed_time) env.now

unfoldable pub rename_found : Env → ℕ → String → Option Gen1Bud → Exec Gen1Bud
unfolding check_bud_name
rename_found env bud_id name none = raise (Error.not_found "Bud not found.")
rename_found env bud_id name (some bud) = do
  throw_if (rename_too_late env bud) (Error.unprocessable "Rename too late.")
  is_valid ← check_bud_name env name
  if is_valid
      then (update gen1_table bud_id λ b. record b { bud = record b.bud { name = env.trim name } })
      else raise (
          Error.unprocessable
            "Proposed bud name cannot be accepted or duplicated. Please try the other one")

-- `renameGen1Buds`.
unfoldable pub rename_gen1_bud : Env → Caller → ℕ → String → Exec Gen1Bud
unfolding rename_found
rename_gen1_bud env req bud_id name = do
  bud ← find_first gen1_table λ b. b.id == bud_id && b.minter_address == req.user
  rename_found env bud_id name bud
