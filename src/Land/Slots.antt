-- ===== src/Land/Slots.antt =====
-- The five slots of a land, from src/land/land.service.ts.
use backend.Common.{
  ℕ, ◌≡◌, refl, ◌∙◌, List, ◌++◌, Bool-cases, inl, inr, true, false, arith, none, some, tally,
  tally-append, ltb, if◌then◌else◌, eq→==,
}
use backend.Schema.{BreedSlot, ok}
use backend.Db.{State, slot_table, numbered}
use backend.Land.Service.{is_free_land, new_slot, slots_data, create_free_land_slots}

no_row : (n : ℕ) → ltb 0 n ≡ false → n ≡ 0
no_row n h = ground arith

five :
    (user key next : ℕ)
    → tally
        (is_free_land user key)
        (numbered slot_table next (slots_data 5 (new_slot user (some key) none) true))
      ≡ 5
five user key next = rw (eq→== user user refl, eq→== key key refl) refl

after_five :
    (user key next : ℕ) (rows : List BreedSlot)
    → ltb 0 (tally (is_free_land user key) rows) ≡ false
    → tally
        (is_free_land user key)
        (rows ++ numbered slot_table next (slots_data 5 (new_slot user (some key) none) true))
      ≡ 5
after_five user key next rows h =
    let new = numbered slot_table next (slots_data 5 (new_slot user (some key) none) true) in
    let none_yet = no_row (tally (is_free_land user key) rows) h in
    tally-append (is_free_land user key) rows new ∙ rw (none_yet, five user key next) refl

-- After a login's land slots are made, the user has five for the game key, or as many as there
-- were if there were any; and a second call writes nothing more.
pub create_free_land_slots-idempotent :
    (user key : ℕ) (s : State)
    → let s' = (create_free_land_slots user key s).1 in
      let before = tally (is_free_land user key) s.slots.rows in
      (tally (is_free_land user key) s'.slots.rows ≡ (if ltb 0 before then before else 5))
      × (create_free_land_slots user key s' ≡ (ok tt, s'))
unfolding create_free_land_slots
create_free_land_slots-idempotent user key s =
    elim (Bool-cases (ltb 0 (tally (is_free_land user key) s.slots.rows))) [
      | inl t ↦ rw (t, t) (refl, refl)
      | inr t ↦ let e = after_five user key s.slots.next s.slots.rows t in rw t (e, rw e refl)
    ]
