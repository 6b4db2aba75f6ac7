-- ===== src/Bud/Pairs.antt =====
-- What `checkBudPairGenders` and `verifyBudPairs` of src/bud/bud.service.ts let through.
use backend.Common.{
  ◌≤◌, ◌≡◌, ◌⊎◌, refl, true, false, not, List, [], ◌∷◌, arith, Option, none, some, length, All, map,
  ◌↔◌, ==→eq,
}
use backend.Common.Int.{ℤ, ◌==ℤ◌}
use backend.Schema.{Address, BudWithId, is_male, ok}
use backend.Db.{State, Exec, ◌>>◌}
use backend.Db.Inversion.{refuse-ok, pure-ok}
use backend.Env.{Env, addresses}
use backend.Bud.Service.{
  IdAndGender, id_and_gender, genders_fit, check_bud_pair_genders, out_of_range, require_owners,
  all_revealed, verify_metadatas, verify_bud_pairs, get_metadatas,
}

-- A bud has the gender of the role in which its id is named.
abbrev pub Fits : ℤ → ℤ → IdAndGender → Type 0
Fits male female b =
    (((b.0 ==ℤ male) ≡ false) ⊎ (is_male b.1 ≡ true))
    × (((b.0 ==ℤ female) ≡ false) ⊎ (is_male b.1 ≡ false))

genders_fit-All :
    (bs : List IdAndGender) (male female : ℤ)
    → genders_fit bs male female ≡ true
    → All (Fits male female) bs
genders_fit-All [] male female h = tt
genders_fit-All (b ∷ bs) male female h =
    (ground arith, genders_fit-All bs male female (ground arith))

All-genders_fit :
    (bs : List IdAndGender) (male female : ℤ)
    → All (Fits male female) bs
    → genders_fit bs male female ≡ true
All-genders_fit [] male female h = refl
All-genders_fit (b ∷ bs) male female h = ground (arith, All-genders_fit bs male female h.1, h.0)

passes :
    (bs : List IdAndGender) (male female : ℤ)
    → check_bud_pair_genders bs male female ≡ true
    → (2 ≤ length bs) × (genders_fit bs male female ≡ true)
unfolding check_bud_pair_genders
passes bs male female h = ground arith

fits_enough :
    (bs : List IdAndGender) (male female : ℤ)
    → 2 ≤ length bs
    → genders_fit bs male female ≡ true
    → check_bud_pair_genders bs male female ≡ true
unfolding check_bud_pair_genders
fits_enough bs male female h e = ground arith

-- The check passes exactly where there are two buds at least, each bud with the male id is male,
-- and each bud with the female id is female.
pub check_bud_pair_genders-Fits :
    (bs : List IdAndGender) (male female : ℤ)
    → (check_bud_pair_genders bs male female ≡ true) ↔ ((2 ≤ length bs) × All (Fits male female) bs)
check_bud_pair_genders-Fits bs male female = (
  λ h. let p = passes bs male female h in (p.0, genders_fit-All bs male female p.1),
  λ p. fits_enough bs male female p.0 (All-genders_fit bs male female p.1),
)

require_owners-ok :
    {A : Type 0} (a : Address) (o : Option (List Address)) (k : Exec A) (s : State) (r : A × State)
    → (require_owners a o >> k) s ≡ (ok r.0, r.1)
    → (rest : List Address) × (o ≡ some (a ∷ a ∷ rest)) × (k s ≡ (ok r.0, r.1))
unfolding require_owners
require_owners-ok a none k s r h = ground arith
require_owners-ok a (some []) k s r h = ground arith
require_owners-ok a (some (x ∷ [])) k s r h = ground arith
require_owners-ok a (some (x ∷ y ∷ rest)) k s r h =
    let (e, h') = refuse-ok _ _ k s r h in
    (rest, rw (==→eq x a (ground arith), ==→eq y a (ground arith)) refl, h')

verify_metadatas-ok :
    (env : Env) (male female : ℤ) (s s' : State) (found : List BudWithId)
    → verify_metadatas env male female s ≡ (ok found, s')
    → (found ≡ get_metadatas env (male ∷ female ∷ []))
      × (all_revealed found ≡ true)
      × (check_bud_pair_genders (map id_and_gender found) male female ≡ true)
      × (s' ≡ s)
unfolding verify_metadatas
verify_metadatas-ok env male female s s' found h =
    let metadatas = get_metadatas env (male ∷ female ∷ []) in
    let (revealed, h1) = refuse-ok (not (all_revealed metadatas)) _ _ s (found, s') h in
    let (fit, h2) =
      refuse-ok (not (check_bud_pair_genders (map id_and_gender metadatas) male female)) _ _ s
        (found, s') h1 in
    let (e, same) = pure-ok _ found s s' h2 in
    (e, rw e (ground (arith, revealed)), rw e (ground (arith, fit)), same)

-- With the metadata check, an answer is given only where both ids are in the range from 0 to
-- 19999, the address owns both buds, every metadata found is revealed, and the genders fit; the
-- answer is the metadata, and the database is as before.
pub verify_bud_pairs-ok :
    (env : Env) (a : Address) (male female : ℤ) (s s' : State) (found : List BudWithId)
    → verify_bud_pairs env a male female true s ≡ (ok found, s')
    → (out_of_range male ≡ false)
      × (out_of_range female ≡ false)
      × ((rest : List Address) × (env.owners_of (addresses env.network).bud (male ∷ female ∷ [])
            ≡ some (a ∷ a ∷ rest)))
      × (found ≡ get_metadatas env (male ∷ female ∷ []))
      × (all_revealed found ≡ true)
      × (check_bud_pair_genders (map id_and_gender found) male female ≡ true)
      × (s' ≡ s)
unfolding verify_bud_pairs
verify_bud_pairs-ok env a male female s s' found h =
    let (low, h1) = refuse-ok (out_of_range male) _ _ s (found, s') h in
    let (high, h2) = refuse-ok (out_of_range female) _ _ s (found, s') h1 in
    let (rest, owned, h3) = require_owners-ok a _ _ s (found, s') h2 in
    let (e, revealed, fit, same) = verify_metadatas-ok env male female s s' found h3 in
    (low, high, (rest, owned), e, revealed, fit, same)
