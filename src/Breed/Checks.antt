-- ===== src/Breed/Checks.antt =====
-- What `createPair` of src/breed/breed.controller.ts does before it looks for the slot: it reads
-- alone.
use backend.Common.{◌≡◌, refl, true, false, some, [], ◌∷◌, map, ltb, tally, eq→==}
use backend.Schema.{Result, Error, ok, err, Caller, Bud, BudWithId}
use backend.Db.{State, Exec, continue, pure, throw_if, ◌>>=◌, ◌>>◌}
use backend.Env.{Env, addresses}
use backend.Bud.{
  verify_bud_pairs, require_owners, verify_metadatas, out_of_range, all_revealed,
  check_bud_pair_genders, id_and_gender, get_metadatas,
}
use backend.Breed.Service.{in_breeding, find_pair_in_breeding}
use backend.Breed.Controller.{CreateBreedPair, two_buds, check_item, place_pair, create_pair}

-- The part of `createPair` up to the test of the buds' sessions.
unfoldable pub checks : Env → Caller → CreateBreedPair → Exec (Bud × Bud)
checks env req body = do
  metadatas ← verify_bud_pairs env req.user body.male_bud_id body.female_bud_id true
  buds ← two_buds metadatas
  check_item env req body.game_item_id
  n ← find_pair_in_breeding body.male_bud_id body.female_bud_id
  throw_if (ltb 0 n) (Error.conflict "One of the bud pairs is in breeding")
  pure buds

regrouped :
    {A B C : Type 0} (r : Result A × State) (k : A → Exec B) (l : B → Exec C) (k' : A → Exec C)
    → ((a : A) (t : State) → k' a t ≡ (k a >>= l) t)
    → continue r.0 k' r.1 ≡ (let x = continue r.0 k r.1 in continue x.0 l x.1)
regrouped (ok a, s) k l k' h = h a s
regrouped (err e, s) k l k' h = refl

-- `createPair` is its checks, and then the rest.
pub create_pair-checks :
    (env : Env) (req : Caller) (body : CreateBreedPair) (s : State)
    → create_pair env req body s
      ≡ (checks env req body >>= λ buds. place_pair env req body buds.0 buds.1) s
unfolding create_pair checks find_pair_in_breeding
create_pair-checks env req body s =
    regrouped (verify_bud_pairs env req.user body.male_bud_id body.female_bud_id true s) _ _ _
      λ ms t. regrouped (two_buds ms t) _ _ _ λ buds u.
        regrouped (check_item env req body.game_item_id u) _ _ _ λ _ v.
          regrouped
            (throw_if (ltb 0 (tally (in_breeding body.male_bud_id body.female_bud_id) v.pairs.rows))
              (Error.conflict "One of the bud pairs is in breeding") v)
            _ _ _ λ _ _. refl

-- The two buds are the caller's, revealed, and of the genders of their roles.
abbrev pub BudsFit : Env → Caller → CreateBreedPair → BudWithId → BudWithId → Type 0
BudsFit env req body m f =
    (out_of_range body.male_bud_id ≡ false)
    × (out_of_range body.female_bud_id ≡ false)
    × (env.owners_of (addresses env.network).bud (body.male_bud_id ∷ body.female_bud_id ∷ [])
        ≡ some (req.user ∷ req.user ∷ []))
    × (get_metadatas env (body.male_bud_id ∷ body.female_bud_id ∷ []) ≡ m ∷ f ∷ [])
    × (all_revealed (m ∷ f ∷ []) ≡ true)
    × (check_bud_pair_genders (map id_and_gender (m ∷ f ∷ [])) body.male_bud_id body.female_bud_id
        ≡ true)

buds_verified :
    (env : Env) (req : Caller) (body : CreateBreedPair) (m f : BudWithId) (s : State)
    → BudsFit env req body m f
    → verify_bud_pairs env req.user body.male_bud_id body.female_bud_id true s
      ≡ (ok (m ∷ f ∷ []), s)
unfolding verify_bud_pairs require_owners verify_metadatas
buds_verified env req body m f s (low, high, o, found, revealed, fit) =
    rw low rw high rw o rw (eq→== req.user req.user refl) rw found rw revealed rw fit refl

pub checks-runs :
    (env : Env) (req : Caller) (body : CreateBreedPair) (m f : BudWithId) (s : State)
    → BudsFit env req body m f
    → check_item env req body.game_item_id s ≡ (ok true, s)
    → tally (in_breeding body.male_bud_id body.female_bud_id) s.pairs.rows ≡ 0
    → checks env req body s ≡ (ok (m.bud, f.bud), s)
unfolding checks find_pair_in_breeding
checks-runs env req body m f s fit item unpaired =
    rw (buds_verified env req body m f s fit) rw item rw unpaired refl

-- The checks where one of the buds is in its role in a running session.
pub checks-refused :
    (env : Env) (req : Caller) (body : CreateBreedPair) (m f : BudWithId) (s : State)
    → BudsFit env req body m f
    → check_item env req body.game_item_id s ≡ (ok true, s)
    → ltb 0 (tally (in_breeding body.male_bud_id body.female_bud_id) s.pairs.rows) ≡ true
    → checks env req body s ≡ (err (Error.conflict "One of the bud pairs is in breeding"), s)
unfolding checks find_pair_in_breeding
checks-refused env req body m f s fit item paired =
    rw (buds_verified env req body m f s fit) rw item rw paired refl
