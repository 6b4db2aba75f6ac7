-- ===== src/Sessions/LifeCycle.antt =====
-- The life of the sessions under any sequence of requests.
use backend.Common.{List, [], ◌∷◌}
use backend.Schema.{Result, ok, err, BreedPair}
use backend.Db.{State, Exec}
use backend.Db.Triple.{Outcome}
use backend.Sessions.Logins.{snapshot_breeding-Frame, dice-Frame, rename_gen1_bud-Frame}
use backend.Sessions.Points.{
  add_breeding_point-Frame, withdraw_breeding_point-Frame, burn_gen0_buds-Frame,
}
use backend.Sessions.Requests.{
  Request, pair, level_up, cancel, finalize, invalidate, transfer_bud, transfer_key, open_land,
  convert, purchase, log_in, deposit, withdraw, burn, gift, rename, snapshot, handle, serve,
}
use backend.Sessions.Moves.{Follows, Follows-refl}
use backend.Sessions.Numbering.{Numbered}
use backend.Sessions.Lasting.{Of, Since, Lasts, Lasts-Frame}
use backend.Sessions.Endings.{
  cancel_breeding-Lasts, finalize_breeding-Lasts, level_breeding_up-Lasts,
}
use backend.Sessions.Births.{create_pair-Lasts}
use backend.Sessions.Others.{
  invalidate_pair-Lasts, invalidate_breeding-Lasts, invalidate_slots-Lasts, open_slot-Lasts,
  convert_indoor-Lasts, purchase_land-Lasts, login-Lasts,
}

settled_pairs :
    {A : Type 0} (t0 : List BreedPair) (r : Result A × State)
    → Outcome (Of (Since t0)) (λ _. Of (Since t0)) r
    → Since t0 r.1.pairs
settled_pairs t0 (ok a, s) h = h
settled_pairs t0 (err e, s) h = h

Lasts-state :
    {A : Type 0} (m : Exec A)
    → Lasts m
    → (t0 : List BreedPair) (s : State) → Since t0 s.pairs
    → Since t0 (m s).1.pairs
Lasts-state m h t0 s c = settled_pairs t0 (m s) ((h.since t0).at s c)

handle-Since :
    (r : Request) (t0 : List BreedPair) (s : State) → Since t0 s.pairs → Since t0 (handle r s).pairs
unfolding handle
handle-Since (pair env req body) = Lasts-state _ (create_pair-Lasts body env req)
handle-Since (level_up env req i male female) =
    Lasts-state _ (level_breeding_up-Lasts env req i male female)
handle-Since (cancel req i) = Lasts-state _ (cancel_breeding-Lasts req i)
handle-Since (finalize env req i male female) =
    Lasts-state _ (finalize_breeding-Lasts env req i male female)
handle-Since (invalidate env req male female) =
    Lasts-state _ (invalidate_pair-Lasts env req male female)
handle-Since (transfer_bud env a b i) = Lasts-state _ (invalidate_breeding-Lasts env a b i)
handle-Since (transfer_key env body) = Lasts-state _ (invalidate_slots-Lasts env body)
handle-Since (open_land env req i) = Lasts-state _ (open_slot-Lasts env req i)
handle-Since (convert env req i) = Lasts-state _ (convert_indoor-Lasts env req i)
handle-Since (purchase env req) = Lasts-state _ (purchase_land-Lasts env req)
handle-Since (log_in env body) = Lasts-state _ (login-Lasts env body)
handle-Since (deposit env dto n) =
    Lasts-state _ (Lasts-Frame _ (add_breeding_point-Frame env dto n))
handle-Since (withdraw env dto n) =
    Lasts-state _ (Lasts-Frame _ (withdraw_breeding_point-Frame env dto n))
handle-Since (burn env dto male female) =
    Lasts-state _ (Lasts-Frame _ (burn_gen0_buds-Frame env dto male female))
handle-Since (gift env minter i) = Lasts-state _ (Lasts-Frame _ (dice-Frame env minter i))
handle-Since (rename env req i name) =
    Lasts-state _ (Lasts-Frame _ (rename_gen1_bud-Frame env req i name))
handle-Since snapshot = Lasts-state _ (Lasts-Frame _ snapshot_breeding-Frame)

serve-Since :
    (rs : List Request) (t0 : List BreedPair) (s : State)
    → Since t0 s.pairs
    → Since t0 (serve rs s).pairs
unfolding serve
serve-Since [] t0 s c = c
serve-Since (r ∷ rs) t0 s c = serve-Since rs t0 (handle r s) (handle-Since r t0 s c)

-- Where no id of a session is given twice and none from the next one on is given, any sequence
-- of requests, whatever they answer, keeps this so and moves the sessions along their life cycle
-- alone: no row goes away and each stays in its place; of a row only the status and the level
-- change; a running session may end in each way, one that has ended may only be failed and never
-- runs again; a level never sinks, and changes only while the session runs; none becomes
-- completed below the level 5; and every new row was born running at the level 0 and has moved
-- so since.
pub serve-Follows :
    (rs : List Request) (s : State)
    → Numbered s.pairs
    → Numbered (serve rs s).pairs × Follows s.pairs.rows (serve rs s).pairs.rows
serve-Follows rs s n = serve-Since rs s.pairs.rows s (n, Follows-refl s.pairs.rows)
