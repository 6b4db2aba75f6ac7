-- ===== src/Sessions/Lasting.antt =====
-- Rules for what the actions do to the sessions' rows since some earlier point in time.
use backend.Common.{
  ℕ, ◌≡◌, refl, sym, Bool, true, false, ◌++◌, List, [], ◌∷◌, inl, inr, arith, if◌then◌else◌, All,
  change, first, Option-cases, first_passes,
}
use backend.Schema.{Error, Result, ok, err, Caller, BreedPair, paired, is_paired, failed}
use mathlib.Core.Path.{subst}
use backend.Db.{
  State, Rows, Exec, throw_if, ◌>>=◌, pair_table, update, update_many, create_pair_row,
}
use backend.Db.Triple.{Claim, Outcome, Ensures, Ensures-bind, Frame, frame_rules}
use backend.Breed.{own_paired, find_own_pair}
use backend.Sessions.Rules.{Ensures-row, is_pair}
use backend.Sessions.Moves.{
  Moves, Moves-refl, IsBorn, Follows, Follows-trans, Follows-append, Follows-change, all_failed,
}
use backend.Sessions.Numbering.{
  Numbered, Only, Only-last, Only-found, Numbered-change, Numbered-append,
}
use backend.Sessions.Still.{Still, Still-Frame}

-- A fact that the claim holds may be used from here on.
pub given :
    {A : Type 0} {E P : Claim} {Q : A → Claim} (F : Type 0) (m : Exec A)
    → ((s : State) → P s → F)
    → (F → Ensures E P m Q)
    → Ensures E P m Q
given F m f h = record { at = λ s p. (h (f s p)).at s p }

pub stronger :
    {A : Type 0} {E P P' : Claim} {Q : A → Claim} (m : Exec A)
    → ((s : State) → P s → P' s)
    → Ensures E P' m Q
    → Ensures E P m Q
stronger m f h = record { at = λ s p. h.at s (f s p) }

-- A claim on the sessions.
abbrev pub Of : (Rows BreedPair → Type 0) → Claim
Of P s = P s.pairs

module _ (t0 : List BreedPair) where
  -- What has happened to the sessions since `t0`.
  abbrev pub Since : Rows BreedPair → Type 0
  Since t = Numbered t × Follows t0 t.rows

  -- With a claim on the rows.
  abbrev pub Now : (List BreedPair → Type 0) → Rows BreedPair → Type 0
  Now P t = Since t × P t.rows

  pub forget :
      {A : Type 0} (m : Exec A) (P : List BreedPair → Type 0)
      → Ensures (Of Since) (Of Since) m (λ _. Of Since)
      → Ensures (Of Since) (Of (Now P)) m (λ _. Of Since)
  forget m P h = record { at = λ s p. h.at s p.0 }

  module _ {A : Type 0} (P : List BreedPair → Type 0) (m : Exec A) where
    still-Outcome :
        (s : State) (r : Result A × State)
        → r.1.pairs ≡ s.pairs
        → Now P s.pairs
        → Outcome (Of Since) (λ _. Of (Now P)) r
    still-Outcome s (ok a, s') e p = rw e p
    still-Outcome s (err x, s') e p = rw e p.0

    pub Ensures-Still : Still m → Ensures (Of Since) (Of (Now P)) m (λ _. Of (Now P))
    Ensures-Still h = record { at = λ s p. still-Outcome s (m s) (h.pairs s) p }

  -- A test that throws holds of none that goes on.
  pub Ensures-throw_if :
      (P : List BreedPair → Type 0) (b : Bool) (e : Error)
      → Ensures (Of Since) (Of (Now P)) (throw_if b e) (λ _. Of (Now λ ps. P ps × (b ≡ false)))
  Ensures-throw_if P true e = record { at = λ s p. p.0 }
  Ensures-throw_if P false e = record { at = λ s p. (p.0, (p.1, refl)) }

module _ (t0 : List BreedPair) where
  changed-Since :
      (w : BreedPair → Bool) (f : BreedPair → BreedPair) (t : Rows BreedPair)
      → ((x : BreedPair) → (f x).id ≡ x.id)
      → Since t0 t
      → Follows t.rows (change w f t.rows)
      → Since t0 (record { rows = change w f t.rows; next = t.next })
  changed-Since w f t h (n, past) now =
      (Numbered-change w f t h n, Follows-trans t0 t.rows (change w f t.rows) past now)

  Only-moves :
      (i : ℕ) (p : BreedPair) (f : BreedPair → BreedPair) (ps : List BreedPair)
      → Moves p (f p)
      → Only i p ps
      → All (λ x. is_pair i x ≡ true → Moves x (f x)) ps
  Only-moves i p f [] m h = tt
  Only-moves i p f (x ∷ ps) m (h, hs) =
      (λ e. subst (λ y. Moves y (f y)) (sym (h e)) m, Only-moves i p f ps m hs)

  -- The update of the one row with its id, by a move.
  pub pair_update :
      (i : ℕ) (p : BreedPair) (f : BreedPair → BreedPair)
      → ((x : BreedPair) → (f x).id ≡ x.id)
      → Moves p (f p)
      → Ensures
          (Of (Since t0))
          (Of (Now t0 (Only i p)))
          (update pair_table i f)
          (λ _. Of (Since t0))
  pair_update i p f h m = record {
    at = λ s c. elim (Option-cases (first (is_pair i) s.pairs.rows)) [
      | inl missing ↦ rw missing c.0
      | inr (x, e) ↦ rw e (
          changed-Since (is_pair i) f s.pairs h c.0
            (Follows-change (is_pair i) f s.pairs.rows (Only-moves i p f s.pairs.rows m c.1)))
    ];
  }

  -- The sessions of a test all fail.
  pub pairs_fail :
      (w : BreedPair → Bool)
      → Ensures
          (Of (Since t0))
          (Of (Since t0))
          (update_many pair_table w (λ p. record p { status = failed }))
          (λ _. Of (Since t0))
  pairs_fail w = record {
    at = λ s c.
        changed-Since w (λ p. record p { status = failed }) s.pairs (λ x. refl) c
          (all_failed w s.pairs.rows);
  }

  -- A session that runs at a level, in the one row with its id.
  abbrev pub RunsAt : ℕ → BreedPair → List BreedPair → Type 0
  RunsAt n p ps = Only p.id p ps × (p.status ≡ paired) × (p.current_level ≡ n)

  pub pair_create :
      (f : ℕ → BreedPair)
      → ((i : ℕ) → (f i).id ≡ i)
      → ((i : ℕ) → (f i).status ≡ paired)
      → ((i : ℕ) → (f i).current_level ≡ 0)
      → Ensures (Of (Since t0)) (Of (Since t0)) (create_pair_row f) (λ p. Of (Now t0 (RunsAt 0 p)))
  pair_create f hi hs hl =
      Ensures-row f
        (record {
          at = λ s c.
              let n = s.pairs.next in
              let p = f n in
              let born : IsBorn p = (p, hs n, hl n, Moves-refl p) in
              (
                (
                  Numbered-append p s.pairs (hi n) c.0,
                  Follows-trans t0 s.pairs.rows (s.pairs.rows ++ p ∷ []) c.1
                      (Follows-append s.pairs.rows p born),
                ),
                (Only-last p.id p s.pairs.rows (c.0.1 p.id (omega (arith, hi n))), hs n, hl n),
              );
        })
        (λ s c. c)

  -- What `findFirst` of the caller's session returns.
  abbrev pub Found : ℕ → BreedPair → List BreedPair → Type 0
  Found i p ps = Only i p ps × (p.id ≡ i) × (is_paired p.status ≡ true)

  pub own_pair-Found :
      (req : Caller) (i : ℕ)
      → Ensures (Of (Since t0)) (Of (Since t0)) (find_own_pair req i) (λ p. Of (Now t0 (Found i p)))
  unfolding find_own_pair
  own_pair-Found req i = record {
    at = λ s c. elim (Option-cases (first (own_paired req.user i) s.pairs.rows)) [
      | inl missing ↦ rw missing c
      | inr (p, e) ↦
          let h = first_passes (own_paired req.user i) s.pairs.rows p e in
          rw e (c, (Only-found req.user i p s.pairs.rows e (c.0.0 i), ground arith, ground arith))
    ];
  }

-- The action is one after which the sessions still follow those before it, whatever the answer.
pub record Lasts {A : Type 0} (m : Exec A) : Type 0 where
  pub since : (t0 : List BreedPair) → Ensures (Of (Since t0)) (Of (Since t0)) m (λ _. Of (Since t0))

module _ {A : Type 0} where
  quiet :
      (t0 : List BreedPair) (s : State) (r : Result A × State)
      → r.1.pairs ≡ s.pairs
      → Since t0 s.pairs
      → Outcome (Of (Since t0)) (λ _. Of (Since t0)) r
  quiet t0 s (ok a, s') e c = rw e c
  quiet t0 s (err x, s') e c = rw e c

  pub Lasts-Still : (m : Exec A) → Still m → Lasts m
  Lasts-Still m h = record { since = λ t0. record { at = λ s c. quiet t0 s (m s) (h.pairs s) c } }

  pub Lasts-Frame : (m : Exec A) → Frame m → Lasts m
  Lasts-Frame m h = Lasts-Still m (Still-Frame m h)

  pub Lasts-if : (b : Bool) (m n : Exec A) → Lasts m → Lasts n → Lasts (if b then m else n)
  Lasts-if true m n hm hn = hm
  Lasts-if false m n hm hn = hn

pub Lasts-bind :
    {A B : Type 0} (m : Exec A) (k : A → Exec B)
    → Lasts m
    → ((a : A) → Lasts (k a))
    → Lasts (m >>= k)
Lasts-bind m k hm hk = record {
  since = λ t0. Ensures-bind _ _ m k (hm.since t0) (λ a. (hk a).since t0);
}

pub ruleset lasting_rules = (Lasts-bind, Lasts-if, Lasts-Frame, frame_rules)
