-- ===== src/Sessions/Numbering.antt =====
-- The ids of the sessions, which `autoincrement()` in src/prisma/schema.prisma gives out: a row is
-- found by its id alone.
use backend.Common.{
  ℕ, suc, ◌≤◌, ◌≡◌, refl, Bool, true, false, ◌++◌, List, [], ◌∷◌, inl, inr, arith, some, All, tally,
  change, first, Bool-cases, first_passes, tally-append,
}
use backend.Common.Counting.{tally-change_same, first-tally}
use backend.Schema.{BreedPair}
use backend.Db.{Rows}
use backend.Breed.{own_paired}
use backend.Sessions.Rules.{is_pair}

-- An id is given to one session at most, and none yet from the next one on.
abbrev pub Numbered : Rows BreedPair → Type 0
Numbered t =
    ((i : ℕ) → tally (is_pair i) t.rows ≤ 1) × ((i : ℕ) → t.next ≤ i → tally (is_pair i) t.rows ≡ 0)

-- Every row with the id is the one given.
abbrev pub Only : ℕ → BreedPair → List BreedPair → Type 0
Only i p = All (λ x. is_pair i x ≡ true → x ≡ p)

Only-none : (i : ℕ) (p : BreedPair) (ps : List BreedPair) → tally (is_pair i) ps ≡ 0 → Only i p ps
Only-none i p [] h = tt
Only-none i p (x ∷ ps) h = (λ e. ground arith, Only-none i p ps (ground arith))

pub Only-last :
    (i : ℕ) (p : BreedPair) (ps : List BreedPair)
    → tally (is_pair i) ps ≡ 0
    → Only i p (ps ++ p ∷ [])
Only-last i p [] h = (λ e. refl, tt)
Only-last i p (x ∷ ps) h = (λ e. ground arith, Only-last i p ps (ground arith))

module _ {R : Type 0} (w : R → Bool) (x : R) (xs : List R) (r : R) where
  first_here : w x ≡ true → first w (x ∷ xs) ≡ some r → x ≡ r
  first_here h e = grind arith

  first_there : w x ≡ false → first w (x ∷ xs) ≡ some r → first w xs ≡ some r
  first_there h e = ground arith

own_id :
    (a i : ℕ) (ps : List BreedPair) (p : BreedPair)
    → first (own_paired a i) ps ≡ some p
    → is_pair i p ≡ true
own_id a i ps p e = let h = first_passes (own_paired a i) ps p e in ground arith

pub Only-found :
    (a i : ℕ) (p : BreedPair) (ps : List BreedPair)
    → first (own_paired a i) ps ≡ some p
    → tally (is_pair i) ps ≤ 1
    → Only i p ps
Only-found a i p [] e h = tt
Only-found a i p (x ∷ ps) e h = elim (Bool-cases (own_paired a i x)) [
  | inl own ↦ (λ k. first_here (own_paired a i) x ps p own e, Only-none i p ps (ground arith))
  | inr other ↦
      let rest = first_there (own_paired a i) x ps p other e in
      let one = first-tally (own_paired a i) (is_pair i) ps p rest (own_id a i ps p rest) in
      (λ k. ground arith, Only-found a i p ps rest (ground arith))
]

pub Numbered-change :
    (w : BreedPair → Bool) (f : BreedPair → BreedPair) (t : Rows BreedPair)
    → ((x : BreedPair) → (f x).id ≡ x.id)
    → Numbered t
    → Numbered (record { rows = change w f t.rows; next = t.next })
Numbered-change w f t h n = (
  λ i. rw (tally-change_same (is_pair i) w f t.rows (λ x. rw (h x) refl)) (n.0 i),
  λ i l. rw (tally-change_same (is_pair i) w f t.rows (λ x. rw (h x) refl)) (n.1 i l),
)

pub Numbered-append :
    (p : BreedPair) (t : Rows BreedPair)
    → p.id ≡ t.next
    → Numbered t
    → Numbered (record { rows = t.rows ++ p ∷ []; next = suc t.next })
Numbered-append p t e n = (
  λ i. rw (tally-append (is_pair i) t.rows (p ∷ [])) (ground (arith, n.0 i, n.1 i)),
  λ i l. rw (tally-append (is_pair i) t.rows (p ∷ [])) (ground (arith, n.1 i)),
)
