-- ===== src/Common/Counting.antt =====
-- How counts move when a table is read or changed.
use backend.Common.{
  ◌+◌, ◌≤◌, ◌≡◌, refl, Bool, true, false, ◌&&◌, none, some, ◌≢◌, List, [], ◌∷◌, ◌++◌, arith,
  if◌then◌else◌, tally, first, Option-cases, inl, inr, change, keep,
}

module _ {R : Type 0} where
  -- What is found is counted.
  pub first-tally :
      (w a : R → Bool) (rs : List R) (r : R) → first w rs ≡ some r → a r ≡ true → 1 ≤ tally a rs
  first-tally w a [] r e h = ground arith
  first-tally w a (x ∷ rs) r e h = ground (arith, first-tally w a rs r)

  -- What is counted is found.
  pub tally-first : (w : R → Bool) (rs : List R) → 1 ≤ tally w rs → first w rs ≢ none
  tally-first w [] h = omega arith
  tally-first w (x ∷ rs) h = ground (arith, tally-first w rs)

  -- What is counted is a row.
  pub counted_row : (w : R → Bool) (rs : List R) → 1 ≤ tally w rs → (r : R) × (first w rs ≡ some r)
  counted_row w rs h = elim (Option-cases (first w rs)) [
    | inl e ↦ absurd (tally-first w rs h e)
    | inr found ↦ found
  ]

  -- A change of rows that pass a test neither before nor after.
  pub first-change_apart :
      (w v : R → Bool) (f : R → R) (rs : List R)
      → ((x : R) → w x ≡ true → (v x ≡ false) × (v (f x) ≡ false))
      → first v (change w f rs) ≡ first v rs
  first-change_apart w v f [] h = refl
  first-change_apart w v f (x ∷ rs) h = ground (arith, first-change_apart w v f rs h, h x)

  -- A row is changed where it is found.
  pub first-change :
      (w : R → Bool) (f : R → R) (rs : List R) (r : R)
      → ((x : R) → w (f x) ≡ w x)
      → first w rs ≡ some r
      → first w (change w f rs) ≡ some (f r)
  first-change w f [] r h e = ground arith
  first-change w f (x ∷ rs) r h e = ground (arith, first-change w f rs r h, h x)

  -- A row that is found is found after a change by another test, changed if that test takes it.
  pub first-change_other :
      (w v : R → Bool) (f : R → R) (rs : List R) (r : R)
      → ((x : R) → w (f x) ≡ w x)
      → first w rs ≡ some r
      → first w (change v f rs) ≡ some (if v r then f r else r)
  first-change_other w v f [] r h e = ground arith
  first-change_other w v f (x ∷ rs) r h e = ground (arith, first-change_other w v f rs r h, h x)

  -- What is not counted is not found.
  pub none_found : (w : R → Bool) (rs : List R) → tally w rs ≡ 0 → first w rs ≡ none
  none_found w [] h = refl
  none_found w (x ∷ rs) h = ground (arith, none_found w rs)

  -- A new row is found where none was before.
  pub first-append_new :
      (v : R → Bool) (rs : List R) (r : R)
      → first v rs ≡ none
      → v r ≡ true
      → first v (rs ++ r ∷ []) ≡ some r
  first-append_new v [] r e h = rw h refl
  first-append_new v (x ∷ rs) r e h = ground (arith, first-append_new v rs r, h)

  pub tally-le :
      (a b : R → Bool) (rs : List R) → ((x : R) → a x ≡ true → b x ≡ true) → tally a rs ≤ tally b rs
  tally-le a b [] h = omega arith
  tally-le a b (x ∷ rs) h = ground (arith, tally-le a b rs h, h x)

  -- Two tests that exclude one another count apart.
  pub tally_disjoint :
      (a b c : R → Bool) (rs : List R)
      → ((x : R) → a x ≡ true → c x ≡ true)
      → ((x : R) → b x ≡ true → c x ≡ true)
      → ((x : R) → a x ≡ true → b x ≡ false)
      → tally a rs + tally b rs ≤ tally c rs
  tally_disjoint a b c [] ha hb hd = omega arith
  tally_disjoint a b c (x ∷ rs) ha hb hd =
      ground (arith, tally_disjoint a b c rs ha hb hd, ha x, hb x, hd x)

  -- A change that leaves the test alone leaves the count alone.
  pub tally-change_same :
      (a w : R → Bool) (f : R → R) (rs : List R)
      → ((x : R) → a (f x) ≡ a x)
      → tally a (change w f rs) ≡ tally a rs
  tally-change_same a w f [] h = refl
  tally-change_same a w f (x ∷ rs) h = ground (arith, tally-change_same a w f rs h, h x)

  -- A change after which the test fails removes what it touches from the count.
  pub tally-change_clear :
      (a b w : R → Bool) (f : R → R) (rs : List R)
      → ((x : R) → a (f x) ≡ false)
      → ((x : R) → b x ≡ true → a x ≡ true)
      → ((x : R) → b x ≡ true → w x ≡ true)
      → tally a (change w f rs) + tally b rs ≤ tally a rs
  tally-change_clear a b w f [] h ha hw = omega arith
  tally-change_clear a b w f (x ∷ rs) h ha hw =
      ground (arith, tally-change_clear a b w f rs h ha hw, h x, ha x, hw x)

  -- A change that touches nothing that the test passes, before or after.
  pub tally-change_apart :
      (a w : R → Bool) (f : R → R) (rs : List R)
      → ((x : R) → w x ≡ true → a (f x) ≡ a x)
      → tally a (change w f rs) ≡ tally a rs
  tally-change_apart a w f [] h = refl
  tally-change_apart a w f (x ∷ rs) h = ground (arith, tally-change_apart a w f rs h, h x)

  -- A change after which the test holds, of exactly what another test counts.
  pub tally-change_set :
      (a b w : R → Bool) (f : R → R) (rs : List R)
      → ((x : R) → b x ≡ true → w x ≡ true)
      → ((x : R) → b x ≡ true → a (f x) ≡ true)
      → tally b rs ≤ tally a (change w f rs)
  tally-change_set a b w f [] hw h = omega arith
  tally-change_set a b w f (x ∷ rs) hw h =
      ground (arith, tally-change_set a b w f rs hw h, hw x, h x)

  pub tally-keep : (a w : R → Bool) (rs : List R) → tally a (keep w rs) ≡ tally (λ x. a x && w x) rs
  tally-keep a w [] = refl
  tally-keep a w (x ∷ rs) = ground (arith, tally-keep a w rs)
