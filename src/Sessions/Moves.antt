-- ===== src/Sessions/Moves.antt =====
-- The life of a session, as the rows of src/prisma/schema.prisma's BreedPair may show it: how one
-- row may change, and how the table may.
use backend.Common.{
  ℕ, ◌≤◌, ◌≡◌, refl, ap, ◌∙◌, Bool, true, false, List, [], ◌∷◌, ◌++◌, inl, inr, arith,
  if◌then◌else◌, All, change, Bool-cases,
}
use backend.Schema.{
  BreedPairStatus, paired, completed, canceled, failed, is_paired, is_completed, BreedPair,
}

-- Which status may come after which: a running session may end in each way, and one that has ended
-- may only be failed.
abbrev pub may_become : BreedPairStatus → BreedPairStatus → Bool
may_become paired t = true
may_become completed paired = false
may_become completed completed = true
may_become completed canceled = false
may_become completed failed = true
may_become canceled paired = false
may_become canceled completed = false
may_become canceled canceled = true
may_become canceled failed = true
may_become failed paired = false
may_become failed completed = false
may_become failed canceled = false
may_become failed failed = true

may_become_refl : (a : BreedPairStatus) → may_become a a ≡ true
may_become_refl paired = refl
may_become_refl completed = refl
may_become_refl canceled = refl
may_become_refl failed = refl

may_become_failed : (a : BreedPairStatus) → may_become a failed ≡ true
may_become_failed paired = refl
may_become_failed completed = refl
may_become_failed canceled = refl
may_become_failed failed = refl

may_become_trans :
    (a b c : BreedPairStatus)
    → may_become a b ≡ true
    → may_become b c ≡ true
    → may_become a c ≡ true
may_become_trans paired b c h k = refl
may_become_trans completed paired c h k = cc
may_become_trans completed completed c h k = k
may_become_trans completed canceled c h k = cc
may_become_trans completed failed paired h k = cc
may_become_trans completed failed completed h k = cc
may_become_trans completed failed canceled h k = cc
may_become_trans completed failed failed h k = refl
may_become_trans canceled paired c h k = cc
may_become_trans canceled completed c h k = cc
may_become_trans canceled canceled c h k = k
may_become_trans canceled failed paired h k = cc
may_become_trans canceled failed completed h k = cc
may_become_trans canceled failed canceled h k = cc
may_become_trans canceled failed failed h k = refl
may_become_trans failed paired c h k = cc
may_become_trans failed completed c h k = cc
may_become_trans failed canceled c h k = cc
may_become_trans failed failed c h k = k

ended_ends :
    (a b : BreedPairStatus) → may_become a b ≡ true → is_paired a ≡ false → is_paired b ≡ false
ended_ends paired b h e = cc
ended_ends completed paired h e = cc
ended_ends completed completed h e = refl
ended_ends completed canceled h e = refl
ended_ends completed failed h e = refl
ended_ends canceled paired h e = cc
ended_ends canceled completed h e = refl
ended_ends canceled canceled h e = refl
ended_ends canceled failed h e = refl
ended_ends failed paired h e = cc
ended_ends failed completed h e = refl
ended_ends failed canceled h e = refl
ended_ends failed failed h e = refl

pub running_may : (a b : BreedPairStatus) → is_paired a ≡ true → may_become a b ≡ true
running_may paired b h = refl
running_may completed b h = cc
running_may canceled b h = cc
running_may failed b h = cc

-- The row with another status and level.
abbrev pub moved : BreedPairStatus → ℕ → BreedPair → BreedPair
moved status level p = record p { status = status; current_level = level }

-- How a session's row may change: in status and level alone; the level only grows, and only while
-- the session runs; and no session becomes completed below the level 5.
pub record Moves (p q : BreedPair) : Type 0 where
  pub same : q ≡ moved q.status q.current_level p
  pub status : may_become p.status q.status ≡ true
  pub grows : p.current_level ≤ q.current_level
  pub rests : is_paired p.status ≡ false → q.current_level ≡ p.current_level
  pub earned : is_completed p.status ≡ false → is_completed q.status ≡ true → 5 ≤ q.current_level

pub Moves-refl : (p : BreedPair) → Moves p p
Moves-refl p = record {
  same = refl;
  status = may_become_refl p.status;
  grows = omega arith;
  rests = λ h. refl;
  earned = λ h k. cc;
}

pub Moves-trans : {p q r : BreedPair} → Moves p q → Moves q r → Moves p r
Moves-trans {p} {q} {r} h k = record {
  same = k.same ∙ ap (moved r.status r.current_level) h.same;
  status = may_become_trans p.status q.status r.status h.status k.status;
  grows = omega (arith, h.grows, k.grows);
  rests = λ e. k.rests (ended_ends p.status q.status h.status e) ∙ h.rests e;
  earned = λ e l. elim (Bool-cases (is_completed q.status)) [
    | inl done ↦ omega (arith, h.earned e done, k.grows)
    | inr other ↦ k.earned other l
  ];
}

-- A session may be failed at any time.
pub Moves-failed : (p : BreedPair) → Moves p (record p { status = failed })
Moves-failed p = record {
  same = refl;
  status = may_become_failed p.status;
  grows = omega arith;
  rests = λ h. refl;
  earned = λ h k. cc;
}

-- The row comes from one that was running at the level 0.
abbrev pub IsBorn : BreedPair → Type 0
IsBorn q = (p : BreedPair) × (p.status ≡ paired) × (p.current_level ≡ 0) × Moves p q

-- No row goes away and each stays in its place; the rows after them were born in between.
abbrev pub Follows : List BreedPair → List BreedPair → Type 0
Follows [] qs = All IsBorn qs
Follows (p ∷ ps) [] = ⊥
Follows (p ∷ ps) (q ∷ qs) = Moves p q × Follows ps qs

pub Follows-refl : (ps : List BreedPair) → Follows ps ps
Follows-refl [] = tt
Follows-refl (p ∷ ps) = (Moves-refl p, Follows-refl ps)

IsBorn-trans : (ps qs : List BreedPair) → All IsBorn ps → Follows ps qs → All IsBorn qs
IsBorn-trans [] qs h k = k
IsBorn-trans (p ∷ ps) [] h k = absurd k
IsBorn-trans (p ∷ ps) (q ∷ qs) ((b, run, zero_level, m), h) (k, ks) =
    ((b, run, zero_level, Moves-trans m k), IsBorn-trans ps qs h ks)

pub Follows-trans : (ps qs rs : List BreedPair) → Follows ps qs → Follows qs rs → Follows ps rs
Follows-trans [] qs rs h k = IsBorn-trans qs rs h k
Follows-trans (p ∷ ps) [] rs h k = absurd h
Follows-trans (p ∷ ps) (q ∷ qs) [] h k = absurd k
Follows-trans (p ∷ ps) (q ∷ qs) (r ∷ rs) (h, hs) (k, ks) =
    (Moves-trans h k, Follows-trans ps qs rs hs ks)

pub Follows-append : (ps : List BreedPair) (q : BreedPair) → IsBorn q → Follows ps (ps ++ q ∷ [])
Follows-append [] q h = (h, tt)
Follows-append (p ∷ ps) q h = (Moves-refl p, Follows-append ps q h)

Moves-if : (b : Bool) (p q : BreedPair) → (b ≡ true → Moves p q) → Moves p (if b then q else p)
Moves-if true p q h = h refl
Moves-if false p q h = Moves-refl p

-- The rows of which a test holds may all move.
pub Follows-change :
    (w : BreedPair → Bool) (f : BreedPair → BreedPair) (ps : List BreedPair)
    → All (λ p. w p ≡ true → Moves p (f p)) ps
    → Follows ps (change w f ps)
Follows-change w f [] h = tt
Follows-change w f (p ∷ ps) h = (Moves-if (w p) p (f p) h.0, Follows-change w f ps h.1)

pub all_failed :
    (w : BreedPair → Bool) (ps : List BreedPair)
    → Follows ps (change w (λ p. record p { status = failed }) ps)
all_failed w [] = tt
all_failed w (p ∷ ps) = (Moves-if (w p) p _ (λ e. Moves-failed p), all_failed w ps)
