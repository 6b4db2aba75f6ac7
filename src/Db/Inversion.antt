-- ===== src/Db/Inversion.antt =====
-- What an action's success says of its parts.
use backend.Common.{◌≡◌, refl, sym, ap, Bool, true, false, arith}
use backend.Schema.{Error, Result, ok, err}
use backend.Db.Machine.{State, Exec, continue, ◌>>=◌, ◌>>◌, throw_if, pure}

module _ {A B : Type 0} where
  continue-ok :
      (r : Result A × State) (k : A → Exec B) (s' : State) (b : B)
      → continue r.0 k r.1 ≡ (ok b, s')
      → (a : A) × (t : State) × (r ≡ (ok a, t)) × (k a t ≡ (ok b, s'))
  continue-ok (ok a, t) k s' b h = (a, t, refl, h)
  continue-ok (err e, t) k s' b h = ground arith

  -- Where a sequence succeeds, its first action has succeeded, and so has the second from there.
  pub bind-ok :
      (m : Exec A) (k : A → Exec B) (s s' : State) (b : B)
      → (m >>= k) s ≡ (ok b, s')
      → (a : A) × (t : State) × (m s ≡ (ok a, t)) × (k a t ≡ (ok b, s'))
  bind-ok m k s s' b h = continue-ok (m s) k s' b h

pub throw_if-ok :
    (b : Bool) (e : Error) (s s' : State) (u : Unit {0})
    → throw_if b e s ≡ (ok u, s')
    → (b ≡ false) × (s ≡ s')
throw_if-ok true e s s' u h = ground arith
throw_if-ok false e s s' u h = (refl, ap (λ r. r.1) h)

-- An answer past a test: the test has failed, and the rest has run from the same state.
pub refuse-ok :
    {A : Type 0} (b : Bool) (e : Error) (k : Exec A) (s : State) (r : A × State)
    → (throw_if b e >> k) s ≡ (ok r.0, r.1)
    → (b ≡ false) × (k s ≡ (ok r.0, r.1))
refuse-ok true e k s r h = ground arith
refuse-ok false e k s r h = (refl, h)

abbrev answer_or : {A : Type 0} → A → Result A → A
answer_or d (ok a) = a
answer_or d (err e) = d

pub pure-ok : {A : Type 0} (a b : A) (s s' : State) → pure a s ≡ (ok b, s') → (b ≡ a) × (s' ≡ s)
pure-ok a b s s' h = (sym (ap (λ r. answer_or a r.0) h), sym (ap (λ r. r.1) h))

-- Where an action runs before a fixed answer, that is the answer.
pub keep-ok :
    {A B : Type 0} (m : Exec A) (b b' : B) (s s' : State)
    → (m >>= λ _. pure b) s ≡ (ok b', s')
    → b' ≡ b
keep-ok m b b' s s' h =
    let (a, t, e, h') = bind-ok m (λ _. pure b) s s' b' h in (pure-ok b b' t s' h').0

-- Where the first action answers, a sequence goes on from its answer and its state.
pub bind-runs :
    {A B : Type 0} (m : Exec A) (k : A → Exec B) (s t : State) (a : A)
    → m s ≡ (ok a, t)
    → (m >>= k) s ≡ k a t
bind-runs m k s t a h = ap (λ r. continue r.0 k r.1) h
