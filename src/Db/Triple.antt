-- ===== src/Db/Triple.antt =====
-- Rules for actions: what an action ensures, and which actions leave pairs and slots alone.
use backend.Common.{◌≡◌, refl, ◌∙◌, Bool, true, false, if◌then◌else◌, List}
use backend.Schema.{Error, Result, ok, err, BreedPair, BreedSlot}
use backend.Db.Machine.{State, Rows, Exec, pure, raise, throw_if, continue, ◌>>=◌}

-- A claim on the state.
abbrev pub Claim : Type 1
Claim = State → Type 0

abbrev pub Outcome : {A : Type 0} → Claim → (A → Claim) → Result A × State → Type 0
Outcome E Q (ok a, s) = Q a s
Outcome E Q (err e, s) = E s

-- From a state of `P` the action ends with an answer in `Q`, or with an error in `E`.
pub record Ensures {A : Type 0} (E P : Claim) (m : Exec A) (Q : A → Claim) : Type 0 where
  pub at : (s : State) → P s → Outcome E Q (m s)

module _ {A B : Type 0} {E : State → Type 0} where
  continue-Outcome :
      (Q : A → State → Type 0) (Q' : B → State → Type 0) (r : Result A × State) (k : A → Exec B)
      → Outcome E Q r
      → ((a : A) → Ensures E (Q a) (k a) Q')
      → Outcome E Q' (continue r.0 k r.1)
  continue-Outcome Q Q' (ok a, s) k h hk = (hk a).at s h
  continue-Outcome Q Q' (err e, s) k h hk = h

  pub Ensures-bind :
      {P : State → Type 0} (Q : A → State → Type 0) (Q' : B → State → Type 0) (m : Exec A)
      (k : A → Exec B)
      → Ensures E P m Q
      → ((a : A) → Ensures E (Q a) (k a) Q')
      → Ensures E P (m >>= k) Q'
  Ensures-bind Q Q' m k hm hk = record { at = λ s p. continue-Outcome Q Q' (m s) k (hm.at s p) hk }

-- An action that leaves the pairs and the slots as they are.
pub record Frame {A : Type 0} (m : Exec A) : Type 0 where
  pub pairs : (s : State) → (m s).1.pairs ≡ s.pairs
  pub slots : (s : State) → (m s).1.slots ≡ s.slots

module _ {A : Type 0} where
  pub Frame-pure : (a : A) → Frame (pure a)
  Frame-pure a = record { pairs = λ s. refl; slots = λ s. refl }

  pub Frame-raise : (e : Error) → Frame (raise {A = A} e)
  Frame-raise e = record { pairs = λ s. refl; slots = λ s. refl }

  pub Frame-if : (b : Bool) (m n : Exec A) → Frame m → Frame n → Frame (if b then m else n)
  Frame-if true m n hm hn = hm
  Frame-if false m n hm hn = hn

pub Frame-throw_if : (b : Bool) (e : Error) → Frame (throw_if b e)
Frame-throw_if true e = record { pairs = λ s. refl; slots = λ s. refl }
Frame-throw_if false e = record { pairs = λ s. refl; slots = λ s. refl }

module _ {A B : Type 0} where
  continue-pairs :
      (r : Result A) (k : A → Exec B) (s : State)
      → ((a : A) → Frame (k a))
      → (continue r k s).1.pairs ≡ s.pairs
  continue-pairs (ok a) k s h = (h a).pairs s
  continue-pairs (err e) k s h = refl

  continue-slots :
      (r : Result A) (k : A → Exec B) (s : State)
      → ((a : A) → Frame (k a))
      → (continue r k s).1.slots ≡ s.slots
  continue-slots (ok a) k s h = (h a).slots s
  continue-slots (err e) k s h = refl

  pub Frame-bind :
      (m : Exec A) (k : A → Exec B) → Frame m → ((a : A) → Frame (k a)) → Frame (m >>= k)
  Frame-bind m k hm hk = record {
    pairs = λ s. continue-pairs (m s).0 k (m s).1 hk ∙ hm.pairs s;
    slots = λ s. continue-slots (m s).0 k (m s).1 hk ∙ hm.slots s;
  }

-- A claim on the pairs and the slots.
abbrev pub On : (List BreedPair → Rows BreedSlot → Type 0) → State → Type 0
On P s = P s.pairs.rows s.slots

module _ {A : Type 0} (P : List BreedPair → Rows BreedSlot → Type 0) (m : Exec A) where
  frame-Outcome :
      (E : State → Type 0) (s : State) (r : Result A × State)
      → r.1.pairs ≡ s.pairs
      → r.1.slots ≡ s.slots
      → On P s
      → ((s' : State) → On P s' → E s')
      → Outcome E (λ _. On P) r
  frame-Outcome E s (ok a, s') ep es p h = rw (ep, es) p
  frame-Outcome E s (err e, s') ep es p h = h s' (rw (ep, es) p)

  pub Ensures-Frame :
      (E : State → Type 0) → Frame m → ((s : State) → On P s → E s) → Ensures E (On P) m (λ _. On P)
  Ensures-Frame E hm h = record {
    at = λ s p. frame-Outcome E s (m s) (hm.pairs s) (hm.slots s) p h;
  }

pub ruleset frame_rules = (Frame-pure, Frame-raise, Frame-if, Frame-throw_if, Frame-bind)
