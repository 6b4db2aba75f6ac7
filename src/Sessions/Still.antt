-- ===== src/Sessions/Still.antt =====
-- The actions that leave the sessions' rows as they are, whatever they do to the slots.
use backend.Common.{ℕ, ◌≡◌, refl, ◌∙◌, Bool, true, false, List, arith, if◌then◌else◌}
use backend.Schema.{Result, ok, err, BreedSlot}
use backend.Db.{State, Exec, continue, ◌>>=◌, slot_table, update, create_many}
use backend.Db.Triple.{Frame}

-- An action that leaves the sessions as they are.
pub record Still {A : Type 0} (m : Exec A) : Type 0 where
  pub pairs : (s : State) → (m s).1.pairs ≡ s.pairs

module _ {A : Type 0} where
  pub Still-Frame : (m : Exec A) → Frame m → Still m
  Still-Frame m h = record { pairs = h.pairs }

  pub Still-if : (b : Bool) (m n : Exec A) → Still m → Still n → Still (if b then m else n)
  Still-if true m n hm hn = hm
  Still-if false m n hm hn = hn

module _ {A B : Type 0} where
  continue-Still :
      (r : Result A) (k : A → Exec B) (s : State)
      → ((a : A) → Still (k a))
      → (continue r k s).1.pairs ≡ s.pairs
  continue-Still (ok a) k s h = (h a).pairs s
  continue-Still (err e) k s h = refl

  pub Still-bind :
      (m : Exec A) (k : A → Exec B) → Still m → ((a : A) → Still (k a)) → Still (m >>= k)
  Still-bind m k hm hk = record { pairs = λ s. continue-Still (m s).0 k (m s).1 hk ∙ hm.pairs s }

pub slot_update-Still : (i : ℕ) (f : BreedSlot → BreedSlot) → Still (update slot_table i f)
slot_update-Still i f = record { pairs = λ s. ground arith }

pub slots_created-Still : (fs : List (ℕ → BreedSlot)) → Still (create_many slot_table fs)
slots_created-Still fs = record { pairs = λ s. refl }
