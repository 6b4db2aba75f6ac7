-- ===== src/Auth/Guard.antt =====
-- src/guards/admin.guard.ts: what `validate` tells Passport.
use backend.Common.{
  ◌≡◌, ◌↔◌, refl, ap, Option, none, some, true, List, [], ◌∷◌, ◌++◌, String, arith, get_elem?,
  Bool-cases, inl, inr,
}
use backend.Env.{Env}
use backend.Auth.Text.{same_text-path, same_text_refl}
use backend.Auth.Service.{Verdict, admitted, refused, is_key, validate}

is_key-some : (o : Option String) (key : String) → is_key o key ≡ true → o ≡ some key
is_key-some none key h = ground arith
is_key-some (some k) key h = ap some (same_text-path k key h)

some-is_key : (o : Option String) (key : String) → o ≡ some key → is_key o key ≡ true
some-is_key o key h = rw h (same_text_refl key)

-- The first call admits a key exactly if it is the configured one, and the last call refuses
-- every key.
pub validate-first_and_last :
    (env : Env) (key : String)
    → ((get_elem? (validate env key) 0 ≡ some admitted) ↔ (env.admin_key ≡ some key))
      × ((before : List Verdict) × (validate env key ≡ before ++ refused ∷ []))
unfolding validate
validate-first_and_last env key = elim (Bool-cases (is_key env.admin_key key)) [
  | inl e ↦ rw e (((λ h. is_key-some env.admin_key key e), (λ h. refl)), (admitted ∷ [], refl))
  | inr e ↦ rw e (
    ((λ h. ground (arith, h)), (λ h. ground (arith, some-is_key env.admin_key key h, e))),
    ([], refl),
  )
]
