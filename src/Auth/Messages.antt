-- ===== src/Auth/Messages.antt =====
-- `getLoginMessage` and `isValidMessage` of src/user/user.service.ts.
use Prim.Native.String.{count}
use backend.Common.{
  ℕ, ◌≡◌, if◌then◌else◌, refl, sym, ap, ◌∙◌, Option, none, some, Bool, true, false, ◌&&◌, String,
  arith,
}
use backend.Common.Int.{ℤ, pos, ltb_ℤ, ◌+ℤ◌, ◌-ℤ◌}
use backend.Schema.{ok}
use backend.Db.{State}
use backend.Db.Inversion.{pure-ok}
use mathlib.Core.Path.{subst}
use backend.Env.{Env}
use backend.Auth.Text.{same_text, last_chars, last_chars-append, same_text_refl, same_text-path}
use backend.Auth.Service.{
  before_timestamp, get_login_message, timestamp_buffer, valid_at, is_valid_message,
}

-- A time within the buffer around now, the ends excluded.
abbrev pub is_recent : Env → ℤ → Bool
is_recent env t =
    ltb_ℤ (pos env.now -ℤ timestamp_buffer) t && ltb_ℤ t (pos env.now +ℤ timestamp_buffer)

pub last_chars-get_login_message :
    (k : ℕ) (timestamp : String)
    → count timestamp ≡ 13
    → last_chars 13 (get_login_message k timestamp) ≡ timestamp
last_chars-get_login_message k timestamp h = last_chars-append 13 (before_timestamp k) timestamp h

tests : (a b : Bool) → (if a then if b then true else false else false) ≡ (a && b)
tests true true = refl
tests true false = refl
tests false b = refl

valid_at-some :
    (env : Env) (k : ℕ) (message : String) (t : ℤ) (s : State)
    → same_text (get_login_message k (last_chars 13 message)) message ≡ true
    → valid_at env k message (some t) s ≡ (ok (is_recent env t), s)
unfolding valid_at
valid_at-some env k message t s h = rw h (ap (λ b. (ok b, s)) (tests _ _))

-- For the login message of a game key with a timestamp of 13 characters that is read as a time,
-- the check answers whether that time is less than five minutes from now.
pub is_valid_message-get_login_message :
    (env : Env) (k : ℕ) (timestamp : String) (t : ℤ) (s : State)
    → count timestamp ≡ 13
    → env.big_number timestamp ≡ some t
    → is_valid_message env k (get_login_message k timestamp) s ≡ (ok (is_recent env t), s)
unfolding is_valid_message
is_valid_message-get_login_message env k timestamp t s h e =
    let message = get_login_message k timestamp in
    let stamp : last_chars 13 message ≡ timestamp = last_chars-get_login_message k timestamp h in
    ap (λ o. valid_at env k message o s) (ap env.big_number stamp ∙ e)
    ∙ valid_at-some env k message t s (
        subst (λ u. same_text (get_login_message k u) message ≡ true) (sym stamp)
          (same_text_refl message))

-- What a message that is accepted is.
abbrev pub IsLoginMessage : Env → ℕ → String → Type 0
IsLoginMessage env k message =
    (t : ℤ) × (env.big_number (last_chars 13 message) ≡ some t)
    × (is_recent env t ≡ true)
    × (message ≡ get_login_message k (last_chars 13 message))

all_tests :
    (a b c : Bool)
    → (if a then if b then c else false else false) ≡ true
    → ((a && b) ≡ true) × (c ≡ true)
all_tests true true c h = (refl, h)
all_tests true false c h = ground arith
all_tests false b c h = ground arith

accepted_at :
    (env : Env) (k : ℕ) (message : String) (o : Option ℤ) (s s' : State)
    → env.big_number (last_chars 13 message) ≡ o
    → valid_at env k message o s ≡ (ok true, s')
    → IsLoginMessage env k message × (s' ≡ s)
unfolding valid_at
accepted_at env k message none s s' e h = ground arith
accepted_at env k message (some t) s s' e h =
    let (valid, state) = pure-ok _ true s s' h in
    let same = all_tests _ _ _ (sym valid) in
    ((t, e, same.0, sym (same_text-path _ _ same.1)), state)

-- A message that is accepted is the login message, with a time less than five minutes from now.
pub is_valid_message-accepts :
    (env : Env) (k : ℕ) (message : String) (s s' : State)
    → is_valid_message env k message s ≡ (ok true, s')
    → IsLoginMessage env k message × (s' ≡ s)
unfolding is_valid_message
is_valid_message-accepts env k message s s' h =
    accepted_at env k message (env.big_number (last_chars 13 message)) s s' refl h
