-- ===== src/GiftCard/Supply.antt =====
-- Gift cards of one amount never exceed its supply.
use backend.Common.{
  String, ℕ, zero, suc, ◌≤◌, ◌≡◌, refl, sym, ap, ◌∙◌, ◌++◌, ◌==◌, ==→eq, Bool-cases, inl, inr, true,
  false, arith, Option, none, some, List, [], ◌∷◌, tally, tally-append, leb, first,
}
use mathlib.Core.Path.{subst}
use backend.Common.Counting.{tally-change_same}
use backend.Schema.{
  Address, GiftAmount, GiftCard, usd50, usd100, usd200, usd420, usd1000, usd5000, usd10000, Result,
  ok, err,
}
use backend.Db.{required, State, card_table, updated, update, ◌>>=◌, continue, pure}
use backend.Env.{Env}
use backend.Utils.{get_gift_card_supply, get_gift_card_type_id, random_number, scale}
use backend.HashTable.{Reward, look_up_reward_table}
use backend.Common.Int.{pos, ltb_ℤ}
use backend.GiftCard.{
  amount_index, is_amount, issue_within_supply, issue_gift_card_mint, issue_reward, dice,
}

-- No more cards of an amount than its supply.
abbrev pub WithinSupply : State → Type 0
WithinSupply s = (v : GiftAmount) → tally (is_amount v) s.gift_cards.rows ≤ get_gift_card_supply v

updated-tally :
    (v : GiftAmount) (i : ℕ) (f : GiftCard → GiftCard) (o : Option GiftCard) (s : State)
    → ((c : GiftCard) → (f c).value ≡ c.value)
    → tally (is_amount v) (updated card_table i f o s).1.gift_cards.rows
      ≡ tally (is_amount v) s.gift_cards.rows
updated-tally v i f none s h = refl
updated-tally v i f (some c) s h =
    tally-change_same (is_amount v) _ f s.gift_cards.rows (λ c. rw (h c) refl)

-- The amount with an index.
abbrev amount_at : ℕ → GiftAmount
amount_at zero = usd50
amount_at (suc zero) = usd100
amount_at (suc (suc zero)) = usd200
amount_at (suc (suc (suc zero))) = usd420
amount_at (suc (suc (suc (suc zero)))) = usd1000
amount_at (suc (suc (suc (suc (suc zero))))) = usd5000
amount_at _ = usd10000

amount_at-index : (v : GiftAmount) → amount_at (amount_index v) ≡ v
amount_at-index usd50 = refl
amount_at-index usd100 = refl
amount_at-index usd200 = refl
amount_at-index usd420 = refl
amount_at-index usd1000 = refl
amount_at-index usd5000 = refl
amount_at-index usd10000 = refl

same_amount : (v w : GiftAmount) → (amount_index v == amount_index w) ≡ true → v ≡ w
same_amount v w h =
    sym (amount_at-index v)
    ∙ ap amount_at (==→eq (amount_index v) (amount_index w) h)
    ∙ amount_at-index w

continue-state :
    {A B : Type 0} (r : Result A) (k : A → B) (s : State) → (continue r (λ a. pure (k a)) s).1 ≡ s
continue-state (ok a) k s = refl
continue-state (err e) k s = refl

signed-tally :
    (v : GiftAmount) (i : ℕ) (f : GiftCard → GiftCard) (s : State)
    → ((c : GiftCard) → (f c).value ≡ c.value)
    → tally (is_amount v) ((update card_table i f >>= λ c. pure (some c)) s).1.gift_cards.rows
      ≡ tally (is_amount v) s.gift_cards.rows
signed-tally v i f s h =
    let o = first (λ c. c.id == i) s.gift_cards.rows in
    let r = updated card_table i f o s in
    ap (λ t. tally (is_amount v) t.gift_cards.rows) (continue-state r.0 some r.1)
    ∙ updated-tally v i f o s h

-- The signature is written, or missing: the cards of an amount are as many.
recorded-tally :
    (v : GiftAmount) (i : ℕ) (o : Option String) (s : State)
    → tally
        (is_amount v)
        ((required o >>= λ g.
            update card_table i (λ c. record c { signature = g }) >>= λ c. pure (some c))
          s).1.gift_cards.rows
      ≡ tally (is_amount v) s.gift_cards.rows
recorded-tally v i none s = refl
recorded-tally v i (some g) s = signed-tally v i (λ c. record c { signature = g }) s (λ c. refl)

one_left :
    (w v : GiftAmount) (cards : List GiftCard)
    → w ≡ v
    → leb (get_gift_card_supply w) (tally (is_amount w) cards) ≡ false
    → suc (tally (is_amount v) cards) ≤ get_gift_card_supply v
one_left w v cards e n =
    subst (λ v. suc (tally (is_amount v) cards) ≤ get_gift_card_supply v) e (ground arith)

-- One more card of an amount whose supply is not spent.
one_more :
    (value v : GiftAmount) (cards : List GiftCard) (c : GiftCard)
    → c.value ≡ value
    → leb (get_gift_card_supply value) (tally (is_amount value) cards) ≡ false
    → tally (is_amount v) cards ≤ get_gift_card_supply v
    → tally (is_amount v) (cards ++ c ∷ []) ≤ get_gift_card_supply v
one_more value v cards c e n h = elim (Bool-cases (amount_index value == amount_index v)) [
  | inl t ↦
      let left = one_left value v cards (same_amount value v t) n in
      rw (tally-append (is_amount v) cards (c ∷ [])) rw e rw t (omega (arith, left))
  | inr t ↦ rw (tally-append (is_amount v) cards (c ∷ [])) rw e rw t (omega (arith, h))
]

issue_within_supply-WithinSupply :
    (env : Env) (a : Address) (value : GiftAmount) (p : Option ℕ) (t : ℕ) (s : State)
    → WithinSupply s
    → WithinSupply (issue_within_supply env a value p t s).1
unfolding issue_within_supply
issue_within_supply-WithinSupply env a value p t s h v =
    elim (Bool-cases
      (leb (get_gift_card_supply value) (tally (is_amount value) s.gift_cards.rows))) [
        | inl e ↦ rw e (h v)
        | inr e ↦ rw e (
            subst (λ n. n ≤ get_gift_card_supply v) (sym (recorded-tally v _ _ _))
              (one_more value v s.gift_cards.rows _ refl e (h v)))
      ]

mint-WithinSupply :
    (env : Env) (a : Address) (value : GiftAmount) (p : Option ℕ) (s : State)
    → WithinSupply s
    → WithinSupply (issue_gift_card_mint env a value p s).1
unfolding issue_gift_card_mint
mint-WithinSupply env a value p s h v =
    elim (Bool-cases (ltb_ℤ (get_gift_card_type_id value) (pos 0))) [
      | inl e ↦ rw e (h v)
      | inr e ↦ rw e (issue_within_supply-WithinSupply env a value p _ s h v)
    ]

reward-WithinSupply :
    (env : Env) (a : Address) (p : Option ℕ) (o : Option Reward) (s : State)
    → WithinSupply s
    → WithinSupply (issue_reward env a p o s).1
reward-WithinSupply env a p none s h = h
reward-WithinSupply env a p (some r) s h = mint-WithinSupply env a r.price p s h

-- Whatever a draw of a gift card answers, no amount has more cards than its supply after it
-- where none had before.
pub dice-WithinSupply :
    (env : Env) (a : Address) (p : Option ℕ) (s : State)
    → WithinSupply s
    → WithinSupply (dice env a p s).1
unfolding dice random_number
dice-WithinSupply env a p s h v =
    reward-WithinSupply env a p (look_up_reward_table (scale 100 0 (env.random s.drawn)))
      (record s { drawn = suc s.drawn }) h v
