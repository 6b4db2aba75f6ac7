-- ===== src/Stats/Breeders.antt =====
-- Who has bred how much: the ranks of src/stats/stats.service.ts by the minted Gen1 buds.
use backend.Common.{
  ℕ, suc, ◌≡◌, refl, not, List, [], ◌∷◌, map, arith, ltb, ◌==◌, if◌then◌else◌, includes, keep,
  tally, distinct, Bool-cases, inl, inr,
}
use backend.Schema.{Address, Gen1Bud, ok}
use backend.Db.{State}
use backend.Stats.Queries.{Breeder, minted_by, rank_table, get_breeder}

-- The addresses that have minted.
abbrev pub minters_of : List Gen1Bud → List Address
minters_of buds = distinct (map (λ b. b.minter_address) buds)

-- A breeder's line, by the breeder's own mints and the minters that have more.
abbrev pub line_of : List Gen1Bud → Address → Breeder
line_of buds a = record {
  minter_address = a;
  count = minted_by a buds;
  rank = suc (tally (λ c. ltb (minted_by a buds) (minted_by c buds)) (minters_of buds));
}

keep-others :
    (a x : ℕ) (ys : List ℕ)
    → keep (λ y. y == a) (keep (λ y. not (y == x)) ys)
      ≡ (if x == a then [] else keep (λ y. y == a) ys)
keep-others a x [] = ground arith
keep-others a x (y ∷ ys) = ground (arith, keep-others a x ys)

keep-distinct :
    (a : ℕ) (xs : List ℕ)
    → keep (λ y. y == a) (distinct xs) ≡ (if includes a xs then a ∷ [] else [])
keep-distinct a [] = refl
keep-distinct a (x ∷ xs) = ground (arith, keep-distinct a xs, keep-others a x (distinct xs))

keep-map :
    (buds : List Gen1Bud) (a : Address) (xs : List Address)
    → keep (λ b. b.minter_address == a) (map (line_of buds) xs)
      ≡ map (line_of buds) (keep (λ x. x == a) xs)
keep-map buds a [] = refl
keep-map buds a (x ∷ xs) = elim (Bool-cases (x == a)) [
  | inl e ↦ rw e rw (keep-map buds a xs) refl
  | inr e ↦ rw e (keep-map buds a xs)
]

includes-minted_by :
    (a : Address) (buds : List Gen1Bud)
    → includes a (map (λ b. b.minter_address) buds) ≡ ltb 0 (minted_by a buds)
includes-minted_by a [] = refl
includes-minted_by a (b ∷ buds) = ground (arith, includes-minted_by a buds)

-- The breeder query of an address answers one line if the address has minted buds, with how many
-- and one more than the number of minters that have more, and no line otherwise.
pub get_breeder-line_of :
    (a : Address) (s : State)
    → get_breeder a s ≡ (
      ok (if ltb 0 (minted_by a s.gen1_buds.rows) then line_of s.gen1_buds.rows a ∷ [] else []),
      s,
    )
unfolding get_breeder rank_table
get_breeder-line_of a s =
    let buds = s.gen1_buds.rows in
    rw (keep-map buds a (minters_of buds)) rw (keep-distinct a (map (λ b. b.minter_address) buds))
      rw (includes-minted_by a buds)
      elim (Bool-cases (ltb 0 (minted_by a buds))) [ inl e ↦ rw e refl | inr e ↦ rw e refl ]
