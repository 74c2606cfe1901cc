-- ===== src/Journal/Stale.antt =====
-- Counting the stale operations that a recovery batch leaves.
use heos_control.Prelude.{
  ℕ, zero, suc, ◌≡◌, ◌≤◌, ◌<◌, Bool, true, false, List, [], ◌∷◌, String, ==_refl, arith, refl,
  string_eq, map, length, contains, Time, Bool-cases, inl, inr, keep, take, All, not, ltb, ap,
}
use heos_control.Journal.Types.{Operation, Db}
use heos_control.Journal.Queries.{set_where}
use heos_control.Journal.Store.{Codec}
use heos_control.Journal.Recovery.{stale, interrupted}

abbrev pub stale_operations : String → Db → List Operation
stale_operations epoch db = keep (stale epoch) db.operations

abbrev pub outside : List String → Operation → Bool
outside ids o = not (contains o.id ids)

module _ (c : Codec) (epoch : String) (now : Time) (ids : List String) where
  abbrev pub settle : Operation → Operation
  settle = set_where (λ (x : Operation). contains x.id ids) (interrupted c now)

  -- Of the stale operations, exactly those outside of the batch are left.
  pub stale-settle :
      (ops : List Operation)
      → keep (stale epoch) (map settle ops) ≡ keep (outside ids) (keep (stale epoch) ops)
  unfolding keep interrupted
  stale-settle [] = refl
  stale-settle (o ∷ ops) =
      let r = stale-settle ops in
      elim (Bool-cases (contains o.id ids)) [
        | inl e ↦ elim (Bool-cases (stale epoch o)) [
          | inl p ↦ ground (arith, e, p, r)
          | inr p ↦ ground (arith, e, p, r)
        ]
        | inr e ↦ elim (Bool-cases (stale epoch o)) [
          | inl p ↦ ground (arith, e, p, r)
          | inr p ↦ ground (arith, e, p, r)
        ]
      ]

pub take_short : (n : ℕ) (xs : List String) → length (take n xs) < n → take n xs ≡ xs
take_short zero xs h = absurd (omega arith)
take_short (suc n) [] h = refl
take_short (suc n) (x ∷ xs) h = ap (λ r. x ∷ r) (take_short n xs (omega arith))

pub ltb_lt : (a b : ℕ) → ltb a b ≡ true → a < b
ltb_lt a b h = ground arith

pub ltb_ge : (a b : ℕ) → ltb a b ≡ false → b ≤ a
ltb_ge a b h = ground arith

length-keep : (p : Operation → Bool) (xs : List Operation) → length (keep p xs) ≤ length xs
unfolding keep
length-keep p [] = omega arith
length-keep p (x ∷ xs) = let r = length-keep p xs in ground (arith, r)

contains_more :
    (a b : String) (ids : List String) → contains a ids ≡ true → contains a (b ∷ ids) ≡ true
unfolding contains
contains_more a b ids h = ground arith

pub keep-outside :
    (ids : List String) (xs : List Operation)
    → All (λ (o : Operation). contains o.id ids ≡ true) xs
    → keep (outside ids) xs ≡ []
unfolding keep
keep-outside ids [] h = refl
keep-outside ids (x ∷ xs) h = let r = keep-outside ids xs h.1 in let e = h.0 in ground (arith, e, r)

contains-All :
    (b : String) (ids : List String) (xs : List Operation)
    → All (λ (o : Operation). contains o.id ids ≡ true) xs
    → All (λ (o : Operation). contains o.id (b ∷ ids) ≡ true) xs
contains-All b ids [] h = tt
contains-All b ids (x ∷ xs) h = (contains_more x.id b ids h.0, contains-All b ids xs h.1)

pub contains-own_ids :
    (xs : List Operation)
    → All (λ (o : Operation). contains o.id (map (λ (x : Operation). x.id) xs) ≡ true) xs
contains-own_ids [] = tt
contains-own_ids (x ∷ xs) = (
  unfold contains in ground (arith, ==_refl x.id),
  contains-All x.id (map (λ (o : Operation). o.id) xs) xs (contains-own_ids xs),
)

-- A batch that is not empty leaves fewer stale operations.
pub fewer :
    (n : ℕ) (xs : List Operation)
    → 0 < length (take (suc n) (map (λ (x : Operation). x.id) xs))
    → length (keep (outside (take (suc n) (map (λ (x : Operation). x.id) xs))) xs) < length xs
unfolding keep
fewer n [] h = absurd (omega arith)
fewer n (x ∷ xs) h =
    let ids = x.id ∷ take n (map (λ (o : Operation). o.id) xs) in
    let hit : contains x.id ids ≡ true = unfold contains in ground (arith, ==_refl x.id) in
    let r = length-keep (outside ids) xs in
    let e : keep (outside ids) (x ∷ xs) ≡ keep (outside ids) xs = ground (arith, hit) in
    rw e (omega (arith, r))
