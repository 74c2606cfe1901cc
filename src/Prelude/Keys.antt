-- ===== src/Prelude/Keys.antt =====
-- Lists of keys in which no key occurs twice.
use Prim.Native.Nat.{ℕ, zero, suc}
use Prim.Native.String.{String}
use mathlib.Core.Path.{◌≡◌, refl, sym}
use mathlib.Core.Bool.{Bool, true, false}
use mathlib.Core.List.{List, [], ◌∷◌, ◌++◌, map}
use mathlib.Core.Logic.{inl, inr}
use native.Mathlib.Omega.{arith}
use heos_control.Prelude.Tests.{Bool-cases}
use heos_control.Prelude.Equality.{◌==◌, string_eq, ==→≡, ≡→==}
use heos_control.Prelude.Lists.{contains, any, keep, take, Any, Distinct}

module _ {A : Type 0} (k : A → String) where
  pub contains-keep :
      (a : String) (p : A → Bool) (xs : List A)
      → contains a (map k xs) ≡ false
      → contains a (map k (keep p xs)) ≡ false
  unfolding contains keep
  contains-keep a p [] h = refl
  contains-keep a p (x ∷ xs) h = elim (Bool-cases (p x)) [
    | inl e ↦ let r = contains-keep a p xs (ground arith) in rw (e, contains) (ground arith)
    | inr e ↦ let r = contains-keep a p xs (ground arith) in rw (e, contains) (ground arith)
  ]

  pub Distinct-keep :
      (p : A → Bool) (xs : List A) → Distinct (map k xs) → Distinct (map k (keep p xs))
  unfolding keep
  Distinct-keep p [] h = tt
  Distinct-keep p (x ∷ xs) h = elim (Bool-cases (p x)) [
    | inl e ↦ rw (e, Distinct) (contains-keep (k x) p xs h.0, Distinct-keep p xs h.1)
    | inr e ↦ rw (e, Distinct) (Distinct-keep p xs h.1)
  ]

  contains-append :
      (a : String) (xs : List A) (y : A)
      → contains a (map k xs) ≡ false
      → (k y == a) ≡ false
      → contains a (map k (xs ++ y ∷ [])) ≡ false
  unfolding contains
  contains-append a [] y h n = ground arith
  contains-append a (x ∷ xs) y h n = let r = contains-append a xs y (ground arith) n in ground arith

  -- A key that does not occur yet is added.
  pub Distinct-append :
      (xs : List A) (y : A)
      → Distinct (map k xs)
      → any (λ x. k x == k y) xs ≡ false
      → Distinct (map k (xs ++ y ∷ []))
  unfolding any
  Distinct-append [] y h n = (unfold contains in refl, tt)
  Distinct-append (x ∷ xs) y h n =
      let differs : (k y == k x) ≡ false = elim (Bool-cases (k y == k x)) [
        | inl e ↦ absurd (ground (arith, ≡→== (k x) (k y) (sym (==→≡ (k y) (k x) e))))
        | inr e ↦ e
      ] in
      (contains-append (k x) xs y h.0 differs, Distinct-append xs y h.1 (ground arith))

  absent : (a : A) (xs : List A) → contains (k a) (map k xs) ≡ false → Any (λ x. x ≡ a) xs → ⊥
  unfolding contains
  absent a [] h m = m
  absent a (x ∷ xs) h (inl e) = ground (arith, ≡→== (k x) (k a) (cc e))
  absent a (x ∷ xs) h (inr m) = absent a xs (ground arith) m

  -- Of distinct keys, a member whose key occurs among those that pass a test passes it too.
  pub keep-passes :
      (p : A → Bool) (a : A) (xs : List A)
      → Distinct (map k xs)
      → Any (λ x. x ≡ a) xs
      → contains (k a) (map k (keep p xs)) ≡ true
      → p a ≡ true
  unfolding contains keep
  keep-passes p a [] d m h = absurd m
  keep-passes p a (x ∷ xs) d (inl e) h = elim (Bool-cases (p x)) [
    | inl q ↦ cc (q, e)
    | inr q ↦ let out = contains-keep (k x) p xs d.0 in absurd (ground (arith, q, e, out, h))
  ]
  keep-passes p a (x ∷ xs) d (inr m) h = elim (Bool-cases (k x == k a)) [
    | inl e ↦ let same : k x ≡ k a = ==→≡ (k x) (k a) e in absurd (absent a xs (rw (← same) d.0) m)
    | inr e ↦
        keep-passes p a xs d.1 m (elim (Bool-cases (p x)) [
          | inl q ↦ ground (arith, q, e, h)
          | inr q ↦ ground (arith, q, h)
        ])
  ]

pub contains-take :
    (a : String) (n : ℕ) (xs : List String) → contains a (take n xs) ≡ true → contains a xs ≡ true
unfolding contains
contains-take a zero xs h = cc
contains-take a (suc n) [] h = cc
contains-take a (suc n) (x ∷ xs) h = elim (Bool-cases (x == a)) [
  | inl e ↦ rw e refl
  | inr e ↦ let r = contains-take a n xs (ground (arith, e, h)) in ground (arith, e, r)
]
