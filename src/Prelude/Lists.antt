-- ===== src/Prelude/Lists.antt =====
-- Slices: the list functions of the program over the native numbers, with their laws.
use Prim.Native.Nat.{ℕ, zero, suc, ◌+◌, ◌-◌}
use mathlib.Core.Path.{◌≡◌, refl, sym, ap, ◌∙◌}
use Prim.Native.String.{String}
use mathlib.Core.Bool.{Bool, true, false, ◌&&◌, ◌||◌}
use mathlib.Core.Option.{Option, none, some}
use mathlib.Core.List.{List, [], ◌∷◌, ◌++◌, map}
use mathlib.Core.Logic.{◌⊎◌, inl, inr}
use native.Mathlib.Omega.{arith}
use heos_control.Prelude.Tests.{Bool-cases}
use heos_control.Prelude.Equality.{Eq, ◌==◌, string_eq}

module _ {ℓ} {A : Type ℓ} where
  abbrev pub length : List A → ℕ
  length [] = 0
  length (_ ∷ xs) = suc (length xs)

  abbrev pub get_elem? : List A → ℕ → Option A
  get_elem? [] i = none
  get_elem? (x ∷ xs) zero = some x
  get_elem? (x ∷ xs) (suc i) = get_elem? xs i

  abbrev pub take : ℕ → List A → List A
  take zero xs = []
  take (suc n) [] = []
  take (suc n) (x ∷ xs) = x ∷ take n xs

  abbrev pub drop : ℕ → List A → List A
  drop zero xs = xs
  drop (suc n) [] = []
  drop (suc n) (x ∷ xs) = drop n xs

  abbrev pub is_empty : List A → Bool
  is_empty [] = true
  is_empty (_ ∷ _) = false

  pub take-nil : (n : ℕ) → take n [] ≡ []
  take-nil zero = refl
  take-nil (suc n) = refl

  pub take-add : (n m : ℕ) (xs : List A) → take n xs ++ take m (drop n xs) ≡ take (n + m) xs
  take-add zero m xs = ground arith
  take-add (suc n) m [] = take-nil m ∙ sym (take-nil (suc n + m))
  take-add (suc n) m (x ∷ xs) =
      let e : suc n + m ≡ suc (n + m) = omega arith in
      rw e (ap (λ (l : List A). x ∷ l) (take-add n m xs))

  -- A loop that returns true at the first element that passes, or that fails, its test.
  unfoldable pub any : (A → Bool) → List A → Bool
  any p [] = false
  any p (x ∷ xs) = p x || any p xs

  unfoldable pub all : (A → Bool) → List A → Bool
  all p [] = true
  all p (x ∷ xs) = p x && all p xs

  pub length-map : (f : A → A) (xs : List A) → length (map f xs) ≡ length xs
  length-map f [] = refl
  length-map f (x ∷ xs) = omega (arith, length-map f xs)

  pub length-append : (xs ys : List A) → length (xs ++ ys) ≡ length xs + length ys
  length-append [] ys = omega arith
  length-append (x ∷ xs) ys = omega (arith, length-append xs ys)

  pub length-drop : (n : ℕ) (xs : List A) → length (drop n xs) ≡ length xs - n
  length-drop zero xs = omega arith
  length-drop (suc n) [] = omega arith
  length-drop (suc n) (x ∷ xs) = omega (arith, length-drop n xs)

module _ {ℓ} {A : Type ℓ} where
  -- Every element, and some element, in the form that computes to tuples and sums.
  abbrev pub All : (A → Type 0) → List A → Type 0
  All P [] = Unit
  All P (x ∷ xs) = P x × All P xs

  abbrev pub Any : (A → Type 0) → List A → Type 0
  Any P [] = ⊥
  Any P (x ∷ xs) = P x ⊎ Any P xs

module _ {ℓ} {A : Type ℓ} ⦃e : Eq A⦄ where
  -- A Go map used as a set: membership of a key.
  unfoldable pub contains : A → List A → Bool
  contains a [] = false
  contains a (x ∷ xs) = x == a || contains a xs

-- The first rule whose condition holds, in the order of the table.
pub record Rule {ℓ} (A : Type ℓ) : Type ℓ where
  pub applies : Bool
  pub outcome : A

abbrev pub first_rule {ℓ} : {A : Type ℓ} → List (Rule A) → A → A
first_rule [] d = d
first_rule (r ∷ rs) d = elim r.applies [ true ↦ r.outcome | false ↦ first_rule rs d ]

module _ {ℓ} {A : Type ℓ} where
  -- The first row that passes, as a query with one result returns it.
  unfoldable pub find : (A → Bool) → List A → Option A
  find p [] = none
  find p (x ∷ xs) = let rest = find p xs in elim (p x) [ true ↦ some x | false ↦ rest ]

  -- The rows that pass.
  unfoldable pub keep : (A → Bool) → List A → List A
  keep p [] = []
  keep p (x ∷ xs) = let rest = keep p xs in elim (p x) [ true ↦ x ∷ rest | false ↦ rest ]

module _ {ℓ} {A : Type ℓ} (P Q : A → Type 0) where
  pub Any-map :
      (f : A → A) → ((x : A) → P x → Q (f x)) → (xs : List A) → Any P xs → Any Q (map f xs)
  Any-map f h [] m = m
  Any-map f h (x ∷ xs) (inl p) = inl (h x p)
  Any-map f h (x ∷ xs) (inr m) = inr (Any-map f h xs m)

  pub All-imp : ((x : A) → P x → Q x) → (xs : List A) → All P xs → All Q xs
  All-imp h [] m = tt
  All-imp h (x ∷ xs) m = (h x m.0, All-imp h xs m.1)

  -- A filtered list keeps what holds of every element, with the test that each one passed.
  pub All-keep :
      (p : A → Bool)
      → ((x : A) → p x ≡ true → P x → Q x)
      → (xs : List A) → All P xs
      → All Q (keep p xs)
  unfolding keep
  All-keep p h [] m = tt
  All-keep p h (x ∷ xs) m = elim (Bool-cases (p x)) [
    | inl e ↦ rw (e, All) (h x e m.0, All-keep p h xs m.1)
    | inr e ↦ rw (e, All) (All-keep p h xs m.1)
  ]

module _ {ℓ} {A : Type ℓ} (P : A → Type 0) where
  pub Any-append_left : (xs ys : List A) → Any P xs → Any P (xs ++ ys)
  Any-append_left [] ys m = absurd m
  Any-append_left (x ∷ xs) ys (inl p) = inl p
  Any-append_left (x ∷ xs) ys (inr m) = inr (Any-append_left xs ys m)

  pub Any-append_right : (xs ys : List A) → Any P ys → Any P (xs ++ ys)
  Any-append_right [] ys m = m
  Any-append_right (x ∷ xs) ys m = inr (Any-append_right xs ys m)

  pub All-append : (xs ys : List A) → All P xs → All P ys → All P (xs ++ ys)
  All-append [] ys p q = q
  All-append (x ∷ xs) ys p q = (p.0, All-append xs ys p.1 q)

module _ {A : Type 0} (p : A → Bool) where
  pub find-append :
      (xs : List A) (y : A) → find p xs ≡ none → p y ≡ true → find p (xs ++ y ∷ []) ≡ some y
  unfolding find
  find-append [] y h e = rw e refl
  find-append (x ∷ xs) y h e =
      let r = find-append xs y (ground (arith, h)) e in ground (arith, h, r)

  -- A change that the test does not see leaves nothing to find.
  pub find-map-none :
      (f : A → A)
      → ((x : A) → p (f x) ≡ p x)
      → (xs : List A) → find p xs ≡ none
      → find p (map f xs) ≡ none
  unfolding find
  find-map-none f same [] h = refl
  find-map-none f same (x ∷ xs) h =
      let r = find-map-none f same xs (ground (arith, h)) in rw (same x) (ground (arith, h, r))

  -- A change that the test does not see is made to what is found.
  pub find-map-some :
      (f : A → A)
      → ((x : A) → p (f x) ≡ p x)
      → (xs : List A) (a : A) → find p xs ≡ some a
      → find p (map f xs) ≡ some (f a)
  unfolding find
  find-map-some f same [] a h = cc
  find-map-some f same (x ∷ xs) a h = elim (Bool-cases (p x)) [
    | inl e ↦ rw (same x) (ground (arith, e, h))
    | inr e ↦
        let r = find-map-some f same xs a (ground (arith, e, h)) in
        rw (same x) (ground (arith, e, r))
  ]

  pub find-append_left : (xs ys : List A) (a : A) → find p xs ≡ some a → find p (xs ++ ys) ≡ some a
  unfolding find
  find-append_left [] ys a h = cc
  find-append_left (x ∷ xs) ys a h = elim (Bool-cases (p x)) [
    | inl e ↦ ground (arith, e, h)
    | inr e ↦ let r = find-append_left xs ys a (ground (arith, e, h)) in ground (arith, e, r)
  ]

  pub find-passes : (xs : List A) (a : A) → find p xs ≡ some a → p a ≡ true
  unfolding find
  find-passes [] a h = cc
  find-passes (x ∷ xs) a h = elim (Bool-cases (p x)) [
    | inl e ↦ let same : x ≡ a = ground (arith, e, h) in ap p (sym same) ∙ e
    | inr e ↦ find-passes xs a (ground (arith, e, h))
  ]

  pub any-find : (xs : List A) → any p xs ≡ false → find p xs ≡ none
  unfolding any find
  any-find [] h = refl
  any-find (x ∷ xs) h = let r = any-find xs (ground (arith, h)) in ground (arith, h, r)

-- No text occurs twice.
abbrev pub Distinct : List String → Type 0
Distinct [] = Unit
Distinct (x ∷ xs) = (contains x xs ≡ false) × Distinct xs
