-- ===== src/Heos/Pages/Slices.antt =====
-- internal/heos/catalog.go and observations.go: the pages of a device that reports its queue as it is.
use heos_control.Prelude.{
  ℕ, zero, suc, ◌+◌, ◌-◌, ◌≤◌, ◌<◌, ◌≡◌, refl, Bool, false, Option, none, some, List, [], ◌∷◌,
  String, arith, Bool-cases, inl, inr, ◌==◌, string_eq, if◌then◌else◌, ltb, leb, length, take, drop,
  any, length-drop, pos,
}
use heos_control.Heos.Numbers.{atoi}
use heos_control.Heos.Snapshot.{Token, Media, QueuePage}
use heos_control.Heos.Pages.{
  PageResponse, wrong_returned, bounds_of, counted, count_bounds, page_bounds, queue_page,
}

abbrev pub no_id : Media → Bool
no_id m = m.queue_id == ""

-- A device that answers for a queue that is not empty, with the right numbers and slices.
pub record IsHonest (respond : ℕ → PageResponse) (queue : List Media) (token : Token) : Type 0 where
  pub items : (n : ℕ) → (respond n).items ≡ take 100 (drop n queue)
  pub returned : (n : ℕ) → wrong_returned (respond n).returned (length (respond n).items) ≡ false
  pub text : String
  pub count : (n : ℕ) → (respond n).count ≡ some text
  pub parsed : atoi text ≡ some (pos (length queue))
  pub same_token : (n : ℕ) → (respond n).token ≡ token
  pub ids : any no_id queue ≡ false

pub length-take :
    (k : ℕ) (xs : List Media) → length (take k xs) ≡ (if leb k (length xs) then k else length xs)
length-take zero xs = ground arith
length-take (suc k) [] = ground arith
length-take (suc k) (x ∷ xs) = ground (arith, length-take k xs)

any-take : (k : ℕ) (xs : List Media) → any no_id xs ≡ false → any no_id (take k xs) ≡ false
unfolding any
any-take zero xs h = refl
any-take (suc k) [] h = refl
any-take (suc k) (x ∷ xs) h = ground (arith, h, any-take k xs (ground (arith, h)))

any-drop : (k : ℕ) (xs : List Media) → any no_id xs ≡ false → any no_id (drop k xs) ≡ false
unfolding any
any-drop zero xs h = h
any-drop (suc k) [] h = refl
any-drop (suc k) (x ∷ xs) h = any-drop k xs (ground (arith, h))

-- The page of the queue from `n` on.
abbrev pub next_of : List Media → ℕ → Option ℕ
next_of queue n = if leb (length queue) (n + 100) then none else some (n + 100)

abbrev pub slice : List Media → Token → ℕ → QueuePage
slice queue token n = record {
  items = take 100 (drop n queue);
  total = some (length queue);
  next = next_of queue n;
  token = token;
}

-- With a total and a page that ends inside of it, or at it.
module _ (t n k : ℕ) (some_items : 0 < k) where
  counted_last :
      n + k ≡ t → counted (some (pos t)) n 100 k ≡ some (record { total = some t; next = none })
  unfolding counted bounds_of
  counted_last e = ground (arith, e)

  counted_more :
      n + k < t
      → counted (some (pos t)) n 100 k ≡ some (record { total = some t; next = some (n + k) })
  unfolding counted bounds_of
  counted_more h = ground (arith, h)

counted-slice :
    (t n k : ℕ)
    → n < t
    → k ≡ (if leb 100 (t - n) then 100 else t - n)
    → counted (some (pos t)) n 100 k
      ≡ some record { total = some t; next = if leb t (n + 100) then none else some (n + 100) }
counted-slice t n k h e = elim (Bool-cases (leb t (n + 100))) [
  | inl f ↦ rw f (counted_last t n k (ground (arith, h, e)) (ground (arith, f, e, h)))
  | inr f ↦
      let full : k ≡ 100 = ground (arith, f, e) in
      rw (f, full) (counted_more t n 100 (omega arith) (ground (arith, f)))
]

module _ (respond : ℕ → PageResponse) (queue : List Media) (token : Token)
    (honest : IsHonest respond queue token) where
  slice_size :
      (n : ℕ)
      → length (respond n).items ≡ (if leb 100 (length queue - n) then 100 else length queue - n)
  slice_size n = rw (honest.items n, length-take 100 (drop n queue), length-drop n queue) refl

  page_bounds-slice :
      (n : ℕ)
      → n < length queue
      → page_bounds (respond n) n 100 (length (respond n).items)
        ≡ some (record { total = some (length queue); next = next_of queue n })
  unfolding page_bounds count_bounds
  page_bounds-slice n h =
      let counts = counted-slice (length queue) n (length (respond n).items) h (slice_size n) in
      rw (honest.returned n, honest.count n, honest.parsed) (ground (arith, counts, slice_size n))

  no_ids : (n : ℕ) → any no_id (take 100 (drop n queue)) ≡ false
  no_ids n = any-take 100 (drop n queue) (any-drop n queue honest.ids)

  pub queue_page-slice :
      (n : ℕ)
      → n < length queue
      → length queue ≤ 10000
      → queue_page (respond n) n 100 ≡ some (slice queue token n)
  unfolding queue_page
  queue_page-slice n h limit =
      let in_range : ltb 10000 n ≡ false = ground (arith, h, limit) in
      rw (in_range, page_bounds-slice n h) (rw (honest.items n, honest.same_token n, no_ids n) refl)
