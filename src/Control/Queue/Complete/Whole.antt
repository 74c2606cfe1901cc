-- ===== src/Control/Queue/Complete/Whole.antt =====
-- internal/control/ownership.go (completeQueue): the whole queue of a device that reports it as it is.
use heos_control.Prelude.{
  ℕ, zero, suc, ◌+◌, ◌-◌, ◌*◌, ◌≤◌, ◌<◌, ◌≡◌, refl, ◌∙◌, ap, true, false, ◌||◌, Option, none, some,
  List, [], ◌∷◌, ◌++◌, arith, ◌!=◌, ≡→==, ≡→!=, nat_eq, option_eq, Bool-cases, inl, inr, ltb, leb,
  length, is_empty, take, drop, length-drop, take-add,
}
use heos_control.Heos.Snapshot.{Token, Media, QueuePage, Snapshot, token_eq}
use heos_control.Heos.Pages.{PageResponse, queue_page}
use heos_control.Heos.Pages.Slices.{IsHonest, slice, next_of, length-take, queue_page-slice}
use heos_control.Control.Queue.Complete.{
  over_total, finished, complete_rest, complete_from, complete_queue, page_refused,
}

take_all : (k : ℕ) (xs : List Media) → length xs ≤ k → take k xs ≡ xs
take_all zero [] h = refl
take_all zero (x ∷ xs) h = absurd (omega arith)
take_all (suc k) [] h = refl
take_all (suc k) (x ∷ xs) h = ap (λ (l : List Media). x ∷ l) (take_all k xs (omega (arith, h)))

le→ltb_false : {a b : ℕ} → b ≤ a → ltb a b ≡ false
le→ltb_false h = ground (arith, h)

not_empty : (xs : List Media) → 0 < length xs → is_empty xs ≡ false
not_empty [] h = absurd (omega arith)
not_empty (x ∷ xs) h = refl

-- What `Client.Queue` returns for pages of a hundred entries.
abbrev pub fetch : (ℕ → PageResponse) → ℕ → Option QueuePage
fetch respond n = queue_page (respond n) n 100

module _ (respond : ℕ → PageResponse) (queue : List Media) (token : Token)
    (honest : IsHonest respond queue token) (limit : length queue ≤ 10000) where
  complete_from-done :
      (pages : ℕ) (q : QueuePage)
      → q.total ≡ some (length q.items)
      → complete_from (fetch respond) pages token q none ≡ some (record q { next = none })
  unfolding complete_from
  complete_from-done zero q h = rw (≡→== q.total (some (length q.items)) h) refl
  complete_from-done (suc pages) q h = rw (≡→== q.total (some (length q.items)) h) refl

  module _ (k : ℕ) (q : QueuePage) (h : k < length queue) (items : q.items ≡ take k queue)
      (total : q.total ≡ some (length queue)) where
    size : length q.items ≡ k
    size = rw items (ground (arith, length-take k queue, h))

    gate : (over_total q.total || k != length q.items) ≡ false
    gate = rw (total, size) (ground (arith, limit))

    part_size :
        (0 < length (take 100 (drop k queue)))
        × (length (take 100 (drop k queue)) ≤ length queue - k)
    part_size =
        rw (length-take 100 (drop k queue), length-drop k queue) (ground (arith, h), ground arith)

    within : ltb 10000 (length q.items + length (take 100 (drop k queue))) ≡ false
    within = le→ltb_false (omega (arith, size, part_size.1, limit, h))

    accepted : page_refused token q (slice queue token k) ≡ false
    unfolding page_refused
    accepted =
        rw
          (
            ≡→!= token token refl,
            ≡→!= q.total (some (length queue)) total,
            not_empty (take 100 (drop k queue)) part_size.0,
            within,
          )
          refl

  -- With `k` entries read and pages left for the others, the loop ends with the whole queue.
  complete_from-whole :
      (pages k : ℕ) (q : QueuePage)
      → k < length queue
      → length queue ≤ k + 100 * pages
      → q.items ≡ take k queue
      → q.total ≡ some (length queue)
      → complete_from (fetch respond) pages token q (some k)
        ≡ some (record q { items = queue; next = none })
  unfolding complete_from
  complete_from-whole zero k q h e items total = absurd (omega (arith, h, e))
  complete_from-whole (suc pages) k q h e items total =
      let read = queue_page-slice respond queue token honest k h limit in
      let more : q.items ++ take 100 (drop k queue) ≡ take (k + 100) queue =
        rw items (take-add k 100 queue) in
      rw (gate k q h items total, read, accepted k q h items total)
        (elim (Bool-cases (leb (length queue) (k + 100))) [
          | inl f ↦
              let all = more ∙ take_all (k + 100) queue (ground (arith, f)) in
              rw (f, all) (complete_from-done pages (record q { items = queue }) total)
          | inr f ↦
              rw (f, more)
                (complete_from-whole pages (k + 100) (record q { items = take (k + 100) queue })
                  (ground (arith, f)) (omega (arith, e)) refl total)
        ])

  -- The queue of a device that reports it as it is, with the right total and slices of a hundred entries,
  -- all with queue ids, is read completely if it has more than one page and at most ten thousand
  -- entries: the observation then holds exactly the queue, and is otherwise as it was.
  pub complete_queue-whole :
      (s : Snapshot)
      → 100 < length queue
      → complete_queue
          (fetch respond)
          true
          token
          (record s { token = token; queue = slice queue token 0 })
        ≡ some record s {
          token = token;
          queue = record (slice queue token 0) { items = queue; next = none };
        }
  unfolding complete_queue complete_rest finished
  complete_queue-whole s long =
      let t = record s { token = token; queue = slice queue token 0 } in
      let paged : next_of queue 0 ≡ some 100 = ground (arith, long) in
      let whole =
        complete_from-whole 99 100 (slice queue token 0) long (omega (arith, limit)) refl refl in
      ap (λ (next : Option ℕ). complete_rest (fetch respond) true token t next) paged
      ∙ ap (λ (q : Option QueuePage). finished true token t q) whole
      ∙ rw (≡→!= token token refl) refl
