-- ===== src/Control/Queue/Removal.antt =====
-- `removedQueuePrefix`: what a queue may show while a removal is pending.
use mathlib.Core.List.{Nodup}
use heos_control.Prelude.{
  ℕ, zero, suc, ◌+◌, ◌≡◌, ◌≢◌, ◌≤◌, refl, sym, ap, subst, ◌∙◌, Bool, true, false, none, some, List,
  [], ◌∷◌, String, ◌==◌, arith, ==→≡, ≡→==, !=→≡, ≡→!=, string_eq, nat_eq, option_eq, contains,
  length, length-drop, drop, take,
}
use heos_control.Heos.Snapshot.{Media, QueuePage}
use heos_control.Control.Queue.{ordered_items, ordered_queue, remaining_items, removed_queue_prefix}
use heos_control.Control.Queue.Fresh.{qids, ids_of, Fresh, Fresh-Nodup}
use heos_control.Control.Queue.Ordered.{
  ordered_items_complete, take_all, entries, length-ids_of, ordered_queue-IsOrdered,
}

module _ (b m : Media) where
  remaining_head :
      (whole : Bool) (seen : List String) (old items : List Media)
      → remaining_items whole seen (b ∷ old) (m ∷ items) ≡ true
      → (m.id ≡ b.id)
        × (m.queue_id ≢ "")
        × (contains m.queue_id seen ≡ false)
        × (whole ≡ true → m.queue_id ≡ b.queue_id)
        × (remaining_items whole (m.queue_id ∷ seen) old items ≡ true)
  unfolding remaining_items
  remaining_head whole seen old items h = (
    !=→≡ m.id b.id (ground arith),
    λ e. ground (arith, ≡→== m.queue_id "" e),
    ground arith,
    λ w. !=→≡ m.queue_id b.queue_id (ground arith),
    ground arith,
  )

remaining_items_sound :
    (whole : Bool) (seen : List String) (old items : List Media)
    → remaining_items whole seen old items ≡ true
    → (ids_of items ≡ take (length items) (ids_of old))
      × Fresh seen (qids items)
      × (whole ≡ true → entries items ≡ take (length items) (entries old))
remaining_items_sound whole seen old [] h = (refl, tt, λ w. refl)
remaining_items_sound whole seen [] (m ∷ items) h = unfold remaining_items in cc
remaining_items_sound whole seen (b ∷ old) (m ∷ items) h =
    let p = remaining_head b m whole seen old items h in
    let r = remaining_items_sound whole (m.queue_id ∷ seen) old items p.4 in
    (cc (p.0, r.0), (p.1, p.2, r.1), λ w. cc (p.0, p.3 w, r.2 w))

length-entries : (items : List Media) → length (entries items) ≡ length items
length-entries [] = refl
length-entries (m ∷ items) = omega (arith, length-entries items)

ids_of-drop : (n : ℕ) (items : List Media) → ids_of (drop n items) ≡ drop n (ids_of items)
ids_of-drop zero items = refl
ids_of-drop (suc n) [] = refl
ids_of-drop (suc n) (m ∷ items) = ids_of-drop n items

-- The old page after its first `n` entries were removed: the same media in the same order, under
-- distinct queue ids, which may be new ones unless nothing was removed.
pub record IsRemainder (old q : QueuePage) (n : ℕ) : Type 0 where
  pub media : ids_of q.items ≡ drop n (ids_of old.items)
  pub count : length q.items + n ≡ length old.items
  pub distinct : Nodup (qids q.items)
  pub total : q.total ≡ some (length q.items)
  pub last_page : q.next ≡ none
  pub untouched : n ≡ 0 → entries q.items ≡ entries old.items

module _ (old q : QueuePage) (maximum n : ℕ) (h : removed_queue_prefix old q maximum ≡ some n) where
  removed_count : (length q.items + n ≡ length old.items) × (n ≤ maximum)
  unfolding removed_queue_prefix
  removed_count = (ground arith, ground arith)

  removed_rest : remaining_items (n == 0) [] (drop n old.items) q.items ≡ true
  unfolding removed_queue_prefix
  removed_rest = ground arith

  removed-Fresh : Fresh [] (qids q.items)
  removed-Fresh = (remaining_items_sound (n == 0) [] (drop n old.items) q.items removed_rest).1

  removed_media : ids_of q.items ≡ drop n (ids_of old.items)
  removed_media =
      let r = remaining_items_sound (n == 0) [] (drop n old.items) q.items removed_rest in
      r.0
      ∙ take_all (ids_of (drop n old.items)) (length q.items) (
          omega (arith, removed_count.0, length-ids_of (drop n old.items), length-drop n old.items))
      ∙ ids_of-drop n old.items

  nothing_removed : n ≡ 0 → entries q.items ≡ entries old.items
  nothing_removed z =
      let r = remaining_items_sound (n == 0) [] (drop n old.items) q.items removed_rest in
      r.2 (≡→== n 0 z)
      ∙ take_all (entries (drop n old.items)) (length q.items) (
          omega
            (arith, removed_count.0, z, length-entries (drop n old.items), length-drop n old.items))
      ∙ ap (λ k. entries (drop k old.items)) z

  -- An accepted removal shows at most `maximum` entries gone, all of them from the front.
  pub removed-IsRemainder : IsRemainder old q n × (n ≤ maximum)
  unfolding removed_queue_prefix
  removed-IsRemainder = (
    record {
      media = removed_media;
      count = removed_count.0;
      distinct = Fresh-Nodup [] (qids q.items) removed-Fresh;
      total = ==→≡ q.total (some (length q.items)) (ground arith);
      last_page = ==→≡ q.next none (ground arith);
      untouched = λ z. nothing_removed z;
    },
    removed_count.1,
  )

  -- After a removal from the planned queue the page is the planned queue less its first entries.
  pub removed-ordered_queue :
      (ids : List String) → ordered_queue old ids ≡ true → ordered_queue q (drop n ids) ≡ true
  unfolding ordered_queue
  removed-ordered_queue ids o =
      let planned : ids_of old.items ≡ ids = (ordered_queue-IsOrdered old ids o).media in
      let left = removed-IsRemainder.0 in
      let e : ids_of q.items ≡ drop n ids = left.media ∙ ap (drop n) planned in
      let l : length q.items ≡ length (drop n ids) = sym (length-ids_of q.items) ∙ ap length e in
      let ok : ordered_items [] q.items (drop n ids) ≡ true =
        subst (λ x. ordered_items [] q.items x ≡ true) e
          (ordered_items_complete [] q.items removed-Fresh) in
      ground (
        arith,
        ≡→!= q.total (some (length (drop n ids))) (left.total ∙ ap some l),
        ≡→!= q.next none left.last_page,
      )
