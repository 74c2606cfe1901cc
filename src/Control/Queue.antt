-- ===== src/Control/Queue.antt =====
-- internal/control/queue_append.go, queue_remove.go, skip.go and buffered_plan.go: the exact
-- comparisons of an observed queue with the ordered plan, over entries of media and queue ids.
pub mod Complete
pub mod Fresh
pub mod Ordered
pub mod Append
pub mod Removal
pub mod Position
use heos_control.Prelude.{
  ℕ, suc, ◌-◌, Bool, true, false, ◌&&◌, ◌||◌, not, Option, none, some, List, [], ◌∷◌, String, ◌==◌,
  ◌!=◌, nat_eq, string_eq, option_eq, list_eq, if◌then◌else◌, length, drop, take, contains,
  is_empty, ltb,
}
use heos_control.Heos.Values.{PlayState, play_state_eq}
use heos_control.Heos.Snapshot.{Media, QueuePage, Snapshot, media_eq}
use heos_control.Control.Membership.{queued_media, exact_total, complete_queue_page}

-- The loop of `orderedQueue`; `seen` are the queue ids before.
unfoldable pub ordered_items : List String → List Media → List String → Bool
ordered_items seen [] [] = true
ordered_items seen [] (i ∷ ids) = false
ordered_items seen (m ∷ items) [] = false
ordered_items seen (m ∷ items) (i ∷ ids) =
    let rest = ordered_items (m.queue_id ∷ seen) items ids in
    if m.id != i || m.queue_id == "" || contains m.queue_id seen then false else rest

unfoldable pub ordered_queue : QueuePage → List String → Bool
unfolding ordered_items
ordered_queue q ids =
    if length q.items != length ids || q.total != some (length ids) || q.next != none
    then false
    else ordered_items [] q.items ids

-- Whether entry `i` of the old queue, where it has one, is other than `m`.
abbrev replaces : List Media → Media → Bool
replaces [] m = false
replaces (b ∷ bs) m = m.queue_id != b.queue_id || m.id != b.id

abbrev rest_of : List Media → List Media
rest_of [] = []
rest_of (b ∷ bs) = bs

-- The loop of `appendQueueProblem`; the index runs out of `ids` never before `items`.
unfoldable pub append_items_problem : List String → List Media → List Media → List String → Bool
append_items_problem seen old [] ids = false
append_items_problem seen old (m ∷ items) [] = true
append_items_problem seen old (m ∷ items) (i ∷ ids) =
    let rest = append_items_problem (m.queue_id ∷ seen) (rest_of old) items ids in
    if m.id != i || m.queue_id == "" || contains m.queue_id seen
    then true
    else if replaces old m
    then true
    else rest

unfoldable pub append_queue_problem : QueuePage → QueuePage → List String → Bool
unfolding append_items_problem
append_queue_problem old q ids =
    if not (exact_total q)
      || ltb (length q.items) (length old.items)
      || ltb (length ids) (length q.items)
    then true
    else append_items_problem [] old.items q.items ids

-- The loop of `removedQueuePrefix` over what is left of the old queue; `whole` is `removed == 0`.
unfoldable pub remaining_items : Bool → List String → List Media → List Media → Bool
remaining_items whole seen old [] = true
remaining_items whole seen [] (m ∷ items) = false
remaining_items whole seen (b ∷ old) (m ∷ items) =
    let rest = remaining_items whole (m.queue_id ∷ seen) old items in
    if m.id != b.id
      || m.queue_id == ""
      || contains m.queue_id seen
      || whole && m.queue_id != b.queue_id
    then false
    else rest

-- `none` is Go's `0, false`.
unfoldable pub removed_queue_prefix : QueuePage → QueuePage → ℕ → Option ℕ
unfolding remaining_items
removed_queue_prefix old q maximum =
    let removed = length old.items - length q.items in
    if ltb (length old.items) (length q.items) || ltb maximum removed || not (exact_total q)
    then none
    else if remaining_items (removed == 0) [] (drop removed old.items) q.items
    then some removed
    else none

-- `queueIndex`; `none` is -1.
unfoldable pub index_in : List Media → Media → Option ℕ
index_in [] m = none
index_in (item ∷ items) m =
    let rest = index_in items m in
    if item.queue_id == m.queue_id && item.id == m.id
    then some 0
    else elim rest [ none ↦ none | some i ↦ some (suc i) ]

unfoldable pub queue_index : Snapshot → Option ℕ
unfolding index_in
queue_index s = elim s.media [ none ↦ none | some m ↦ index_in s.queue.items m ]

-- `queueExtension`.
unfoldable pub queue_extension : QueuePage → QueuePage → Bool
queue_extension part full =
    if not (complete_queue_page full)
      || is_empty part.items
      || ltb (length full.items) (length part.items)
    then false
    else if part.total != none && part.total != full.total
    then false
    else part.items == take (length part.items) full.items

-- `bufferedPosition`; `none` is `ErrOwnership`.
unfoldable pub buffered_position : Snapshot → List String → Option ℕ
unfolding ordered_queue queue_index
buffered_position s ids =
    if s.state != PlayState.play
      || not (ordered_queue s.queue ids)
      || not (queued_media s.queue s.media)
    then none
    else queue_index s
