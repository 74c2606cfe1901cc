-- ===== src/Control/Membership.antt =====
-- internal/control/ownership.go, confirmation.go, skip.go and queue_append.go: what an observed
-- queue says of one entry, and the comparison of an owned state.
use heos_control.Prelude.{
  Bool, true, false, ◌&&◌, ◌||◌, not, Option, none, some, List, [], ◌∷◌, String, ◌==◌, ◌!=◌, nat_eq,
  string_eq, option_eq, if◌then◌else◌, length, any, contains, is_empty,
}
use heos_control.Heos.Values.{PlayState, play_state_eq}
use heos_control.Heos.Snapshot.{Media, QueuePage, Snapshot}
use heos_control.Control.Changes.{state_changes}

-- The source id of the play queue.
abbrev pub queue_source : String
queue_source = "1024"

unfoldable pub empty_media : Option Media → Bool
empty_media none = true
empty_media (some m) = m.source == "" && m.id == "" && m.queue_id == ""

unfoldable pub queued_media : QueuePage → Option Media → Bool
unfolding any
queued_media q none = false
queued_media q (some m) =
    if m.source != queue_source || m.id == "" || m.queue_id == ""
    then false
    else any (λ item. item.queue_id == m.queue_id && item.id == m.id) q.items

unfoldable pub queued_identity : QueuePage → Option Media → Bool
unfolding any
queued_identity q none = false
queued_identity q (some m) =
    if m.source != queue_source || m.id == "" then false else any (λ item. item.id == m.id) q.items

-- The first entry with the queue id decides.
unfoldable pub other_entry : List Media → Media → Bool
other_entry [] m = false
other_entry (item ∷ items) m =
    if item.queue_id == m.queue_id then item.id != m.id else other_entry items m

unfoldable pub transitional_queue_media : QueuePage → Option Media → Bool
unfolding queued_identity other_entry
transitional_queue_media q none = false
transitional_queue_media q (some m) =
    if not (queued_identity q (some m)) || m.queue_id == "" then false else other_entry q.items m

-- `q.Total != nil && *q.Total == len(q.Items) && q.Next == nil`.
abbrev pub exact_total : QueuePage → Bool
exact_total q = q.total == some (length q.items) && q.next == none

-- The loop of `completeOwnedQueue`, with the queue ids already seen.
unfoldable pub owned_items : List String → List String → List Media → Bool
unfolding contains
owned_items members seen [] = true
owned_items members seen (m ∷ items) =
    let rest = owned_items members (m.queue_id ∷ seen) items in
    if m.queue_id == "" || contains m.queue_id seen || not (contains m.id members)
    then false
    else rest

unfoldable pub complete_owned_queue : QueuePage → List String → Bool
unfolding owned_items
complete_owned_queue q members =
    if not (exact_total q) || is_empty q.items then false else owned_items members [] q.items

unfoldable pub complete_queue_page : QueuePage → Bool
complete_queue_page q = exact_total q && not (is_empty q.items)

unfoldable pub owned_baseline : Bool → Snapshot → Snapshot → Snapshot
unfolding queued_media empty_media
owned_baseline queue_owned a b =
    if queue_owned
      && a.state == b.state
      && (b.state == PlayState.play && queued_media a.queue b.media
          || b.state == PlayState.stop && (empty_media b.media || queued_media a.queue b.media))
    then record a { media = b.media }
    else a

-- `execution.ownedChanges`; `queue_owned` is the field of the execution that it reads.
unfoldable pub owned_changes : Bool → Snapshot → Snapshot → List String
unfolding owned_baseline
owned_changes queue_owned a b =
    if a.token.generation != b.token.generation
    then "connection_generation" ∷ []
    else state_changes (owned_baseline queue_owned a b) b

unfoldable pub owned_state : Bool → Snapshot → Snapshot → Bool
unfolding owned_changes
owned_state queue_owned a b = is_empty (owned_changes queue_owned a b)
