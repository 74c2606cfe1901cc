-- ===== src/Control/Skip.antt =====
-- internal/control/skip.go: when a skip may be sent and what confirms it.
pub mod Laws
use heos_control.Prelude.{
  ℕ, suc, Bool, true, false, ◌&&◌, ◌||◌, not, Option, none, some, String, ◌==◌, ◌!=◌, string_eq,
  nat_beq, if◌then◌else◌, length, ltb, is_empty,
}
use heos_control.Heos.Values.{Repeat, repeat_eq, is_active}
use heos_control.Heos.Snapshot.{Media, Snapshot}
use heos_control.Control.Errors.{Err}
use heos_control.Control.Changes.{state_changes}
use heos_control.Control.Membership.{queued_media, complete_queue_page}
use heos_control.Control.Queue.{queue_index}

abbrev pub over_ceiling : Option ℕ → Option ℕ → Bool
over_ceiling none v = true
over_ceiling (some c) none = true
over_ceiling (some c) (some v) = ltb c v

abbrev pub at_end : String → ℕ → Option ℕ → Bool
at_end direction size none = false
at_end direction size (some i) =
    direction == "next" && nat_beq (suc i) size || direction == "previous" && nat_beq i 0

-- `atSkipBoundary`.
unfoldable pub at_skip_boundary : String → Snapshot → Bool
at_skip_boundary direction s =
    if s.repeat != Repeat.off || direction != "next" && direction != "previous"
    then false
    else if nat_beq (length s.queue.items) 1
    then true
    else if s.shuffle
    then false
    else at_end direction (length s.queue.items) (queue_index s)

-- `skipAdmissible`.
unfoldable pub skip_admissible : Option ℕ → String → Snapshot → Option Err
skip_admissible ceiling direction s =
    if over_ceiling ceiling s.volume
    then some Err.bounds
    else if not (is_active s.state)
        || not (complete_queue_page s.queue)
        || not (queued_media s.queue s.media)
    then some Err.not_skippable
    else if at_skip_boundary direction s
    then some Err.not_skippable
    else none

-- The expected observation after a skip.
abbrev pub skipped : Snapshot → Snapshot → Snapshot
skipped a b = record a { state = b.state; media = b.media }

abbrev pub other_media : Snapshot → Option Media → Option Media → Bool
other_media a (some m) (some n) =
    not (n.queue_id == "" || n.queue_id == m.queue_id || not (queued_media a.queue (some n)))
other_media a _ _ = false

-- `skipConfirmed`.
unfoldable pub skip_confirmed : Snapshot → Snapshot → Bool
skip_confirmed a b =
    is_active b.state && other_media a a.media b.media && is_empty (state_changes (skipped a b) b)
