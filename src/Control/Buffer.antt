-- ===== src/Control/Buffer.antt =====
-- internal/control/buffered_execution.go: the decision of one maintenance step of buffered
-- playback, and the check that it is still allowed at the moment of the write. The commands that
-- a step issues (`pruneBuffered`, `appendNext`) are its outcomes here.
pub mod Room
pub mod Removal
use heos_control.Prelude.{
  ℕ, suc, ◌-◌, Bool, true, false, ◌&&◌, ◌||◌, not, Option, none, some, List, [], ◌∷◌, String, ◌==◌,
  ◌!=◌, string_eq, if◌then◌else◌, length, is_empty, ltb, leb, ℤ, pos, ◌+ℤ◌, ◌-ℤ◌, ◌<?◌, Time,
  is_zero, before,
}
use heos_control.Heos.Values.{PlayState, play_state_eq}
use heos_control.Heos.Snapshot.{Media, Snapshot}
use heos_control.Control.Errors.{Err}
use heos_control.Control.Membership.{queued_media}
use heos_control.Control.Queue.{buffered_position}
use heos_control.Control.Command.{BufferedPlayback}

-- What a step does: nothing, fail, remove the first `n` entries, or append the next part.
pub data BufferedStep : Type 0 where
  idle : BufferedStep
  fail : Err → BufferedStep
  prune : ℤ → BufferedStep
  append : BufferedStep

-- The part of the step after the next part, of `count` tracks, was prepared.
unfoldable pub make_room : BufferedPlayback → ℕ → ℕ → ℤ → BufferedStep
make_room b size position count =
    let remove = pos position -ℤ b.retain_previous in
    if b.max_queue_tracks <? pos size +ℤ count
    then (if not (pos 0 <? remove) || b.max_queue_tracks <? pos size -ℤ remove +ℤ count
        then BufferedStep.fail Err.capacity
        else BufferedStep.prune remove)
    else BufferedStep.append

unfoldable pub refill : BufferedPlayback → ℕ → ℕ → Option Err → ℤ → BufferedStep
unfolding make_room
refill b size position prepared count =
    if b.refill_threshold <? pos size -ℤ pos position -ℤ pos 1
    then BufferedStep.idle
    else elim prepared [ some e ↦ BufferedStep.fail e | none ↦ make_room b size position count ]

-- `bufferedStep`. `more` is `moreParts()`, `prepared` the result of `prepareBufferedPart` for the
-- next part and `count` its number of tracks.
unfoldable pub buffered_step :
    BufferedPlayback
    → Bool
    → Time
    → Time
    → Time
    → Snapshot
    → List String
    → Option Err
    → ℤ
    → BufferedStep
unfolding refill
buffered_step b more now expires append_until s ordered prepared count =
    if not more
    then BufferedStep.idle
    else if not (before now expires)
    then BufferedStep.fail Err.session_expired
    else if not (is_zero append_until) && not (before now append_until)
    then BufferedStep.idle
    else elim (buffered_position s ordered) [
      | none ↦ BufferedStep.fail (Err.ownership "" [])
      | some position ↦ refill b (length s.queue.items) position prepared count
    ]

-- The loop of `removalAllowed`: the removed ids must be those at the front; the last entry that
-- matches the current media is the current one. `none` is a mismatch, `some none` no match.
unfoldable pub removal_scan : Media → ℕ → Option ℕ → List Media → List String → Option (Option ℕ)
removal_scan m i current [] ids = some current
removal_scan m i current (item ∷ items) [] =
    removal_scan m (suc i)
      (if item.queue_id == m.queue_id && item.id == m.id then some i else current) items []
removal_scan m i current (item ∷ items) (q ∷ ids) =
    let rest =
      removal_scan m (suc i)
        (if item.queue_id == m.queue_id && item.id == m.id then some i else current) items ids in
    if item.queue_id != q then none else rest

abbrev pub far_enough : ℕ → ℤ → Option (Option ℕ) → Bool
far_enough n retain (some (some current)) = not (pos current -ℤ pos n <? retain)
far_enough n retain _ = false

-- `removalAllowed` of a buffered execution.
unfoldable pub removal_allowed : BufferedPlayback → Snapshot → List String → Bool
unfolding removal_scan
removal_allowed b s ids =
    if s.state != PlayState.play || not (queued_media s.queue s.media)
    then false
    else if is_empty ids || leb (length s.queue.items) (length ids)
    then false
    else elim s.media [
      | none ↦ false
      | some m ↦ far_enough (length ids) b.retain_previous (removal_scan m 0 none s.queue.items ids)
    ]
