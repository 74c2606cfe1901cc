-- ===== src/Tests/Queues.antt =====
-- The queue laws and the buffered step at concrete queues.
use heos_control.Control.Membership.{queued_media}
use heos_control.Prelude.{
  ◌-ℤ◌, ◌+ℤ◌, contains, ◌≡◌, ◌≢◌, ◌≤◌, ◌↔◌, refl, true, false, none, some, [], ◌∷◌, length, pos,
  inl, inr,
}
use heos_control.Heos.Values.{PlayState, Repeat}
use heos_control.Heos.Snapshot.{Media}
use heos_control.Control.Errors.{Err}
use heos_control.Control.Changes.{state_changes}
use heos_control.Control.Changes.Same.{SameControls, state_changes-nil}
use heos_control.Control.Safety.{mutation_safety}
use heos_control.Control.Queue.{
  ordered_queue, append_queue_problem, removed_queue_prefix, buffered_position,
}
use heos_control.Control.Queue.Ordered.{IsOrdered, ordered_queue-IsOrdered}
use heos_control.Control.Queue.Append.{IsGrowing, append-IsGrowing, append-ordered_queue}
use heos_control.Control.Queue.Removal.{IsRemainder, removed-IsRemainder, removed-ordered_queue}
use heos_control.Control.Queue.Position.{IsAt, buffered_position_sound}
use heos_control.Control.Command.{CommandKind, BufferedPlayback, Command, validate_buffered}
use heos_control.Control.Buffer.{BufferedStep, buffered_step, removal_allowed}
use heos_control.Control.Buffer.Removal.{IsRemovable, removal_allowed-IsRemovable}
use heos_control.Control.Buffer.Room.{KeepsBounds, buffered_step_room}
use heos_control.Tests.Fixtures.{
  two_tracks, first_track, last_track, playing, next_playing, plan, config,
}

state_changes-nil_example : (state_changes playing playing ≡ []) ↔ SameControls playing playing
state_changes-nil_example = state_changes-nil playing playing

passes : mutation_safety config playing true ≡ none
unfolding mutation_safety
passes = refl

two_ordered : ordered_queue two_tracks plan ≡ true
unfolding ordered_queue contains
two_ordered = refl

ordered_queue-IsOrdered_example : IsOrdered two_tracks plan
ordered_queue-IsOrdered_example = ordered_queue-IsOrdered two_tracks plan two_ordered

two_appended : append_queue_problem first_track two_tracks plan ≡ false
unfolding append_queue_problem contains
two_appended = refl

append-IsGrowing_example : IsGrowing first_track two_tracks plan
append-IsGrowing_example = append-IsGrowing first_track two_tracks plan two_appended

append-ordered_queue_example : ordered_queue two_tracks plan ≡ true
append-ordered_queue_example = append-ordered_queue first_track two_tracks plan two_appended refl

first_removed : removed_queue_prefix two_tracks last_track 1 ≡ some 1
unfolding removed_queue_prefix contains
first_removed = refl

removed-IsRemainder_example : IsRemainder two_tracks last_track 1 × (1 ≤ 1)
removed-IsRemainder_example = removed-IsRemainder two_tracks last_track 1 1 first_removed

removed-ordered_queue_example : ordered_queue last_track ("8" ∷ []) ≡ true
removed-ordered_queue_example =
    removed-ordered_queue two_tracks last_track 1 1 first_removed plan two_ordered

at_second : buffered_position next_playing plan ≡ some 1
unfolding buffered_position contains queued_media
at_second = refl

buffered_position_sound_example :
    (next_playing.state ≡ PlayState.play)
    × (ordered_queue next_playing.queue plan ≡ true)
    × (m : Media) × (next_playing.media ≡ some m)
    × IsAt next_playing.queue.items m 1
buffered_position_sound_example = buffered_position_sound next_playing plan 1 at_second

-- Parts of two tracks and of one, in a queue of at most four.
abbrev settings : BufferedPlayback
settings = record {
  part_tracks = pos 2 ∷ pos 1 ∷ [];
  refill_threshold = pos 1;
  max_queue_tracks = pos 4;
  retain_previous = pos 0;
  max_session_seconds = pos 3600;
}

abbrev play_command : Command
play_command = record {
  kind = CommandKind.playback;
  level = pos 20;
  muted = false;
  state = PlayState.absent;
  direction = "";
  takeover = true;
  expected_owner = "";
  item_ref = "";
  item_refs = some ("a" ∷ "b" ∷ []);
  shuffle = false;
  repeat = Repeat.off;
  mode = "";
  fade_seconds = pos 0;
  target = "";
  automation = none;
  buffered = some settings;
}

settings_valid : validate_buffered settings play_command ≡ none
unfolding validate_buffered ◌-ℤ◌ ◌+ℤ◌
settings_valid = refl

buffered_step_room_example :
    let step = buffered_step settings true 10 3600 0 next_playing plan none (pos 1) in
    (step ≢ BufferedStep.fail Err.capacity)
    × KeepsBounds settings (length next_playing.queue.items) 1 (pos 1) step
buffered_step_room_example =
    buffered_step_room settings play_command (pos 1) settings_valid (inr (inl refl)) true 10 3600 0
      next_playing plan none 1 at_second (λ e. cc)

allowed : removal_allowed settings next_playing ("1" ∷ []) ≡ true
unfolding removal_allowed queued_media ◌-ℤ◌
allowed = refl

removal_allowed-IsRemovable_example : IsRemovable settings next_playing ("1" ∷ [])
removal_allowed-IsRemovable_example =
    removal_allowed-IsRemovable settings next_playing ("1" ∷ []) allowed
