-- ===== src/Control/Attribution/Expect.antt =====
-- internal/control/events.go (expect) and confirmation.go (observeQueueState): the expectations that
-- a command registers before it is sent, and the allowance that an observed start closes.
use heos_control.Prelude.{
  ℕ, Bool, true, false, ◌||◌, Option, none, some, [], ◌∷◌, ◌++◌, String, ◌==◌, ◌!=◌, string_eq,
  if◌then◌else◌, drop, keep, length, leb, ℤ, pos,
}
use heos_control.Heos.Values.{PlayState, MutationKind, play_state_eq, mutation_kind_eq}
use heos_control.Heos.Mutations.{Mutation, play_state_text, repeat_text, on_off}
use heos_control.Heos.Numbers.{itoa}
use heos_control.Control.Start.{QueueStartPhase}
use heos_control.Control.Scalar.{scalar_mutation, new_scalar_confirmation}
use heos_control.Control.Attribution.{
  Params, Expectations, Attribution, expectations, set_expectations,
}

-- `add`: at most four expectations of a name, the oldest given up first.
unfoldable pub add : String → Params → Expectations → Expectations
unfolding expectations set_expectations
add name params events =
    let list = expectations events name in
    let recent = if leb 4 (length list) then drop 1 list else list in
    set_expectations events name (recent ++ params ∷ [])

abbrev state_name : String
state_name = "event/player_state_changed"

abbrev media_name : String
media_name = "event/player_now_playing_changed"

abbrev queue_name : String
queue_name = "event/player_queue_changed"

abbrev volume_name : String
volume_name = "event/player_volume_changed"

unfoldable pub add_state : PlayState → Expectations → Expectations
unfolding add play_state_text
add_state s = add state_name (("state", play_state_text s) ∷ [])

volume_params : ℤ → Bool → Params
unfolding itoa
volume_params level muted = ("level", itoa level) ∷ ("mute", on_off muted) ∷ []

-- The expectations of a level and a mute; `clears` is a new level over a mute that is set.
unfoldable pub add_volume : ℤ → Bool → Bool → Expectations → Expectations
unfolding volume_params add
add_volume level muted clears events =
    let wanted = add volume_name (volume_params level muted) events in
    if clears then add volume_name (volume_params level false) wanted else wanted

-- A volume or mute command dereferences both expected fields: `none` stands for the panic where one
-- is nil, which the checks before a write exclude.
unfoldable pub expect_volume :
    Option ℕ → Option Bool → Mutation → Expectations → Option Expectations
unfolding add_volume
expect_volume (some level) (some muted) m events =
    if m.kind == MutationKind.volume
    then some (add_volume m.level muted muted events)
    else some (add_volume (pos level) m.muted false events)
expect_volume (some level) none m events = none
expect_volume none muted m events = none

-- A queue that is replaced while the transport rests can pass through stop.
unfoldable pub add_start : PlayState → Expectations → Expectations
unfolding add_state add
add_start s events =
    let loading = add media_name [] (add queue_name [] events) in
    let resting =
      if s == PlayState.stop || s == PlayState.pause
      then add_state PlayState.stop loading
      else loading in
    add_state PlayState.play resting

abbrev registered : Attribution → Expectations → Option Attribution
registered r events = some (record r { events = events })

unfoldable pub registered? : Attribution → Option Expectations → Option Attribution
registered? r none = none
registered? r (some events) = registered r events

abbrev retaining : Attribution → Expectations → Option Attribution
retaining r events = some (record r { events = events; keep_expectations = true })

-- The switch of `expect`.
unfoldable pub expect_kind : MutationKind → Mutation → Attribution → Option Attribution
unfolding expect_volume registered? add_start add_state add repeat_text
expect_kind MutationKind.volume m r =
    registered? r (expect_volume r.expected.volume r.expected.muted m r.events)
expect_kind MutationKind.mute m r =
    registered? r (expect_volume r.expected.volume r.expected.muted m r.events)
expect_kind MutationKind.transport m r =
    registered r (add media_name [] (add_state m.state r.events))
expect_kind MutationKind.skip m r = retaining r (
    add_state PlayState.pause (
      add_state PlayState.play
        (add_state PlayState.unknown (add_state PlayState.stop (add media_name [] r.events)))))
expect_kind MutationKind.mode m r = registered r (
    add "event/shuffle_mode_changed" (("shuffle", on_off m.shuffle) ∷ [])
      (add "event/repeat_mode_changed" (("repeat", repeat_text m.repeat) ∷ []) r.events))
expect_kind MutationKind.remove m r = retaining r (add media_name [] (add queue_name [] r.events))
expect_kind MutationKind.queue m r =
    if m.append
    then retaining r (add queue_name [] r.events)
    else some record r {
      queue_start = QueueStartPhase.awaiting_play;
      events = add_start r.expected.state r.events;
    }
expect_kind MutationKind.absent m r = some r

-- `expect`.
unfoldable pub expect : Mutation → Attribution → Option Attribution
unfolding expect_kind scalar_mutation new_scalar_confirmation
expect m r = expect_kind m.kind m record r {
  queue_start = QueueStartPhase.not_starting;
  scalar = if scalar_mutation m then some (new_scalar_confirmation m r.expected) else none;
  keep_expectations = false;
}

-- `want["state"] != "stop"`; a key that is not there reads as the empty text.
unfoldable pub not_stop : Params → Bool
not_stop [] = true
not_stop ((k, v) ∷ rest) = if k == "state" then v != "stop" else not_stop rest

-- `observeQueueState`: play that is read closes the allowance for a loading stop.
unfoldable pub observe_queue_state : PlayState → Attribution → Attribution
unfolding keep not_stop expectations set_expectations
observe_queue_state s r =
    if s == PlayState.play
    then record r {
      queue_start = QueueStartPhase.play_observed;
      events =
          set_expectations r.events state_name (keep not_stop (expectations r.events state_name));
    }
    else r
