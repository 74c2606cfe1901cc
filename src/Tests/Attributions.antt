-- ===== src/Tests/Attributions.antt =====
-- Events against a pending change of the volume, and against an operation.
use heos_control.Heos.Numbers.{atoi}
use heos_control.Prelude.{
  ◌≤◌, ◌≡◌, refl, true, false, none, some, List, [], ◌∷◌, String, All, length, pos, Time,
}
use heos_control.Heos.Values.{MutationKind, PlayState, Repeat}
use heos_control.Heos.Snapshot.{Token}
use heos_control.Heos.Events.{one, event_kind, decode_event_data, choice, Event, EventData, data_of}
use heos_control.Heos.Mutations.{Item, Mutation}
use heos_control.Control.Errors.{failed}
use heos_control.Control.Start.{QueueStartPhase}
use heos_control.Control.Scalar.{
  shows_target, scalar_mutation, confirmed_volume_event, ScalarConfirmation,
  new_scalar_confirmation, is_ready, scalar_result, accept_scalar_event,
}
use heos_control.Control.Scalar.Laws.{confirm_all, Shows}
use heos_control.Control.Scalar.Confirm.{
  target_seen, confirm_all-Shows, accept-target, repeats_target,
}
use heos_control.Control.Scalar.Settle.{Echo, Echo-is_ready}
use heos_control.Control.Attribution.{
  target_event, progress_only, foreign, attribute, Attribution, event, expectations,
}
use heos_control.Control.Attribution.Expect.{expect}
use heos_control.Control.Attribution.Laws.{event-uncertain}
use heos_control.Control.Attribution.Survival.{Survived, event-Survived}
use heos_control.Control.Attribution.Run.{events_run, Harmless, events_run-Harmless}
use heos_control.Control.Attribution.Handled.{Handled, Handled-length}
use heos_control.Tests.Fixtures.{playing, token}

abbrev pub no_item : Item
no_item = record {
  source = "";
  container_id = "";
  media_id = "";
  container = "";
  playable = "";
  item_type = "";
}

abbrev pub louder : Mutation
louder = record {
  kind = MutationKind.volume;
  player = "11";
  level = pos 30;
  muted = false;
  state = PlayState.absent;
  direction = "";
  repeat = Repeat.absent;
  shuffle = false;
  item = no_item;
  append = false;
  queue_ids = [];
}

abbrev pub next_token : Token
next_token = record token { player = 5; write = 6 }

abbrev pub volume_changed : String → Event
volume_changed level = record {
  command = "event/player_volume_changed";
  params = ("pid", "11" ∷ []) ∷ ("level", level ∷ []) ∷ ("mute", "off" ∷ []) ∷ [];
  token = next_token;
  gap = false;
  progress_sequence = 0;
}

abbrev report : EventData
report = data_of (volume_changed "30")

-- The pending change after the device's report.
abbrev confirmed : ScalarConfirmation
confirmed = record {
  command = louder;
  observed = record playing { volume = some 30; muted = some false };
  volume_seen = true;
  repeat_seen = false;
  shuffle_seen = false;
}

report_confirms :
    confirm_all (new_scalar_confirmation louder playing) playing (report ∷ []) ≡ some confirmed
unfolding confirm_all accept_scalar_event data_of decode_event_data event_kind one choice atoi
    new_scalar_confirmation
report_confirms = refl

confirmed_settled : is_ready confirmed ≡ true
unfolding is_ready
confirmed_settled = refl

confirm_all-Shows_example : Shows louder playing (scalar_result confirmed playing)
unfolding scalar_mutation
confirm_all-Shows_example =
    confirm_all-Shows louder playing (report ∷ []) confirmed refl report_confirms confirmed_settled

accept-target_example : repeats_target report.kind confirmed report ≡ true
unfolding target_seen data_of decode_event_data event_kind choice atoi accept_scalar_event
accept-target_example = accept-target playing confirmed report refl refl

Echo-is_ready_example :
    (q : ScalarConfirmation) × (confirm_all
        (new_scalar_confirmation louder playing)
        playing
        (report ∷ [])
      ≡ some q)
    × (is_ready q ≡ true)
unfolding scalar_mutation data_of decode_event_data event_kind choice atoi shows_target
    confirmed_volume_event
Echo-is_ready_example =
    Echo-is_ready louder playing (report ∷ []) refl
      (Echo.level_kept report refl refl refl refl refl)

-- An operation that expects nothing, and the same with the new volume in flight.
abbrev pub idle : Attribution
idle = record {
  expected = playing;
  events = [];
  inflight = false;
  uncertain = false;
  queue_owned = false;
  automating = false;
  loading = false;
  queue_wait = 0;
  queue_start = QueueStartPhase.not_starting;
  scalar = none;
  keep_expectations = false;
  event_revision = 0;
  wake = false;
  cancelled = none;
}

abbrev sending : Attribution
sending = record idle { inflight = true; scalar = some (new_scalar_confirmation louder playing) }

keeps : (event sending (volume_changed "30") 9).cancelled ≡ none
unfolding event foreign data_of decode_event_data event_kind choice atoi progress_only target_event
    attribute accept_scalar_event new_scalar_confirmation
keeps = refl

event-Survived_example :
    Survived sending (volume_changed "30") 9 (event sending (volume_changed "30") 9)
event-Survived_example = event-Survived sending (volume_changed "30") 9 keeps

revoked : failed (event sending (volume_changed "31") 9).cancelled ≡ true
unfolding event foreign data_of decode_event_data event_kind choice atoi progress_only target_event
    attribute accept_scalar_event new_scalar_confirmation
revoked = refl

event-uncertain_example : (event sending (volume_changed "31") 9).uncertain ≡ true
event-uncertain_example = event-uncertain sending (volume_changed "31") 9 refl refl revoked

abbrev both : List (Event × Time)
both = (volume_changed "30", 9) ∷ (volume_changed "30", 10) ∷ []

keeps_twice : (events_run sending both).cancelled ≡ none
unfolding events_run event foreign data_of decode_event_data event_kind choice atoi progress_only
    target_event attribute accept_scalar_event new_scalar_confirmation
keeps_twice = refl

events_run-Harmless_example : All (Harmless sending) both
events_run-Harmless_example = events_run-Harmless sending both keeps_twice

abbrev registered_louder : Attribution
registered_louder = record idle {
  scalar = some (new_scalar_confirmation louder playing);
  events = ("event/player_volume_changed", (("level", "30") ∷ ("mute", "off") ∷ []) ∷ []) ∷ [];
}

louder_registered : expect louder idle ≡ some registered_louder
unfolding expect
louder_registered = refl

Handled-length_example :
    length (expectations registered_louder.events "event/player_volume_changed") ≤ 4
Handled-length_example =
    Handled-length idle registered_louder "event/player_volume_changed" refl
      (Handled.command louder Handled.start louder_registered)
