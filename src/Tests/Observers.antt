-- ===== src/Tests/Observers.antt =====
-- The observer of a playing device: a progress report, a duplicate and a new volume.
use heos_control.Heos.Numbers.{parse_uint, atoi}
use heos_control.Prelude.{◌≡◌, refl, true, false, some, List, [], ◌∷◌, map}
use heos_control.Heos.Events.{event_kind, decode_event_data, choice, Event, data_of}
use heos_control.Heos.Observer.{
  write_known, skipped_event, follows, apply_observed_event, Observer, ClientView, notify,
  no_fields,
}
use heos_control.Heos.Observer.Playheads.{IsLocated}
use heos_control.Heos.Observer.Updates.{Updated, Updated-IsLocated}
use heos_control.Heos.Observer.Replay.{Notice, notifies, IsReplay, event_of, notifies-IsReplay}
use heos_control.Tests.Fixtures.{playing, token}
use heos_control.Tests.Attributions.{louder, volume_changed}

abbrev observer : Observer
observer = record {
  serial = "ABC";
  ttl = 100;
  last = playing;
  invalid = false;
  media_pending = false;
  write_pending = no_fields;
  progress_after = 0;
  refresh_requested = false;
}

abbrev client : ClientView
client = record {
  connected = true;
  token = record token { player = 5; write = 6 };
  write_revision = 6;
  write_mutation = louder;
  progress_sequence = 2;
}

abbrev before_write : ClientView
before_write = record client { token = token; write_revision = 5 }

abbrev progressed : Event
progressed = record {
  command = "event/player_now_playing_progress";
  params = ("pid", "11" ∷ []) ∷ ("cur_pos", "5000" ∷ []) ∷ ("duration", "90000" ∷ []) ∷ [];
  token = token;
  gap = false;
  progress_sequence = 1;
}

abbrev notices : List Notice
notices =
    record { view = before_write; event = progressed; now = 8 }
    ∷ record { view = client; event = volume_changed "30"; now = 9 }
    ∷ record { view = client; event = volume_changed "30"; now = 9 }
    ∷ []

still_valid : (notifies observer notices).invalid ≡ false
unfolding notifies notify data_of decode_event_data event_kind choice atoi skipped_event parse_uint
    follows write_known apply_observed_event
still_valid = refl

new_level : (notifies observer notices).last.volume ≡ some 30
unfolding notifies notify data_of decode_event_data event_kind choice atoi skipped_event parse_uint
    follows write_known apply_observed_event
new_level = refl

notifies-IsReplay_example : IsReplay observer (notifies observer notices) (map event_of notices)
notifies-IsReplay_example = notifies-IsReplay observer notices still_valid

Updated-IsLocated_example : IsLocated (notify observer before_write progressed 8).last
Updated-IsLocated_example =
    Updated-IsLocated observer (notify observer before_write progressed 8) tt
      (Updated.notified before_write progressed 8 Updated.start)
