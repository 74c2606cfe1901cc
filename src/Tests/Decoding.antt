-- ===== src/Tests/Decoding.antt =====
-- The decoder of notifications at a concrete event.
use heos_control.Heos.Numbers.{parse_uint}
use heos_control.Prelude.{◌≡◌, refl, [], ◌∷◌}
use heos_control.Heos.Events.{one, event_kind, Values, decode_event_data}
use heos_control.Heos.Events.Bounds.{IsInRange, decode_event_data-IsInRange}

abbrev progress : Values
progress = ("pid", "11" ∷ []) ∷ ("cur_pos", "5000" ∷ []) ∷ ("duration", "90000" ∷ []) ∷ []

position_read : (decode_event_data "event/player_now_playing_progress" progress).position ≡ 5000
unfolding decode_event_data event_kind parse_uint one
position_read = refl

decode_event_data-IsInRange_example :
    IsInRange (decode_event_data "event/player_now_playing_progress" progress)
decode_event_data-IsInRange_example =
    decode_event_data-IsInRange "event/player_now_playing_progress" progress
