-- ===== src/Tests/Skips.antt =====
-- Skips at concrete observations.
use heos_control.Heos.Values.{is_active}
use heos_control.Control.Queue.{queue_index}
use heos_control.Control.Membership.{queued_media, complete_queue_page}
use heos_control.Control.Changes.{state_changes}
use heos_control.Prelude.{◌≡◌, refl, true, none, some}
use heos_control.Control.Skip.{at_skip_boundary, skip_admissible, skip_confirmed}
use heos_control.Control.Skip.Laws.{
  HasNext, IsSkipped, skip_admissible-HasNext, skip_confirmed-IsSkipped,
}
use heos_control.Tests.Fixtures.{playing, next_playing}

admits_next : skip_admissible (some 60) "next" playing ≡ none
unfolding skip_admissible is_active complete_queue_page queued_media at_skip_boundary queue_index
admits_next = refl

skip_admissible-HasNext_example : HasNext playing
skip_admissible-HasNext_example = skip_admissible-HasNext (some 60) playing admits_next refl refl

confirms_next : skip_confirmed playing next_playing ≡ true
unfolding skip_confirmed is_active queued_media state_changes
confirms_next = refl

skip_confirmed-IsSkipped_example : IsSkipped playing next_playing
skip_confirmed-IsSkipped_example = skip_confirmed-IsSkipped playing next_playing confirms_next
