-- ===== src/Control/Changes.antt =====
-- internal/control/diagnostics.go, `stateChanges`: the controls in which two observations
-- differ, by the names that the evidence shows.
pub mod Same
use heos_control.Prelude.{
  Bool, ◌||◌, Option, none, some, List, [], ◌∷◌, ◌++◌, String, ◌!=◌, nat_eq, bool_eq, string_eq,
  option_eq, list_eq, if◌then◌else◌,
}
use heos_control.Heos.Values.{play_state_eq, repeat_eq}
use heos_control.Heos.Snapshot.{Media, Snapshot, player_eq, media_eq}

-- A row of either table: the name of a field and whether it changed.
unfoldable pub named : List (String × Bool) → List String
named [] = []
named ((name, changed) ∷ rows) =
    let others = named rows in if changed then name ∷ others else others

unfoldable pub media_changes : Option Media → Option Media → List String
unfolding named
media_changes none none = []
media_changes none (some b) = "media_presence" ∷ []
media_changes (some a) none = "media_presence" ∷ []
media_changes (some a) (some b) = named (
    ("media_source", a.source != b.source)
    ∷ ("media_id", a.id != b.id)
    ∷ ("media_queue_id", a.queue_id != b.queue_id)
    ∷ ("media_metadata", a.song != b.song || a.album != b.album || a.artist != b.artist)
    ∷ [])

-- The first table.
abbrev pub control_rows : Snapshot → Snapshot → List (String × Bool)
control_rows a b =
    ("repeat", a.repeat != b.repeat)
    ∷ ("shuffle", a.shuffle != b.shuffle)
    ∷ ("player_identity", a.player != b.player)
    ∷ ("grouped", a.grouped != b.grouped)
    ∷ ("state", a.state != b.state)
    ∷ ("volume", a.volume != b.volume)
    ∷ ("mute", a.muted != b.muted)
    ∷ ("queue_items", a.queue.items != b.queue.items)
    ∷ ("queue_total", a.queue.total != b.queue.total)
    ∷ []

unfoldable pub state_changes : Snapshot → Snapshot → List String
unfolding media_changes
state_changes a b = named (control_rows a b) ++ media_changes a.media b.media
