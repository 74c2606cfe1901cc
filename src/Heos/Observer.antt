-- ===== src/Heos/Observer.antt =====
-- internal/heos/observation_events.go, observations.go and scalar_observation.go: the observer of one
-- player, which keeps a full read up to date by events and gives it up where it cannot.
pub mod Reads
pub mod Playheads
pub mod Replay
pub mod Updates
use heos_control.Prelude.{
  ℕ, ◌+◌, Bool, true, false, ◌&&◌, ◌||◌, not, Option, none, some, String, ◌==◌, ◌!=◌, nat_eq,
  string_eq, bool_eq, if◌then◌else◌, ltb, leb, Time,
}
use heos_control.Heos.Values.{
  PlayState, MutationKind, is_active, play_state_eq, repeat_eq, mutation_kind_eq,
}
use heos_control.Heos.Snapshot.{Token, Media, Playhead, Snapshot, same_global, token_eq}
use heos_control.Heos.Events.{EventKind, EventData, Event, data_of, event_kind_eq}
use heos_control.Heos.Mutations.{Mutation}

-- `observedFields`, one Boolean for each bit.
pub record ObservedFields : Type 0 where
  pub volume : Bool
  pub repeat : Bool
  pub shuffle : Bool
  pub other : Bool

abbrev pub no_fields : ObservedFields
no_fields = record { volume = false; repeat = false; shuffle = false; other = false }

abbrev pub pending_fields : ObservedFields → Bool
pending_fields f = f.volume || f.repeat || f.shuffle || f.other

-- `a &^ b`.
abbrev pub without : ObservedFields → ObservedFields → ObservedFields
without a b = record {
  volume = a.volume && not b.volume;
  repeat = a.repeat && not b.repeat;
  shuffle = a.shuffle && not b.shuffle;
  other = a.other && not b.other;
}

-- What the client holds about the player when it is asked: `PlayerView` and the last write.
pub record ClientView : Type 0 where
  pub connected : Bool
  pub token : Token
  pub write_revision : ℕ
  pub write_mutation : Mutation
  pub progress_sequence : ℕ

pub record Observer : Type 0 where
  pub serial : String
  pub ttl : Time
  pub last : Snapshot
  pub invalid : Bool
  pub media_pending : Bool
  pub write_pending : ObservedFields
  pub progress_after : ℕ
  pub refresh_requested : Bool

-- The snapshot is not from the future and not older than the limit.
unfoldable pub is_fresh : Observer → Time → Bool
is_fresh o now = leb o.last.observed_at now && ltb now (o.last.observed_at + o.ttl)

unfoldable pub covered_event : Token → Token → Bool
covered_event event snapshot =
    if event.generation != snapshot.generation
    then ltb event.generation snapshot.generation
    else if event.revision != snapshot.revision
    then ltb event.revision snapshot.revision
    else event.catalog == snapshot.catalog
      && leb event.player snapshot.player
      && leb event.write snapshot.write

write_fields_of : MutationKind → Snapshot → Mutation → ObservedFields
write_fields_of MutationKind.volume s m = record no_fields { volume = true }
write_fields_of MutationKind.mute s m = record no_fields { volume = true }
write_fields_of MutationKind.mode s m = record no_fields {
  repeat = s.repeat != m.repeat;
  shuffle = s.shuffle != m.shuffle;
}
write_fields_of _ s m = record no_fields { other = true }

unfoldable pub changed_write_fields : Snapshot → Mutation → ObservedFields
unfolding write_fields_of
changed_write_fields s m = write_fields_of m.kind s m

unfoldable pub observed_event_fields : EventKind → ObservedFields
observed_event_fields EventKind.volume = record no_fields { volume = true }
observed_event_fields EventKind.repeat = record no_fields { repeat = true }
observed_event_fields EventKind.shuffle = record no_fields { shuffle = true }
observed_event_fields _ = no_fields

-- The switch of `applyObservedEvent`.
apply_kind : EventKind → EventData → Snapshot → Option Snapshot
apply_kind EventKind.state d s =
    if d.state == PlayState.stop || d.state == PlayState.unknown
    then some (record s { state = d.state; media_stale = true; playhead = none })
    else some (record s { state = d.state })
apply_kind EventKind.volume d s = some (record s { volume = some d.volume; muted = some d.muted })
apply_kind EventKind.repeat d s = some (record s { repeat = d.repeat })
apply_kind EventKind.shuffle d s = some (record s { shuffle = d.shuffle })
apply_kind EventKind.now_playing d s = some (record s { media_stale = true })
apply_kind _ d s = none

-- `applyObservedEvent`: the snapshot with the event's values, or nothing applied.
unfoldable pub apply_observed_event : EventData → Snapshot → Option Snapshot
unfolding apply_kind
apply_observed_event d s = if d.valid then apply_kind d.kind d s else none

recordable_media : Option Media → Bool
recordable_media none = false
recordable_media (some m) = true

unfoldable pub progress_recordable : Observer → ClientView → String → Token → Time → Bool
unfolding recordable_media is_active is_fresh same_global
progress_recordable o view player token now =
    let s = o.last in
    not (
      o.invalid
      || o.media_pending
      || s.media_stale
      || not (recordable_media s.media)
      || player == ""
      || player != s.player.id)
    && is_active s.state
    && (view.connected
        && same_global view.token s.token
        && view.token.player == s.token.player
        && same_global token s.token
        && token.player == s.token.player
        && is_fresh o now)

sample : Option Media → EventData → Time → Option Playhead
sample none d now = none
sample (some m) d now = some record {
  position_ms = d.position;
  duration_ms = d.duration;
  at = now;
  source = m.source;
  media = m.id;
  queue = m.queue_id;
}

-- `recordProgress`.
unfoldable pub record_progress : Observer → ClientView → Event → Time → Observer
unfolding sample progress_recordable
record_progress o view e now =
    let d = data_of e in
    if leb e.progress_sequence o.progress_after
      || not (progress_recordable o view d.player e.token now)
    then o
    else record o {
      progress_after = e.progress_sequence;
      last = record o.last { playhead = sample o.last.media d now };
    }

-- The tests of `Notify` before the write counter is looked at.
unfoldable pub follows : Observer → ClientView → Event → Time → Bool
unfolding is_fresh same_global
follows o view e now =
    let d = data_of e in
    not e.gap
    && not o.invalid
    && view.connected
    && same_global view.token o.last.token
    && same_global e.token o.last.token
    && e.token.player == o.last.token.player + 1
    && d.player == o.last.player.id
    && d.valid
    && is_fresh o now

-- A write that the snapshot has not seen must be exactly the client's last one.
unfoldable pub write_known : Observer → ClientView → Event → Bool
write_known o view e =
    e.token.write == o.last.token.write
    || e.token.write == o.last.token.write + 1 && view.write_revision == e.token.write

unfoldable pub write_pending_after : Observer → ClientView → Event → ObservedFields
unfolding changed_write_fields
write_pending_after o view e =
    if e.token.write != o.last.token.write
    then changed_write_fields o.last view.write_mutation
    else o.write_pending

unfoldable pub invalidate : Observer → Observer
invalidate o = record o { invalid = true; refresh_requested = true }

-- What an event that continues the history leaves.
abbrev pub advanced : Observer → ClientView → Event → Snapshot → Observer
advanced o view e s =
    let media = (data_of e).kind == EventKind.now_playing in
    record o {
      last = record s { token = e.token; event_updated = true };
      write_pending =
          without (write_pending_after o view e) (observed_event_fields (data_of e).kind);
      media_pending = o.media_pending || media;
      refresh_requested = o.refresh_requested || media;
    }

-- An event that cannot be applied invalidates; the fields of a known write are marked all the same.
applied : Observer → ClientView → Event → Option Snapshot → Observer
unfolding write_pending_after invalidate observed_event_fields
applied o view e none = invalidate (record o { write_pending = write_pending_after o view e })
applied o view e (some s) = advanced o view e s

-- The events that `Notify` ends with before it looks at the history.
unfoldable pub skipped_event : Observer → Event → Bool
unfolding covered_event same_global
skipped_event o e =
    let d = data_of e in
    not e.gap
    && (covered_event e.token o.last.token
        || same_global e.token o.last.token && d.player != "" && d.player != o.last.player.id)

-- `Notify`.
unfoldable pub notify : Observer → ClientView → Event → Time → Observer
unfolding applied record_progress invalidate
notify o view e now =
    let d = data_of e in
    if not e.gap && d.kind == EventKind.progress && d.valid
    then (if d.has_progress then record_progress o view e now else o)
    else if skipped_event o e
    then o
    else if follows o view e now && write_known o view e
    then applied o view e (apply_observed_event d o.last)
    else invalidate o
