-- ===== src/Heos/Observer/Reads.antt =====
-- internal/heos/observations.go, observation_events.go, scalar_observation.go and
-- playback_observation.go: what a read of the device may replace in the observer, and the snapshot
-- that it hands out. A read is given by the values that it decoded.
use heos_control.Prelude.{
  ℕ, ◌+◌, Bool, true, false, ◌&&◌, ◌||◌, not, Option, none, some, ◌==◌, ◌!=◌, nat_eq, string_eq,
  if◌then◌else◌, leb, ltb, Time,
}
use heos_control.Heos.Values.{PlayState, MutationKind, is_active, repeat_known}
use heos_control.Heos.Snapshot.{Token, Media, Playhead, Snapshot, same_global, token_eq}
use heos_control.Heos.Observer.{
  Observer, ObservedFields, ClientView, no_fields, pending_fields, without, is_fresh,
}

abbrev same_identity : Media → Media → Bool
same_identity a b = a.source == b.source && a.id == b.id && a.queue_id == b.queue_id

abbrev pub kept_media : Option Media → Option Media → Bool
kept_media (some a) (some b) = same_identity a b
kept_media (some a) none = false
kept_media none b = false

abbrev pub kept_sample : Option Playhead → Option Media → Option Playhead
kept_sample (some p) (some m) =
    if p.source == m.source && p.media == m.id && p.queue == m.queue_id then some p else none
kept_sample (some p) none = none
kept_sample none m = none

-- Whether `playheadForMedia` keeps the media identity.
unfoldable pub keeps_media : Observer → Option Media → PlayState → Bool
unfolding is_active
keeps_media o media state =
    kept_media o.last.media media && is_active o.last.state && is_active state

-- The two results of `playheadForMedia`: the sample, and the sequence below which samples are old.
unfoldable pub playhead_for_media : Observer → Option Media → PlayState → Option Playhead
unfolding keeps_media
playhead_for_media o media state =
    if keeps_media o media state then kept_sample o.last.playhead media else none

unfoldable pub progress_fence : Observer → ClientView → Option Media → PlayState → ℕ
unfolding keeps_media
progress_fence o view media state =
    if keeps_media o media state then o.progress_after else view.progress_sequence

-- `Snapshot`.
unfoldable pub snapshot : Observer → ClientView → Time → Snapshot
unfolding is_fresh
snapshot o view now =
    let stale =
      o.invalid
      || o.media_pending
      || pending_fields o.write_pending
      || not view.connected
      || view.token != o.last.token
      || not (is_fresh o now) in
    record o.last {
      connected = view.connected;
      stale = stale;
      verified = not stale && o.last.player.serial == o.serial;
    }

unfoldable pub projection_baseline_valid : Observer → Snapshot → Time → Bool
projection_baseline_valid o s now =
    not o.invalid
    && (leb s.observed_at now && ltb now (s.observed_at + o.ttl))
    && s.player.id != ""
    && s.player.serial == o.serial

unfoldable pub scalar_baseline_valid : Observer → Snapshot → Time → Bool
unfolding projection_baseline_valid
scalar_baseline_valid o s now = not o.media_pending && projection_baseline_valid o s now

unfoldable pub scalar_fields : MutationKind → ObservedFields
scalar_fields MutationKind.volume = record no_fields { volume = true }
scalar_fields MutationKind.mute = record no_fields { volume = true }
scalar_fields MutationKind.mode = record no_fields { repeat = true; shuffle = true }
scalar_fields _ = no_fields

-- The end of `refreshMedia`: `s` is the snapshot at its start, `token` that of the response.
unfoldable pub publish_media : Observer → ClientView → Snapshot → Token → Media → Option Observer
unfolding playhead_for_media progress_fence is_active
publish_media o view s token media =
    if o.invalid
      || o.last.token != s.token
      || token != s.token
      || view.token != s.token
      || not view.connected
    then none
    else some record o {
      last = record s {
        media = some media;
        media_stale = not (is_active s.state);
        playhead = playhead_for_media o (some media) s.state;
        event_updated = true;
      };
      progress_after = progress_fence o view (some media) s.state;
      media_pending = false;
    }

-- The end of `RefreshPlayback`, without its context.
unfoldable pub publish_playback :
    Observer → ClientView → Snapshot → PlayState → Media → Time → Option Observer
unfolding projection_baseline_valid playhead_for_media progress_fence is_active
publish_playback o view s state media now =
    if not (projection_baseline_valid o o.last now)
      || pending_fields o.write_pending
      || o.last.token != s.token
      || not view.connected
      || view.token != s.token
    then none
    else some record o {
      last = record s {
        state = state;
        media = some media;
        event_updated = true;
        media_stale = not (is_active state);
        playhead = playhead_for_media o (some media) state;
      };
      progress_after = progress_fence o view (some media) state;
      media_pending = false;
    }

-- The end of `RefreshScalars`: `prior` is the token at its start, and `s` has the values read.
unfoldable pub publish_scalars :
    Observer → ClientView → Token → Snapshot → MutationKind → Time → Option Observer
unfolding scalar_baseline_valid playhead_for_media progress_fence scalar_fields
publish_scalars o view prior s kind now =
    if not (scalar_baseline_valid o o.last now)
      || o.last.token != prior
      || not view.connected
      || view.token != s.token
    then none
    else some record o {
      last = record s { playhead = playhead_for_media o s.media s.state; event_updated = true };
      progress_after = progress_fence o view s.media s.state;
      write_pending = without o.write_pending (scalar_fields kind);
    }

abbrev in_level : Option ℕ → Bool
in_level none = false
in_level (some n) = leb n 100

abbrev given : Option Bool → Bool
given none = false
given (some b) = true

-- The three tests of `ConfirmScalars`, in order, and what it stores.
unfoldable pub confirm_blocked : Observer → ClientView → Snapshot → Time → Bool
unfolding scalar_baseline_valid same_global
confirm_blocked o view s now =
    not (scalar_baseline_valid o o.last now)
    || not view.connected
    || view.token != s.token
    || not (same_global o.last.token s.token)
    || s.player.id != o.last.player.id
    || s.player.serial != o.last.player.serial
    || ltb s.observed_at o.last.observed_at
    || o.write_pending.other

unfoldable pub write_unknown : Observer → ClientView → Snapshot → Bool
unfolding scalar_fields
write_unknown o view s =
    o.last.token.write != s.token.write
    && (view.write_revision != s.token.write
        || not (pending_fields (scalar_fields view.write_mutation.kind)))

unfoldable pub incomplete_scalars : Snapshot → Bool
unfolding repeat_known
incomplete_scalars s = not (in_level s.volume) || not (given s.muted) || not (repeat_known s.repeat)

abbrev pub with_scalars : Observer → Snapshot → Observer
with_scalars o s = record o {
  last = record o.last {
    volume = s.volume;
    muted = s.muted;
    repeat = s.repeat;
    shuffle = s.shuffle;
    token = s.token;
    event_updated = true;
  };
  write_pending = no_fields;
}

-- `ConfirmScalars`; its two errors are one here.
unfoldable pub confirm_scalars : Observer → ClientView → Snapshot → Time → Option Observer
unfolding confirm_blocked write_unknown incomplete_scalars
confirm_scalars o view s now =
    if confirm_blocked o view s now
    then none
    else if write_unknown o view s
    then none
    else if incomplete_scalars s
    then none
    else some (with_scalars o s)

-- The end of a full `refresh`: `s` has the values read, its queue's token included.
unfoldable pub publish_full : Observer → ClientView → Snapshot → Option Observer
unfolding playhead_for_media
publish_full o view s =
    if s.queue.token != s.token || view.token != s.token || not view.connected
    then none
    else some record o {
      last = record s { playhead = playhead_for_media o s.media s.state };
      progress_after = view.progress_sequence;
      invalid = false;
      media_pending = false;
      write_pending = no_fields;
    }
