-- ===== src/Heos/Observer/Updates.antt =====
-- internal/heos: the observer over any sequence of events and reads.
use heos_control.Prelude.{
  ◌≡◌, subst, ◌||◌, not, Option, none, some, ◌!=◌, if_both, if◌then◌else◌, Time, string_eq, nat_eq,
}
use heos_control.Heos.Values.{PlayState, MutationKind}
use heos_control.Heos.Snapshot.{Token, Media, Snapshot, token_eq}
use heos_control.Heos.Events.{Event}
use heos_control.Heos.Observer.{Observer, ClientView, notify, pending_fields}
use heos_control.Heos.Observer.Reads.{
  confirm_blocked, write_unknown, incomplete_scalars, with_scalars, publish_media, publish_playback,
  publish_scalars, confirm_scalars, publish_full, projection_baseline_valid, scalar_baseline_valid,
}
use heos_control.Heos.Observer.Playheads.{IsLocated, notify-IsLocated, playhead-Located}

-- What the observer goes through: an event, or a read that was published.
pub data Updated (o : Observer) : Observer → Type 0 where
  start : Updated o o
  notified :
      {p : Observer} (view : ClientView) (e : Event) (now : Time)
      → Updated o p
      → Updated o (notify p view e now)
  media :
      {p q : Observer} (view : ClientView) (s : Snapshot) (token : Token) (m : Media)
      → Updated o p
      → publish_media p view s token m ≡ some q
      → Updated o q
  playback :
      {p q : Observer} (view : ClientView) (s : Snapshot) (state : PlayState) (m : Media)
      (now : Time)
      → Updated o p
      → publish_playback p view s state m now ≡ some q
      → Updated o q
  scalars :
      {p q : Observer} (view : ClientView) (prior : Token) (s : Snapshot) (k : MutationKind)
      (now : Time)
      → Updated o p
      → publish_scalars p view prior s k now ≡ some q
      → Updated o q
  confirmed :
      {p q : Observer} (view : ClientView) (s : Snapshot) (now : Time)
      → Updated o p
      → confirm_scalars p view s now ≡ some q
      → Updated o q
  full :
      {p q : Observer} (view : ClientView) (s : Snapshot)
      → Updated o p
      → publish_full p view s ≡ some q
      → Updated o q

-- A published read keeps the position with its media.
abbrev Publishes : Option Observer → Type 0
Publishes none = Unit
Publishes (some q) = IsLocated q.last

module _ (o : Observer) (view : ClientView) (s : Snapshot) where
  media-Publishes : (token : Token) (m : Media) → Publishes (publish_media o view s token m)
  unfolding publish_media
  media-Publishes token m =
      if_both Publishes
        (o.invalid
          || o.last.token != s.token
          || token != s.token
          || view.token != s.token
          || not view.connected)
        _ _ tt (playhead-Located o (some m) s.state)

  playback-Publishes :
      (state : PlayState) (m : Media) (now : Time)
      → Publishes (publish_playback o view s state m now)
  unfolding publish_playback
  playback-Publishes state m now =
      if_both Publishes
        (not (projection_baseline_valid o o.last now)
          || pending_fields o.write_pending
          || o.last.token != s.token
          || not view.connected
          || view.token != s.token)
        _ _ tt (playhead-Located o (some m) state)

  scalars-Publishes :
      (prior : Token) (k : MutationKind) (now : Time)
      → Publishes (publish_scalars o view prior s k now)
  unfolding publish_scalars
  scalars-Publishes prior k now =
      if_both Publishes
        (not (scalar_baseline_valid o o.last now)
          || o.last.token != prior
          || not view.connected
          || view.token != s.token)
        _ _ tt (playhead-Located o s.media s.state)

  full-Publishes : Publishes (publish_full o view s)
  unfolding publish_full
  full-Publishes =
      if_both Publishes (s.queue.token != s.token || view.token != s.token || not view.connected) _
        _ tt (playhead-Located o s.media s.state)

  confirmed-Publishes : (now : Time) → IsLocated o.last → Publishes (confirm_scalars o view s now)
  unfolding confirm_scalars
  confirmed-Publishes now l =
      let stored = some (with_scalars o s) in
      let complete = if incomplete_scalars s then none else stored in
      if_both Publishes (confirm_blocked o view s now) none
        (if write_unknown o view s then none else complete) tt
        (if_both Publishes (write_unknown o view s) none complete tt
          (if_both Publishes (incomplete_scalars s) none stored tt l))

-- Through any sequence of events and published reads, a position that the observer shows belongs to the
-- media that it shows, by its source, its id and its queue id, and is shown only while the transport
-- plays or pauses.
pub Updated-IsLocated : (o p : Observer) → IsLocated o.last → Updated o p → IsLocated p.last
Updated-IsLocated o p l Updated.start = l
Updated-IsLocated o p l (Updated.notified {p = q} view e now run) =
    notify-IsLocated q view e now (Updated-IsLocated o q l run)
Updated-IsLocated o p l (Updated.media {p = q} view s token m run h) =
    subst Publishes h (media-Publishes q view s token m)
Updated-IsLocated o p l (Updated.playback {p = q} view s state m now run h) =
    subst Publishes h (playback-Publishes q view s state m now)
Updated-IsLocated o p l (Updated.scalars {p = q} view prior s k now run h) =
    subst Publishes h (scalars-Publishes q view s prior k now)
Updated-IsLocated o p l (Updated.confirmed {p = q} view s now run h) =
    subst Publishes h (confirmed-Publishes q view s now (Updated-IsLocated o q l run))
Updated-IsLocated o p l (Updated.full {p = q} view s run h) =
    subst Publishes h (full-Publishes q view s)
