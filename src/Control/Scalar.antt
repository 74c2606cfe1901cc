-- ===== src/Control/Scalar.antt =====
-- internal/control/scalar_confirmation.go: the one pending change of volume, mute or play mode,
-- and the events that confirm it, repeat the old state or reverse it.
pub mod Laws
pub mod Confirm
pub mod Settle
use heos_control.Prelude.{
  ℕ, Bool, true, false, ◌&&◌, ◌||◌, not, Option, none, some, ◌==◌, ◌!=◌, bool_eq, option_eq, int_eq,
  if◌then◌else◌, ℤ, pos,
}
use heos_control.Heos.Values.{MutationKind, repeat_eq, mutation_kind_eq}
use heos_control.Heos.Snapshot.{Snapshot}
use heos_control.Heos.Events.{EventKind, EventData, event_kind_eq}
use heos_control.Heos.Mutations.{Mutation}

pub record ScalarConfirmation : Type 0 where
  pub command : Mutation
  pub observed : Snapshot
  pub volume_seen : Bool
  pub repeat_seen : Bool
  pub shuffle_seen : Bool

unfoldable pub scalar_mutation : Mutation → Bool
scalar_mutation m =
    m.kind == MutationKind.volume || m.kind == MutationKind.mute || m.kind == MutationKind.mode

-- A bounded level of an observation, as the `int` that a command holds.
abbrev pub level_of : Option ℕ → Option ℤ
level_of none = none
level_of (some n) = some (pos n)

new_of : MutationKind → Mutation → Snapshot → ScalarConfirmation → ScalarConfirmation
new_of MutationKind.volume m s p = record p {
  volume_seen = level_of s.volume == some m.level && s.muted == some false;
}
new_of MutationKind.mute m s p = record p { volume_seen = s.muted == some m.muted }
new_of MutationKind.mode m s p = record p {
  repeat_seen = s.repeat == m.repeat;
  shuffle_seen = s.shuffle == m.shuffle;
}
new_of _ m s p = p

unfoldable pub new_scalar_confirmation : Mutation → Snapshot → ScalarConfirmation
unfolding new_of
new_scalar_confirmation m before = new_of m.kind m before record {
  command = m;
  observed = before;
  volume_seen = false;
  repeat_seen = false;
  shuffle_seen = false;
}

-- `ready` of the pending change.
unfoldable pub is_ready : ScalarConfirmation → Bool
is_ready p =
    if p.command.kind == MutationKind.mode then p.repeat_seen && p.shuffle_seen else p.volume_seen

-- `result`: the expected state with the confirmed fields.
unfoldable pub scalar_result : ScalarConfirmation → Snapshot → Snapshot
scalar_result p s =
    if p.command.kind == MutationKind.mode
    then record s { repeat = p.observed.repeat; shuffle = p.observed.shuffle; event_updated = true }
    else record s { volume = p.observed.volume; muted = p.observed.muted; event_updated = true }

-- `confirmedVolumeEvent`, on the two fields of the expected state that it reads.
unfoldable pub confirmed_volume_event : EventData → Option ℤ → Option Bool → Bool
confirmed_volume_event d none muted = false
confirmed_volume_event d (some level) none = false
confirmed_volume_event d (some level) (some muted) =
    d.kind == EventKind.volume && d.valid && pos d.volume == level && d.muted == muted

unfoldable pub shows_volume : EventData → Snapshot → Bool
unfolding confirmed_volume_event
shows_volume d s = confirmed_volume_event d (level_of s.volume) s.muted

-- `want` of `acceptScalarEvent`, before a cleared mute is considered.
abbrev pub wanted_level : Mutation → Snapshot → Option ℤ
wanted_level m expected =
    if m.kind == MutationKind.volume then some m.level else level_of expected.volume

abbrev pub wanted_mute : Mutation → Snapshot → Option Bool
wanted_mute m expected = if m.kind == MutationKind.volume then expected.muted else some m.muted

unfoldable pub shows_target : EventData → Mutation → Snapshot → Bool
shows_target d m expected =
    confirmed_volume_event d (wanted_level m expected) (wanted_mute m expected)
    || m.kind == MutationKind.volume
      && expected.muted == some true
      && confirmed_volume_event d (wanted_level m expected) (some false)

-- What one event does: whether it is accepted, the pending change, and whether waiters are woken.
pub record ScalarVerdict : Type 0 where
  pub accepted : Bool
  pub pending : Option ScalarConfirmation
  pub signal : Bool

abbrev verdict : Bool → Option ScalarConfirmation → ScalarVerdict
verdict b p = record { accepted = b; pending = p; signal = false }

abbrev advance : ScalarConfirmation → ScalarVerdict
advance p = record { accepted = true; pending = some p; signal = is_ready p }

-- The volume case with a pending volume or mute. A match has shown that the event carries the
-- wanted values, so they are taken from it.
pub accept_volume : ScalarConfirmation → Snapshot → EventData → ScalarVerdict
unfolding shows_target shows_volume confirmed_volume_event is_ready
accept_volume p expected d =
    if not (shows_target d p.command expected)
    then verdict (not p.volume_seen && shows_volume d expected) (some p)
    else if p.volume_seen && not (shows_volume d p.observed)
    then verdict false (some p)
    else advance record p {
      observed = record p.observed { volume = some d.volume; muted = some d.muted };
      volume_seen = true;
    }

pub accept_repeat : ScalarConfirmation → Snapshot → EventData → ScalarVerdict
unfolding is_ready
accept_repeat p expected d =
    if d.repeat != p.command.repeat
    then verdict (not p.repeat_seen && d.repeat == expected.repeat) (some p)
    else advance record p { observed = record p.observed { repeat = d.repeat }; repeat_seen = true }

pub accept_shuffle : ScalarConfirmation → Snapshot → EventData → ScalarVerdict
unfolding is_ready
accept_shuffle p expected d =
    if d.shuffle != p.command.shuffle
    then verdict (not p.shuffle_seen && d.shuffle == expected.shuffle) (some p)
    else advance
        record p { observed = record p.observed { shuffle = d.shuffle }; shuffle_seen = true }

-- The switch with a pending change.
pub accept_pending : EventKind → ScalarConfirmation → Snapshot → EventData → ScalarVerdict
unfolding shows_volume
accept_pending EventKind.volume p expected d =
    if p.command.kind == MutationKind.mode
    then verdict (shows_volume d expected) (some p)
    else accept_volume p expected d
accept_pending EventKind.repeat p expected d =
    if p.command.kind != MutationKind.mode
    then verdict (d.repeat == expected.repeat) (some p)
    else accept_repeat p expected d
accept_pending EventKind.shuffle p expected d =
    if p.command.kind != MutationKind.mode
    then verdict (d.shuffle == expected.shuffle) (some p)
    else accept_shuffle p expected d
accept_pending _ p expected d = verdict false (some p)

-- The switch with none.
accept_unchanged : EventKind → Snapshot → EventData → Bool
unfolding shows_volume
accept_unchanged EventKind.volume expected d = shows_volume d expected
accept_unchanged EventKind.repeat expected d = d.repeat == expected.repeat
accept_unchanged EventKind.shuffle expected d = d.shuffle == expected.shuffle
accept_unchanged _ expected d = false

-- `acceptScalarEvent`.
unfoldable pub accept_scalar_event :
    Option ScalarConfirmation → Snapshot → EventData → ScalarVerdict
unfolding accept_pending accept_unchanged accept_volume accept_repeat accept_shuffle
accept_scalar_event none expected d = verdict (d.valid && accept_unchanged d.kind expected d) none
accept_scalar_event (some p) expected d =
    if not d.valid then verdict false (some p) else accept_pending d.kind p expected d
