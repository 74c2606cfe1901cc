-- ===== src/Control/Transition.antt =====
-- internal/control/queue_policy.go and queue_transition.go: the policy for a track transition
-- inside an owned queue, as tables in which the first rule that applies decides.

pub mod Laws
pub mod Await
use heos_control.Prelude.{
  ◌+◌, ◌*◌, Bool, true, false, ◌&&◌, ◌||◌, not, Option, none, some, List, [], ◌∷◌, String, ◌==◌,
  ◌!=◌, nat_eq, Rule, first_rule, if◌then◌else◌, Time, second, is_zero, before, min_time,
}
use heos_control.Heos.Values.{PlayState, play_state_eq}
use heos_control.Heos.Snapshot.{Snapshot}
use heos_control.Heos.Events.{EventKind, EventData, event_kind_eq}
use heos_control.Control.Errors.{Err, failed}
use heos_control.Control.Changes.{state_changes}
use heos_control.Control.Membership.{
  empty_media, queued_media, queued_identity, transitional_queue_media,
}

pub data QueueAction : Type 0 where
  pass ignore observe wait resume release : QueueAction

pub record QueuePolicyState : Type 0 where
  pub owned : Bool
  pub automating : Bool
  pub expected_state : PlayState
  pub wait_until : Time
  pub playback_until : Time

pub record QueueObservationFacts : Type 0 where
  pub now : Time
  pub before : Snapshot
  pub observed : Snapshot
  pub cancellation : Option Err
  pub unsafe : Option Err
  pub expired : Bool
  pub pending_events : Bool

pub record QueueDecision : Type 0 where
  pub action : QueueAction
  pub rule : String
  pub wait_until : Time
  pub deadline : Time
  pub notify : Bool
  pub err : Option Err

abbrev pub playback_confirmation_timeout : Time
playback_confirmation_timeout = 12 * second

-- One row of the event table.
pub record EventRow : Type 0 where
  pub name : String
  pub action : QueueAction
  pub notify : Bool

abbrev pub row : Bool → String → QueueAction → Bool → Rule EventRow
row applies name action notify = record {
  applies = applies;
  outcome = record { name = name; action = action; notify = notify };
}

event_rules : QueuePolicyState → EventData → List (Rule EventRow)
event_rules s d =
    let waiting = not (is_zero s.wait_until) in
    let play = d.kind == EventKind.state && d.state == PlayState.play in
    let transition =
      d.kind == EventKind.state
      && s.automating
      && (d.state == PlayState.stop || d.state == PlayState.unknown) in
    row (not s.owned) "queue_not_owned" QueueAction.pass false
    ∷ row (d.kind == EventKind.now_playing) "media_notification" QueueAction.observe true
    ∷ row (play && s.expected_state != PlayState.play) "unexpected_play" QueueAction.pass waiting
    ∷ row (play && waiting) "play_requires_observation" QueueAction.observe true
    ∷ row play "play_unchanged" QueueAction.ignore false
    ∷ row (transition && waiting) "transport_already_pending" QueueAction.ignore false
    ∷ row transition "transport_transition" QueueAction.wait true
    ∷ []

abbrev pub no_event_rule : EventRow
no_event_rule = record { name = "event_not_attributed"; action = QueueAction.pass; notify = false }

abbrev pub is_wait : QueueAction → Bool
is_wait QueueAction.wait = true
is_wait _ = false

abbrev is_resume : QueueAction → Bool
is_resume QueueAction.resume = true
is_resume _ = false

-- `decideQueueEvent`; `d` is `event.Data()`. Its deadline and error keep Go's zero values.
unfoldable pub decide_queue_event : QueuePolicyState → EventData → Time → QueueDecision
unfolding event_rules
decide_queue_event s d now =
    let chosen = first_rule (event_rules s d) no_event_rule in
    record {
      action = chosen.action;
      rule = chosen.name;
      wait_until =
          if is_wait chosen.action then now + playback_confirmation_timeout else s.wait_until;
      deadline = 0;
      notify = chosen.notify;
      err = none;
    }

-- The state that `transitionChanges` substitutes, and the media.
unfoldable pub transition_baseline : Snapshot → Snapshot → Snapshot
unfolding empty_media queued_media queued_identity transitional_queue_media
transition_baseline a b =
    let pending_identity = b.state != PlayState.play && queued_identity a.queue b.media in
    if empty_media b.media
      || queued_media a.queue b.media
      || pending_identity
      || transitional_queue_media a.queue b.media
    then record a { state = b.state; media = b.media }
    else record a { state = b.state }

-- The states that the switch of `transitionChanges` lets stand for the expected one.
abbrev pub in_transition : PlayState → Bool
in_transition PlayState.stop = true
in_transition PlayState.unknown = true
in_transition PlayState.play = true
in_transition _ = false

unfoldable pub transition_changes : Snapshot → Snapshot → List String
unfolding transition_baseline
transition_changes a b =
    if a.token.generation != b.token.generation
    then "connection_generation" ∷ []
    else if in_transition b.state
    then state_changes (transition_baseline a b) b
    else "state" ∷ []

pub record ObservationRow : Type 0 where
  pub name : String
  pub action : QueueAction
  pub err : Option Err

abbrev rule : Bool → String → QueueAction → Option Err → Rule ObservationRow
rule applies name action err = record {
  applies = applies;
  outcome = record { name = name; action = action; err = err };
}

abbrev pub transition_timeout : Err
transition_timeout = Err.ownership "queue_transition_timeout" []

unfoldable pub is_active_queue : QueuePolicyState → Bool
is_active_queue s = s.owned && s.automating && s.expected_state == PlayState.play

unfoldable pub media_pending : QueueObservationFacts → Bool
unfolding transitional_queue_media
media_pending f =
    f.observed.state == PlayState.stop
    || f.observed.state == PlayState.unknown
    || f.observed.state == PlayState.play
      && transitional_queue_media f.before.queue f.observed.media

-- The end of the wait: the one in force, or a new one if a transition is seen to begin.
unfoldable pub wait_end : QueuePolicyState → QueueObservationFacts → Time
unfolding is_active_queue media_pending
wait_end s f =
    if is_active_queue s && media_pending f && is_zero s.wait_until
    then f.now + playback_confirmation_timeout
    else s.wait_until

unfoldable pub wait_deadline : QueuePolicyState → QueueObservationFacts → Time
unfolding wait_end
wait_deadline s f =
    if is_zero s.playback_until then wait_end s f else min_time (wait_end s f) s.playback_until

abbrev mismatch : List String → Option Err
mismatch [] = none
mismatch (f ∷ fs) = some (Err.ownership "queue_transition_changed" (f ∷ fs))

unfoldable pub controls_changed : QueuePolicyState → QueueObservationFacts → Option Err
unfolding is_active_queue wait_end transition_changes
controls_changed s f =
    if is_active_queue s && not (is_zero (wait_end s f))
    then mismatch (transition_changes f.before f.observed)
    else none

observation_rules : QueuePolicyState → QueueObservationFacts → List (Rule ObservationRow)
unfolding is_active_queue wait_end wait_deadline controls_changed queued_media
observation_rules s f =
    rule (not (is_active_queue s)) "outside_active_queue" QueueAction.pass none
    ∷ rule (is_zero (wait_end s f)) "no_transition" QueueAction.pass none
    ∷ rule (f.expired || not (before f.now (wait_deadline s f))) "transition_timeout"
        QueueAction.release (some transition_timeout)
    ∷ rule (failed f.cancellation) "operation_cancelled" QueueAction.release f.cancellation
    ∷ rule (failed f.unsafe) "observation_unsafe" QueueAction.release f.unsafe
    ∷ rule (failed (controls_changed s f)) "queue_controls_changed" QueueAction.release
        (controls_changed s f)
    ∷ rule
        (f.observed.state == PlayState.play
          && queued_media f.before.queue f.observed.media
          && not f.pending_events)
        "play_confirmed" QueueAction.resume none
    ∷ rule f.pending_events "events_pending" QueueAction.wait none
    ∷ rule (f.observed.state != PlayState.play) "transport_pending" QueueAction.wait none
    ∷ []

abbrev no_observation_rule : ObservationRow
no_observation_rule = record { name = "media_pending"; action = QueueAction.wait; err = none }

-- `decideQueueObservation`.
unfoldable pub decide_queue_observation : QueuePolicyState → QueueObservationFacts → QueueDecision
unfolding observation_rules wait_end wait_deadline
decide_queue_observation s f =
    let chosen = first_rule (observation_rules s f) no_observation_rule in
    record {
      action = chosen.action;
      rule = chosen.name;
      wait_until = if is_resume chosen.action then 0 else wait_end s f;
      deadline = wait_deadline s f;
      notify = false;
      err = chosen.err;
    }
