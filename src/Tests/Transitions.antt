-- ===== src/Tests/Transitions.antt =====
-- The transition policy and its gate at concrete observations.
use heos_control.Control.Safety.{observation_safety}
use heos_control.Control.Changes.{state_changes}
use heos_control.Prelude.{
  arith, ◌≡◌, ◌≢◌, ◌≤◌, ◌<◌, refl, true, false, none, [], ◌∷◌, inl, inr, ◌+◌, Time,
}
use heos_control.Heos.Values.{PlayState, Repeat}
use heos_control.Heos.Events.{EventKind, EventData}
use heos_control.Heos.Snapshot.{Snapshot}
use heos_control.Control.Transition.{
  QueueAction, QueuePolicyState, QueueObservationFacts, playback_confirmation_timeout,
  decide_queue_event, decide_queue_observation, is_active_queue, wait_deadline,
}
use heos_control.Control.Transition.Laws.{IsConfirmed, resume-IsConfirmed, wait_bounded}
use heos_control.Control.Transition.Await.{Moment, Round, Awaited, await, done}
use heos_control.Control.Transition.Await.Leave.{IsResumed}
use heos_control.Control.Transition.Await.Sound.{await-IsResumed}
use heos_control.Control.Transition.Await.Ends.{await-Ends}
use heos_control.Tests.Fixtures.{playing, stopped, next_playing, config}

-- An automated queue that waits until the instant 100.
abbrev waiting_queue : QueuePolicyState
waiting_queue = record {
  owned = true;
  automating = true;
  expected_state = PlayState.play;
  wait_until = 100;
  playback_until = 0;
}

abbrev facts_at : Time → Snapshot → QueueObservationFacts
facts_at now fresh = record {
  now = now;
  before = playing;
  observed = fresh;
  cancellation = none;
  unsafe = none;
  expired = false;
  pending_events = false;
}

resumes :
    (decide_queue_observation waiting_queue (facts_at 50 next_playing)).action ≡ QueueAction.resume
unfolding decide_queue_observation state_changes
resumes = refl

resume-IsConfirmed_example :
    IsConfirmed waiting_queue (facts_at 50 next_playing)
    × ((decide_queue_observation waiting_queue (facts_at 50 next_playing)).wait_until ≡ 0)
resume-IsConfirmed_example = resume-IsConfirmed waiting_queue (facts_at 50 next_playing) resumes

is_active : is_active_queue waiting_queue ≡ true
unfolding is_active_queue
is_active = refl

late : wait_deadline waiting_queue (facts_at 100 next_playing) ≤ 100
unfolding wait_deadline
late = omega arith

waits : (decide_queue_observation waiting_queue (facts_at 50 stopped)).action ≡ QueueAction.wait
unfolding decide_queue_observation state_changes
waits = refl

wait_bounded_example :
    (is_active_queue waiting_queue ≡ true)
    × (50 < (decide_queue_observation waiting_queue (facts_at 50 stopped)).deadline)
    × ((decide_queue_observation waiting_queue (facts_at 50 stopped)).deadline
        ≤ (decide_queue_observation waiting_queue (facts_at 50 stopped)).wait_until)
    × (waiting_queue.playback_until ≢ 0
        → (decide_queue_observation waiting_queue (facts_at 50 stopped)).deadline ≤ 0)
    × (waiting_queue.wait_until ≡ 0
        → (decide_queue_observation waiting_queue (facts_at 50 stopped)).wait_until
          ≡ 50 + playback_confirmation_timeout)
    × (waiting_queue.wait_until ≢ 0
        → (decide_queue_observation waiting_queue (facts_at 50 stopped)).wait_until
          ≡ waiting_queue.wait_until)
wait_bounded_example = wait_bounded waiting_queue (facts_at 50 stopped) waits

abbrev calm_queue : QueuePolicyState
calm_queue = record waiting_queue { wait_until = 0 }

abbrev stop_event : EventData
stop_event = record {
  kind = EventKind.state;
  player = "11";
  state = PlayState.stop;
  volume = 0;
  muted = false;
  repeat = Repeat.absent;
  shuffle = false;
  has_volume = false;
  has_mute = false;
  has_shuffle = false;
  has_progress = false;
  position = 0;
  duration = 0;
  valid = true;
}

is_attributed : (decide_queue_event calm_queue stop_event 7).action ≢ QueueAction.pass
unfolding decide_queue_event
is_attributed h = cc

abbrev at : Time → Moment
at now = record { now = now; cancellation = none; expired = false; pending_events = false }

-- The stop is waited out: the next observation plays the second track.
abbrev resumed_run : Awaited
resumed_run = record { fresh = next_playing; waited = true; err = none; queue_wait = 0 }

run :
    await config playing waiting_queue stopped false
      (at 50)
      (Round.observed next_playing (at 60) ∷ [])
    ≡ done resumed_run
unfolding await decide_queue_observation observation_safety state_changes
run = refl

await-IsResumed_example : IsResumed config playing resumed_run
await-IsResumed_example =
    await-IsResumed config playing waiting_queue stopped (at 50)
      (Round.observed next_playing (at 60) ∷ []) resumed_run run refl refl

await-Ends_example :
    (a : Awaited) × (await config playing waiting_queue stopped false
        (at 50)
        (Round.interrupted (at 60) ∷ Round.interrupted (at 100) ∷ [])
      ≡ done a)
await-Ends_example =
    await-Ends config playing waiting_queue stopped (at 50)
      (Round.interrupted (at 60) ∷ Round.interrupted (at 100) ∷ []) is_active
      (λ e. omega (arith, e)) (inr (inl (omega arith)))
