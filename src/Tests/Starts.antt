-- ===== src/Tests/Starts.antt =====
-- The queue start policy at concrete observations.
use heos_control.Control.Changes.{state_changes}
use heos_control.Prelude.{◌≡◌, refl, true, false, none, some, inl, Time}
use heos_control.Heos.Snapshot.{Snapshot}
use heos_control.Control.Queue.{ordered_queue}
use heos_control.Control.Start.{
  queue_state_pending, queue_result_problem, queue_loading_items, queue_loading_controls,
  QueueStartPhase, QueueStartAction, QueueStartFacts, start_observation,
}
use heos_control.Control.Start.Laws.{IsStarted, start_observation-IsStarted, start_no_return}
use heos_control.Tests.Fixtures.{playing, stopped, plan, two_tracks}

abbrev starting : Time → QueueStartPhase → Snapshot → QueueStartFacts
starting now phase fresh = record {
  now = now;
  deadline = 100;
  phase = phase;
  bounded = true;
  members = plan;
  before = stopped;
  observed = fresh;
  cancellation = none;
  unsafe = none;
  pending_events = false;
}

confirmed :
    (start_observation (starting 50 QueueStartPhase.awaiting_play playing) (some plan)).action
    ≡ QueueStartAction.confirm
unfolding start_observation queue_loading_controls state_changes queue_state_pending
    queue_loading_items queue_result_problem ordered_queue
confirmed = refl

start_observation-IsStarted_example :
    IsStarted (starting 50 QueueStartPhase.awaiting_play playing)
    × (ordered_queue two_tracks plan ≡ true)
start_observation-IsStarted_example =
    start_observation-IsStarted (starting 50 QueueStartPhase.awaiting_play playing) plan confirmed

start_no_return_example :
    (start_observation (starting 50 QueueStartPhase.play_observed stopped) none).action
    ≡ QueueStartAction.abort
start_no_return_example =
    start_no_return (starting 50 QueueStartPhase.play_observed stopped) none refl (inl refl)
