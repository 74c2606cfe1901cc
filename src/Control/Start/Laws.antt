-- ===== src/Control/Start/Laws.antt =====
-- What the queue start policy confirms and how it stops.
use heos_control.Prelude.{
  ◌≡◌, ◌≢◌, ◌≤◌, ◌<◌, Bool, true, false, Option, none, some, List, [], String, arith, contains, any,
  ◌&&◌, not, refl, ◌==◌, !=→≡, ==→≡, string_eq, ◌⊎◌,
}
use heos_control.Heos.Values.{PlayState}
use heos_control.Heos.Snapshot.{Media, Snapshot}
use heos_control.Control.Membership.{queue_source, queued_media, complete_owned_queue}
use heos_control.Control.Queue.{ordered_queue}
use heos_control.Control.Start.{
  QueueStartPhase, QueueStartAction, QueueStartFacts, decide_queue_start, start_observation,
  queue_loading_controls, queue_result_problem, problem_text, unselected, queue_state_pending,
}

-- The observation shows the selected queue playing.
pub record IsSelected (s : Snapshot) (members : List String) (bounded : Bool) : Type 0 where
  pub media :
      (m : Media) × (s.media ≡ some m) × (m.source ≡ queue_source) × (contains m.id members ≡ true)
  pub tracks : any (λ (t : Media). not (contains t.id members)) s.queue.items ≡ false
  pub complete : bounded ≡ true → complete_owned_queue s.queue members ≡ true
  pub member : bounded ≡ true → queued_media s.queue s.media ≡ true

problem_text-none :
    (a b c d : Bool)
    → problem_text a b c d ≡ ""
    → (a ≡ false) × (b ≡ false) × (c ≡ false) × (d ≡ false)
unfolding problem_text
problem_text-none true b c d h = cc
problem_text-none false true c d h = cc
problem_text-none false false true d h = cc
problem_text-none false false false true h = cc
problem_text-none false false false false h = (refl, refl, refl, refl)

selected_media :
    (members : List String) (o : Option Media)
    → unselected members o ≡ false
    → (m : Media) × (o ≡ some m) × (m.source ≡ queue_source) × (contains m.id members ≡ true)
selected_media members none h = cc
selected_media members (some m) h =
    (m, refl, !=→≡ m.source queue_source (ground arith), ground arith)

and_not : (a b : Bool) → (a && not b) ≡ false → a ≡ true → b ≡ true
and_not a b h e = ground arith

result-IsSelected :
    (s : Snapshot) (members : List String) (bounded : Bool)
    → queue_result_problem s members bounded ≡ ""
    → IsSelected s members bounded
unfolding queue_result_problem
result-IsSelected s members bounded h =
    let r =
      problem_text-none (unselected members s.media)
        (any (λ (t : Media). not (contains t.id members)) s.queue.items)
        (bounded && not (complete_owned_queue s.queue members))
        (bounded && not (queued_media s.queue s.media)) h in
    record {
      media = selected_media members s.media r.0;
      tracks = r.1;
      complete = and_not bounded (complete_owned_queue s.queue members) r.2;
      member = and_not bounded (queued_media s.queue s.media) r.3;
    }

-- A queue start is confirmed only on Play of the selected queue, before the deadline, with no
-- cancellation, no unsafe reading, no other control changed and every event read.
pub record IsStarted (f : QueueStartFacts) : Type 0 where
  pub phase : f.phase ≢ QueueStartPhase.not_starting
  pub in_time : f.now < f.deadline
  pub not_cancelled : f.cancellation ≡ none
  pub is_safe : f.unsafe ≡ none
  pub controls : queue_loading_controls f.before f.observed ≡ []
  pub plays : f.observed.state ≡ PlayState.play
  pub selected : IsSelected f.observed f.members f.bounded
  pub events_read : f.pending_events ≡ false

module _ (f : QueueStartFacts) where
  confirm_facts :
      (decide_queue_start f).action ≡ QueueStartAction.confirm
      → (f.phase ≢ QueueStartPhase.not_starting)
        × (f.now < f.deadline)
        × (f.cancellation ≡ none)
        × (f.unsafe ≡ none)
        × (queue_loading_controls f.before f.observed ≡ [])
        × (f.observed.state ≡ PlayState.play)
        × ((queue_result_problem f.observed f.members f.bounded == "") ≡ true)
        × (f.pending_events ≡ false)
  unfolding decide_queue_start
  confirm_facts h = ground arith

  confirm-IsStarted : (decide_queue_start f).action ≡ QueueStartAction.confirm → IsStarted f
  confirm-IsStarted h =
      let t = confirm_facts h in
      record {
        phase = t.0;
        in_time = t.1;
        not_cancelled = t.2;
        is_safe = t.3;
        controls = t.4;
        plays = t.5;
        selected =
            result-IsSelected f.observed f.members f.bounded
              (==→≡ (queue_result_problem f.observed f.members f.bounded) "" t.6);
        events_read = t.7;
      }

  -- A queue start is confirmed only as `IsStarted` says and, where the plan orders the tracks, on
  -- a queue that is exactly the plan.
  pub start_observation-IsStarted :
      (ids : List String)
      → (start_observation f (some ids)).action ≡ QueueStartAction.confirm
      → IsStarted f × (ordered_queue f.observed.queue ids ≡ true)
  unfolding start_observation
  start_observation-IsStarted ids h = (confirm-IsStarted (ground arith), ground arith)

  -- At its deadline a start that is under way is given up, whatever is observed.
  pub start_ends :
      (ordered : Option (List String))
      → f.deadline ≤ f.now
      → (start_observation f ordered).action ≡ QueueStartAction.abort
  unfolding start_observation
  start_ends ordered late = ground arith

  -- Once Play was seen, a Stop or a Pause ends the start: the loading allowance is gone.
  pub start_no_return :
      (ordered : Option (List String))
      → f.phase ≡ QueueStartPhase.play_observed
      → (f.observed.state ≡ PlayState.stop) ⊎ (f.observed.state ≡ PlayState.pause)
      → (start_observation f ordered).action ≡ QueueStartAction.abort
  unfolding start_observation queue_state_pending
  start_no_return ordered p s = ground arith
