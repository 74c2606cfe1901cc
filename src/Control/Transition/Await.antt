-- ===== src/Control/Transition/Await.antt =====
-- internal/control/queue_transition.go, `awaitOwnedPlayback`: the read-only gate that waits for a
-- transition. The clock, the contexts, the event counters, the journal and the device are outside
-- of the loop: a run is given, for each round, what the round met and what holds when the policy
-- is asked again. `captureDecision` keeps the class of an error and is left out.
pub mod Leave
pub mod Sound
pub mod Ends
use heos_control.Prelude.{Bool, true, Option, none, some, List, [], ◌∷◌, Time}
use heos_control.Heos.Snapshot.{Snapshot}
use heos_control.Control.Errors.{Err}
use heos_control.Control.Safety.{PlayerConfig, observation_safety}
use heos_control.Control.Transition.{
  QueueAction, QueuePolicyState, QueueObservationFacts, QueueDecision, decide_queue_observation,
}

-- What holds at the moment of one decision.
pub record Moment : Type 0 where
  pub now : Time
  pub cancellation : Option Err
  pub expired : Bool
  pub pending_events : Bool

-- What one round meets: a wait, a read or a deadline that sends it back to the policy with the
-- observation that it had, a journal that is down, a failed read, or a new observation. Where the
-- policy is asked again, the moment at which it is.
pub data Round : Type 0 where
  interrupted : Moment → Round
  journal_down : Round
  read_failed : Snapshot → Err → Round
  observed : Snapshot → Moment → Round

pub record Awaited : Type 0 where
  pub fresh : Snapshot
  pub waited : Bool
  pub err : Option Err
  pub queue_wait : Time

pub data Outcome : Type 0 where
  done : Awaited → Outcome
  waiting : Outcome

-- The switch at the head of the loop: the return that a decision makes, if any.
pub leave : QueueDecision → Snapshot → Bool → Option Awaited
leave d fresh waited = elim d.action [
  | QueueAction.pass ↦
      some (record { fresh = fresh; waited = waited; err = none; queue_wait = d.wait_until })
  | QueueAction.release ↦
      some (record { fresh = fresh; waited = waited; err = d.err; queue_wait = d.wait_until })
  | QueueAction.resume ↦
      some (record { fresh = fresh; waited = waited; err = none; queue_wait = d.wait_until })
  | _ ↦ none
]

-- `r.queueWait = d.WaitUntil`.
abbrev pub keep_wait : QueuePolicyState → QueueDecision → QueuePolicyState
keep_wait s d = record s { wait_until = d.wait_until }

-- What the head of the loop returns, or the rest of the round.
or_else : Option Awaited → Outcome → Outcome
or_else (some a) rest = done a
or_else none rest = rest

module _ (config : PlayerConfig) (before : Snapshot) where
  facts : Snapshot → Moment → QueueObservationFacts
  facts fresh m = record {
    now = m.now;
    before = before;
    observed = fresh;
    cancellation = m.cancellation;
    unsafe = observation_safety config fresh;
    expired = m.expired;
    pending_events = m.pending_events;
  }

  -- `queueObservationDecision`.
  unfoldable pub decision : QueuePolicyState → Snapshot → Moment → QueueDecision
  unfolding facts
  decision s fresh m = decide_queue_observation s (facts fresh m)

  unfoldable pub await : QueuePolicyState → Snapshot → Bool → Moment → List Round → Outcome
  unfolding leave or_else decision
  await s fresh waited m [] = or_else (leave (decision s fresh m) fresh waited) waiting
  await s fresh waited m (interrupted t ∷ rounds) =
      or_else (leave (decision s fresh m) fresh waited)
        (await (keep_wait s (decision s fresh m)) fresh true t rounds)
  await s fresh waited m (journal_down ∷ rounds) =
      or_else (leave (decision s fresh m) fresh waited) (
        done (record {
          fresh = fresh;
          waited = true;
          err = some Err.journal_unavailable;
          queue_wait = (decision s fresh m).wait_until;
        }))
  await s fresh waited m (read_failed x e ∷ rounds) =
      or_else (leave (decision s fresh m) fresh waited) (
        done (record {
          fresh = x;
          waited = true;
          err = some e;
          queue_wait = (decision s fresh m).wait_until;
        }))
  await s fresh waited m (observed x t ∷ rounds) =
      or_else (leave (decision s fresh m) fresh waited)
        (await (keep_wait s (decision s fresh m)) x true t rounds)
