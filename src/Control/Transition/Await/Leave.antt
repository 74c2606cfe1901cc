-- ===== src/Control/Transition/Await/Leave.antt =====
-- One decision of the gate: what leaves it, and what stays in the wait.
use heos_control.Prelude.{◌≡◌, ◌≢◌, Bool, true, none, some, [], arith, ◌⊎◌, inl, inr, sym, ◌∙◌}
use heos_control.Heos.Values.{PlayState}
use heos_control.Heos.Snapshot.{Snapshot}
use heos_control.Control.Safety.{PlayerConfig, observation_safety}
use heos_control.Control.Membership.{queued_media}
use heos_control.Control.Transition.{
  QueueAction, QueuePolicyState, QueueDecision, decide_queue_observation, is_active_queue,
  wait_deadline, transition_changes,
}
use heos_control.Control.Transition.Laws.{resume-IsConfirmed, wait_fixed, release_iff_error}
use heos_control.Control.Transition.Await.{Moment, Awaited, facts, decision, leave, keep_wait}

-- The observation with which the gate is left: Play at an entry of the queue that was owned
-- before, a controllable device, no other change, and no wait left behind.
pub record IsResumed (config : PlayerConfig) (before : Snapshot) (a : Awaited) : Type 0 where
  pub plays : a.fresh.state ≡ PlayState.play
  pub member : queued_media before.queue a.fresh.media ≡ true
  pub is_safe : observation_safety config a.fresh ≡ none
  pub unchanged : transition_changes before a.fresh ≡ []
  pub wait_over : a.queue_wait ≡ 0

leave_inv :
    (d : QueueDecision) (fresh : Snapshot) (waited : Bool) (a : Awaited)
    → leave d fresh waited ≡ some a
    → (d.action ≡ QueueAction.pass)
      ⊎ ((d.action ≡ QueueAction.release) × (a.err ≡ d.err))
      ⊎ ((d.action ≡ QueueAction.resume) × (a.fresh ≡ fresh) × (a.queue_wait ≡ d.wait_until))
unfolding leave
leave_inv d fresh waited a h = ground arith

pub leave_waited :
    (d : QueueDecision) (fresh : Snapshot) (waited : Bool) (a : Awaited)
    → leave d fresh waited ≡ some a
    → a.waited ≡ waited
unfolding leave
leave_waited d fresh waited a h = ground arith

module _ (config : PlayerConfig) (before : Snapshot) where
  abbrev pub Decided : QueuePolicyState → Snapshot → Moment → QueueDecision
  Decided = decision config before

  -- In a wait, no decision passes.
  no_pass :
      (s : QueuePolicyState) (fresh : Snapshot) (m : Moment)
      → is_active_queue s ≡ true
      → s.wait_until ≢ 0
      → (Decided s fresh m).action ≢ QueueAction.pass
  unfolding decision decide_queue_observation wait_deadline
  no_pass s fresh m a w h = ground arith

  module _ (s : QueuePolicyState) (fresh : Snapshot) (m : Moment) where
    abbrev asked : QueueDecision
    asked = Decided s fresh m

    release_error : asked.action ≡ QueueAction.release → asked.err ≢ none
    unfolding decision facts
    release_error h e = ground (arith, (release_iff_error s (facts config before fresh m)).0 h)

    pub leave-IsResumed :
        (waited : Bool) (a : Awaited)
        → is_active_queue s ≡ true
        → s.wait_until ≢ 0
        → leave asked fresh waited ≡ some a
        → a.err ≡ none
        → IsResumed config before a
    unfolding decision facts
    leave-IsResumed waited a act w h e = elim (leave_inv asked fresh waited a h) [
      | inl p ↦ absurd (no_pass s fresh m act w p)
      | inr (inl p) ↦ absurd (release_error p.0 (cc))
      | inr (inr p) ↦
          let (c, z) = resume-IsConfirmed s (facts config before fresh m) p.0 in
          record {
            plays = rw p.1 c.plays;
            member = rw p.1 c.member;
            is_safe = rw p.1 c.is_safe;
            unchanged = rw p.1 c.unchanged;
            wait_over = p.2 ∙ z;
          }
    ]

    -- A decision that does not leave the gate keeps the end of the wait.
    pub stay_keeps_wait :
        (waited : Bool)
        → s.wait_until ≢ 0
        → leave asked fresh waited ≡ none
        → asked.wait_until ≡ s.wait_until
    unfolding leave decision facts
    stay_keeps_wait waited w h = ground (arith, wait_fixed s (facts config before fresh m))

  pub stayed :
      (s : QueuePolicyState) (fresh : Snapshot) (waited : Bool) (m : Moment)
      → s.wait_until ≢ 0
      → leave (Decided s fresh m) fresh waited ≡ none
      → (keep_wait s (Decided s fresh m)).wait_until ≢ 0
  stayed s fresh waited m w h z = w (sym (stay_keeps_wait s fresh m waited w h) ∙ z)

  pub starts_wait :
      (s : QueuePolicyState) (fresh : Snapshot) (m : Moment) (waited : Bool)
      → leave (Decided s fresh m) fresh waited ≡ none
      → (is_active_queue s ≡ true) × ((Decided s fresh m).wait_until ≢ 0)
  unfolding leave decision decide_queue_observation
  starts_wait s fresh m waited h = ground arith
