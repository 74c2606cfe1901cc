-- ===== src/Control/Transition/Laws.antt =====
-- What the transition policy decides, over all states and facts.
use heos_control.Prelude.{
  Bool, ◌∷◌, refl, not, ◌&&◌, ◌||◌, first_rule, is_zero, ◌!=◌, ◌+◌, ◌≡◌, ◌≢◌, ◌≤◌, ◌<◌, ◌⊎◌, ◌↔◌,
  true, false, none, some, [], arith, Bool-cases, inl, inr, ◌==◌, ==→≡, Time,
}
use heos_control.Heos.Values.{PlayState, play_state_eq}
use heos_control.Heos.Events.{EventKind, EventData, event_kind_eq}
use heos_control.Control.Errors.{failed}
use heos_control.Control.Membership.{queued_media}
use heos_control.Control.Transition.{
  QueueAction, QueuePolicyState, QueueObservationFacts, playback_confirmation_timeout,
  transition_timeout, row, no_event_rule, is_wait, decide_queue_event, decide_queue_observation,
  is_active_queue, wait_end, wait_deadline, transition_changes, controls_changed,
}

-- Everything that a resumption rests on.
pub record IsConfirmed (s : QueuePolicyState) (f : QueueObservationFacts) : Type 0 where
  pub plays : f.observed.state ≡ PlayState.play
  pub member : queued_media f.before.queue f.observed.media ≡ true
  pub events_read : f.pending_events ≡ false
  pub not_cancelled : f.cancellation ≡ none
  pub is_safe : f.unsafe ≡ none
  pub in_time : f.now < wait_deadline s f
  pub unchanged : transition_changes f.before f.observed ≡ []

module _ (s : QueuePolicyState) (f : QueueObservationFacts) where
  controls_changed-none :
      controls_changed s f ≡ none
      → is_active_queue s ≡ true
      → wait_end s f ≢ 0
      → transition_changes f.before f.observed ≡ []
  unfolding controls_changed
  controls_changed-none h a w = ground arith

  -- A wait ends in a resumption only on an observation of Play at an entry of the owned queue,
  -- in time, with every event read, no cancellation, no unsafe reading and no other change; and
  -- the resumption clears the wait.
  pub resume-IsConfirmed :
      (decide_queue_observation s f).action ≡ QueueAction.resume
      → IsConfirmed s f × ((decide_queue_observation s f).wait_until ≡ 0)
  unfolding decide_queue_observation
  resume-IsConfirmed h = ground (arith, controls_changed-none)

  -- At its deadline a wait is released as timed out, whatever else was observed.
  pub timeout_first :
      is_active_queue s ≡ true
      → s.wait_until ≢ 0
      → wait_deadline s f ≤ f.now
      → ((decide_queue_observation s f).action ≡ QueueAction.release)
        × ((decide_queue_observation s f).err ≡ some transition_timeout)
  unfolding decide_queue_observation
  timeout_first a w late = ground arith

  -- No observation extends a wait that is in force: until it is confirmed its end stays as it is.
  pub wait_fixed :
      s.wait_until ≢ 0
      → ((decide_queue_observation s f).wait_until ≡ s.wait_until)
        ⊎ ((decide_queue_observation s f).action ≡ QueueAction.resume)
  unfolding decide_queue_observation wait_end
  wait_fixed w = ground arith

  -- The policy waits only inside an active queue and before its deadline, which is no later than the
  -- end of the wait and than the playback deadline, if there is one. The end of a wait that begins
  -- with this observation is the confirmation timeout from now, and that of a wait that is already in
  -- force stays as it was, so that no observation extends it.
  pub wait_bounded :
      (decide_queue_observation s f).action ≡ QueueAction.wait
      → (is_active_queue s ≡ true)
        × (f.now < (decide_queue_observation s f).deadline)
        × ((decide_queue_observation s f).deadline ≤ (decide_queue_observation s f).wait_until)
        × (s.playback_until ≢ 0 → (decide_queue_observation s f).deadline ≤ s.playback_until)
        × (s.wait_until ≡ 0
            → (decide_queue_observation s f).wait_until ≡ f.now + playback_confirmation_timeout)
        × (s.wait_until ≢ 0 → (decide_queue_observation s f).wait_until ≡ s.wait_until)
  unfolding decide_queue_observation wait_deadline wait_end
  wait_bounded h = ground arith

  -- A decision carries an error exactly when it releases the queue.
  pub release_iff_error :
      ((decide_queue_observation s f).action ≡ QueueAction.release)
      ↔ (failed (decide_queue_observation s f).err ≡ true)
  unfolding decide_queue_observation
  release_iff_error = (λ h. ground arith, λ h. ground arith)

-- The table over the conditions of its rows.
wait_row :
    (owned media state play stop unknown automating expected waiting : Bool)
    → is_wait
        (first_rule
          (row (not owned) "queue_not_owned" QueueAction.pass false
            ∷ row media "media_notification" QueueAction.observe true
            ∷ row (state && play && expected) "unexpected_play" QueueAction.pass waiting
            ∷ row (state && play && waiting) "play_requires_observation" QueueAction.observe true
            ∷ row (state && play) "play_unchanged" QueueAction.ignore false
            ∷ row
                (state && automating && (stop || unknown) && waiting)
                "transport_already_pending"
                QueueAction.ignore
                false
            ∷ row
                (state && automating && (stop || unknown))
                "transport_transition"
                QueueAction.wait
                true
            ∷ [])
          no_event_rule).action
      ≡ true
    → (owned ≡ true)
      × (state ≡ true)
      × (automating ≡ true)
      × (waiting ≡ false)
      × ((stop || unknown) ≡ true)
wait_row owned media state play stop unknown automating expected waiting h = ground arith

not_waiting : (t : Time) → not (is_zero t) ≡ false → t ≡ 0
not_waiting t h = ground arith

one_of_two :
    (x : PlayState)
    → (x == PlayState.stop || x == PlayState.unknown) ≡ true
    → (x ≡ PlayState.stop) ⊎ (x ≡ PlayState.unknown)
one_of_two x h = elim (Bool-cases (x == PlayState.stop)) [
  | inl e ↦ inl (==→≡ x PlayState.stop e)
  | inr e ↦ inr (==→≡ x PlayState.unknown (ground (arith, e, h)))
]

-- A device event starts a wait only for a Stop or an unknown state of an automated, owned queue
-- that is not already waiting; in every other case the end of the wait stays as it is.
pub event_wait :
    (s : QueuePolicyState) (d : EventData) (now : Time)
    → ((decide_queue_event s d now).wait_until ≡ s.wait_until)
      ⊎ ((s.owned ≡ true)
          × (s.automating ≡ true)
          × (s.wait_until ≡ 0)
          × (d.kind ≡ EventKind.state)
          × ((d.state ≡ PlayState.stop) ⊎ (d.state ≡ PlayState.unknown))
          × ((decide_queue_event s d now).wait_until ≡ now + playback_confirmation_timeout))
unfolding decide_queue_event
event_wait s d now = elim (Bool-cases (is_wait (decide_queue_event s d now).action)) [
  | inr e ↦ inl (rw e refl)
  | inl e ↦
      let t =
        wait_row s.owned (d.kind == EventKind.now_playing) (d.kind == EventKind.state)
          (d.state == PlayState.play) (d.state == PlayState.stop) (d.state == PlayState.unknown)
          s.automating (s.expected_state != PlayState.play) (not (is_zero s.wait_until)) e in
      inr (
        t.0,
        t.2,
        not_waiting s.wait_until t.3,
        ==→≡ d.kind EventKind.state t.1,
        one_of_two d.state t.4,
        rw e refl,
      )
]

-- Any other notification goes on to the ownership checks.
other_event_passes :
    (s : QueuePolicyState) (d : EventData) (now : Time)
    → (d.kind ≡ EventKind.now_playing)
      ⊎ (d.kind ≡ EventKind.state)
      ⊎ ((decide_queue_event s d now).action ≡ QueueAction.pass)
unfolding decide_queue_event
other_event_passes s d now = elim (Bool-cases (d.kind == EventKind.now_playing)) [
  | inl e ↦ inl (==→≡ d.kind EventKind.now_playing e)
  | inr e ↦ inr (elim (Bool-cases (d.kind == EventKind.state)) [
    | inl e' ↦ inl (==→≡ d.kind EventKind.state e')
    | inr e' ↦ inr (elim (Bool-cases s.owned) [ inl o ↦ rw (o, e, e') | inr o ↦ rw o ])
  ])
]

-- An event that is let through without the ordinary ownership checks is of an owned queue, and is
-- a media notification, a Play where Play is expected, or another state of automated playback.
pub event_attributed :
    (s : QueuePolicyState) (d : EventData) (now : Time)
    → (decide_queue_event s d now).action ≢ QueueAction.pass
    → (s.owned ≡ true)
      × ((d.kind ≡ EventKind.now_playing) ⊎ (d.kind ≡ EventKind.state))
      × (d.kind ≡ EventKind.state → d.state ≡ PlayState.play → s.expected_state ≡ PlayState.play)
      × (d.kind ≡ EventKind.state → d.state ≢ PlayState.play → s.automating ≡ true)
unfolding decide_queue_event
event_attributed s d now h = (
  elim (Bool-cases s.owned) [ inl e ↦ e | inr e ↦ absurd (h (rw e)) ],
  elim (other_event_passes s d now) [
    | inl k ↦ inl k
    | inr (inl k) ↦ inr k
    | inr (inr p) ↦ absurd (h p)
  ],
  λ k p. ground arith,
  λ k p. ground arith,
)
