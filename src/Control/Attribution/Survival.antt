-- ===== src/Control/Attribution/Survival.antt =====
-- internal/control/events.go: the events that an operation survives, in terms of what the event says
-- and what the operation expects.
use heos_control.Prelude.{
  ◌≡◌, ◌≢◌, ◌⊎◌, inl, inr, true, false, ◌||◌, none, some, List, [], ◌∷◌, arith, Time, subst, Any,
  Bool-cases, option_cases, ==→≡, ≡→==, nat_eq, string_eq,
}
use heos_control.Heos.Values.{PlayState}
use heos_control.Heos.Events.{EventKind, EventData, Event, data_of, event_kind_eq}
use heos_control.Control.Transition.{QueueAction, QueueDecision, decide_queue_event}
use heos_control.Control.Transition.Laws.{event_attributed}
use heos_control.Control.Scalar.{accept_scalar_event}
use heos_control.Control.Attribution.{
  Attribution, Params, attribute, accept_expected_event, accept_queue_event, follow, matches,
  without_match, expectations, is_scalar_kind, policy_of, foreign, progress_only, target_event,
  event,
}
use heos_control.Control.Attribution.Laws.{event-Kept}
use heos_control.Control.Attribution.Run.{SameCounters}

-- A scalar event fits the pending change or repeats the expected value.
abbrev ByScalar : Attribution → EventData → Type 0
ByScalar r d =
    (is_scalar_kind d.kind ≡ true) × ((accept_scalar_event r.scalar r.expected d).accepted ≡ true)

-- An expectation of the same notification has only parameters that the event carries.
abbrev ByMatch : Attribution → Event → Type 0
ByMatch r e =
    Any (λ (want : Params). matches (data_of e) want ≡ true) (expectations r.events e.command)

-- The event belongs to the playback of the owned queue.
abbrev ByQueue : Attribution → EventData → Type 0
ByQueue r d =
    (r.queue_owned ≡ true)
    × ((d.kind ≡ EventKind.now_playing) ⊎ (d.kind ≡ EventKind.state))
    × (d.kind ≡ EventKind.state → d.state ≡ PlayState.play → r.expected.state ≡ PlayState.play)
    × (d.kind ≡ EventKind.state → d.state ≢ PlayState.play → (r.automating || r.loading) ≡ true)

-- An event that an operation survives.
abbrev pub Survived : Attribution → Event → Time → Attribution → Type 0
Survived r e now s =
    (e.gap ≡ false)
    × ((((data_of e).player ≢ r.expected.player.id) × (s ≡ r))
        ⊎ (((data_of e).kind ≡ EventKind.progress) × ((data_of e).valid ≡ true) × (s ≡ r))
        ⊎ (((data_of e).valid ≡ true)
            × ((data_of e).player ≡ r.expected.player.id)
            × SameCounters e.token r.expected.token
            × (ByScalar r (data_of e) ⊎ (ByMatch r e ⊎ ByQueue r (data_of e)))
            × (s.expected ≡ record r.expected { token = e.token })))

without_match-Any :
    (d : EventData) (list rest : List Params)
    → without_match d list ≡ some rest
    → Any (λ (want : Params). matches d want ≡ true) list
unfolding without_match
without_match-Any d [] rest h = absurd (ground (arith, h))
without_match-Any d (want ∷ list) rest h = elim (Bool-cases (matches d want)) [
  | inl e ↦ inl e
  | inr e ↦ elim (option_cases (without_match d list)) [
    | inl n ↦ absurd (ground (arith, e, n, h))
    | inr (found, n) ↦ inr (without_match-Any d list found n)
  ]
]

module _ (r : Attribution) (e : Event) (now : Time) where
  expected-true :
      (accept_expected_event r e.command (data_of e)).0 ≡ true
      → ByScalar r (data_of e) ⊎ ByMatch r e
  unfolding accept_expected_event
  expected-true h =
      let d = data_of e in
      elim (Bool-cases (is_scalar_kind d.kind)) [
        | inl k ↦ inl (k, ground (arith, k, h))
        | inr k ↦ elim (option_cases (without_match d (expectations r.events e.command))) [
          | inl n ↦ absurd (ground (arith, k, n, h))
          | inr (rest, n) ↦ inr (without_match-Any d (expectations r.events e.command) rest n)
        ]
      ]

  -- A failed first attempt leaves what the policy reads.
  expected-policy :
      (accept_expected_event r e.command (data_of e)).0 ≡ false
      → policy_of (accept_expected_event r e.command (data_of e)).1 ≡ policy_of r
  unfolding accept_expected_event
  expected-policy h = ground (arith, h)

follow-pass :
    (decision : QueueDecision) (r : Attribution)
    → (follow decision r).0 ≡ true
    → decision.action ≢ QueueAction.pass
unfolding follow
follow-pass decision r h p = ground (arith, p, h)

queue-case :
    (r s : Attribution) (d : EventData) (now : Time)
    → policy_of s ≡ policy_of r
    → (accept_queue_event s d now).0 ≡ true
    → ByQueue r d
unfolding accept_queue_event
queue-case r s d now same h =
    let taken = follow-pass (decide_queue_event (policy_of s) d now) s h in
    event_attributed (policy_of r) d now
      (subst (λ q. (decide_queue_event q d now).action ≢ QueueAction.pass) same taken)

attribute-cases :
    (r : Attribution) (e : Event) (now : Time)
    → (attribute r e now).0 ≡ true
    → ByScalar r (data_of e) ⊎ (ByMatch r e ⊎ ByQueue r (data_of e))
unfolding attribute
attribute-cases r e now h = elim (Bool-cases (accept_expected_event r e.command (data_of e)).0) [
  | inl f ↦ elim (expected-true r e now f) [ inl x ↦ inl x | inr x ↦ inr (inl x) ]
  | inr f ↦ inr (
      inr (
        queue-case r (accept_expected_event r e.command (data_of e)).1 (data_of e) now
          (expected-policy r e now f) (ground (arith, f, h))))
]

foreign-player :
    (r : Attribution) (e : Event)
    → foreign r e ≡ true
    → (e.gap ≡ false) × ((data_of e).player ≢ r.expected.player.id)
unfolding foreign
foreign-player r e h =
    (ground (arith, h), λ x. ground (arith, h, ≡→== (data_of e).player r.expected.player.id x))

progress_only-kind :
    (e : Event)
    → progress_only e ≡ true
    → (e.gap ≡ false) × (((data_of e).kind ≡ EventKind.progress) × ((data_of e).valid ≡ true))
unfolding progress_only
progress_only-kind e h = (
  ground (arith, h),
  (==→≡ (data_of e).kind EventKind.progress (ground (arith, h)), ground (arith, h)),
)

target_event-token :
    (r : Attribution) (e : Event)
    → target_event r e ≡ true
    → (e.gap ≡ false)
      × (((data_of e).valid ≡ true)
          × (((data_of e).player ≡ r.expected.player.id) × SameCounters e.token r.expected.token))
unfolding target_event
target_event-token r e h = (
  ground (arith, h),
  (
    ground (arith, h),
    (
      ==→≡ (data_of e).player r.expected.player.id (ground (arith, h)),
      (ground (arith, h), ground (arith, h), ground (arith, h)),
    ),
  ),
)

-- An operation survives an event only if no event was missed before it, and the event is about
-- another player and changes nothing, or it is a progress report and changes nothing, or it is a valid
-- event about the operation's player with the connection generation, the revision and the catalog
-- revision that the operation expects, which fits the pending scalar change, an expectation of the
-- notification or the playback of the owned queue; then of the expected state only the token moves
-- to the event's.
pub event-Survived :
    (r : Attribution) (e : Event) (now : Time)
    → (event r e now).cancelled ≡ none
    → Survived r e now (event r e now)
event-Survived r e now h = elim (event-Kept r e now h) [
  | inl x ↦ let f = foreign-player r e x.0 in (f.0, inl (f.1, x.1))
  | inr (inl x) ↦ let f = progress_only-kind e x.0 in (f.0, inr (inl (f.1.0, f.1.1, x.1)))
  | inr (inr x) ↦
      let t = target_event-token r e x.0 in
      (t.0, inr (inr (t.1.0, t.1.1.0, t.1.1.1, attribute-cases r e now x.1, x.2)))
]
