-- ===== src/Control/Attribution/Laws.antt =====
-- internal/control/events.go: which events an operation survives, and what each leaves.
use heos_control.Prelude.{
  ◌≡◌, ◌⊎◌, inl, inr, refl, ◌∙◌, true, none, List, String, arith, Bool-cases, option_cases, Time,
  nat_eq, string_eq,
}
use heos_control.Heos.Events.{EventData, Event, data_of}
use heos_control.Control.Errors.{failed}
use heos_control.Control.Transition.{QueueDecision, decide_queue_event}
use heos_control.Control.Attribution.{
  Attribution, Params, consume, accept_expected_event, accept_queue_event, attribute, foreign,
  progress_only, target_event, event, expectations, without_match, follow, policy_of,
}

-- What the attribution of an event does not touch.
abbrev pub Framed : Attribution → Attribution → Type 0
Framed r s =
    (s.expected ≡ r.expected)
    × (s.cancelled ≡ r.cancelled)
    × (s.inflight ≡ r.inflight)
    × (s.uncertain ≡ r.uncertain)

module _ (r : Attribution) (d : EventData) where
  consume-Framed : (name : String) (rest : List Params) → Framed r (consume r name d rest)
  unfolding consume
  consume-Framed name rest = (ground arith, ground arith, ground arith, ground arith)

  accept_expected_event-Framed : (name : String) → Framed r (accept_expected_event r name d).1
  unfolding accept_expected_event
  accept_expected_event-Framed name =
      elim (option_cases (without_match d (expectations r.events name))) [
        | inl e ↦ (ground (arith, e), ground (arith, e), ground (arith, e), ground (arith, e))
        | inr (rest, e) ↦
            let f = consume-Framed name rest in
            (
              ground (arith, e, f.0),
              ground (arith, e, f.1),
              ground (arith, e, f.2),
              ground (arith, e, f.3),
            )
      ]

  follow-Framed : (decision : QueueDecision) → Framed r (follow decision r).1
  unfolding follow
  follow-Framed decision = (ground arith, ground arith, ground arith, ground arith)

  accept_queue_event-Framed : (now : Time) → Framed r (accept_queue_event r d now).1
  unfolding accept_queue_event
  accept_queue_event-Framed now = follow-Framed (decide_queue_event (policy_of r) d now)

pub attribute-Framed : (r : Attribution) (e : Event) (now : Time) → Framed r (attribute r e now).1
unfolding attribute
attribute-Framed r e now =
    let f = accept_expected_event-Framed r (data_of e) e.command in
    let q =
      accept_queue_event-Framed (accept_expected_event r e.command (data_of e)).1 (data_of e) now in
    elim (Bool-cases (accept_expected_event r e.command (data_of e)).0) [
      | inl h ↦ rw h f
      | inr h ↦ rw h (q.0 ∙ f.0, q.1 ∙ f.1, q.2 ∙ f.2, q.3 ∙ f.3)
    ]

-- The three branches of `event` that do not revoke the ownership.
abbrev pub Kept : Attribution → Event → Time → Attribution → Type 0
Kept r e now s =
    ((foreign r e ≡ true) × (s ≡ r))
    ⊎ ((progress_only e ≡ true) × (s ≡ r))
    ⊎ ((target_event r e ≡ true)
        × ((attribute r e now).0 ≡ true)
        × (s.expected ≡ record r.expected { token = e.token }))

pub event-Kept :
    (r : Attribution) (e : Event) (now : Time)
    → (event r e now).cancelled ≡ none
    → Kept r e now (event r e now)
unfolding event
event-Kept r e now h = elim (Bool-cases (foreign r e)) [
  | inl f ↦ inl (f, rw f refl)
  | inr f ↦ elim (Bool-cases (progress_only e)) [
    | inl p ↦ inr (inl (p, rw (f, p) refl))
    | inr p ↦ elim (Bool-cases (target_event r e)) [
      | inl t ↦ elim (Bool-cases (attribute r e now).0) [
        | inl a ↦ inr (inr (t, a, ground (arith, f, p, t, a, attribute-Framed r e now)))
        | inr a ↦ absurd (ground (arith, f, p, t, a, h))
      ]
      | inr t ↦ absurd (ground (arith, f, p, t, h))
    ]
  ]
]

-- An event that revokes the ownership while a command is in flight leaves its delivery uncertain.
pub event-uncertain :
    (r : Attribution) (e : Event) (now : Time)
    → r.cancelled ≡ none
    → r.inflight ≡ true
    → failed (event r e now).cancelled ≡ true
    → (event r e now).uncertain ≡ true
unfolding event
event-uncertain r e now fresh i h =
    let f = attribute-Framed r e now in ground (arith, i, h, f.0, f.1, f.2, f.3)
