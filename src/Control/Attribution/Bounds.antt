-- ===== src/Control/Attribution/Bounds.antt =====
-- internal/control/events.go and confirmation.go: the list of expectations of an event stays short.
use heos_control.Prelude.{
  ◌≤◌, ◌≡◌, inl, inr, refl, Bool, not, Option, none, some, List, [], ◌∷◌, ◌++◌, String, arith,
  if◌then◌else◌, Bool-cases, option_cases, if_both, Time, All, ◌==◌, string_eq, length,
  length-append, length-drop, leb, drop,
}
use heos_control.Heos.Events.{EventData, Event, data_of}
use heos_control.Control.Transition.{decide_queue_event}
use heos_control.Control.Scalar.{accept_scalar_event}
use heos_control.Control.Attribution.{
  Params, Expectations, Attribution, consume, accept_expected_event, accept_queue_event, attribute,
  event, use_match, close_states, woken_for, policy_of, revoke, foreign, progress_only,
  target_event, matched, expectations, set_expectations, without_match, matches, cancel,
}
use heos_control.Control.Attribution.Expect.{add}

-- At most four expectations for every event.
abbrev pub Bounded : Expectations → Type 0
Bounded events = All (λ (p : String × List Params). length p.1 ≤ 4) events

pub get-Bounded :
    (events : Expectations) (k : String) → Bounded events → length (expectations events k) ≤ 4
unfolding expectations
get-Bounded [] k b = omega arith
get-Bounded ((j, v) ∷ rest) k b = ground (arith, b, get-Bounded rest k b.1)

pub set-Bounded :
    (events : Expectations) (k : String) (v : List Params)
    → Bounded events
    → length v ≤ 4
    → Bounded (set_expectations events k v)
unfolding set_expectations
set-Bounded [] k v b h = (h, tt)
set-Bounded ((j, w) ∷ rest) k v b h = elim (Bool-cases (j == k)) [
  | inl e ↦ rw e (h, b.1)
  | inr e ↦ rw e (b.0, set-Bounded rest k v b.1 h)
]

abbrev recent : List Params → List Params
recent list = if leb 4 (length list) then drop 1 list else list

recent_short : (list : List Params) → length list ≤ 4 → length (recent list) ≤ 3
recent_short list h = ground (arith, h, length-drop 1 list)

pub add-Bounded :
    (name : String) (p : Params) (events : Expectations)
    → Bounded events
    → Bounded (add name p events)
unfolding add
add-Bounded name p events b =
    let n = get-Bounded events name b in
    set-Bounded events name (recent (expectations events name) ++ p ∷ []) b (
      ground (
        arith,
        n,
        length-append (recent (expectations events name)) (p ∷ []),
        recent_short (expectations events name) n,
      ))

without_match-length :
    (d : EventData) (list rest : List Params)
    → without_match d list ≡ some rest
    → length rest ≤ length list
unfolding without_match
without_match-length d [] rest h = cc
without_match-length d (want ∷ list) rest h = elim (Bool-cases (matches d want)) [
  | inl e ↦ ground (arith, e, h)
  | inr e ↦ elim (option_cases (without_match d list)) [
    | inl f ↦ absurd (ground (arith, e, f, h))
    | inr (found, f) ↦ ground (arith, e, f, h, without_match-length d list found f)
  ]
]

abbrev pub Short : Attribution → Type 0
Short r = Bounded r.events

use_match-Short :
    (name : String) (d : EventData) (rest : List Params) (r : Attribution)
    → length rest ≤ 4
    → Short r
    → Short (use_match name d rest r)
unfolding use_match
use_match-Short name d rest r h b = if_both Short _ _ _ (set-Bounded r.events name rest b h) b

close_states-Short :
    (name : String) (d : EventData) (r : Attribution) → Short r → Short (close_states name d r)
unfolding close_states
close_states-Short name d r b = if_both Short _ _ _ (set-Bounded r.events name [] b (omega arith)) b

consume-Short :
    (r : Attribution) (name : String) (d : EventData) (rest : List Params)
    → length rest ≤ 4
    → Short r
    → Short (consume r name d rest)
unfolding consume
consume-Short r name d rest h b = if_both Short _ _ _ b (
    close_states-Short name d (use_match name d rest (woken_for d r))
      (use_match-Short name d rest (woken_for d r) h (if_both Short _ _ _ b b)))

matched-Short :
    (r : Attribution) (name : String) (d : EventData) (found : Option (List Params))
    → ((rest : List Params) → found ≡ some rest → length rest ≤ 4)
    → Short r
    → Short (matched r name d found).1
unfolding matched
matched-Short r name d none h b = b
matched-Short r name d (some rest) h b = consume-Short r name d rest (h rest refl) b

accept_expected_event-Short :
    (r : Attribution) (name : String) (d : EventData)
    → Short r
    → Short (accept_expected_event r name d).1
unfolding accept_expected_event
accept_expected_event-Short r name d b =
    let list = expectations r.events name in
    let n = get-Bounded r.events name b in
    let found =
      matched-Short r name d (without_match d list)
        (λ rest e. omega (arith, n, without_match-length d list rest e)) b in
    let pair = λ (a : Bool × Attribution). Short a.1 in
    if_both pair (not d.valid) _ _ b (
      if_both pair _ _ _ (if_both Short (accept_scalar_event r.scalar r.expected d).signal _ _ b b)
        found)

accept_queue_event-Short :
    (r : Attribution) (d : EventData) (now : Time) → Short r → Short (accept_queue_event r d now).1
unfolding accept_queue_event
accept_queue_event-Short r d now b =
    if_both Short (decide_queue_event (policy_of r) d now).notify _ _ b b

attribute-Short : (r : Attribution) (e : Event) (now : Time) → Short r → Short (attribute r e now).1
unfolding attribute
attribute-Short r e now b =
    let x = accept_expected_event-Short r e.command (data_of e) b in
    if_both (λ (a : Bool × Attribution). Short a.1)
      (accept_expected_event r e.command (data_of e)).0 _ _ x
      (accept_queue_event-Short (accept_expected_event r e.command (data_of e)).1 (data_of e) now x)

revoke-Short : (r : Attribution) (e : Event) → Short r → Short (revoke r e)
unfolding cancel
revoke-Short r e b =
    if_both Short _ _ _ (if_both Short r.inflight _ _ b b) (if_both Short r.inflight _ _ b b)

pub event-Short : (r : Attribution) (e : Event) (now : Time) → Short r → Short (event r e now)
unfolding event
event-Short r e now b =
    let a = attribute-Short r e now b in
    if_both Short (foreign r e) _ _ b (
      if_both Short (progress_only e) _ _ b (
        if_both Short (target_event r e) _ _
          (if_both Short (attribute r e now).0 _ _ a (revoke-Short (attribute r e now).1 e a))
          (revoke-Short r e b)))
