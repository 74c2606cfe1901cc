-- ===== src/Control/Attribution/Handled.antt =====
-- internal/control/events.go and confirmation.go: the expectations over the life of an operation.
use heos_control.Prelude.{
  if_both, ℕ, ◌≤◌, ◌≡◌, subst, Bool, false, ◌||◌, Option, none, some, List, [], ◌∷◌, String, arith,
  Time, ◌==◌, string_eq, length, keep, ℤ, pos,
}
use heos_control.Heos.Values.{PlayState, MutationKind, play_state_eq, mutation_kind_eq}
use heos_control.Heos.Events.{Event}
use heos_control.Heos.Mutations.{Mutation}
use heos_control.Control.Attribution.{Params, Expectations, Attribution, event, expectations}
use heos_control.Control.Attribution.Expect.{
  add_volume, expect_volume, registered?, add_state, add_start, expect, expect_kind,
  observe_queue_state, not_stop,
}
use heos_control.Control.Attribution.Bounds.{
  Bounded, Short, get-Bounded, set-Bounded, add-Bounded, event-Short,
}

-- A predicate of the value, if there is one.
abbrev Ensures {ℓ} : {A : Type ℓ} → (A → Type 0) → Option A → Type 0
Ensures P none = Unit
Ensures P (some a) = P a

add_state-Bounded :
    (s : PlayState) (events : Expectations) → Bounded events → Bounded (add_state s events)
unfolding add_state
add_state-Bounded s events b = add-Bounded _ _ events b

add_volume-Bounded :
    (level : ℤ) (muted clears : Bool) (events : Expectations)
    → Bounded events
    → Bounded (add_volume level muted clears events)
unfolding add_volume
add_volume-Bounded level muted clears events b =
    let once = add-Bounded _ _ events b in if_both Bounded clears _ _ (add-Bounded _ _ _ once) once

expect_volume-Bounded :
    (level : Option ℕ) (muted : Option Bool) (m : Mutation) (events : Expectations)
    → Bounded events
    → Ensures Bounded (expect_volume level muted m events)
unfolding expect_volume
expect_volume-Bounded (some level) (some muted) m events b =
    if_both (Ensures Bounded) (m.kind == MutationKind.volume) _ _
      (add_volume-Bounded m.level muted muted events b)
      (add_volume-Bounded (pos level) m.muted false events b)
expect_volume-Bounded (some level) none m events b = tt
expect_volume-Bounded none muted m events b = tt

registered-Short :
    (r : Attribution) (events : Option Expectations)
    → Ensures Bounded events
    → Ensures Short (registered? r events)
unfolding registered?
registered-Short r none b = tt
registered-Short r (some events) b = b

add_start-Bounded :
    (s : PlayState) (events : Expectations) → Bounded events → Bounded (add_start s events)
unfolding add_start
add_start-Bounded s events b =
    let loading = add-Bounded _ _ _ (add-Bounded _ _ events b) in
    add_state-Bounded PlayState.play _ (
      if_both Bounded (s == PlayState.stop || s == PlayState.pause) _ _
        (add_state-Bounded PlayState.stop _ loading) loading)

expect_kind-Short :
    (k : MutationKind) (m : Mutation) (r : Attribution)
    → Short r
    → Ensures Short (expect_kind k m r)
unfolding expect_kind
expect_kind-Short MutationKind.volume m r b =
    registered-Short r _ (expect_volume-Bounded r.expected.volume r.expected.muted m r.events b)
expect_kind-Short MutationKind.mute m r b =
    registered-Short r _ (expect_volume-Bounded r.expected.volume r.expected.muted m r.events b)
expect_kind-Short MutationKind.transport m r b = add-Bounded _ _ _ (add_state-Bounded m.state _ b)
expect_kind-Short MutationKind.skip m r b = add_state-Bounded PlayState.pause _ (
    add_state-Bounded PlayState.play _ (
      add_state-Bounded PlayState.unknown _
        (add_state-Bounded PlayState.stop _ (add-Bounded _ _ r.events b))))
expect_kind-Short MutationKind.mode m r b = add-Bounded _ _ _ (add-Bounded _ _ r.events b)
expect_kind-Short MutationKind.remove m r b = add-Bounded _ _ _ (add-Bounded _ _ r.events b)
expect_kind-Short MutationKind.queue m r b =
    if_both (Ensures Short) m.append _ _ (add-Bounded _ _ r.events b)
      (add_start-Bounded r.expected.state r.events b)
expect_kind-Short MutationKind.absent m r b = b

keep-length : (p : Params → Bool) (xs : List Params) → length (keep p xs) ≤ length xs
unfolding keep
keep-length p [] = omega arith
keep-length p (x ∷ xs) = ground (arith, keep-length p xs)

observe-Short : (s : PlayState) (r : Attribution) → Short r → Short (observe_queue_state s r)
unfolding observe_queue_state
observe-Short s r b =
    if_both Short (s == PlayState.play) _ _
      (set-Bounded r.events _ _ b (
        omega (
          arith,
          get-Bounded r.events "event/player_state_changed" b,
          keep-length not_stop (expectations r.events "event/player_state_changed"),
        )))
      b

-- The life of an operation: it registers commands, handles events and observes the queue's start.
pub data Handled (r : Attribution) : Attribution → Type 0 where
  start : Handled r r
  command : {s t : Attribution} (m : Mutation) → Handled r s → expect m s ≡ some t → Handled r t
  notified : {s : Attribution} (e : Event) (now : Time) → Handled r s → Handled r (event s e now)
  observed :
      {s : Attribution} (state : PlayState) → Handled r s → Handled r (observe_queue_state state s)

expect-Short : (m : Mutation) (s t : Attribution) → Short s → expect m s ≡ some t → Short t
unfolding expect
expect-Short m s t b h = subst (Ensures Short) h (expect_kind-Short m.kind m _ b)

Handled-Short : {r s : Attribution} → Short r → Handled r s → Short s
Handled-Short b Handled.start = b
Handled-Short b (Handled.command m run h) = expect-Short m _ _ (Handled-Short b run) h
Handled-Short b (Handled.notified e now run) = event-Short _ e now (Handled-Short b run)
Handled-Short b (Handled.observed state run) = observe-Short state _ (Handled-Short b run)

-- From an operation that expects nothing, after any sequence of registered commands, events and
-- observed queue states, at most four expectations are kept for each name of an event.
pub Handled-length :
    (r s : Attribution) (name : String)
    → r.events ≡ []
    → Handled r s
    → length (expectations s.events name) ≤ 4
Handled-length r s name e run = get-Bounded s.events name (Handled-Short (rw e tt) run)
