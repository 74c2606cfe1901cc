-- ===== src/Control/Attribution.antt =====
-- internal/control/events.go: the attribution of events to a pending change, and the revocation of
-- ownership by any other. The state holds the fields of `execution` that the handler reads or
-- writes; the evidence that a revocation records is left out.
pub mod Laws
pub mod Expect
pub mod Run
pub mod Survival
pub mod Bounds
pub mod Handled
use heos_control.Prelude.{
  ℕ, ◌+◌, Bool, true, false, ◌&&◌, ◌||◌, not, Option, none, some, List, [], ◌∷◌, ◌++◌, String, ◌==◌,
  ◌!=◌, nat_eq, string_eq, if◌then◌else◌, all, drop, keep, length, leb, Time, ℤ, pos,
}
use heos_control.Heos.Values.{PlayState, MutationKind, play_state_eq, mutation_kind_eq}
use heos_control.Heos.Snapshot.{Snapshot, Token}
use heos_control.Heos.Events.{EventKind, EventData, Event, data_of, event_kind_eq}
use heos_control.Heos.Mutations.{Mutation, play_state_text, repeat_text, on_off}
use heos_control.Heos.Numbers.{itoa}
use heos_control.Control.Errors.{Err, failed}
use heos_control.Control.Transition.{
  QueueAction, QueuePolicyState, QueueDecision, decide_queue_event,
}
use heos_control.Control.Start.{QueueStartPhase}
use heos_control.Control.Scalar.{
  ScalarConfirmation, ScalarVerdict, accept_scalar_event, scalar_mutation, new_scalar_confirmation,
}

-- One expectation: the parameters that the event must carry.
abbrev pub Params : Type 0
Params = List (String × String)

abbrev pub Expectations : Type 0
Expectations = List (String × List Params)

pub record Attribution : Type 0 where
  pub expected : Snapshot
  pub events : Expectations
  pub inflight : Bool
  pub uncertain : Bool
  pub queue_owned : Bool
  pub automating : Bool
  pub loading : Bool
  pub queue_wait : Time
  pub queue_start : QueueStartPhase
  pub scalar : Option ScalarConfirmation
  pub keep_expectations : Bool
  pub event_revision : ℕ
  pub wake : Bool
  pub cancelled : Option Err

unfoldable pub expectations : Expectations → String → List Params
expectations [] name = []
expectations ((k, v) ∷ rest) name = if k == name then v else expectations rest name

unfoldable pub set_expectations : Expectations → String → List Params → Expectations
set_expectations [] name v = (name, v) ∷ []
set_expectations ((k, w) ∷ rest) name v =
    if k == name then (k, v) ∷ rest else (k, w) ∷ set_expectations rest name v

-- `notifyObservation`; `wake` says that the channel of one hint is full.
unfoldable pub notify_observation : Attribution → Attribution
notify_observation r = record r { event_revision = r.event_revision + 1; wake = true }

-- `r.cancel`: the context keeps its first cause.
unfoldable pub cancel : Err → Attribution → Attribution
cancel e r = if failed r.cancelled then r else record r { cancelled = some e }

abbrev is_pass : QueueAction → Bool
is_pass QueueAction.pass = true
is_pass _ = false

-- What `acceptQueueEvent` does with its decision.
follow : QueueDecision → Attribution → Bool × Attribution
unfolding notify_observation
follow decision r =
    let waiting = record r { queue_wait = decision.wait_until } in
    (not (is_pass decision.action), if decision.notify then notify_observation waiting else waiting)

abbrev pub policy_of : Attribution → QueuePolicyState
policy_of r = record {
  owned = r.queue_owned;
  automating = r.automating || r.loading;
  expected_state = r.expected.state;
  wait_until = r.queue_wait;
  playback_until = 0;
}

-- `acceptQueueEvent`.
unfoldable pub accept_queue_event : Attribution → EventData → Time → Bool × Attribution
unfolding follow decide_queue_event
accept_queue_event r d now = follow (decide_queue_event (policy_of r) d now) r

-- The inner loop: every wanted parameter is the transport state that the event carries.
unfoldable pub matches : EventData → Params → Bool
unfolding all play_state_text
matches d want =
    all (λ (p : String × String). p.0 == "state" && play_state_text d.state == p.1) want

-- The list without its first match.
unfoldable pub without_match : EventData → List Params → Option (List Params)
unfolding matches
without_match d [] = none
without_match d (want ∷ rest) = elim (matches d want) [
  | true ↦ some rest
  | false ↦ elim (without_match d rest) [ none ↦ none | some found ↦ some (want ∷ found) ]
]

abbrev awaits_play : QueueStartPhase → Bool
awaits_play QueueStartPhase.awaiting_play = true
awaits_play _ = false

abbrev play_seen : QueueStartPhase → QueueStartPhase
play_seen QueueStartPhase.not_starting = QueueStartPhase.not_starting
play_seen _ = QueueStartPhase.play_observed

abbrev wakes : EventKind → Bool
wakes EventKind.state = true
wakes EventKind.now_playing = true
wakes EventKind.queue = true
wakes _ = false

abbrev woken_for : EventData → Attribution → Attribution
woken_for d r = if wakes d.kind then notify_observation r else r

-- The expectation that was met is removed, but for media reports and retained expectations.
use_match : String → EventData → List Params → Attribution → Attribution
unfolding set_expectations
use_match name d rest r =
    if d.kind != EventKind.now_playing && not r.keep_expectations
    then record r { events = set_expectations r.events name rest }
    else r

-- Once playback starts, no later transport state is expected.
close_states : String → EventData → Attribution → Attribution
unfolding set_expectations
close_states name d r =
    if d.kind == EventKind.state && d.state == PlayState.play && not r.keep_expectations
    then record r {
      events = set_expectations r.events name [];
      queue_start = play_seen r.queue_start;
    }
    else r

-- What a match does, `rest` being the expectations of the command without the match.
consume : Attribution → String → EventData → List Params → Attribution
unfolding notify_observation use_match close_states
consume r name d rest =
    if awaits_play r.queue_start && d.kind == EventKind.state && d.state == PlayState.stop
    then r
    else close_states name d (use_match name d rest (woken_for d r))

abbrev pub is_scalar_kind : EventKind → Bool
is_scalar_kind EventKind.volume = true
is_scalar_kind EventKind.repeat = true
is_scalar_kind EventKind.shuffle = true
is_scalar_kind _ = false

abbrev woken_by : Bool → Attribution → Attribution
woken_by signal r = if signal then record r { wake = true } else r

abbrev scalar_accepted : Attribution → ScalarVerdict → Bool × Attribution
scalar_accepted r v = (v.accepted, woken_by v.signal (record r { scalar = v.pending }))

matched : Attribution → String → EventData → Option (List Params) → Bool × Attribution
unfolding consume
matched r name d none = (false, r)
matched r name d (some rest) = (true, consume r name d rest)

-- `acceptExpectedEvent`.
unfoldable pub accept_expected_event : Attribution → String → EventData → Bool × Attribution
unfolding matched expectations without_match
accept_expected_event r name d =
    if not d.valid
    then (false, r)
    else if is_scalar_kind d.kind
    then scalar_accepted r (accept_scalar_event r.scalar r.expected d)
    else matched r name d (without_match d (expectations r.events name))

-- The kinds of event that name one player.
abbrev pub is_player_kind : EventKind → Bool
is_player_kind EventKind.state = true
is_player_kind EventKind.now_playing = true
is_player_kind EventKind.playback_error = true
is_player_kind EventKind.queue = true
is_player_kind EventKind.volume = true
is_player_kind EventKind.repeat = true
is_player_kind EventKind.shuffle = true
is_player_kind EventKind.progress = true
is_player_kind _ = false

-- An event of another player, and a well-formed progress report.
unfoldable pub foreign : Attribution → Event → Bool
foreign r e =
    let d = data_of e in
    not e.gap && d.player != "" && d.player != r.expected.player.id && is_player_kind d.kind

unfoldable pub progress_only : Event → Bool
progress_only e = let d = data_of e in not e.gap && d.kind == EventKind.progress && d.valid

-- No other event was missed, and this one is about the operation's player.
unfoldable pub target_event : Attribution → Event → Bool
target_event r e =
    let d = data_of e in
    not e.gap
    && (e.token.generation == r.expected.token.generation
        && e.token.revision == r.expected.token.revision
        && e.token.catalog == r.expected.token.catalog)
    && d.valid
    && d.player == r.expected.player.id

-- The two attempts of `event`, the second on what the first left.
unfoldable pub attribute : Attribution → Event → Time → Bool × Attribution
unfolding accept_expected_event accept_queue_event
attribute r e now =
    let expected = accept_expected_event r e.command (data_of e) in
    if expected.0 then expected else accept_queue_event expected.1 (data_of e) now

abbrev revoke : Attribution → Event → Attribution
revoke r e =
    cancel (Err.ownership (if e.gap then "event_gap" else "unexpected_event") [])
      (if r.inflight then record r { uncertain = true } else r)

abbrev conclude : Event → Bool × Attribution → Attribution
conclude e a =
    if a.0 then record a.1 { expected = record a.1.expected { token = e.token } } else revoke a.1 e

-- `event`.
unfoldable pub event : Attribution → Event → Time → Attribution
unfolding cancel
event r e now =
    if foreign r e
    then r
    else if progress_only e
    then r
    else if target_event r e
    then conclude e (attribute r e now)
    else revoke r e
