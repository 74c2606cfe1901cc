-- ===== src/Control/Start.antt =====
-- internal/control/queue_start_policy.go and confirmation.go: the policy that decides whether a
-- replaced queue has started to play as selected.
pub mod Laws
use heos_control.Prelude.{
  Bool, true, false, ◌&&◌, ◌||◌, not, Option, none, some, List, [], ◌∷◌, String, ◌==◌, ◌!=◌, nat_eq,
  string_eq, Rule, first_rule, contains, all, any, is_empty, map, if◌then◌else◌, Time, before,
}
use heos_control.Heos.Values.{PlayState, play_state_eq}
use heos_control.Heos.Snapshot.{Media, QueuePage, Snapshot}
use heos_control.Control.Errors.{Err, failed}
use heos_control.Control.Changes.{state_changes}
use heos_control.Control.Membership.{queue_source, empty_media, queued_media, complete_owned_queue}
use heos_control.Control.Queue.{ordered_queue, append_queue_problem}

pub data QueueStartPhase : Type 0 where
  not_starting awaiting_play play_observed : QueueStartPhase

pub data QueueStartAction : Type 0 where
  wait confirm abort : QueueStartAction

pub record QueueStartFacts : Type 0 where
  pub now : Time
  pub deadline : Time
  pub phase : QueueStartPhase
  pub bounded : Bool
  pub members : List String
  pub before : Snapshot
  pub observed : Snapshot
  pub cancellation : Option Err
  pub unsafe : Option Err
  pub pending_events : Bool

pub record QueueStartDecision : Type 0 where
  pub action : QueueStartAction
  pub rule : String
  pub err : Option Err

unfoldable pub queue_loading_controls : Snapshot → Snapshot → List String
queue_loading_controls a b =
    if a.token.generation != b.token.generation
    then "connection_generation" ∷ []
    else state_changes (record a { state = b.state; media = b.media; queue = b.queue }) b

abbrev was_playing : Option Media → Media → Bool
was_playing none m = false
was_playing (some p) m = p.source == m.source && p.id == m.id

abbrev media_selected : Option Media → List String → Option Media → Bool
media_selected previous members none = true
media_selected previous members (some m) =
    was_playing previous m || m.source == queue_source && contains m.id members

unfoldable pub queue_loading_media : Snapshot → Snapshot → List String → Bool
unfolding empty_media contains
queue_loading_media a b members = empty_media b.media || media_selected a.media members b.media

-- Every entry was in the old queue or is selected.
unfoldable pub queue_loading_items : QueuePage → QueuePage → List String → Bool
unfolding all contains
queue_loading_items old q members =
    all (λ item. contains item.id (map (λ m. m.id) old.items) || contains item.id members) q.items

abbrev pub unselected : List String → Option Media → Bool
unselected members none = true
unselected members (some m) =
    m.source != queue_source || m.id == "" || m.queue_id == "" || not (contains m.id members)

-- The texts of `queueResultProblem`, by the first test that fails; the empty text is no problem.
pub problem_text : Bool → Bool → Bool → Bool → String
problem_text not_selected unselected_track invalid not_found =
    if not_selected
    then "queue_media_not_selected"
    else if unselected_track
    then "queue_contains_unselected_media"
    else if invalid
    then "queue_incomplete_or_invalid"
    else if not_found
    then "queue_media_not_found"
    else ""

unfoldable pub queue_result_problem : Snapshot → List String → Bool → String
unfolding contains any complete_owned_queue queued_media problem_text
queue_result_problem s members bounded =
    problem_text (unselected members s.media)
      (any (λ track. not (contains track.id members)) s.queue.items)
      (bounded && not (complete_owned_queue s.queue members))
      (bounded && not (queued_media s.queue s.media))

-- `queueStatePending`.
unfoldable pub queue_state_pending : PlayState → PlayState → Bool → Bool
queue_state_pending a PlayState.play started = true
queue_state_pending a PlayState.unknown started = true
queue_state_pending a PlayState.stop started =
    not started && (a == PlayState.stop || a == PlayState.pause)
queue_state_pending a PlayState.pause started = not started && a == PlayState.pause
queue_state_pending a PlayState.absent started = false

abbrev is_awaiting : QueueStartPhase → Bool
is_awaiting QueueStartPhase.awaiting_play = true
is_awaiting _ = false

abbrev is_inactive : QueueStartPhase → Bool
is_inactive QueueStartPhase.not_starting = true
is_inactive _ = false

abbrev has_started : QueueStartPhase → Bool
has_started QueueStartPhase.play_observed = true
has_started _ = false

abbrev named_in_queue : Option Media → Bool
named_in_queue none = false
named_in_queue (some m) = m.source == queue_source && m.id != ""

unfoldable pub unresolved : QueueStartFacts → Bool
unfolding queue_loading_media complete_owned_queue
unresolved f =
    is_awaiting f.phase
    && f.observed.state == PlayState.unknown
    && named_in_queue f.observed.media
    && not (queue_loading_media f.before f.observed f.members)
    && complete_owned_queue f.observed.queue f.members

-- `ownershipMismatch` with the fields, if there are any; otherwise the error of the row.
abbrev detail : Option Err → List String → Option Err
detail err [] = err
detail err (f ∷ fs) = some (Err.ownership "pending_readback_changed" (f ∷ fs))

abbrev rule : Bool → String → QueueStartAction → Option Err → List String → Rule QueueStartDecision
rule applies name action err fields = record {
  applies = applies;
  outcome = record { action = action; rule = name; err = detail err fields };
}

start_rules : QueueStartFacts → List (Rule QueueStartDecision)
unfolding unresolved queue_loading_media
start_rules f =
    rule (is_inactive f.phase) "queue_start_inactive" QueueStartAction.abort
      (some (Err.ownership "" [])) []
    ∷ rule (not (before f.now f.deadline)) "queue_start_timeout" QueueStartAction.abort
        (some Err.deadline_exceeded) []
    ∷ rule (failed f.cancellation) "operation_cancelled" QueueStartAction.abort f.cancellation []
    ∷ rule (failed f.unsafe) "observation_unsafe" QueueStartAction.abort f.unsafe []
    ∷ rule (not (is_empty (queue_loading_controls f.before f.observed))) "queue_controls_changed"
        QueueStartAction.abort none (queue_loading_controls f.before f.observed)
    ∷ rule (not (queue_state_pending f.before.state f.observed.state (has_started f.phase)))
        "queue_state_changed" QueueStartAction.abort none ("state" ∷ [])
    ∷ rule (not (queue_loading_items f.before.queue f.observed.queue f.members))
        "queue_items_changed" QueueStartAction.abort none ("queue_items" ∷ [])
    ∷ rule (not (queue_loading_media f.before f.observed f.members) && not (unresolved f))
        "queue_media_changed" QueueStartAction.abort none ("media" ∷ [])
    ∷ rule
        (f.observed.state == PlayState.play
          && queue_result_problem f.observed f.members f.bounded == ""
          && not f.pending_events)
        "queue_start_confirmed" QueueStartAction.confirm none []
    ∷ rule f.pending_events "events_pending" QueueStartAction.wait none []
    ∷ rule (unresolved f) "loading_media_pending" QueueStartAction.wait none []
    ∷ []

abbrev queue_loading : QueueStartDecision
queue_loading = record { action = QueueStartAction.wait; rule = "queue_loading"; err = none }

-- `decideQueueStart`.
unfoldable pub decide_queue_start : QueueStartFacts → QueueStartDecision
unfolding start_rules
decide_queue_start f = first_rule (start_rules f) queue_loading

abbrev empty_page : QueuePage
empty_page = record {
  items = [];
  total = none;
  next = none;
  token = record { generation = 0; revision = 0; catalog = 0; player = 0; write = 0 };
}

abbrev confirms : QueueStartAction → Bool
confirms QueueStartAction.confirm = true
confirms _ = false

abbrev out_of_order : Option (List String) → QueuePage → Bool
out_of_order none q = false
out_of_order (some ids) q = not (ordered_queue q ids)

abbrev order_broken : Option (List String) → QueuePage → Bool
order_broken none q = false
order_broken (some ids) q = append_queue_problem empty_page q ids

-- `queueStartObservation` after it has brought the phase and the revision up to date: a
-- confirmation also wants the planned order, where there is a plan.
unfoldable pub start_observation : QueueStartFacts → Option (List String) → QueueStartDecision
unfolding decide_queue_start
start_observation f ordered =
    let d = decide_queue_start f in
    if confirms d.action && out_of_order ordered f.observed.queue
    then (if order_broken ordered f.observed.queue
        then record {
          action = QueueStartAction.abort;
          rule = "queue_order_changed";
          err = some (Err.ownership "pending_readback_changed" ("queue_items" ∷ []));
        }
        else record { action = QueueStartAction.wait; rule = "queue_order_pending"; err = none })
    else d
