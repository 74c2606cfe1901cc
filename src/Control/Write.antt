-- ===== src/Control/Write.antt =====
-- internal/control/execution.go (writeOnce from the registration of the expectations on) and
-- confirmation.go (the readback of a transport command). What the connection, the readback and the
-- wait for a track transition return is given; `meanwhile` is what events do to the execution while
-- the readback waits.
pub mod Laws
use heos_control.Prelude.{
  ℕ, ◌+◌, Bool, true, false, ◌&&◌, ◌||◌, not, Option, none, some, List, [], ◌∷◌, String, ◌==◌, ◌!=◌,
  nat_eq, string_eq, if◌then◌else◌, leb, is_empty, ℤ, pos, negsuc,
}
use heos_control.Heos.Values.{PlayState, MutationKind, play_state_eq, mutation_kind_eq}
use heos_control.Heos.Snapshot.{Token, Snapshot}
use heos_control.Heos.Mutations.{Mutation}
use heos_control.Control.Errors.{Err, failed}
use heos_control.Control.Changes.{state_changes}
use heos_control.Control.Membership.{queued_media, queued_identity, empty_media, owned_changes}
use heos_control.Control.Queue.{ordered_queue}
use heos_control.Control.Safety.{PlayerConfig, device_safety}
use heos_control.Control.Skip.{skip_confirmed}
use heos_control.Control.Start.{QueueStartPhase, queue_result_problem}
use heos_control.Control.Attribution.{Attribution}

pub record Execution : Type 0 where
  pub link : Attribution
  pub bounded : Bool
  pub members : List String
  pub ordered : Option (List String)
  pub unconfirmed : Bool
  pub rejected_write : Bool
  pub confirmed : ℕ

-- What the writer returns: the token of the reply, or an error with its delivery; `untyped` is an
-- error that is no `CommandError`.
pub data Reply : Type 0 where
  accepted : Token → Reply
  not_sent rejected uncertain untyped : Err → Reply

-- What an observation returns.
pub data Observed : Type 0 where
  read : Snapshot → Observed
  broken : Err → Observed

unfoldable pub stopped_readback : Snapshot → Snapshot → Snapshot
unfolding empty_media queued_media
stopped_readback a b =
    if b.state == PlayState.unknown || b.state == PlayState.stop
    then (if empty_media b.media || queued_media a.queue b.media
        then record a { state = b.state; media = b.media }
        else record a { state = b.state })
    else a

unfoldable pub transport_media_readback : PlayState → Snapshot → Snapshot → Bool → Snapshot
unfolding stopped_readback queued_media queued_identity empty_media
transport_media_readback PlayState.stop a b pending = stopped_readback a b
transport_media_readback PlayState.play a b pending =
    if queued_media a.queue b.media
      || pending
        && b.state != PlayState.play
        && (empty_media b.media || queued_identity a.queue b.media)
    then record a { media = b.media }
    else a
transport_media_readback _ a b pending = a

-- The level of a volume command is within 0 to 100 when it was sent.
abbrev level_sent : ℤ → Option ℕ
level_sent (pos n) = some n
level_sent (negsuc n) = none

abbrev in_order : Option (List String) → Snapshot → Bool
in_order none s = true
in_order (some ids) s = ordered_queue s.queue ids

-- `execution.queueResultProblem`.
unfoldable pub execution_problem : Execution → Snapshot → String
unfolding ordered_queue queue_result_problem
execution_problem r s =
    if in_order r.ordered s
    then queue_result_problem s r.members r.bounded
    else "queue_incomplete_or_invalid"

-- The state that the readback must show, or the ownership error that the switch returns.
pub data Target : Type 0 where
  mismatch : Err → Target
  shown : Snapshot → Target

queue_target : Execution → Snapshot → Snapshot → Target
unfolding execution_problem
queue_target r fresh after =
    if execution_problem r after == ""
    then shown (record fresh { state = PlayState.play; media = after.media; queue = after.queue })
    else mismatch (Err.ownership (execution_problem r after) ("queue_membership" ∷ []))

expected_after : MutationKind → Execution → Mutation → Snapshot → Snapshot → Target
unfolding transport_media_readback skip_confirmed queue_target state_changes
expected_after MutationKind.mode r m fresh after =
    shown (record fresh { repeat = m.repeat; shuffle = m.shuffle })
expected_after MutationKind.volume r m fresh after = shown record fresh {
  volume = level_sent m.level;
  muted = elim fresh.muted [ some true ↦ after.muted | other ↦ other ];
}
expected_after MutationKind.mute r m fresh after = shown (record fresh { muted = some m.muted })
expected_after MutationKind.transport r m fresh after =
    shown (transport_media_readback m.state (record fresh { state = m.state }) after false)
expected_after MutationKind.skip r m fresh after =
    if skip_confirmed fresh after
    then shown (record fresh { state = after.state; media = after.media })
    else mismatch (Err.ownership "readback_changed" (state_changes fresh after))
expected_after MutationKind.queue r m fresh after = queue_target r fresh after
expected_after MutationKind.remove r m fresh after = queue_target r fresh after
expected_after MutationKind.absent r m fresh after = shown fresh

abbrev doubtful : Execution → Execution
doubtful r = record r { link = record r.link { inflight = false; uncertain = true } }

abbrev landed : Execution → Execution
landed r = record r { link = record r.link { inflight = false } }

-- The locked block after the command was sent.
unfoldable pub after_send : Execution → Reply → Execution
after_send r (accepted token) =
    let e = r.link.expected in
    let now =
      if token.generation == e.token.generation && token.player == e.token.player
      then record e { token = token }
      else e in
    record r { link = record r.link { inflight = false; expected = now }; unconfirmed = true }
after_send r (not_sent e) = record (landed r) { rejected_write = false }
after_send r (rejected e) = record (landed r) { rejected_write = true }
after_send r (uncertain e) = record (doubtful r) { rejected_write = false }
after_send r (untyped e) = record (doubtful r) { rejected_write = false }

-- The token that is kept: a duplicate event may have advanced it past the readback.
abbrev kept_token : Snapshot → Snapshot → Snapshot
kept_token expected after =
    if expected.token.generation == after.token.generation
      && leb after.token.player expected.token.player
    then record after { token = expected.token }
    else after

-- The last locked block: the readback becomes the expected state.
unfoldable pub confirm_write : Execution → Mutation → Snapshot → Execution
confirm_write r m after = record r {
  link = record r.link {
    expected = kept_token r.link.expected after;
    queue_owned = r.link.queue_owned || m.kind == MutationKind.queue && r.bounded;
    events = [];
    queue_start = QueueStartPhase.not_starting;
    scalar = none;
    keep_expectations = false;
  };
  unconfirmed = false;
  confirmed = r.confirmed + 1;
}

-- The checks after the readback; `cause` is that of the context at the end.
settle_write :
    PlayerConfig → Option Err → Execution → Mutation → Snapshot → Observed → Option Err × Execution
unfolding confirm_write owned_changes device_safety
settle_write config cause r m expected (broken e) = (some e, r)
settle_write config cause r m expected (read after) =
    let unsafe = device_safety config after in
    let changes = owned_changes r.link.queue_owned expected after in
    if failed unsafe
    then (unsafe, r)
    else if not (is_empty changes)
    then (some (Err.ownership "readback_changed" changes), r)
    else (cause, confirm_write r m after)

-- The wait for a track transition follows a volume command only.
abbrev gated : Mutation → (Snapshot → Observed) → Snapshot → Observed
gated m gate after = if m.kind == MutationKind.volume then gate after else read after

compare_write :
    PlayerConfig
    → Option Err
    → (Snapshot → Observed)
    → Execution
    → Mutation
    → Snapshot
    → Target
    → Option Err × Execution
unfolding settle_write
compare_write config cause gate r m after (mismatch e) = (some e, r)
compare_write config cause gate r m after (shown expected) =
    settle_write config cause r m expected (gated m gate after)

after_readback :
    PlayerConfig
    → Option Err
    → (Snapshot → Observed)
    → Execution
    → Mutation
    → Snapshot
    → Observed
    → Option Err × Execution
unfolding compare_write expected_after
after_readback config cause gate r m fresh (broken e) =
    (some e, record r { link = record r.link { uncertain = true } })
after_readback config cause gate r m fresh (read after) =
    compare_write config cause gate r m after (expected_after m.kind r m fresh after)

-- `writeOnce` from the reply on.
unfoldable pub write_replied :
    PlayerConfig
    → Option Err
    → (Snapshot → Observed)
    → (Attribution → Attribution)
    → Execution
    → Mutation
    → Snapshot
    → Observed
    → Reply
    → Option Err × Execution
unfolding after_send after_readback
write_replied config cause gate meanwhile r m fresh seen (accepted token) =
    let sent = after_send r (accepted token) in
    after_readback config cause gate (record sent { link = meanwhile sent.link }) m fresh seen
write_replied config cause gate meanwhile r m fresh seen (not_sent e) =
    (some e, after_send r (not_sent e))
write_replied config cause gate meanwhile r m fresh seen (rejected e) =
    (some e, after_send r (rejected e))
write_replied config cause gate meanwhile r m fresh seen (uncertain e) =
    (some e, after_send r (uncertain e))
write_replied config cause gate meanwhile r m fresh seen (untyped e) =
    (some e, after_send r (untyped e))
