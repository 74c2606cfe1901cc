-- ===== src/Control/Prewrite.antt =====
-- internal/control/execution.go (the first part of writeOnce) and skip.go (prepareSkip): what a
-- command must pass before it is handed to the connection. What the reads, the clock, the journal
-- and the wait for a track transition return is given in `Surroundings`, together with what events
-- do to the execution meanwhile; what they do during the page reads of a skip is left out.
pub mod Laws
pub mod Cleared
pub mod Total
use heos_control.Prelude.{
  ℕ, ◌*◌, ◌-◌, Bool, true, false, ◌&&◌, ◌||◌, not, Option, none, some, List, [], ◌∷◌, ◌==◌, nat_eq,
  if◌then◌else◌, leb, is_empty, ℤ, pos, ◌<?◌, Time, is_zero, second,
}
use heos_control.Heos.Values.{MutationKind, mutation_kind_eq}
use heos_control.Heos.Snapshot.{Token, Snapshot, QueuePage}
use heos_control.Heos.Mutations.{Mutation}
use heos_control.Control.Errors.{Err}
use heos_control.Control.Membership.{owned_changes}
use heos_control.Control.Queue.{queue_extension}
use heos_control.Control.Queue.Complete.{complete_queue}
use heos_control.Control.Command.{BufferedPlayback}
use heos_control.Control.Buffer.{removal_allowed}
use heos_control.Control.Safety.{PlayerConfig, mutation_safety}
use heos_control.Control.Skip.{skip_admissible}
use heos_control.Control.Attribution.{Attribution}
use heos_control.Control.Attribution.Expect.{expect}
use heos_control.Control.Write.{Execution, Observed, read, broken}

-- The fields of `execution` that are the worker's own: the ends of the envelope, zero if there is
-- none, the buffered settings and the catalog token of the first part.
pub record Plan : Type 0 where
  pub append_until : Time
  pub playback_deadline : Time
  pub buffered : Option BufferedPlayback
  pub catalog : Token

-- What `awaitOwnedPlayback` returns: the observation and whether it waited, or its error.
pub data Gate : Type 0 where
  passed : Snapshot → Bool → Gate
  held : Err → Gate

pub record Surroundings : Type 0 where
  pub cause : Option Err
  pub reading : Execution → Observed × Attribution
  pub gate : Snapshot → Snapshot → Execution → Gate × Attribution
  pub append_checked : Time
  pub playback_checked : Time
  pub pages : ℕ → Option QueuePage
  pub connected : Bool
  pub current : Token
  pub page_error : Err
  pub journal : Option Err
  pub during_journal : Attribution → Attribution
  pub append_guarded : Time
  pub playback_guarded : Time

-- The command as it is sent with the token and the time that guard it, the error before, or the nil
-- dereference of `expect`.
pub data Prewrite : Type 0 where
  refused : Err → Execution → Prewrite
  guarded : Mutation → Token → ℕ → Snapshot → Execution → Prewrite
  crashed : Prewrite

abbrev pub is_buffered : Option BufferedPlayback → Bool
is_buffered none = false
is_buffered (some b) = true

-- Commands that must not be sent at or after the start of the fade.
unfoldable pub append_limited : Plan → Mutation → Bool
append_limited p m = (m.append || m.kind == MutationKind.remove) && not (is_zero p.append_until)

-- Commands that must not be sent at or after the end of the envelope.
unfoldable pub playback_limited : Plan → Execution → Mutation → Bool
playback_limited p r m =
    (r.link.automating && m.kind == MutationKind.volume && pos 0 <? m.level
      || is_buffered p.buffered && m.kind == MutationKind.skip)
    && not (is_zero p.playback_deadline)

-- The checks between the wait and the preparation of a skip.
unfoldable pub early_problem :
    PlayerConfig → Surroundings → Plan → Execution → Mutation → Snapshot → Bool → Option Err
unfolding append_limited playback_limited mutation_safety
early_problem config s p r m fresh waited =
    if waited && m.kind == MutationKind.volume
    then some Err.timeline_changed
    else if append_limited p m && leb p.append_until s.append_checked
    then some Err.timeline_changed
    else if playback_limited p r m && leb p.playback_deadline s.playback_checked
    then some Err.timeline_changed
    else mutation_safety config fresh (m.kind == MutationKind.skip)

-- The time that the guard gives, reduced to what is left of a limit.
unfoldable pub time_left : Bool → Time → Time → ℕ → Option ℕ
time_left limited end now d =
    if not limited
    then some d
    else if leb end now
    then none
    else some (if leb d (end - now) then d else end - now)

abbrev time_left? : Bool → Time → Time → Option ℕ → Option ℕ
time_left? limited end now none = none
time_left? limited end now (some d) = time_left limited end now d

unfoldable pub guard_time : Surroundings → Plan → Execution → Mutation → Option ℕ
unfolding time_left append_limited playback_limited
guard_time s p r m =
    time_left? (playback_limited p r m) p.playback_deadline s.playback_guarded
      (time_left (append_limited p m) p.append_until s.append_guarded (5 * second))

abbrev sending : Mutation → Snapshot → ℕ → Execution → Option Attribution → Prewrite
sending m fresh d r none = crashed
sending m fresh d r (some l) =
    guarded (record m { player = fresh.player.id }) fresh.token d fresh
      (record r { link = record l { inflight = true } })

-- The registration of the expectations, within the time that is left.
unfoldable pub arm : Mutation → Snapshot → Execution → Option ℕ → Prewrite
unfolding expect
arm m fresh r none = refused Err.timeline_changed r
arm m fresh r (some d) = sending m fresh d r (expect m r.link)

-- The journal records the command first.
unfoldable pub journalled :
    Surroundings → Plan → Mutation → Snapshot → Execution → Option Err → Prewrite
unfolding arm guard_time
journalled s p m fresh r (some e) =
    refused Err.journal_unavailable
      (record r { link = record (s.during_journal r.link) { uncertain = true } })
journalled s p m fresh r none =
    let later = record r { link = s.during_journal r.link } in
    arm m fresh later (guard_time s p later m)

abbrev removable : Option BufferedPlayback → Snapshot → Mutation → Bool
removable none fresh m = false
removable (some b) fresh m = removal_allowed b fresh m.queue_ids

abbrev reconciled : Execution → Snapshot → Execution
reconciled r fresh = record r { link = record r.link { expected = fresh } }

unfoldable pub same_catalog : Token → Token → Bool
same_catalog a b = a.generation == b.generation && a.catalog == b.catalog

-- The references of a buffered plan belong to one catalog.
unfoldable pub outdated : Plan → Mutation → Snapshot → Bool
unfolding same_catalog
outdated p m fresh =
    is_buffered p.buffered
    && (m.kind == MutationKind.queue || m.kind == MutationKind.remove)
    && not (same_catalog p.catalog fresh.token)

-- From the check of the catalog on, with the state that must be unchanged.
unfoldable pub own_state :
    Surroundings → Plan → Mutation → Snapshot → Snapshot → Execution → Prewrite
unfolding outdated owned_changes removal_allowed journalled
own_state s p m before fresh r =
    let changes = owned_changes r.link.queue_owned before fresh in
    let same = reconciled r fresh in
    if outdated p m fresh
    then refused Err.stale_reference r
    else if not (is_empty changes)
    then refused (Err.ownership "before_write_changed" changes) r
    else if m.kind == MutationKind.remove && not (removable p.buffered fresh m)
    then refused Err.timeline_changed same
    else journalled s p m fresh same s.journal

-- The position is kept when a buffered skip is refused at a boundary.
refuse_skip : Plan → Err → Snapshot → Snapshot → Execution → Prewrite
unfolding owned_changes
refuse_skip p Err.not_skippable before fresh r =
    let changes = owned_changes r.link.queue_owned before fresh in
    if not (is_buffered p.buffered)
    then refused Err.not_skippable r
    else if is_empty changes
    then refused Err.not_skippable (reconciled r fresh)
    else refused (Err.ownership "before_write_changed" changes) r
refuse_skip p e before fresh r = refused e r

-- The end of `prepareSkip`: the queue that was read, and the earlier state with that queue if it
-- held the first page of it.
prepared :
    PlayerConfig
    → Surroundings
    → Plan
    → Mutation
    → Snapshot
    → Snapshot
    → Snapshot
    → Execution
    → Option Err
    → Prewrite
unfolding refuse_skip own_state queue_extension
prepared config s p m before fresh full r (some e) = refuse_skip p e before fresh r
prepared config s p m before fresh full r none =
    let known =
      if queue_extension before.queue full.queue
      then record before { queue = full.queue }
      else before in
    own_state s p m known full r

prepare_skip :
    PlayerConfig
    → Surroundings
    → Plan
    → Mutation
    → Snapshot
    → Snapshot
    → Execution
    → Option Snapshot
    → Prewrite
unfolding prepared refuse_skip skip_admissible
prepare_skip config s p m before fresh r none = refuse_skip p s.page_error before fresh r
prepare_skip config s p m before fresh r (some full) =
    prepared config s p m before fresh full r
      (skip_admissible config.volume_ceiling m.direction full)

unfoldable pub checked :
    PlayerConfig
    → Surroundings
    → Plan
    → Mutation
    → Snapshot
    → Snapshot
    → Execution
    → Option Err
    → Prewrite
unfolding prepare_skip own_state complete_queue
checked config s p m before fresh r (some e) = refused e r
checked config s p m before fresh r none =
    if m.kind == MutationKind.skip
    then prepare_skip config s p m before fresh r
        (complete_queue s.pages s.connected s.current fresh)
    else own_state s p m before fresh r

abbrev pub linked : Execution → Attribution → Execution
linked r l = record r { link = l }

gate_passed :
    PlayerConfig
    → Surroundings
    → Plan
    → Mutation
    → Snapshot
    → Execution
    → Gate × Attribution
    → Prewrite
unfolding checked early_problem
gate_passed config s p m before r (held e, l) = refused e (linked r l)
gate_passed config s p m before r (passed fresh waited, l) =
    let now = linked r l in
    checked config s p m before fresh now (early_problem config s p now m fresh waited)

-- The expected state is taken after the observation and before the wait.
observed :
    PlayerConfig → Surroundings → Plan → Mutation → Execution → Observed × Attribution → Prewrite
unfolding gate_passed
observed config s p m r (broken e, l) = refused e (linked r l)
observed config s p m r (read fresh, l) =
    gate_passed config s p m l.expected (linked r l) (s.gate l.expected fresh (linked r l))

start : PlayerConfig → Surroundings → Plan → Mutation → Execution → Option Err → Prewrite
unfolding observed
start config s p m r (some e) = refused e r
start config s p m r none = observed config s p m r (s.reading r)

-- `writeOnce` up to the call of the writer.
unfoldable pub prewrite : PlayerConfig → Surroundings → Plan → Mutation → Execution → Prewrite
unfolding start
prewrite config s p m r = start config s p m r s.cause
