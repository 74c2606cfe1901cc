-- ===== src/Journal/Admission.antt =====
-- internal/journal/operations.go, `Admit` and `handoffUpdate`.
use heos_control.Prelude.{
  ◌+◌, true, false, ◌&&◌, ◌||◌, not, none, some, List, [], ◌∷◌, String, ◌==◌, ◌!=◌, nat_eq, nat_beq,
  string_eq, contains, if◌then◌else◌, Time, before, is_zero, ltb,
}
use heos_control.Journal.Types.{
  State, JournalErr, Result, ok, err, ◌>>=◌, ◌>>◌, require, Request, Proposal, Operation, Update,
  Db, Admission, state_eq,
}
use heos_control.Journal.Queries.{
  active_operation, count_operations, unfinished, transition_operation, insert_operation,
  insert_request, reserve_device,
}
use heos_control.Journal.Store.{
  Codec, Store, retention, found, text_within, fingerprint, active, lookup, finish,
}

abbrev pub known_kinds : List String
known_kinds =
    "alarm" ∷ "playback" ∷ "volume" ∷ "mute" ∷ "transport" ∷ "skip" ∷ "stop" ∷ "cancel" ∷ []

-- `handoffUpdate`.
unfoldable pub handoff_update : Codec → Operation → Proposal → Time → Result Update
handoff_update c old p now = do
  outcome ←
      (if p.replace_uncertain
        then found JournalErr.invalid (c.mark_unknown old.outcome)
        else ok old.outcome)
  annotated ← found JournalErr.invalid (
      c.with_diagnostics outcome
        (if p.kind == "cancel" then "cancellation_requested" else "superseded") old.phase now)
  ok (record {
    state =
        if p.kind == "cancel"
        then State.running
        else if p.replace_uncertain
        then State.uncertain
        else State.released;
    phase = if p.kind == "cancel" then "cancelling" else "superseded";
    progress = old.progress;
    outcome = annotated;
    error_code = if p.replace_uncertain then "command_interrupted" else "";
  })

-- The window, capacity and kind checks of `Admit`, before it reads the reservation.
unfoldable pub admissible : Store → Proposal → Time → Db → Result (Unit {0})
unfolding text_within contains
admissible s p now db = do
  require (not (is_zero p.not_before) && before p.not_before p.not_after) JournalErr.invalid
  require (not (before now p.not_before)) JournalErr.future
  require (before now p.not_after) JournalErr.expired
  require (ltb (count_operations s.max_operations db) s.max_operations) JournalErr.capacity

-- The owner of a child command must be this principal's active playback.
unfoldable pub check_owner : Store → Request → Proposal → Db → Result (Unit {0})
check_owner s r p db =
    if p.owner_id == ""
    then ok tt
    else if p.kind != "skip"
        || p.replace_id != ""
        || not (nat_beq p.replace_revision 0)
        || p.replace_uncertain
    then err JournalErr.invalid
    else elim (active_operation r.player db) [
      | none ↦ err JournalErr.revision
      | some o ↦
          require
            (o.id == p.owner_id
              && o.device_key == p.device_key
              && o.epoch == s.epoch
              && o.kind == "playback"
              && o.principal == r.principal
              && unfinished o)
            JournalErr.revision
    ]

-- The handoff: the old operation is brought to its last state and its device is released.
unfoldable pub hand_over : Codec → Store → Request → Proposal → Time → Db → Result Db
unfolding finish handoff_update
hand_over c s r p now db =
    if p.replace_id == "" then ok db else elim (active_operation r.player db) [
      | none ↦ err JournalErr.revision
      | some old ↦ do
        require
            (old.id == p.replace_id
              && old.device_key == p.device_key
              && nat_beq old.revision p.replace_revision)
            JournalErr.revision
        u ← handoff_update c old p now
        moved ←
            found JournalErr.database (transition_operation old.id old.revision s.epoch u now db)
        ok (finish (old.id ∷ []) now moved.1)
    ]

abbrev pub new_operation : Store → Request → Proposal → String → String → Time → Operation
new_operation s r p id effective now = record {
  id = id;
  kind = p.kind;
  player = r.player;
  device_key = p.device_key;
  principal = r.principal;
  epoch = s.epoch;
  state = State.accepted;
  revision = 1;
  phase = "";
  config_revision = p.config_revision;
  effective_arguments = effective;
  selected_album = none;
  progress = "{}";
  outcome = "{}";
  error_code = "";
  scheduled_for = p.not_before;
  not_after = p.not_after;
  created_at = now;
  updated_at = now;
  started_at = none;
  finished_at = none;
}

-- A child command of an owner reserves nothing.
unfoldable pub reserve_for : Proposal → Operation → Db → Result Db
reserve_for p o db =
    if p.owner_id == ""
    then found JournalErr.busy (
        reserve_device (record { device_key = p.device_key; operation_id = o.id; epoch = o.epoch })
          db)
    else ok db

-- The three inserts, and the reservation unless the command is an owner's child.
unfoldable pub insert_admitted : Request → Proposal → String → Operation → Time → Db → Result Db
unfolding reserve_for
insert_admitted r p hash o now db = do
  one ← found JournalErr.database (insert_operation o db)
  two ← found JournalErr.database (
      insert_request
        (record {
          principal = r.principal;
          method = r.method;
          endpoint = r.endpoint;
          key = r.key;
          request_hash = hash;
          operation_id = o.id;
          expires_at = now + retention;
        })
        one)
  reserve_for p o two

-- What `Admit` returns beside an error: the admission and the tables.
pub record Admitted : Type 0 where
  pub admission : Admission
  pub db : Db

-- `Admit`, up to its commit. `id` is the random identifier of the new operation.
unfoldable pub admit_new :
    Codec → Store → Request → Proposal → String → String → Time → Db → Result Admitted
unfolding admissible check_owner hand_over insert_admitted contains
admit_new c s r p hash id now db = do
  active s db
  require (text_within p.device_key 256 && text_within p.config_revision 256) JournalErr.invalid
  require (contains p.kind known_kinds) JournalErr.invalid
  effective ← found JournalErr.invalid (c.canonical_object p.effective_arguments)
  admissible s p now db
  check_owner s r p db
  cleared ← hand_over c s r p now db
  let o = new_operation s r p id effective now
  done ← insert_admitted r p hash o now cleared
  ok (record {
    admission = record { operation = o; created = true; recovered_commit = false };
    db = done;
  })

unfoldable pub admit : Codec → Store → Request → Proposal → String → Time → Db → Result Admitted
unfolding fingerprint admit_new
admit c s r p id now db = do
  hash ← fingerprint c r
  elim (lookup r hash db) [
    | ok o ↦ ok (record {
      admission = record { operation = o; created = false; recovered_commit = false };
      db = db;
    })
    | err e ↦ elim e [ JournalErr.not_found ↦ admit_new c s r p hash id now db | other ↦ err other ]
  ]
