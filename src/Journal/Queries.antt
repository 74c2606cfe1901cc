-- ===== src/Journal/Queries.antt =====
-- internal/journal/dbgen/operations.sql.go: what each query does to the tables. A unique
-- constraint that the program relies on is tested where a row is inserted.
use heos_control.Prelude.{
  ℕ, ◌+◌, Bool, true, false, ◌&&◌, ◌||◌, not, Option, none, some, List, [], ◌∷◌, ◌++◌, String, ◌==◌,
  nat_eq, string_eq, map, length, find, keep, any, contains, if◌then◌else◌, Time, ltb,
}
use heos_control.Journal.Types.{
  State, is_terminal, Operation, Update, RequestRecord, Reservation, Db, Request,
}

abbrev pub matches_request : Request → RequestRecord → Bool
matches_request r i =
    i.principal == r.principal && i.method == r.method && i.endpoint == r.endpoint && i.key == r.key

-- LookupRequest.
unfoldable pub lookup_request : Request → Db → Option RequestRecord
unfolding find
lookup_request r db = find (matches_request r) db.requests

-- GetOperation.
unfoldable pub get_operation : String → Db → Option Operation
unfolding find
get_operation id db = find (λ o. o.id == id) db.operations

abbrev pub is_reserved : Db → Operation → Bool
is_reserved db o = any (λ r. r.operation_id == o.id) db.reservations

-- ActiveOperation.
unfoldable pub active_operation : String → Db → Option Operation
unfolding find any
active_operation player db = find (λ o. o.player == player && is_reserved db o) db.operations

-- CountOperations: the count of a selection that is limited to `bound` rows.
unfoldable pub count_operations : ℕ → Db → ℕ
count_operations bound db = if ltb bound (length db.operations) then bound else length db.operations

abbrev pub unfinished : Operation → Bool
unfinished o = elim o.finished_at [ none ↦ true | some t ↦ false ]

-- The assignments of TransitionOperation.
unfoldable pub updated : Update → Time → Operation → Operation
updated u at o = record o {
  state = u.state;
  revision = o.revision + 1;
  phase = u.phase;
  progress = u.progress;
  outcome = u.outcome;
  error_code = u.error_code;
  updated_at = at;
  started_at = elim u.state [
    | State.running ↦ elim o.started_at [ none ↦ some at | some t ↦ some t ]
    | _ ↦ o.started_at
  ];
  finished_at = if is_terminal u.state then some at else none;
}

-- The condition of TransitionOperation.
abbrev pub transitions : String → ℕ → String → Operation → Bool
transitions id revision epoch o =
    o.id == id && o.revision == revision && o.epoch == epoch && unfinished o

abbrev pub set_where : (Operation → Bool) → (Operation → Operation) → Operation → Operation
set_where p f o = if p o then f o else o

-- TransitionOperation; `none` is `pgx.ErrNoRows`.
unfoldable pub transition_operation :
    String → ℕ → String → Update → Time → Db → Option (Operation × Db)
unfolding updated find
transition_operation id revision epoch u at db =
    elim (find (transitions id revision epoch) db.operations) [
      | none ↦ none
      | some o ↦ some (
        updated u at o,
        record db {
          operations = map (set_where (transitions id revision epoch) (updated u at)) db.operations;
        },
      )
    ]

-- InsertOperation, with the primary key.
unfoldable pub insert_operation : Operation → Db → Option Db
unfolding any
insert_operation o db =
    if any (λ x. x.id == o.id) db.operations
    then none
    else some (record db { operations = db.operations ++ o ∷ [] })

abbrev same_key : RequestRecord → RequestRecord → Bool
same_key a b =
    a.principal == b.principal && a.method == b.method && a.endpoint == b.endpoint && a.key == b.key

-- InsertRequest, with the primary key and the unique operation.
unfoldable pub insert_request : RequestRecord → Db → Option Db
unfolding any
insert_request i db =
    if any (λ x. same_key x i || x.operation_id == i.operation_id) db.requests
    then none
    else some (record db { requests = db.requests ++ i ∷ [] })

-- ReserveDevice; `none` is a violation of `device_reservations_pkey`.
unfoldable pub reserve_device : Reservation → Db → Option Db
unfolding any
reserve_device r db =
    if any (λ x. x.device_key == r.device_key) db.reservations
    then none
    else some (record db { reservations = db.reservations ++ r ∷ [] })

-- ReleaseReservations.
unfoldable pub release_reservations : List String → Db → Db
unfolding keep contains
release_reservations ids db = record db {
  reservations = keep (λ r. not (contains r.operation_id ids)) db.reservations;
}

-- ExtendRetention.
unfoldable pub extend_retention : List String → Time → Db → Db
unfolding contains
extend_retention ids at db = record db {
  requests =
      map
        (λ i.
          if contains i.operation_id ids && ltb i.expires_at at
          then record i { expires_at = at }
          else i)
        db.requests;
}

-- SetJournalEpoch.
abbrev pub set_journal_epoch : String → Bool → Db → Db
set_journal_epoch epoch ready db = record db { control_epoch = epoch; ready = ready }
