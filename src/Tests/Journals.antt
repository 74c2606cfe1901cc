-- ===== src/Tests/Journals.antt =====
-- The journal at concrete tables: an admission, its retry, a transition and a restart.
use heos_control.Prelude.{
  ◌≡◌, ◌≢◌, ◌≤◌, ◌+◌, refl, true, false, none, some, [], ◌∷◌, length, contains, keep, ◌<◌, inl,
  arith,
}
use heos_control.Journal.Types.{State, ok, Request, Proposal, Operation, Update, Db}
use heos_control.Journal.Store.{lookup, active, Codec, Store, retention}
use heos_control.Journal.Admission.{admit, Admitted, new_operation}
use heos_control.Journal.Recovery.{transition, recover, recover_batch}
use heos_control.Journal.Queries.{
  transition_operation, reserve_device, release_reservations, lookup_request, insert_request,
  insert_operation, extend_retention, count_operations, get_operation,
}
use heos_control.Journal.Invariant.{WellFormed}
use heos_control.Journal.Inserted.{request_record, reservation_of}
use heos_control.Journal.Steps.{Step, Steps, Steps-WellFormed}
use heos_control.Journal.Retry.{returned, admit_retry, admit_capacity}
use heos_control.Journal.Restart.{IsRecovered, recover_ends}
use heos_control.Journal.Stale.{stale_operations}
use heos_control.Journal.Final.{IsIn, finished_stays}
use heos_control.Journal.Revision.{transition_once}

-- Documents are kept as they are, and a digest is the body.
abbrev codec : Codec
codec = record {
  canonical_object = λ d. some d;
  digest = λ player if_match body. body;
  mark_unknown = λ d. some d;
  with_diagnostics = λ d reason phase now. some d;
  restart_outcome = λ phase. phase;
}

abbrev store : Store
store = record { epoch = "e1"; initialized = true; previous_epoch = none; max_operations = 2 }

abbrev next_store : Store
next_store = record { epoch = "e2"; initialized = false; previous_epoch = none; max_operations = 2 }

abbrev empty_db : Db
empty_db = record {
  control_epoch = "e1";
  ready = true;
  operations = [];
  requests = [];
  reservations = [];
}

abbrev request : Request
request = record {
  principal = "alice";
  method = "POST";
  endpoint = "/play";
  key = "k1";
  player = "kitchen";
  if_match = "";
  body = "{}";
}

abbrev proposal : Proposal
proposal = record {
  owner_id = "";
  replace_uncertain = false;
  replace_id = "";
  replace_revision = 0;
  kind = "playback";
  device_key = "kitchen";
  config_revision = "c1";
  effective_arguments = "{}";
  not_before = 50;
  not_after = 200;
}

abbrev created : Operation
created = new_operation store request proposal "op_1" "{}" 100

abbrev admitted_db : Db
admitted_db = record {
  control_epoch = "e1";
  ready = true;
  operations = created ∷ [];
  requests = request_record request "{}" "op_1" 100 ∷ [];
  reservations = reservation_of proposal created ∷ [];
}

abbrev admitted : Admitted
admitted = record {
  admission = record { operation = created; created = true; recovered_commit = false };
  db = admitted_db;
}

admits_first : admit codec store request proposal "op_1" 100 empty_db ≡ ok admitted
unfolding admit lookup lookup_request active count_operations insert_operation insert_request
    reserve_device
admits_first = refl

admit_capacity_example :
    (length admitted_db.operations ≡ length empty_db.operations + 1)
    × (length admitted_db.operations ≤ 2)
admit_capacity_example =
    admit_capacity codec store request proposal "op_1" 100 empty_db admitted admits_first refl

empty_db-WellFormed : WellFormed empty_db
empty_db-WellFormed = record { held = tt; devices = tt; ids = tt }

one_step : Steps codec empty_db admitted_db
one_step =
    Steps.extend empty_db empty_db admitted_db (Steps.start empty_db)
      (Step.admits store request proposal "op_1" 100 empty_db admitted admits_first)

Steps-WellFormed_example : WellFormed admitted_db
Steps-WellFormed_example = Steps-WellFormed codec empty_db admitted_db one_step empty_db-WellFormed

abbrev succeeded : Update
succeeded = record {
  state = State.succeeded;
  phase = "done";
  progress = "{}";
  outcome = "{}";
  error_code = "";
}

abbrev finished : Operation
finished = record created {
  state = State.succeeded;
  phase = "done";
  revision = 2;
  updated_at = 150;
  finished_at = some 150;
}

abbrev finished_db : Db
finished_db = record {
  control_epoch = "e1";
  ready = true;
  operations = finished ∷ [];
  requests = record (request_record request "{}" "op_1" 100) { expires_at = 150 + retention } ∷ [];
  reservations = [];
}

finishes : transition codec store "op_1" 1 succeeded 150 admitted_db ≡ ok (finished, finished_db)
unfolding transition transition_operation extend_retention release_reservations
finishes = refl

transition_once_example :
    transition codec store "op_1" 1 succeeded 160 finished_db ≢ ok (finished, finished_db)
transition_once_example =
    transition_once codec store "op_1" 1 succeeded succeeded 150 160 admitted_db
      (finished, finished_db) (finished, finished_db) finishes

recovers_nothing :
    recover_batch codec next_store 400 finished_db
    ≡ ok (
      true,
      record next_store { previous_epoch = some "e1" },
      record finished_db { control_epoch = "e2"; ready = true },
    )
unfolding recover_batch extend_retention release_reservations
recovers_nothing = refl

finished_db-WellFormed : WellFormed finished_db
finished_db-WellFormed = record { held = tt; devices = tt; ids = (unfold contains in refl, tt) }

abbrev restarted_db : Db
restarted_db = record finished_db { control_epoch = "e2"; ready = true }

restart : Steps codec finished_db restarted_db
restart = Steps.extend finished_db finished_db restarted_db (Steps.start finished_db) (
    Step.recovers next_store 400 finished_db true (record next_store { previous_epoch = some "e1" })
      restarted_db recovers_nothing)

finish_and_restart : Steps codec admitted_db restarted_db
finish_and_restart =
    Steps.extend admitted_db finished_db restarted_db
      (Steps.extend admitted_db admitted_db finished_db (Steps.start admitted_db)
        (Step.moves store "op_1" 1 succeeded 150 admitted_db (finished, finished_db) finishes))
      (Step.recovers next_store 400 finished_db true
        (record next_store { previous_epoch = some "e1" }) restarted_db recovers_nothing)

admit_retry_example :
    (o : Operation) × (o.id ≡ "op_1")
    × (get_operation "op_1" restarted_db ≡ some o)
    × (admit codec next_store request proposal "op_2" 500 restarted_db
        ≡ ok (returned o restarted_db))
admit_retry_example =
    admit_retry codec store next_store request proposal proposal "op_1" "op_2" 100 500 empty_db
      restarted_db admitted admits_first refl finish_and_restart

finished_stays_example : IsIn finished restarted_db
finished_stays_example =
    finished_stays codec finished_db restarted_db finished restart finished_db-WellFormed refl
      (inl refl)

one_left : length (stale_operations "e2" admitted_db) < 2
unfolding keep
one_left = omega arith

recover_ends_example :
    (t : Store) × (d : Db) × (recover codec 2 next_store 400 admitted_db ≡ some (ok (t, d)))
    × IsRecovered next_store t d
recover_ends_example = recover_ends codec 2 next_store 400 admitted_db refl tt one_left
