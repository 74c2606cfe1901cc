-- ===== src/Journal/Recovery.antt =====
-- internal/journal/operations.go, `Transition`, `recoverBatch` and `Recover`.
use Prim.Native.String.{len}
use heos_control.Prelude.{
  ℕ, zero, suc, ◌+◌, Bool, true, false, ◌&&◌, ◌||◌, Option, none, some, List, [], ◌∷◌, String, ◌==◌,
  ◌!=◌, nat_eq, string_eq, map, length, contains, if◌then◌else◌, Time, ltb, leb, keep, take,
}
use heos_control.Journal.Types.{
  State, is_terminal, JournalErr, Result, ok, err, ◌>>=◌, ◌>>◌, require, Operation, Update, Db,
  state_eq,
}
use heos_control.Journal.Queries.{unfinished, transition_operation, set_journal_epoch, set_where}
use heos_control.Journal.Store.{Codec, Store, max_batch, found, active, finish}

-- `Transition`; a missing progress or outcome is "{}" by then.
unfoldable pub transition :
    Codec → Store → String → ℕ → Update → Time → Db → Result (Operation × Db)
unfolding active finish
transition c s id revision u now db = do
  require
      (leb 1 revision
        && leb (len u.phase) 128
        && leb (len u.error_code) 128
        && (u.state == State.running || is_terminal u.state))
      JournalErr.invalid
  progress ← found JournalErr.invalid (c.canonical_object u.progress)
  outcome ← found JournalErr.invalid (c.canonical_object u.outcome)
  active s db
  moved ← found JournalErr.revision (
      transition_operation id revision s.epoch (record u { progress = progress; outcome = outcome })
        now db)
  ok (moved.0, if is_terminal u.state then finish (id ∷ []) now moved.1 else moved.1)

-- InterruptBatch: the unfinished operations of other epochs, `ids` the batch that was chosen.
abbrev pub stale : String → Operation → Bool
stale epoch o = o.epoch != epoch && unfinished o

unfoldable pub interrupted : Codec → Time → Operation → Operation
interrupted c now o = record o {
  state = State.uncertain;
  phase = "restart";
  error_code = "process_interrupted";
  outcome = c.restart_outcome o.phase;
  revision = o.revision + 1;
  updated_at = now;
  finished_at = some now;
}

unfoldable pub batch : String → ℕ → Db → List String
unfolding keep
batch epoch limit db = take limit (map (λ o. o.id) (keep (stale epoch) db.operations))

unfoldable pub interrupt_batch : Codec → String → Time → List String → Db → Db
unfolding interrupted contains
interrupt_batch c epoch now ids db = record db {
  operations = map (set_where (λ o. contains o.id ids) (interrupted c now)) db.operations;
}

-- `previousEpoch`, which the first attempt takes from the control row.
abbrev pub met_epoch : Option String → Db → String
met_epoch none db = db.control_epoch
met_epoch (some e) db = e

abbrev pub claim_epoch : Store → Db → String
claim_epoch s db = met_epoch s.previous_epoch db

-- The control row is another process's by now.
unfoldable pub refused : Store → Db → Bool
refused s db = db.control_epoch != claim_epoch s db && db.control_epoch != s.epoch

abbrev pub batch_of : Store → Db → List String
batch_of s db = batch s.epoch max_batch (set_journal_epoch s.epoch false db)

-- The tables after the claim, the batch and the release of its devices.
unfoldable pub settled_by : Codec → Store → Time → Db → Db
unfolding finish interrupt_batch batch
settled_by c s now db =
    finish (batch_of s db) now
      (interrupt_batch c s.epoch now (batch_of s db) (set_journal_epoch s.epoch false db))

-- `recoverBatch`: the new store and tables, and whether this batch was the last.
unfoldable pub recover_batch : Codec → Store → Time → Db → Result (Bool × Store × Db)
unfolding settled_by batch refused
recover_batch c s now db =
    let store = record s { previous_epoch = some (claim_epoch s db) } in
    if refused s db
    then err JournalErr.stale_epoch
    else if ltb (length (batch_of s db)) max_batch
    then ok (true, store, set_journal_epoch s.epoch true (settled_by c s now db))
    else ok (false, store, settled_by c s now db)

-- The loop of `Recover` on fuel; `none` means that the fuel ran out.
unfoldable pub recover : Codec → ℕ → Store → Time → Db → Option (Result (Store × Db))
recover c zero s now db = none
recover c (suc fuel) s now db =
    if s.initialized then some (ok (s, db)) else elim (recover_batch c s now db) [
      | err e ↦ some (err e)
      | ok (done, store, settled) ↦ elim done [
        | true ↦ some (ok (record store { initialized = true }, settled))
        | false ↦ recover c fuel store now settled
      ]
    ]
