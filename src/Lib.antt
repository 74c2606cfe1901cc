-- ===== src/Lib.antt =====
-- Verification of heos-control, a daemon that plays music on HEOS devices on request and that
-- must never act on a device which someone else has taken over.
--
-- The parts. `internal/heos` speaks the device protocol and keeps an observation of each player.
-- `internal/control` runs one operation per player: it writes to the device, reads the device
-- back, and by policies over two observations decides whether a change is its own, is still in
-- progress, or means that ownership is lost. `internal/journal` records each operation durably:
-- admission with idempotency keys, device reservations, transitions under optimistic revisions,
-- and recovery after a restart. The control package calls the journal around each write.
--
-- Prelude: lists, integers, instants and Boolean equality.
-- Heos: `Values`, `Snapshot`, `Numbers` and `Events` are `internal/heos/values.go`,
-- `observations.go`, the numbers that the decoders read, and `events.go` (`decode_event_data` is
-- `decodeEventData`, `data_of` is `Event.Data`). `Mutations` is the command set of `writes.go`,
-- `Frames` is `readFrame` and `Writer` is `writeAll` of `protocol.go`. `Observer` is
-- `Observer.Notify` of `observation_events.go`, `Observer.Reads` what each read of the observer
-- publishes, and `Pages` is `pageBounds` of `catalog.go` with `Client.Queue`.
-- Control: `Changes` is `stateChanges` (`diagnostics.go`), `Membership` is `ownership.go`, `Safety`
-- the device checks of `coordinator.go`, `Queue` the queue checks of `queue_append.go`,
-- `queue_remove.go` and `skip.go`, `Transition` is `queue_policy.go` with `Transition.Await` for
-- `awaitOwnedPlayback`, `Start` is `queue_start_policy.go`, `Command` the validation of commands,
-- `Buffer` the maintenance step of `buffered_execution.go`, `Skip` the checks of `skip.go`.
-- `Scalar` is `scalar_confirmation.go`; `Attribution` with `Attribution.Expect` is `events.go`, on the
-- fields of `execution` that events touch; `Prewrite` is `writeOnce` of `execution.go` up to
-- the call of the writer and `prepareSkip`, `Write` is `writeOnce` from the reply on, `Attempts` the
-- whole of it and `write`, `Outcome` the classification at the end of `execute`, and `Queue.Complete` is `completeQueue`.
-- Journal: `Types` and `Queries` are the tables and `dbgen/operations.sql.go`, `Store`, `Admission`,
-- `Recovery` and `Album` are `operations.go` and `operation.go`. The other modules are the theory:
-- `Held`, `Inserted`, `Invariant` and `Stale` describe what one transaction does, and `Steps`, `Repeat`,
-- `Final`, `Revision`, `Retry` and `Restart` what sequences of them do.
-- Tests: concrete runs.
--
-- State. A Go function that reads a mutable object is a function of the fields that it reads, and
-- one that changes them returns them. A journal function is one transaction under the lock of the
-- control row, so it is a function of the tables; on an error they are unchanged. A loop that
-- waits for the outside world takes what each round meets as a list; what events do to an execution
-- while a write waits is any function; a read before a write changes its attribution only,
-- and the page reads of a skip are taken to meet no event. The loop of `Recover` is on
-- fuel; a round takes a batch of a hundred stale operations, so more fuel than there are stale
-- operations is enough. `writeAll` is on as much fuel as there are bytes, since a round that goes on
-- has sent one; `completeQueue` counts the 99 pages that the code may still read, and `Itoa` a digit
-- for each unit of fuel.
--
-- Data. Strings are byte strings. An enumeration holds the spellings of its constants. An instant
-- is a number of nanoseconds since Go's zero time, which is 0. An `int` that a decoder has bounded
-- is a natural number; the settings of a command are integers. A nil pointer or error is `none`.
-- The uint64 counters of a token are natural numbers that do not wrap.
--
-- Not modelled: sockets, HTTP, logging, metrics, configuration files and migrations; errors of
-- the database other than a missing row or a violated key; a commit whose outcome is unknown; JSON
-- and SHA-256, which `Journal.Store.Codec` stands for; the decoded memo of an event; the order of
-- ids inside a recovery batch; pruning.

pub mod Prelude
pub mod Heos
pub mod Control
pub mod Journal
pub mod Tests
