-- ===== src/Control/Outcome.antt =====
-- internal/control/execution.go (execute): how the result of the device work becomes the final state,
-- error code and delivery of an operation.
pub mod Report
use heos_control.Prelude.{
  ℕ, ◌≡◌, ◌≢◌, ◌⊎◌, ◌↔◌, inl, inr, refl, Bool, true, false, ◌&&◌, ◌||◌, not, Option, none, some,
  String, arith, if◌then◌else◌,
}
use heos_control.Control.Errors.{Err, is_ownership}
use heos_control.Journal.Types.{State}

pub record Completion : Type 0 where
  pub state : State
  pub code : String
  pub delivery : String

-- The circumstances at the end: an error of the work, the cause that cancelled the operation, whether
-- the service stops, and the flags of the execution.
pub record Circumstances : Type 0 where
  pub cause : Option Err
  pub stopping : Bool
  pub uncertain : Bool
  pub unconfirmed : Bool

abbrev lost : Option Err → Bool
lost none = false
lost (some e) = is_ownership e

-- The overrides that depend on the error alone, the last ones in the code.
by_error : Err → Bool → Completion → Completion
by_error Err.rejected stopping c = record c { code = "device_rejected"; delivery = "rejected" }
by_error Err.session_expired stopping c = record {
  state = State.released;
  code = "session_expired";
  delivery = "confirmed";
}
by_error Err.capacity stopping c = record c { code = "buffer_capacity" }
by_error Err.loading_incomplete stopping c = record c {
  code = "queue_loading_incomplete";
  delivery = "confirmed";
}
by_error Err.not_skippable stopping c = record c { code = "not_skippable" }
by_error Err.journal_unavailable stopping c =
    if stopping then c else record c { code = "journal_unavailable" }
by_error _ stopping c = c

by_doubt : Circumstances → Completion → Completion
by_doubt f c =
    if f.uncertain || f.unconfirmed
    then record c { state = State.uncertain; delivery = "unknown" }
    else c

by_cause : Circumstances → Err → Completion → Completion
unfolding is_ownership
by_cause f e c =
    if is_ownership e || lost f.cause
    then record c { state = State.released; code = "ownership_lost" }
    else c

failure : Bool → Completion
failure stopping =
    if stopping
    then record { state = State.interrupted; code = "service_stopping"; delivery = "not_sent" }
    else record { state = State.failed; code = "device_unavailable"; delivery = "not_sent" }

-- The classification of `execute`.
unfoldable pub complete : Option Err → Circumstances → Completion
unfolding by_error by_doubt by_cause failure
complete none f = record { state = State.succeeded; code = ""; delivery = "confirmed" }
complete (some e) f = by_error e f.stopping (by_doubt f (by_cause f e (failure f.stopping)))
