-- ===== src/Control/Errors.antt =====
-- The errors that the control policies return or compare. `nil` is `none` of `Option Err`.
-- `ownership` is `*ownershipError` with its reason and the changed fields of its evidence; its
-- log attributes and scalar evidence are not modelled.
use heos_control.Prelude.{Bool, true, false, List, String, Option, none, some}

pub data Err : Type 0 where
  ownership : String → List String → Err
  bounds stale stale_reference protocol read_only unavailable grouped ambiguous not_skippable : Err
  queue_full busy precondition precondition_required superseded journal_unavailable : Err
  deadline_exceeded canceled session_expired capacity loading_incomplete timeline_changed : Err
  rejected no_progress unexpected_eof : Err

-- `errors.Is(err, ErrOwnership)`.
unfoldable pub is_ownership : Err → Bool
is_ownership (Err.ownership reason fields) = true
is_ownership _ = false

-- `err != nil`.
abbrev pub failed : Option Err → Bool
failed none = false
failed (some e) = true
