-- ===== src/Control/Outcome/Report.antt =====
-- internal/control/execution.go: what an operation reports of its delivery.
use heos_control.Prelude.{
  ℕ, ◌+◌, ◌≡◌, ◌≢◌, ◌⊎◌, ◌==◌, ≡→==, string_eq, inl, inr, refl, Bool, true, false, ◌||◌, Option,
  none, some, String, arith, if_both, subst, List,
}
use heos_control.Heos.Mutations.{Mutation}
use heos_control.Control.Errors.{Err}
use heos_control.Control.Safety.{PlayerConfig}
use heos_control.Control.Write.{Execution, Reply}
use heos_control.Control.Prewrite.{Plan}
use heos_control.Control.Prewrite.Total.{KeepsLevels}
use heos_control.Control.Attempts.{AttemptInput, written, write}
use heos_control.Control.Attempts.Laws.{Account, WrittenAccount, write-WrittenAccount, carried}
use heos_control.Control.Outcome.{Completion, Circumstances, complete, by_error, by_doubt}

differ : (a b : String) → (a == b) ≡ false → a ≢ b
differ a b h e = ground (arith, h, ≡→== a b e)

abbrev Sent : Completion → Type 0
Sent c = c.delivery ≢ "not_sent"

by_error-Sent : (e : Err) (stopping : Bool) (c : Completion) → Sent c → Sent (by_error e stopping c)
unfolding by_error
by_error-Sent Err.rejected stopping c h = differ "rejected" "not_sent" refl
by_error-Sent Err.session_expired stopping c h = differ "confirmed" "not_sent" refl
by_error-Sent Err.capacity stopping c h = h
by_error-Sent Err.loading_incomplete stopping c h = differ "confirmed" "not_sent" refl
by_error-Sent Err.not_skippable stopping c h = h
by_error-Sent Err.journal_unavailable stopping c h = if_both Sent stopping _ _ h h
by_error-Sent Err.bounds stopping c h = h
by_error-Sent _ stopping c h = h

by_doubt-Sent :
    (f : Circumstances) (c : Completion)
    → (f.uncertain || f.unconfirmed) ≡ true
    → Sent (by_doubt f c)
unfolding by_doubt
by_doubt-Sent f c h = rw h (differ "unknown" "not_sent" refl)

complete-Sent :
    (err : Option Err) (f : Circumstances)
    → (f.uncertain || f.unconfirmed) ≡ true
    → Sent (complete err f)
unfolding complete
complete-Sent none f h = differ "confirmed" "not_sent" refl
complete-Sent (some e) f h = by_error-Sent e f.stopping _ (by_doubt-Sent f _ h)

-- What an operation of one command ends with, if it is cancelled by `cause` or the service stops.
unfoldable pub completion_of : Option Err × Execution → Option Err → Bool → Completion
unfolding complete
completion_of out cause stopping = complete out.0 record {
  cause = cause;
  stopping = stopping;
  uncertain = out.1.link.uncertain;
  unconfirmed = out.1.unconfirmed;
}

-- An operation that consists of one `write` reports that its command was not sent only if the
-- connection has refused every command that an attempt handed to it, or if the command was confirmed
-- and counted and the operation was cancelled just then. This holds whatever the replies, the
-- readbacks, the cancellation and the shutdown, as long as events keep the expected level and mute
-- while the journal is written.
pub completion_of-delivery :
    (config : PlayerConfig) (p : Plan) (m : Mutation) (inputs : ℕ → AttemptInput)
    (keeps : (k : ℕ) → KeepsLevels (inputs k).surroundings.during_journal) (r : Execution)
    (later : Option Err) (stopping : Bool) (e : Option Err) (after : Execution) (log : List Reply)
    → write config p m inputs r ≡ written e after log
    → (completion_of (e, after) later stopping).delivery ≡ "not_sent"
    → (carried log ≡ 0) ⊎ (after.confirmed ≡ r.confirmed + 1)
unfolding completion_of Account
completion_of-delivery config p m inputs keeps r later stopping e after log run h =
    elim (subst (WrittenAccount r.confirmed) run (write-WrittenAccount config p m inputs keeps r)) [
      | inl c ↦ inr c.1.0
      | inr (inl d) ↦ absurd (complete-Sent _ _ d.1.1.0 h)
      | inr (inr x) ↦ inl x.0
    ]
