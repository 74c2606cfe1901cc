-- ===== src/Control/Attempts.antt =====
-- internal/control/execution.go: `writeOnce` as a whole and the three attempts of `write`. An `AttemptInput`
-- gives what the other parts return in one attempt; the replies of the connection are logged.
pub mod Laws
use heos_control.Prelude.{
  ℕ, suc, zero, Bool, true, false, ◌&&◌, ◌||◌, not, Option, none, some, List, [], ◌∷◌, ◌++◌,
  if◌then◌else◌,
}
use heos_control.Heos.Snapshot.{Snapshot}
use heos_control.Heos.Mutations.{Mutation}
use heos_control.Control.Errors.{Err, failed}
use heos_control.Control.Safety.{PlayerConfig}
use heos_control.Control.Attribution.{Attribution}
use heos_control.Control.Write.{Execution, Observed, Reply, not_sent, write_replied}
use heos_control.Control.Prewrite.{
  Plan, Surroundings, Prewrite, refused, guarded, crashed, prewrite, linked,
}

-- `in_flight` is what events do to the execution while the command is sent, `meanwhile` while the
-- readback waits.
pub record AttemptInput : Type 0 where
  pub surroundings : Surroundings
  pub in_flight : Attribution → Attribution
  pub reply : Reply
  pub readback : Observed
  pub settled : Snapshot → Observed
  pub meanwhile : Attribution → Attribution
  pub cause : Option Err
  pub stopped : Option Err

-- One attempt: its error, whether that is a `CommandError` of a command that was not sent since its
-- guard was stale, the execution, and the replies.
pub data Attempt : Type 0 where
  ended : Option Err → Bool → Execution → List Reply → Attempt
  panicked : Attempt

-- Only a guarded write makes such an error.
unfoldable pub stale_guard : Reply → Bool
stale_guard (not_sent Err.stale) = true
stale_guard _ = false

unfoldable pub after_prewrite : PlayerConfig → AttemptInput → Prewrite → Attempt
unfolding stale_guard write_replied
after_prewrite config c (refused e r) = ended (some e) false r []
after_prewrite config c (guarded sent token d fresh r) =
    let out =
      write_replied config c.cause c.settled c.meanwhile (linked r (c.in_flight r.link)) sent fresh
        c.readback c.reply in
    ended out.0 (stale_guard c.reply) out.1 (c.reply ∷ [])
after_prewrite config c crashed = panicked

-- `writeOnce`.
unfoldable pub write_once : PlayerConfig → Plan → Mutation → AttemptInput → Execution → Attempt
unfolding after_prewrite prewrite
write_once config p m c r = after_prewrite config c (prewrite config c.surroundings p m r)

abbrev pub forget : Execution → Execution
forget r = record r { link = record r.link { events = [] } }

-- What a `write` returns, with the replies in their order.
pub data WriteResult : Type 0 where
  written : Option Err → Execution → List Reply → WriteResult
  broke : WriteResult

abbrev logged : List Reply → WriteResult → WriteResult
logged log (written e r later) = written e r (log ++ later)
logged log broke = broke

-- What follows an attempt: another one, by `go`, or the return.
unfoldable pub proceed :
    (Option Err → Execution → WriteResult) → AttemptInput → Attempt → WriteResult
proceed go c panicked = broke
proceed go c (ended e unsent r log) =
    if not r.bounded || not unsent || failed c.stopped
    then written e r log
    else logged log (go e (forget r))

-- The loop, with the attempts that are left, the number of the next and the last error.
unfoldable pub write_within :
    PlayerConfig
    → Plan
    → Mutation
    → (ℕ → AttemptInput)
    → ℕ
    → ℕ
    → Option Err
    → Execution
    → WriteResult
unfolding proceed write_once
write_within config p m rounds zero k e r = written e r []
write_within config p m rounds (suc n) k e r =
    proceed (write_within config p m rounds n (suc k)) (rounds k)
      (write_once config p m (rounds k) r)

-- `write`.
unfoldable pub write : PlayerConfig → Plan → Mutation → (ℕ → AttemptInput) → Execution → WriteResult
unfolding write_within
write config p m rounds r = write_within config p m rounds 3 0 none r
