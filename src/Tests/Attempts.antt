-- ===== src/Tests/Attempts.antt =====
-- A write of a new volume: first against a stale guard, then again.
use heos_control.Control.Changes.{state_changes}
use heos_control.Prelude.{
  ℕ, List, [], ◌⊎◌, zero, suc, ◌+◌, ◌*◌, ◌≡◌, refl, true, false, none, some, Option, second,
}
use heos_control.Control.Errors.{Err}
use heos_control.Control.Attribution.{Attribution}
use heos_control.Control.Attribution.Expect.{expect}
use heos_control.Control.Write.{Execution, Reply, read}
use heos_control.Control.Prewrite.{Plan, Surroundings, passed, guarded, prewrite}
use heos_control.Control.Prewrite.Cleared.{IsCleared, prewrite-IsCleared}
use heos_control.Control.Attempts.{AttemptInput, WriteResult, written, write}
use heos_control.Control.Attempts.Laws.{WrittenAccount, write-WrittenAccount, carried}
use heos_control.Control.Outcome.Report.{completion_of, completion_of-delivery}
use heos_control.Tests.Fixtures.{playing, token, config}
use heos_control.Tests.Attributions.{idle, louder}
use heos_control.Tests.Writes.{execution, louder_seen}

abbrev worker : Execution
worker = record execution { bounded = true }

abbrev plan : Plan
plan = record { append_until = 0; playback_deadline = 0; buffered = none; catalog = token }

abbrev calm : Surroundings
calm = record {
  cause = none;
  reading = λ r. (read playing, record r.link { expected = playing });
  gate = λ before fresh r. (passed fresh false, r.link);
  append_checked = 1;
  playback_checked = 1;
  pages = λ n. none;
  connected = true;
  current = token;
  page_error = Err.unavailable;
  journal = none;
  during_journal = λ l. l;
  append_guarded = 1;
  playback_guarded = 1;
}

abbrev round : Reply → AttemptInput
round reply = record {
  surroundings = calm;
  in_flight = λ l. l;
  reply = reply;
  readback = louder_seen;
  settled = read;
  meanwhile = λ l. l;
  cause = none;
  stopped = none;
}

abbrev replies : ℕ → Reply
replies zero = Reply.not_sent Err.stale
replies (suc k) = Reply.accepted token

abbrev rounds : ℕ → AttemptInput
rounds k = round (replies k)

abbrev confirmed_by : WriteResult → ℕ
confirmed_by (written e r log) = r.confirmed + carried log
confirmed_by WriteResult.broke = 0

-- The second attempt is confirmed.
sent_again : confirmed_by (write config plan louder rounds worker) ≡ 2
unfolding write carried
sent_again = refl

write-WrittenAccount_example : WrittenAccount 0 (write config plan louder rounds worker)
write-WrittenAccount_example =
    write-WrittenAccount config plan louder rounds
      (λ k. record { volume = λ l. refl; muted = λ l. refl }) worker

abbrev armed : Option Attribution → Attribution
armed none = idle
armed (some l) = l

abbrev sending : Execution
sending = record worker { link = record (armed (expect louder worker.link)) { inflight = true } }

ready : prewrite config calm plan louder worker ≡ guarded louder token (5 * second) playing sending
unfolding prewrite expect state_changes
ready = refl

prewrite-IsCleared_example :
    IsCleared config calm plan louder worker louder token (5 * second) playing sending
prewrite-IsCleared_example =
    prewrite-IsCleared config calm plan louder worker louder token (5 * second) playing sending
      ready

-- Three attempts against a stale guard.
abbrev hopeless : ℕ → AttemptInput
hopeless k = round (Reply.not_sent Err.stale)

abbrev log_of : WriteResult → List Reply
log_of (written e r log) = log
log_of WriteResult.broke = []

abbrev left_by : WriteResult → Execution
left_by (written e r log) = r
left_by WriteResult.broke = worker

gives_up :
    write config plan louder hopeless worker
    ≡ written
        (some Err.stale)
        (left_by (write config plan louder hopeless worker))
        (log_of (write config plan louder hopeless worker))
unfolding write
gives_up = refl

three_refused :
    (completion_of
      (some Err.stale, left_by (write config plan louder hopeless worker))
      none
      false).delivery
    ≡ "not_sent"
unfolding completion_of write
three_refused = refl

completion_of-delivery_example :
    (carried (log_of (write config plan louder hopeless worker)) ≡ 0)
    ⊎ ((left_by (write config plan louder hopeless worker)).confirmed ≡ 0 + 1)
completion_of-delivery_example =
    completion_of-delivery config plan louder hopeless
      (λ k. record { volume = λ l. refl; muted = λ l. refl }) worker none false (some Err.stale)
      (left_by (write config plan louder hopeless worker))
      (log_of (write config plan louder hopeless worker)) gives_up three_refused
