-- ===== src/Control/Transition/Await/Sound.antt =====
-- What the gate lets through is confirmed.
use heos_control.Prelude.{
  ◌≡◌, ◌≢◌, Bool, true, false, Option, none, some, List, [], ◌∷◌, refl, subst,
}
use heos_control.Heos.Snapshot.{Snapshot}
use heos_control.Control.Safety.{PlayerConfig}
use heos_control.Control.Transition.{QueuePolicyState, is_active_queue}
use heos_control.Control.Transition.Await.{
  Moment, Round, interrupted, journal_down, read_failed, observed, Awaited, Outcome, done, waiting,
  leave, or_else, keep_wait, await,
}
use heos_control.Control.Transition.Await.Leave.{
  IsResumed, leave-IsResumed, leave_waited, starts_wait, stayed, Decided,
}

-- What holds of the result, if the rounds suffice for one.
abbrev pub Ensures : (Awaited → Type 0) → Outcome → Type 0
Ensures P (done a) = P a
Ensures P waiting = Unit

Ensures-or_else :
    {P : Awaited → Type 0} (o : Option Awaited) (rest : Outcome)
    → ((a : Awaited) → o ≡ some a → P a)
    → (o ≡ none → Ensures P rest)
    → Ensures P (or_else o rest)
unfolding or_else
Ensures-or_else (some a) rest p q = p a refl
Ensures-or_else none rest p q = q refl

module _ (config : PlayerConfig) (before : Snapshot) where
  abbrev Sound : Awaited → Type 0
  Sound a = a.err ≡ none → IsResumed config before a

  await_in_wait :
      (s : QueuePolicyState) (fresh : Snapshot) (waited : Bool) (m : Moment) (rounds : List Round)
      → is_active_queue s ≡ true
      → s.wait_until ≢ 0
      → Ensures Sound (await config before s fresh waited m rounds)
  unfolding await is_active_queue
  await_in_wait s fresh waited m [] act w =
      Ensures-or_else (leave (Decided config before s fresh m) fresh waited) waiting
        (λ a e. leave-IsResumed config before s fresh m waited a act w e) (λ e. tt)
  await_in_wait s fresh waited m (interrupted t ∷ rounds) act w =
      Ensures-or_else (leave (Decided config before s fresh m) fresh waited) _
        (λ a e. leave-IsResumed config before s fresh m waited a act w e)
        (λ e.
          await_in_wait (keep_wait s (Decided config before s fresh m)) fresh true t rounds act
            (stayed config before s fresh waited m w e))
  await_in_wait s fresh waited m (observed x t ∷ rounds) act w =
      Ensures-or_else (leave (Decided config before s fresh m) fresh waited) _
        (λ a e. leave-IsResumed config before s fresh m waited a act w e)
        (λ e.
          await_in_wait (keep_wait s (Decided config before s fresh m)) x true t rounds act
            (stayed config before s fresh waited m w e))
  await_in_wait s fresh waited m (journal_down ∷ rounds) act w =
      Ensures-or_else (leave (Decided config before s fresh m) fresh waited) _
        (λ a e. leave-IsResumed config before s fresh m waited a act w e) (λ e h. cc)
  await_in_wait s fresh waited m (read_failed x y ∷ rounds) act w =
      Ensures-or_else (leave (Decided config before s fresh m) fresh waited) _
        (λ a e. leave-IsResumed config before s fresh m waited a act w e) (λ e h. cc)

  abbrev SoundWait : Awaited → Type 0
  SoundWait a = a.waited ≡ true → Sound a

  Ensures-weaken : (o : Outcome) → Ensures Sound o → Ensures SoundWait o
  Ensures-weaken (done a) h = λ v. h
  Ensures-weaken waiting h = tt

  sound_wait :
      (s : QueuePolicyState) (fresh : Snapshot) (m : Moment) (rounds : List Round)
      → Ensures SoundWait (await config before s fresh false m rounds)
  unfolding await is_active_queue
  sound_wait s fresh m [] =
      Ensures-or_else (leave (Decided config before s fresh m) fresh false) waiting
        (λ a e v. cc (leave_waited (Decided config before s fresh m) fresh false a e)) (λ e. tt)
  sound_wait s fresh m (journal_down ∷ rounds) =
      Ensures-or_else (leave (Decided config before s fresh m) fresh false) _
        (λ a e v. cc (leave_waited (Decided config before s fresh m) fresh false a e)) (λ e v h. cc)
  sound_wait s fresh m (read_failed x y ∷ rounds) =
      Ensures-or_else (leave (Decided config before s fresh m) fresh false) _
        (λ a e v. cc (leave_waited (Decided config before s fresh m) fresh false a e)) (λ e v h. cc)
  sound_wait s fresh m (interrupted t ∷ rounds) =
      Ensures-or_else (leave (Decided config before s fresh m) fresh false) _
        (λ a e v. cc (leave_waited (Decided config before s fresh m) fresh false a e))
        (λ e.
          let (act, w) = starts_wait config before s fresh m false e in
          Ensures-weaken _ (
            await_in_wait (keep_wait s (Decided config before s fresh m)) fresh true t rounds act
              w))
  sound_wait s fresh m (observed x t ∷ rounds) =
      Ensures-or_else (leave (Decided config before s fresh m) fresh false) _
        (λ a e v. cc (leave_waited (Decided config before s fresh m) fresh false a e))
        (λ e.
          let (act, w) = starts_wait config before s fresh m false e in
          Ensures-weaken _
            (await_in_wait (keep_wait s (Decided config before s fresh m)) x true t rounds act w))

  -- If the gate waited and returned no error, the observation that it returns shows Play at an
  -- entry of the queue that was owned before, with a controllable device and no other change, and
  -- no wait is left behind.
  pub await-IsResumed :
      (s : QueuePolicyState) (fresh : Snapshot) (m : Moment) (rounds : List Round) (a : Awaited)
      → await config before s fresh false m rounds ≡ done a
      → a.waited ≡ true
      → a.err ≡ none
      → IsResumed config before a
  await-IsResumed s fresh m rounds a h v e =
      subst (Ensures SoundWait) h (sound_wait s fresh m rounds) v e
