-- ===== src/Control/Transition/Await/Ends.antt =====
-- The gate ends.
use heos_control.Prelude.{
  ◌≡◌, ◌≢◌, ◌≤◌, Bool, true, false, Option, none, some, List, [], ◌∷◌, arith, Time, ◌⊎◌, inl, inr,
  Any, refl,
}
use heos_control.Heos.Snapshot.{Snapshot}
use heos_control.Control.Safety.{PlayerConfig}
use heos_control.Control.Transition.{QueuePolicyState, is_active_queue, wait_deadline, wait_end}
use heos_control.Control.Transition.Laws.{timeout_first}
use heos_control.Control.Transition.Await.{
  Moment, Round, interrupted, journal_down, read_failed, observed, Awaited, Outcome, done, waiting,
  facts, decision, leave, or_else, keep_wait, await,
}
use heos_control.Control.Transition.Await.Leave.{stayed, stay_keeps_wait, Decided}

abbrev IsDone : Outcome → Type 0
IsDone (done a) = Unit
IsDone waiting = ⊥

IsDone-or_else :
    (o : Option Awaited) (rest : Outcome) → (o ≡ none → IsDone rest) → IsDone (or_else o rest)
unfolding or_else
IsDone-or_else (some a) rest q = tt
IsDone-or_else none rest q = q refl

IsDone-done : (o : Option Awaited) (a : Awaited) → IsDone (or_else o (done a))
unfolding or_else
IsDone-done (some b) a = tt
IsDone-done none a = tt

IsDone-eq : (o : Outcome) → IsDone o → (a : Awaited) × (o ≡ done a)
IsDone-eq (done a) h = (a, refl)
IsDone-eq waiting h = absurd h

-- A round after which the wait cannot go on past `deadline`: it returns by itself, or the policy
-- is asked no earlier than that.
abbrev pub Ends : Time → Round → Type 0
Ends deadline (interrupted t) = deadline ≤ t.now
Ends deadline journal_down = Unit
Ends deadline (read_failed x e) = Unit
Ends deadline (observed x t) = deadline ≤ t.now

module _ (config : PlayerConfig) (before : Snapshot) where
  late_leaves :
      (s : QueuePolicyState) (fresh : Snapshot) (waited : Bool) (m : Moment)
      → is_active_queue s ≡ true
      → s.wait_until ≢ 0
      → s.wait_until ≤ m.now
      → leave (Decided config before s fresh m) fresh waited ≢ none
  unfolding leave decision facts wait_deadline wait_end
  late_leaves s fresh waited m act w late h =
      ground (arith, timeout_first s (facts config before fresh m))

  late-IsDone :
      (s : QueuePolicyState) (fresh : Snapshot) (waited : Bool) (m : Moment) (rounds : List Round)
      → is_active_queue s ≡ true
      → s.wait_until ≢ 0
      → s.wait_until ≤ m.now
      → IsDone (await config before s fresh waited m rounds)
  unfolding await
  late-IsDone s fresh waited m [] act w late =
      IsDone-or_else (leave (Decided config before s fresh m) fresh waited) _
        (λ e. absurd (late_leaves s fresh waited m act w late e))
  late-IsDone s fresh waited m (interrupted t ∷ rounds) act w late =
      IsDone-or_else (leave (Decided config before s fresh m) fresh waited) _
        (λ e. absurd (late_leaves s fresh waited m act w late e))
  late-IsDone s fresh waited m (observed x t ∷ rounds) act w late =
      IsDone-or_else (leave (Decided config before s fresh m) fresh waited) _
        (λ e. absurd (late_leaves s fresh waited m act w late e))
  late-IsDone s fresh waited m (journal_down ∷ rounds) act w late =
      IsDone-done (leave (Decided config before s fresh m) fresh waited) _
  late-IsDone s fresh waited m (read_failed x y ∷ rounds) act w late =
      IsDone-done (leave (Decided config before s fresh m) fresh waited) _

  -- One round on, from the claim for the rounds that are left.
  next-IsDone :
      (s : QueuePolicyState) (fresh x : Snapshot) (waited : Bool) (m t : Moment)
      (rounds : List Round)
      → (is_active_queue s ≡ true
          → (keep_wait s (Decided config before s fresh m)).wait_until ≢ 0
          → Any (Ends (Decided config before s fresh m).wait_until) rounds
          → IsDone
              (await config before (keep_wait s (Decided config before s fresh m)) x true t rounds))
      → is_active_queue s ≡ true
      → s.wait_until ≢ 0
      → (s.wait_until ≤ t.now) ⊎ Any (Ends s.wait_until) rounds
      → leave (Decided config before s fresh m) fresh waited ≡ none
      → IsDone (await config before (keep_wait s (Decided config before s fresh m)) x true t rounds)
  unfolding is_active_queue
  next-IsDone s fresh x waited m t rounds ih act w (inl late) e =
      late-IsDone (keep_wait s (Decided config before s fresh m)) x true t rounds act
        (stayed config before s fresh waited m w e)
        (rw (stay_keeps_wait config before s fresh m waited w e) late)
  next-IsDone s fresh x waited m t rounds ih act w (inr late) e =
      ih act (stayed config before s fresh waited m w e)
        (rw (stay_keeps_wait config before s fresh m waited w e) late)

  await-IsDone :
      (s : QueuePolicyState) (fresh : Snapshot) (waited : Bool) (m : Moment) (rounds : List Round)
      → is_active_queue s ≡ true
      → s.wait_until ≢ 0
      → Any (Ends s.wait_until) rounds
      → IsDone (await config before s fresh waited m rounds)
  unfolding await is_active_queue
  await-IsDone s fresh waited m [] act w late = absurd late
  await-IsDone s fresh waited m (journal_down ∷ rounds) act w late =
      IsDone-done (leave (Decided config before s fresh m) fresh waited) _
  await-IsDone s fresh waited m (read_failed x y ∷ rounds) act w late =
      IsDone-done (leave (Decided config before s fresh m) fresh waited) _
  await-IsDone s fresh waited m (interrupted t ∷ rounds) act w late =
      IsDone-or_else (leave (Decided config before s fresh m) fresh waited) _ (λ e.
        next-IsDone s fresh fresh waited m t rounds
          (await-IsDone (keep_wait s (Decided config before s fresh m)) fresh true t rounds) act w
          late e)
  await-IsDone s fresh waited m (observed x t ∷ rounds) act w late =
      IsDone-or_else (leave (Decided config before s fresh m) fresh waited) _ (λ e.
        next-IsDone s fresh x waited m t rounds
          (await-IsDone (keep_wait s (Decided config before s fresh m)) x true t rounds) act w late
          e)

  -- A wait in an active queue ends: once the policy is asked at or past the end of the wait, or a
  -- round returns by itself, the gate has a result.
  pub await-Ends :
      (s : QueuePolicyState) (fresh : Snapshot) (m : Moment) (rounds : List Round)
      → is_active_queue s ≡ true
      → s.wait_until ≢ 0
      → Any (Ends s.wait_until) rounds
      → (a : Awaited) × (await config before s fresh false m rounds ≡ done a)
  await-Ends s fresh m rounds act w late =
      IsDone-eq (await config before s fresh false m rounds)
        (await-IsDone s fresh false m rounds act w late)
