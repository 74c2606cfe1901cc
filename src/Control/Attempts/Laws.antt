-- ===== src/Control/Attempts/Laws.antt =====
-- internal/control/execution.go (write): however often a command is attempted, it is carried out at
-- most once.
use heos_control.Prelude.{
  ℕ, zero, suc, ◌+◌, ◌≡◌, ◌⊎◌, inl, inr, refl, true, false, ◌||◌, not, Option, some, List, [], ◌∷◌,
  ◌++◌, arith, if_known, if◌then◌else◌, subst, sym, ◌∙◌,
}
use heos_control.Heos.Snapshot.{Snapshot}
use heos_control.Heos.Mutations.{Mutation}
use heos_control.Control.Errors.{Err, failed}
use heos_control.Control.Safety.{PlayerConfig}
use heos_control.Control.Write.{
  Execution, Reply, accepted, not_sent, rejected, uncertain, untyped, write_replied, after_send,
}
use heos_control.Control.Write.Laws.{is_refused, write_replied-cases}
use heos_control.Control.Prewrite.{Plan, Prewrite, refused, guarded, crashed, prewrite, linked}
use heos_control.Control.Prewrite.Total.{KeepsLevels, Proceeds, prewrite-Proceeds}
use heos_control.Control.Attempts.{
  AttemptInput, Attempt, ended, panicked, stale_guard, after_prewrite, write_once, forget,
  WriteResult, written, broke, logged, proceed, write_within, write,
}

-- The number of commands that the device may have carried out: those that were not refused.
unfoldable pub carried : List Reply → ℕ
unfolding is_refused
carried [] = 0
carried (reply ∷ log) = if is_refused reply then carried log else suc (carried log)

-- What is on record after a command that was confirmed `base` times before.
unfoldable pub Account : ℕ → Option Err → Execution → List Reply → Type 0
unfolding carried
Account base e r log =
    ((carried log ≡ 1) × ((r.confirmed ≡ base + 1) × (r.unconfirmed ≡ false)))
    ⊎ (((carried log ≡ 1)
          × ((failed e ≡ true)
              × (((r.link.uncertain || r.unconfirmed) ≡ true) × (r.confirmed ≡ base))))
        ⊎ ((carried log ≡ 0) × ((failed e ≡ true) × (r.confirmed ≡ base))))

carried-++ : (a b : List Reply) → carried (a ++ b) ≡ carried a + carried b
unfolding carried
carried-++ [] b = omega arith
carried-++ (reply ∷ a) b = let h = carried-++ a b in ground (arith, h)

Account-replied :
    (config : PlayerConfig) (c : AttemptInput) (m : Mutation) (fresh : Snapshot) (r : Execution)
    (reply : Reply)
    → let out = write_replied config c.cause c.settled c.meanwhile r m fresh c.readback reply in
      Account r.confirmed out.0 out.1 (reply ∷ [])
unfolding Account carried is_refused write_replied after_send
Account-replied config c m fresh r (accepted token) =
    elim (write_replied-cases config c.cause c.settled m c.meanwhile r fresh c.readback
      (accepted token)) [
        | inl y ↦ inl (refl, (y.1, y.2))
        | inr (inl y) ↦ inr (inl (refl, (y.0, (y.1, y.2))))
        | inr (inr y) ↦ absurd (ground (arith, y.1))
      ]
Account-replied config c m fresh r (not_sent e) = inr (inr (refl, (refl, refl)))
Account-replied config c m fresh r (rejected e) = inr (inr (refl, (refl, refl)))
Account-replied config c m fresh r (uncertain e) = inr (inl (refl, (refl, (refl, refl))))
Account-replied config c m fresh r (untyped e) = inr (inl (refl, (refl, (refl, refl))))

stale_guard-carried : (reply : Reply) → stale_guard reply ≡ true → carried (reply ∷ []) ≡ 0
unfolding stale_guard carried is_refused
stale_guard-carried (accepted token) h = absurd (ground (arith, h))
stale_guard-carried (not_sent e) h = refl
stale_guard-carried (rejected e) h = refl
stale_guard-carried (uncertain e) h = absurd (ground (arith, h))
stale_guard-carried (untyped e) h = absurd (ground (arith, h))

abbrev AttemptAccount : ℕ → Attempt → Type 0
AttemptAccount base panicked = false ≡ true
AttemptAccount base (ended e unsent r log) =
    Account base e r log × (unsent ≡ true → carried log ≡ 0)

-- The account of a whole `write`, which never panics.
abbrev pub WrittenAccount : ℕ → WriteResult → Type 0
WrittenAccount base broke = false ≡ true
WrittenAccount base (written e r log) = Account base e r log

after_prewrite-AttemptAccount :
    (config : PlayerConfig) (c : AttemptInput) (base : ℕ) (x : Prewrite)
    → Proceeds base x
    → AttemptAccount base (after_prewrite config c x)
unfolding after_prewrite Account carried
after_prewrite-AttemptAccount config c base (refused e r) h =
    (inr (inr (refl, (refl, h))), λ x. refl)
after_prewrite-AttemptAccount config c base (guarded sent t d fresh r) h = (
  subst
      (λ n.
        let out =
          write_replied config c.cause c.settled c.meanwhile (linked r (c.in_flight r.link)) sent
            fresh c.readback c.reply in
        Account n out.0 out.1 (c.reply ∷ []))
      h (Account-replied config c sent fresh (linked r (c.in_flight r.link)) c.reply),
  stale_guard-carried c.reply,
)
after_prewrite-AttemptAccount config c base crashed h = h

untouched :
    (base : ℕ) (e : Option Err) (r : Execution) (log : List Reply)
    → Account base e r log
    → carried log ≡ 0
    → (failed e ≡ true) × (r.confirmed ≡ base)
unfolding Account
untouched base e r log (inl y) z = absurd (omega (arith, y.0, z))
untouched base e r log (inr (inl y)) z = absurd (omega (arith, y.0, z))
untouched base e r log (inr (inr y)) z = y.1

logged-WrittenAccount :
    (base : ℕ) (log : List Reply) (w : WriteResult)
    → carried log ≡ 0
    → WrittenAccount base w
    → WrittenAccount base (logged log w)
unfolding Account
logged-WrittenAccount base log (written e r later) z h =
    let same : carried later ≡ carried (log ++ later) = ground (arith, z, carried-++ log later) in
    elim h [
      | inl y ↦ inl (sym same ∙ y.0, y.1)
      | inr (inl y) ↦ inr (inl (sym same ∙ y.0, y.1))
      | inr (inr y) ↦ inr (inr (sym same ∙ y.0, y.1))
    ]
logged-WrittenAccount base log broke z h = h

-- After a stale guard the loop goes on as it began.
proceed-WrittenAccount :
    (base : ℕ) (go : Option Err → Execution → WriteResult) (c : AttemptInput) (a : Attempt)
    → AttemptAccount base a
    → ((e : Option Err) (r : Execution)
        → failed e ≡ true
        → r.confirmed ≡ base
        → WrittenAccount base (go e r))
    → WrittenAccount base (proceed go c a)
unfolding proceed
proceed-WrittenAccount base go c panicked h rest = h
proceed-WrittenAccount base go c (ended e unsent r log) h rest =
    if_known (WrittenAccount base) (not r.bounded || not unsent || failed c.stopped) _ _ (λ x. h.0)
      (λ x.
        let z = h.1 (ground (arith, x)) in
        let idle = untouched base e r log h.0 z in
        logged-WrittenAccount base log _ z (rest e (forget r) idle.0 idle.1))

write_within-WrittenAccount :
    (config : PlayerConfig) (p : Plan) (m : Mutation) (rounds : ℕ → AttemptInput)
    (keeps : (k : ℕ) → KeepsLevels (rounds k).surroundings.during_journal) (base n k : ℕ)
    (e : Option Err) (r : Execution)
    → failed e ≡ true
    → r.confirmed ≡ base
    → WrittenAccount base (write_within config p m rounds n k e r)
unfolding write_within
write_within-WrittenAccount config p m rounds keeps base zero k e r f h =
    unfold Account in inr (inr (refl, (f, h)))
write_within-WrittenAccount config p m rounds keeps base (suc n) k e r f h =
    proceed-WrittenAccount base _ (rounds k) _
      (unfold write_once in
        after_prewrite-AttemptAccount config (rounds k) base _ (
          subst (λ b. Proceeds b (prewrite config (rounds k).surroundings p m r)) h
            (prewrite-Proceeds config (rounds k).surroundings p m (keeps k) r)))
      (write_within-WrittenAccount config p m rounds keeps base n (suc k))

-- If events keep the expected level and mute while the journal is written, then a `write` ends
-- without a panic, and of the commands of its attempts the connection has refused all but at most one.
-- If it has refused all of them, an error is returned and none is counted. Of the one that it has not
-- refused, either the confirmation is counted and the execution holds no unconfirmed command, or an
-- error is returned, none is counted and the delivery is marked as uncertain or unconfirmed. So no
-- command is repeated that may have been carried out.
pub write-WrittenAccount :
    (config : PlayerConfig) (p : Plan) (m : Mutation) (rounds : ℕ → AttemptInput)
    (keeps : (k : ℕ) → KeepsLevels (rounds k).surroundings.during_journal) (r : Execution)
    → WrittenAccount r.confirmed (write config p m rounds r)
unfolding write
write-WrittenAccount config p m rounds keeps r =
    write_within-WrittenAccount config p m rounds keeps r.confirmed 3 0 (some Err.stale) r refl refl
