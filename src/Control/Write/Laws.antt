-- ===== src/Control/Write/Laws.antt =====
-- internal/control/execution.go (writeOnce): no command is left without an account.
use heos_control.Prelude.{
  ◌+◌, ◌≡◌, ◌⊎◌, inl, inr, refl, Bool, true, false, ◌||◌, not, Option, none, [], arith, if_both,
  if_given, is_empty,
}
use heos_control.Heos.Snapshot.{Snapshot}
use heos_control.Heos.Mutations.{Mutation}
use heos_control.Control.Errors.{Err, failed}
use heos_control.Control.Membership.{owned_changes}
use heos_control.Control.Safety.{PlayerConfig, device_safety}
use heos_control.Control.Attribution.{Attribution}
use heos_control.Control.Write.{
  Execution, Reply, accepted, not_sent, rejected, uncertain, untyped, Observed, read, broken,
  Target, mismatch, shown, gated, after_send, confirm_write, settle_write, compare_write,
  expected_after, after_readback, write_replied,
}

-- The command was refused before the device carried it out.
unfoldable pub is_refused : Reply → Bool
is_refused (accepted token) = false
is_refused (not_sent e) = true
is_refused (rejected e) = true
is_refused (uncertain e) = false
is_refused (untyped e) = false

abbrev pub Confirmed : Execution → Option Err → Option Err × Execution → Type 0
Confirmed r cause out =
    (out.0 ≡ cause)
    × (out.1.confirmed ≡ r.confirmed + 1)
    × (out.1.unconfirmed ≡ false)
    × (out.1.link.events ≡ [])
    × (out.1.link.scalar ≡ none)

abbrev pub Doubted : Execution → Option Err × Execution → Type 0
Doubted r out =
    (failed out.0 ≡ true)
    × ((out.1.link.uncertain || out.1.unconfirmed) ≡ true)
    × (out.1.confirmed ≡ r.confirmed)

abbrev pub Refused : Execution → Reply → Option Err × Execution → Type 0
Refused r reply out =
    (failed out.0 ≡ true) × (is_refused reply ≡ true) × (out.1.confirmed ≡ r.confirmed)

module _ (config : PlayerConfig) (cause : Option Err) (gate : Snapshot → Observed)
    (m : Mutation) where
  -- With a command that is not confirmed yet, each check ends in a confirmation or in doubt.
  settle_write-cases :
      (r : Execution) (expected : Snapshot) (seen : Observed)
      → r.unconfirmed ≡ true
      → Confirmed r cause (settle_write config cause r m expected seen)
        ⊎ Doubted r (settle_write config cause r m expected seen)
  unfolding settle_write
  settle_write-cases r expected (broken e) u = inr (refl, ground (arith, u), refl)
  settle_write-cases r expected (read after) u =
      let either = λ (out : Option Err × Execution). Confirmed r cause out ⊎ Doubted r out in
      let doubt : (r.link.uncertain || r.unconfirmed) ≡ true = ground (arith, u) in
      let changes = owned_changes r.link.queue_owned expected after in
      if_given either (failed (device_safety config after)) _ _ (λ h. inr (h, doubt, refl))
        (if_both either (not (is_empty changes)) _ _ (inr (refl, doubt, refl))
          (inl (unfold confirm_write in (refl, refl, refl, refl, refl))))

  compare_write-cases :
      (r : Execution) (after : Snapshot) (target : Target)
      → r.unconfirmed ≡ true
      → Confirmed r cause (compare_write config cause gate r m after target)
        ⊎ Doubted r (compare_write config cause gate r m after target)
  unfolding compare_write
  compare_write-cases r after (mismatch e) u = inr (refl, ground (arith, u), refl)
  compare_write-cases r after (shown expected) u =
      settle_write-cases r expected (gated m gate after) u

  after_readback-cases :
      (r : Execution) (fresh : Snapshot) (seen : Observed)
      → r.unconfirmed ≡ true
      → Confirmed r cause (after_readback config cause gate r m fresh seen)
        ⊎ Doubted r (after_readback config cause gate r m fresh seen)
  unfolding after_readback
  after_readback-cases r fresh (broken e) u = inr (refl, refl, refl)
  after_readback-cases r fresh (read after) u =
      compare_write-cases r after (expected_after m.kind r m fresh after) u

  -- After a command was handed to the connection at least one of three things is on record: it is
  -- counted as confirmed, no longer marked as unconfirmed, and no expectation of it is left; or an
  -- error is returned and the delivery is marked as uncertain or unconfirmed; or an error is returned
  -- and the connection had reported that the command was not sent or was rejected. So a command that
  -- may have been carried out is never forgotten.
  pub write_replied-cases :
      (meanwhile : Attribution → Attribution) (r : Execution) (fresh : Snapshot) (seen : Observed)
      (reply : Reply)
      → Confirmed r cause (write_replied config cause gate meanwhile r m fresh seen reply)
        ⊎ (Doubted r (write_replied config cause gate meanwhile r m fresh seen reply)
            ⊎ Refused r reply (write_replied config cause gate meanwhile r m fresh seen reply))
  unfolding write_replied after_send is_refused
  write_replied-cases meanwhile r fresh seen (accepted token) =
      let sent = after_send r (accepted token) in
      elim (after_readback-cases (record sent { link = meanwhile sent.link }) fresh seen refl) [
        | inl c ↦ inl c
        | inr d ↦ inr (inl d)
      ]
  write_replied-cases meanwhile r fresh seen (not_sent e) = inr (inr (refl, refl, refl))
  write_replied-cases meanwhile r fresh seen (rejected e) = inr (inr (refl, refl, refl))
  write_replied-cases meanwhile r fresh seen (uncertain e) = inr (inl (refl, refl, refl))
  write_replied-cases meanwhile r fresh seen (untyped e) = inr (inl (refl, refl, refl))
