-- ===== src/Control/Prewrite/Total.antt =====
-- internal/control/events.go (expect): the fields that a volume or a mute command dereferences are
-- there when it is reached.
use heos_control.Prelude.{
  ℕ, ◌≡◌, ◌⊎◌, inl, inr, refl, Bool, true, false, ◌&&◌, not, Option, none, some, arith, if_both,
  if_known, is_empty, option_cases, ◌==◌, ==→≡, ◌∙◌,
}
use heos_control.Heos.Values.{MutationKind, mutation_kind_eq}
use heos_control.Heos.Snapshot.{Snapshot}
use heos_control.Heos.Mutations.{Mutation}
use heos_control.Control.Errors.{Err}
use heos_control.Control.Membership.{owned_changes}
use heos_control.Control.Skip.{skip_admissible}
use heos_control.Control.Safety.{PlayerConfig, mutation_safety_lem}
use heos_control.Control.Attribution.{Attribution}
use heos_control.Control.Attribution.Expect.{expect, expect_kind, expect_volume, registered?}
use heos_control.Control.Write.{Execution, Observed, read, broken}
use heos_control.Control.Prewrite.{
  Plan, Surroundings, Gate, passed, held, Prewrite, refused, guarded, crashed, arm, journalled,
  removable, outdated, own_state, refuse_skip, prepared, prepare_skip, checked, gate_passed,
  observed, start, prewrite, is_buffered, linked,
}
use heos_control.Control.Prewrite.Cleared.{early_problem-none}

pub record HasLevels (s : Snapshot) : Type 0 where
  pub volume : (v : ℕ) × (s.volume ≡ some v)
  pub muted : (b : Bool) × (s.muted ≡ some b)

-- What events leave as it is while the journal is written.
pub record KeepsLevels (during : Attribution → Attribution) : Type 0 where
  pub volume : (l : Attribution) → (during l).expected.volume ≡ l.expected.volume
  pub muted : (l : Attribution) → (during l).expected.muted ≡ l.expected.muted

-- There is an outcome, and no command is counted yet.
abbrev pub Proceeds : ℕ → Prewrite → Type 0
Proceeds n (refused e r) = r.confirmed ≡ n
Proceeds n (guarded m t d fresh r) = r.confirmed ≡ n
Proceeds n crashed = false ≡ true

abbrev Armable : Mutation → Snapshot → Type 0
Armable m s = (m.kind ≡ MutationKind.skip) ⊎ HasLevels s

expect_volume-some :
    (volume : Option ℕ) (muted : Option Bool) (m : Mutation) (r : Attribution) (v : ℕ) (b : Bool)
    → volume ≡ some v
    → muted ≡ some b
    → (l : Attribution) × (registered? r (expect_volume volume muted m r.events) ≡ some l)
unfolding expect_volume registered?
expect_volume-some volume muted m r v b hv hb =
    rw (hv, hb)
      (if_both (λ events. (l : Attribution) × (registered? r events ≡ some l))
        (m.kind == MutationKind.volume) _ _ (_, refl) (_, refl))

expect_kind-some :
    (k : MutationKind) (m : Mutation) (r : Attribution)
    → (k ≡ MutationKind.skip) ⊎ HasLevels r.expected
    → (l : Attribution) × (expect_kind k m r ≡ some l)
unfolding expect_kind
expect_kind-some MutationKind.volume m r (inl e) = absurd (ground (arith, e))
expect_kind-some MutationKind.volume m r (inr h) =
    expect_volume-some r.expected.volume r.expected.muted m r h.volume.0 h.muted.0 h.volume.1
      h.muted.1
expect_kind-some MutationKind.mute m r (inl e) = absurd (ground (arith, e))
expect_kind-some MutationKind.mute m r (inr h) =
    expect_volume-some r.expected.volume r.expected.muted m r h.volume.0 h.muted.0 h.volume.1
      h.muted.1
expect_kind-some MutationKind.transport m r i = (_, refl)
expect_kind-some MutationKind.skip m r i = (_, refl)
expect_kind-some MutationKind.mode m r i = (_, refl)
expect_kind-some MutationKind.remove m r i = (_, refl)
expect_kind-some MutationKind.queue m r i =
    if_both (λ x. (l : Attribution) × (x ≡ some l)) m.append _ _ (_, refl) (_, refl)
expect_kind-some MutationKind.absent m r i = (_, refl)

expect-some :
    (m : Mutation) (r : Attribution)
    → Armable m r.expected
    → (l : Attribution) × (expect m r ≡ some l)
unfolding expect
expect-some m r i = expect_kind-some m.kind m _ i

arm-Proceeds :
    (m : Mutation) (fresh : Snapshot) (r : Execution) (d : Option ℕ)
    → Armable m r.link.expected
    → Proceeds r.confirmed (arm m fresh r d)
unfolding arm
arm-Proceeds m fresh r none i = refl
arm-Proceeds m fresh r (some d) i = let e = expect-some m r.link i in rw e.1 refl

module _ (config : PlayerConfig) (s : Surroundings) (p : Plan) (m : Mutation)
    (keeps : KeepsLevels s.during_journal) where
  journalled-Proceeds :
      (fresh : Snapshot) (r : Execution) (j : Option Err)
      → Armable m r.link.expected
      → Proceeds r.confirmed (journalled s p m fresh r j)
  unfolding journalled
  journalled-Proceeds fresh r (some e) i = refl
  journalled-Proceeds fresh r none i = arm-Proceeds m fresh _ _ (elim i [
    | inl k ↦ inl k
    | inr h ↦ inr record {
      volume = (h.volume.0, keeps.volume r.link ∙ h.volume.1);
      muted = (h.muted.0, keeps.muted r.link ∙ h.muted.1);
    }
  ])

  own_state-Proceeds :
      (before fresh : Snapshot) (r : Execution)
      → Armable m fresh
      → Proceeds r.confirmed (own_state s p m before fresh r)
  unfolding own_state
  own_state-Proceeds before fresh r i =
      let changes = owned_changes r.link.queue_owned before fresh in
      let is_removal = m.kind == MutationKind.remove in
      if_both (Proceeds r.confirmed) (outdated p m fresh) _ _ refl (
        if_both (Proceeds r.confirmed) (not (is_empty changes)) _ _ refl (
          if_both (Proceeds r.confirmed) (is_removal && not (removable p.buffered fresh m)) _ _ refl
            (journalled-Proceeds fresh _ s.journal i)))

  refuse_skip-Proceeds :
      (e : Err) (before seen : Snapshot) (r : Execution)
      → Proceeds r.confirmed (refuse_skip p e before seen r)
  unfolding refuse_skip
  refuse_skip-Proceeds Err.not_skippable before seen r =
      if_both (Proceeds r.confirmed) (not (is_buffered p.buffered)) _ _ refl (
        if_both (Proceeds r.confirmed) (is_empty (owned_changes r.link.queue_owned before seen)) _ _
          refl refl)
  refuse_skip-Proceeds _ before seen r = refl

  prepare_skip-Proceeds :
      (before seen : Snapshot) (r : Execution) (full : Option Snapshot)
      → m.kind ≡ MutationKind.skip
      → Proceeds r.confirmed (prepare_skip config s p m before seen r full)
  unfolding prepare_skip prepared skip_admissible
  prepare_skip-Proceeds before seen r none k = refuse_skip-Proceeds s.page_error before seen r
  prepare_skip-Proceeds before seen r (some full) k =
      elim (option_cases (skip_admissible config.volume_ceiling m.direction full)) [
        | inl e ↦ rw e (own_state-Proceeds _ full r (inl k))
        | inr (x, e) ↦ rw e (refuse_skip-Proceeds x before seen r)
      ]

  checked-Proceeds :
      (before seen : Snapshot) (r : Execution) (e : Option Err)
      → (e ≡ none → HasLevels seen)
      → Proceeds r.confirmed (checked config s p m before seen r e)
  unfolding checked
  checked-Proceeds before seen r (some e) h = refl
  checked-Proceeds before seen r none h =
      if_known (Proceeds r.confirmed) (m.kind == MutationKind.skip) _ _
        (λ k. prepare_skip-Proceeds before seen r _ (==→≡ m.kind MutationKind.skip k))
        (λ k. own_state-Proceeds before seen r (inr (h refl)))

  gate_passed-Proceeds :
      (before : Snapshot) (r : Execution) (g : Gate × Attribution)
      → Proceeds r.confirmed (gate_passed config s p m before r g)
  unfolding gate_passed
  gate_passed-Proceeds before r (held e, l) = refl
  gate_passed-Proceeds before r (passed seen waited, l) =
      checked-Proceeds before seen (linked r l) _ (λ h.
        let pass = early_problem-none config s p (linked r l) m seen waited h in
        let c = (mutation_safety_lem config seen (m.kind == MutationKind.skip) pass.1.1.1).0 in
        record { volume = c.volume; muted = c.muted })

  observed-Proceeds :
      (r : Execution) (o : Observed × Attribution)
      → Proceeds r.confirmed (observed config s p m r o)
  unfolding observed
  observed-Proceeds r (broken e, l) = refl
  observed-Proceeds r (read first, l) = gate_passed-Proceeds l.expected (linked r l) _

  start-Proceeds : (r : Execution) (e : Option Err) → Proceeds r.confirmed (start config s p m r e)
  unfolding start
  start-Proceeds r (some e) = refl
  start-Proceeds r none = observed-Proceeds r (s.reading r)

  pub prewrite-Proceeds : (r : Execution) → Proceeds r.confirmed (prewrite config s p m r)
  unfolding prewrite
  prewrite-Proceeds r = start-Proceeds r s.cause
