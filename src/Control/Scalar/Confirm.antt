-- ===== src/Control/Scalar/Confirm.antt =====
-- internal/control/scalar_confirmation.go: the events of a pending change from its registration on.
use heos_control.Prelude.{
  ◌≡◌, refl, subst, ap, ◌∙◌, ◌&&◌, ◌==◌, ◌!=◌, Bool, true, false, some, List, [], ◌∷◌, arith,
  option_eq, int_eq, bool_eq,
}
use heos_control.Heos.Values.{MutationKind, repeat_eq, mutation_kind_eq}
use heos_control.Heos.Snapshot.{Snapshot}
use heos_control.Heos.Events.{EventKind, EventData, event_kind_eq}
use heos_control.Heos.Mutations.{Mutation}
use heos_control.Control.Scalar.{
  ScalarConfirmation, new_scalar_confirmation, is_ready, scalar_result, scalar_mutation,
  accept_scalar_event, accept_pending, accept_volume, accept_repeat, accept_shuffle,
  confirmed_volume_event, level_of,
}
use heos_control.Control.Scalar.Laws.{
  confirm_all, Shows, ShowsOf, IsSound, Moves, accept-Moves, Moves-IsSound, new-IsSound, pending_or,
}

Moves-command :
    {before : Snapshot} {p q : ScalarConfirmation} {d : EventData}
    → Moves before p d q
    → q.command ≡ p.command
Moves-command (Moves.unchanged e) = ap (λ (x : ScalarConfirmation). x.command) e
Moves-command (Moves.volume h e) = ap (λ (x : ScalarConfirmation). x.command) e
Moves-command (Moves.repeat h e) = ap (λ (x : ScalarConfirmation). x.command) e
Moves-command (Moves.shuffle h e) = ap (λ (x : ScalarConfirmation). x.command) e

confirm_all-IsSound :
    (before : Snapshot) (p q : ScalarConfirmation) (ds : List EventData)
    → IsSound before p
    → confirm_all p before ds ≡ some q
    → IsSound before q × (q.command ≡ p.command)
unfolding confirm_all
confirm_all-IsSound before p q [] s h =
    let e : q ≡ p = cc in (rw e s, ap (λ (x : ScalarConfirmation). x.command) e)
confirm_all-IsSound before p q (d ∷ ds) s h =
    let moved = accept-Moves before p d in
    let r =
      confirm_all-IsSound before (pending_or (accept_scalar_event (some p) before d).pending p) q ds
        (Moves-IsSound before p _ d moved s) (ground (arith, h)) in
    (r.0, r.1 ∙ Moves-command moved)

pub new-command : (m : Mutation) (s : Snapshot) → (new_scalar_confirmation m s).command ≡ m
unfolding new_scalar_confirmation
new-command m s = ground arith

sound-Shows :
    (before : Snapshot) (q : ScalarConfirmation)
    → scalar_mutation q.command ≡ true
    → IsSound before q
    → is_ready q ≡ true
    → Shows q.command before (scalar_result q before)
unfolding scalar_mutation is_ready scalar_result
sound-Shows before q k s h = sound_of q.command.kind refl
  where
    sound_of :
        (k' : MutationKind)
        → q.command.kind ≡ k'
        → ShowsOf k' q.command before (scalar_result q before)
    sound_of MutationKind.volume e = ground (arith, e, s.level e)
    sound_of MutationKind.mute e = ground (arith, e, s.mute e)
    sound_of MutationKind.mode e = ground (arith, e, s.repeat, s.shuffle)
    sound_of MutationKind.absent e = absurd (ground (arith, k, e))
    sound_of MutationKind.transport e = absurd (ground (arith, k, e))
    sound_of MutationKind.skip e = absurd (ground (arith, k, e))
    sound_of MutationKind.queue e = absurd (ground (arith, k, e))
    sound_of MutationKind.remove e = absurd (ground (arith, k, e))

-- From the registration of a volume, mute or mode command on, whatever events are accepted, none
-- included: once the change counts as confirmed, the reported observation shows the requested values,
-- a mute command leaves the level as it was expected, and a volume command keeps the mute or clears
-- one that was set.
pub confirm_all-Shows :
    (m : Mutation) (before : Snapshot) (ds : List EventData) (q : ScalarConfirmation)
    → scalar_mutation m ≡ true
    → confirm_all (new_scalar_confirmation m before) before ds ≡ some q
    → is_ready q ≡ true
    → Shows m before (scalar_result q before)
confirm_all-Shows m before ds q k run h =
    let r =
      confirm_all-IsSound before (new_scalar_confirmation m before) q ds (new-IsSound m before)
        run in
    let same = r.1 ∙ new-command m before in
    subst (λ (c : Mutation). Shows c before (scalar_result q before)) same
      (sound-Shows before q (rw same k) r.0 h)

-- Whether the field that an event of this kind reports has been seen at its target.
unfoldable pub target_seen : EventKind → ScalarConfirmation → Bool
target_seen EventKind.volume p = p.volume_seen && p.command.kind != MutationKind.mode
target_seen EventKind.repeat p = p.repeat_seen && p.command.kind == MutationKind.mode
target_seen EventKind.shuffle p = p.shuffle_seen && p.command.kind == MutationKind.mode
target_seen _ p = false

-- Whether the event reports what was seen.
unfoldable pub repeats_target : EventKind → ScalarConfirmation → EventData → Bool
unfolding confirmed_volume_event
repeats_target EventKind.volume p d =
    confirmed_volume_event d (level_of p.observed.volume) p.observed.muted
repeats_target EventKind.repeat p d = d.repeat == p.command.repeat
repeats_target EventKind.shuffle p d = d.shuffle == p.command.shuffle
repeats_target _ p d = true

pending-target :
    (before : Snapshot) (p : ScalarConfirmation) (d : EventData) (k : EventKind)
    → target_seen k p ≡ true
    → (accept_pending k p before d).accepted ≡ true
    → repeats_target k p d ≡ true
unfolding accept_pending accept_volume accept_repeat accept_shuffle target_seen repeats_target
pending-target before p d EventKind.volume seen h = ground (arith, h, seen)
pending-target before p d EventKind.repeat seen h = ground (arith, h, seen)
pending-target before p d EventKind.shuffle seen h = ground (arith, h, seen)
pending-target before p d EventKind.sources seen h = refl
pending-target before p d _ seen h = refl

-- Once the field that an event reports was seen at its target, the event is accepted only if it
-- reports that same value: a return to the old value is refused, also if it is the expected one.
pub accept-target :
    (before : Snapshot) (p : ScalarConfirmation) (d : EventData)
    → target_seen d.kind p ≡ true
    → (accept_scalar_event (some p) before d).accepted ≡ true
    → repeats_target d.kind p d ≡ true
unfolding accept_scalar_event
accept-target before p d seen h = pending-target before p d d.kind seen (ground (arith, h))
