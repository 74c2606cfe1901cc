-- ===== src/Control/Scalar/Settle.antt =====
-- internal/control/scalar_confirmation.go: a command that the device carries out and reports is confirmed.
use heos_control.Prelude.{
  ◌≡◌, refl, ◌∙◌, ◌&&◌, not, ◌==◌, true, false, some, List, [], ◌∷◌, arith, ==→≡, ≡→==, ==_refl,
  option_eq, int_eq, bool_eq, pos,
}
use heos_control.Heos.Values.{MutationKind, repeat_eq, mutation_kind_eq}
use heos_control.Heos.Snapshot.{Snapshot}
use heos_control.Heos.Events.{EventKind, EventData, event_kind_eq}
use heos_control.Heos.Mutations.{Mutation}
use heos_control.Control.Scalar.{
  ScalarConfirmation, new_scalar_confirmation, is_ready, scalar_mutation, accept_scalar_event,
  shows_target, shows_volume, level_of, confirmed_volume_event,
}
use heos_control.Control.Scalar.Confirm.{new-command}
use heos_control.Control.Scalar.Laws.{confirm_all, volume_seen_in, repeat_seen_in, shuffle_seen_in}

new-observed : (m : Mutation) (s : Snapshot) → (new_scalar_confirmation m s).observed ≡ s
unfolding new_scalar_confirmation
new-observed m s = ground arith

new_mode :
    (m : Mutation) (s : Snapshot)
    → m.kind ≡ MutationKind.mode
    → ((new_scalar_confirmation m s).command.kind == MutationKind.mode) ≡ true
new_mode m s h = rw (new-command m s) (≡→== m.kind MutationKind.mode h)

confirm_all-nil : (s : Snapshot) (p : ScalarConfirmation) → confirm_all p s [] ≡ some p
unfolding confirm_all
confirm_all-nil s p = refl

settled_mode :
    (p : ScalarConfirmation)
    → p.repeat_seen ≡ true
    → p.shuffle_seen ≡ true
    → (p.command.kind == MutationKind.mode) ≡ true
    → is_ready p ≡ true
unfolding is_ready
settled_mode p r t h = ground (arith, r, t, h)

settled_volume :
    (p : ScalarConfirmation)
    → (p.command.kind == MutationKind.mode) ≡ false
    → p.volume_seen ≡ true
    → is_ready p ≡ true
unfolding is_ready
settled_volume p h v = ground (arith, h, v)

-- What the device sends when it carries out the command: the new level with the mute that was set or
-- with the mute that the new level clears, the new mute with the old level, or the two fields of a
-- mode in either order.
pub data Echo (m : Mutation) (before : Snapshot) : List EventData → Type 0 where
  level_kept :
      (d : EventData)
      → d.kind ≡ EventKind.volume
      → d.valid ≡ true
      → m.kind ≡ MutationKind.volume
      → pos d.volume ≡ m.level
      → before.muted ≡ some d.muted
      → Echo m before (d ∷ [])
  level_unmuted :
      (d : EventData)
      → d.kind ≡ EventKind.volume
      → d.valid ≡ true
      → m.kind ≡ MutationKind.volume
      → pos d.volume ≡ m.level
      → before.muted ≡ some true
      → d.muted ≡ false
      → Echo m before (d ∷ [])
  mute :
      (d : EventData)
      → d.kind ≡ EventKind.volume
      → d.valid ≡ true
      → m.kind ≡ MutationKind.mute
      → d.muted ≡ m.muted
      → before.volume ≡ some d.volume
      → Echo m before (d ∷ [])
  repeat_first :
      (d e : EventData)
      → m.kind ≡ MutationKind.mode
      → (d.kind ≡ EventKind.repeat) × (d.valid ≡ true) × (d.repeat ≡ m.repeat)
      → (e.kind ≡ EventKind.shuffle) × (e.valid ≡ true) × (e.shuffle ≡ m.shuffle)
      → Echo m before (d ∷ e ∷ [])
  shuffle_first :
      (d e : EventData)
      → m.kind ≡ MutationKind.mode
      → (d.kind ≡ EventKind.shuffle) × (d.valid ≡ true) × (d.shuffle ≡ m.shuffle)
      → (e.kind ≡ EventKind.repeat) × (e.valid ≡ true) × (e.repeat ≡ m.repeat)
      → Echo m before (d ∷ e ∷ [])

module _ (before : Snapshot) (p : ScalarConfirmation) (d : EventData) (ds : List EventData) where
  confirm_repeat :
      (p.command.kind == MutationKind.mode) ≡ true
      → d.kind ≡ EventKind.repeat
      → d.valid ≡ true
      → d.repeat ≡ p.command.repeat
      → confirm_all p before (d ∷ ds) ≡ confirm_all (repeat_seen_in p d) before ds
  unfolding confirm_all accept_scalar_event
  confirm_repeat m k v e = ground (arith, m, k, v, ==_refl d.repeat, e)

  confirm_shuffle :
      (p.command.kind == MutationKind.mode) ≡ true
      → d.kind ≡ EventKind.shuffle
      → d.valid ≡ true
      → d.shuffle ≡ p.command.shuffle
      → confirm_all p before (d ∷ ds) ≡ confirm_all (shuffle_seen_in p d) before ds
  unfolding confirm_all accept_scalar_event
  confirm_shuffle m k v e = ground (arith, m, k, v, e)

  confirm_volume :
      (p.command.kind == MutationKind.mode) ≡ false
      → d.kind ≡ EventKind.volume
      → d.valid ≡ true
      → shows_target d p.command before ≡ true
      → (p.volume_seen && not (shows_volume d p.observed)) ≡ false
      → confirm_all p before (d ∷ ds) ≡ confirm_all (volume_seen_in p d) before ds
  unfolding confirm_all accept_scalar_event
  confirm_volume m k v t o = ground (arith, m, k, v, t, o)

fresh_volume :
    (m : Mutation) (s : Snapshot) (d : EventData)
    → scalar_mutation m ≡ true
    → shows_target d m s ≡ true
    → (new_scalar_confirmation m s).volume_seen ≡ true
    → shows_volume d s ≡ true
unfolding scalar_mutation new_scalar_confirmation shows_target shows_volume
fresh_volume m s d k t seen = ground (
  arith,
  k,
  t,
  seen,
  ==→≡ (level_of s.volume) (some m.level),
  ==→≡ s.muted (some false),
  ==→≡ s.muted (some m.muted),
)

Settled : Mutation → Snapshot → List EventData → Type 0
Settled m before ds =
    (q : ScalarConfirmation) × (confirm_all (new_scalar_confirmation m before) before ds ≡ some q)
    × (is_ready q ≡ true)

-- A report that shows the target of a volume or mute command settles it.
shown-Settled :
    (m : Mutation) (before : Snapshot) (d : EventData)
    → scalar_mutation m ≡ true
    → d.kind ≡ EventKind.volume
    → d.valid ≡ true
    → (m.kind == MutationKind.mode) ≡ false
    → shows_target d m before ≡ true
    → Settled m before (d ∷ [])
unfolding Settled
shown-Settled m before d k kind valid other target =
    let p = new_scalar_confirmation m before in
    (
      volume_seen_in p d,
      confirm_volume before p d [] (rw (new-command m before) other) kind valid
            (rw (new-command m before) target)
            (rw (new-observed m before) (ground (arith, fresh_volume m before d k target)))
          ∙ confirm_all-nil before (volume_seen_in p d),
      settled_volume (volume_seen_in p d) (rw (new-command m before) other) refl,
    )

level_kept-target :
    (m : Mutation) (before : Snapshot) (d : EventData)
    → d.kind ≡ EventKind.volume
    → d.valid ≡ true
    → m.kind ≡ MutationKind.volume
    → pos d.volume ≡ m.level
    → before.muted ≡ some d.muted
    → shows_target d m before ≡ true
unfolding shows_target confirmed_volume_event
level_kept-target m before d k v mk l h =
    ground (arith, k, v, mk, h, ≡→== (pos d.volume) m.level l, ==_refl d.muted)

level_unmuted-target :
    (m : Mutation) (before : Snapshot) (d : EventData)
    → d.kind ≡ EventKind.volume
    → d.valid ≡ true
    → m.kind ≡ MutationKind.volume
    → pos d.volume ≡ m.level
    → before.muted ≡ some true
    → d.muted ≡ false
    → shows_target d m before ≡ true
unfolding shows_target confirmed_volume_event
level_unmuted-target m before d k v mk l h u =
    ground (arith, k, v, mk, h, u, ≡→== (pos d.volume) m.level l)

mute-target :
    (m : Mutation) (before : Snapshot) (d : EventData)
    → d.kind ≡ EventKind.volume
    → d.valid ≡ true
    → m.kind ≡ MutationKind.mute
    → d.muted ≡ m.muted
    → before.volume ≡ some d.volume
    → shows_target d m before ≡ true
unfolding shows_target confirmed_volume_event
mute-target m before d k v mk u h =
    ground (arith, k, v, mk, u, h, ==_refl (pos d.volume), ==_refl m.muted)

-- The device's own report of a volume, mute or mode command, in either order for the two fields of a
-- mode, is accepted and completes the confirmation; also that of a level that clears a mute.
pub Echo-is_ready :
    (m : Mutation) (before : Snapshot) (ds : List EventData)
    → scalar_mutation m ≡ true
    → Echo m before ds
    → (q : ScalarConfirmation) × (confirm_all (new_scalar_confirmation m before) before ds ≡ some q)
      × (is_ready q ≡ true)
unfolding Settled
Echo-is_ready m before ds k (level_kept d kind valid mk l h) =
    shown-Settled m before d k kind valid (ground (arith, mk))
      (level_kept-target m before d kind valid mk l h)
Echo-is_ready m before ds k (level_unmuted d kind valid mk l h u) =
    shown-Settled m before d k kind valid (ground (arith, mk))
      (level_unmuted-target m before d kind valid mk l h u)
Echo-is_ready m before ds k (mute d kind valid mk u h) =
    shown-Settled m before d k kind valid (ground (arith, mk))
      (mute-target m before d kind valid mk u h)
Echo-is_ready m before ds k (repeat_first d e mode h1 h2) =
    let p = new_scalar_confirmation m before in
    let is_mode = new_mode m before mode in
    (
      shuffle_seen_in (repeat_seen_in p d) e,
      confirm_repeat before p d (e ∷ []) is_mode h1.0 h1.1 (rw (new-command m before) h1.2)
          ∙ confirm_shuffle before (repeat_seen_in p d) e [] is_mode h2.0 h2.1
              (rw (new-command m before) h2.2)
          ∙ confirm_all-nil before (shuffle_seen_in (repeat_seen_in p d) e),
      settled_mode (shuffle_seen_in (repeat_seen_in p d) e) refl refl is_mode,
    )
Echo-is_ready m before ds k (shuffle_first d e mode h1 h2) =
    let p = new_scalar_confirmation m before in
    let is_mode = new_mode m before mode in
    (
      repeat_seen_in (shuffle_seen_in p d) e,
      confirm_shuffle before p d (e ∷ []) is_mode h1.0 h1.1 (rw (new-command m before) h1.2)
          ∙ confirm_repeat before (shuffle_seen_in p d) e [] is_mode h2.0 h2.1
              (rw (new-command m before) h2.2)
          ∙ confirm_all-nil before (repeat_seen_in (shuffle_seen_in p d) e),
      settled_mode (repeat_seen_in (shuffle_seen_in p d) e) refl refl is_mode,
    )
