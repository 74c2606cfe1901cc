-- ===== src/Control/Scalar/Laws.antt =====
-- internal/control/scalar_confirmation.go: what a run of accepted events establishes.
use heos_control.Prelude.{
  ◌≡◌, ◌⊎◌, inl, inr, refl, sym, subst, ◌&&◌, not, Bool-cases, ◌==◌, ◌!=◌, Bool, true, false,
  Option, none, some, List, [], ◌∷◌, arith, ==→≡, option_eq, int_eq, bool_eq, if◌then◌else◌, ℤ, pos,
  ℕ,
}
use heos_control.Heos.Values.{MutationKind, repeat_eq, mutation_kind_eq}
use heos_control.Heos.Snapshot.{Snapshot}
use heos_control.Heos.Events.{EventKind, EventData, event_kind_eq}
use heos_control.Heos.Mutations.{Mutation}
use heos_control.Control.Scalar.{
  ScalarConfirmation, ScalarVerdict, new_scalar_confirmation, accept_scalar_event, level_of,
  shows_volume, accept_volume, accept_repeat, accept_shuffle, accept_pending, shows_target,
  confirmed_volume_event,
}

-- The events of one player while a change is pending, up to the first that is refused.
abbrev pub pending_or : Option ScalarConfirmation → ScalarConfirmation → ScalarConfirmation
pending_or none p = p
pending_or (some q) p = q

unfoldable pub confirm_all :
    ScalarConfirmation → Snapshot → List EventData → Option ScalarConfirmation
confirm_all p expected [] = some p
confirm_all p expected (d ∷ ds) =
    let v = accept_scalar_event (some p) expected d in
    let rest = confirm_all (pending_or v.pending p) expected ds in if v.accepted then rest else none

-- A cleared mute is admitted with a new level, since the device clears it on its own.
abbrev pub KeepsMute : Snapshot → Snapshot → Type 0
KeepsMute before s =
    (s.muted ≡ before.muted) ⊎ ((before.muted ≡ some true) × (s.muted ≡ some false))

-- The observation shows what the command asked for, and the field beside it as it was before.
abbrev pub ShowsOf : MutationKind → Mutation → Snapshot → Snapshot → Type 0
ShowsOf MutationKind.volume m before s = (level_of s.volume ≡ some m.level) × KeepsMute before s
ShowsOf MutationKind.mute m before s = (s.muted ≡ some m.muted) × (s.volume ≡ before.volume)
ShowsOf _ m before s = (s.repeat ≡ m.repeat) × (s.shuffle ≡ m.shuffle)

abbrev pub Shows : Mutation → Snapshot → Snapshot → Type 0
Shows m before s = ShowsOf m.kind m before s

-- What the flags of a pending change say of the values that were seen.
pub record IsSound (before : Snapshot) (p : ScalarConfirmation) : Type 0 where
  pub level :
      p.command.kind ≡ MutationKind.volume
      → p.volume_seen ≡ true
      → (level_of p.observed.volume ≡ some p.command.level) × KeepsMute before p.observed
  pub mute :
      p.command.kind ≡ MutationKind.mute
      → p.volume_seen ≡ true
      → (p.observed.muted ≡ some p.command.muted) × (p.observed.volume ≡ before.volume)
  pub repeat : p.repeat_seen ≡ true → p.observed.repeat ≡ p.command.repeat
  pub shuffle : p.shuffle_seen ≡ true → p.observed.shuffle ≡ p.command.shuffle

module _ (m : Mutation) (before : Snapshot) where
  pub new-IsSound : IsSound before (new_scalar_confirmation m before)
  unfolding new_scalar_confirmation
  new-IsSound = record {
    level = λ k h.
        ground
          (arith, ==→≡ (level_of before.volume) (some m.level), ==→≡ before.muted (some false));
    mute = λ k h. ground (arith, ==→≡ before.muted (some m.muted));
    repeat = λ h. ground (arith, ==→≡ before.repeat m.repeat);
    shuffle = λ h. ground (arith, ==→≡ before.shuffle m.shuffle);
  }

abbrev pub volume_seen_in : ScalarConfirmation → EventData → ScalarConfirmation
volume_seen_in p d = record p {
  observed = record p.observed { volume = some d.volume; muted = some d.muted };
  volume_seen = true;
}

abbrev pub repeat_seen_in : ScalarConfirmation → EventData → ScalarConfirmation
repeat_seen_in p d = record p {
  observed = record p.observed { repeat = d.repeat };
  repeat_seen = true;
}

abbrev pub shuffle_seen_in : ScalarConfirmation → EventData → ScalarConfirmation
shuffle_seen_in p d = record p {
  observed = record p.observed { shuffle = d.shuffle };
  shuffle_seen = true;
}

-- What an event that is accepted can do to the pending change.
pub data Moves (before : Snapshot) (p : ScalarConfirmation) (d : EventData) (q : ScalarConfirmation)
    : Type 0 where
  unchanged : q ≡ p → Moves before p d q
  volume : shows_target d p.command before ≡ true → q ≡ volume_seen_in p d → Moves before p d q
  repeat : d.repeat ≡ p.command.repeat → q ≡ repeat_seen_in p d → Moves before p d q
  shuffle : d.shuffle ≡ p.command.shuffle → q ≡ shuffle_seen_in p d → Moves before p d q

module _ (before : Snapshot) (p : ScalarConfirmation) (d : EventData) where
  abbrev pub after : ScalarVerdict → ScalarConfirmation
  after v = pending_or v.pending p

  accept_volume-Moves : Moves before p d (after (accept_volume p before d))
  unfolding accept_volume
  accept_volume-Moves = elim (Bool-cases (shows_target d p.command before)) [
    | inr e ↦ unchanged (rw e refl)
    | inl e ↦ elim (Bool-cases (p.volume_seen && not (shows_volume d p.observed))) [
      | inl f ↦ unchanged (rw (e, f) refl)
      | inr f ↦ volume e (rw (e, f) refl)
    ]
  ]

  accept_repeat-Moves : Moves before p d (after (accept_repeat p before d))
  unfolding accept_repeat
  accept_repeat-Moves = elim (Bool-cases (d.repeat == p.command.repeat)) [
    | inl e ↦ repeat (==→≡ d.repeat p.command.repeat e) (ground (arith, e))
    | inr e ↦ unchanged (ground (arith, e))
  ]

  accept_shuffle-Moves : Moves before p d (after (accept_shuffle p before d))
  unfolding accept_shuffle
  accept_shuffle-Moves = elim (Bool-cases (d.shuffle == p.command.shuffle)) [
    | inl e ↦ shuffle (==→≡ d.shuffle p.command.shuffle e) (ground (arith, e))
    | inr e ↦ unchanged (ground (arith, e))
  ]

  abbrev at_valid : Bool → ScalarVerdict
  at_valid v =
      if not v
      then record { accepted = false; pending = some p; signal = false }
      else accept_pending d.kind p before d

  pending-Moves : (k : EventKind) → Moves before p d (after (accept_pending k p before d))
  unfolding accept_pending
  pending-Moves EventKind.volume = elim (Bool-cases (p.command.kind == MutationKind.mode)) [
    | inl e ↦ unchanged (rw e refl)
    | inr e ↦ rw e (accept_volume-Moves)
  ]
  pending-Moves EventKind.repeat = elim (Bool-cases (p.command.kind != MutationKind.mode)) [
    | inl e ↦ unchanged (rw e refl)
    | inr e ↦ rw e accept_repeat-Moves
  ]
  pending-Moves EventKind.shuffle = elim (Bool-cases (p.command.kind != MutationKind.mode)) [
    | inl e ↦ unchanged (rw e refl)
    | inr e ↦ rw e accept_shuffle-Moves
  ]
  pending-Moves EventKind.sources = unchanged refl
  pending-Moves _ = unchanged refl

  pub accept-Moves : Moves before p d (after (accept_scalar_event (some p) before d))
  unfolding accept_scalar_event
  accept-Moves = elim (Bool-cases d.valid) [
    | inl e ↦
        subst (λ (v : Bool). Moves before p d (after (at_valid v))) (sym e) (pending-Moves d.kind)
    | inr e ↦ subst (λ (v : Bool). Moves before p d (after (at_valid v))) (sym e) (unchanged refl)
  ]

confirmed_shown :
    (d : EventData) (l : Option ℤ) (m : Option Bool)
    → confirmed_volume_event d l m ≡ true
    → (some (pos d.volume) ≡ l) × (some d.muted ≡ m)
unfolding confirmed_volume_event
confirmed_shown d none m h = cc
confirmed_shown d (some l) none h = cc
confirmed_shown d (some l) (some m) h =
    (ground (arith, ==→≡ (pos d.volume) l), ground (arith, ==→≡ d.muted m))

level-injective : (v : Option ℕ) (n : ℕ) → some (pos n) ≡ level_of v → some n ≡ v
level-injective none n h = cc
level-injective (some m) n h = cc

module _ (before : Snapshot) (p q : ScalarConfirmation) (d : EventData) where
  target_level :
      p.command.kind ≡ MutationKind.volume
      → shows_target d p.command before ≡ true
      → (some (pos d.volume) ≡ some p.command.level)
        × ((some d.muted ≡ before.muted)
            ⊎ ((before.muted ≡ some true) × (some d.muted ≡ some false)))
  unfolding shows_target
  target_level k h = ground (
    arith,
    k,
    confirmed_shown d (some p.command.level) before.muted,
    confirmed_shown d (some p.command.level) (some false),
    ==→≡ before.muted (some true),
  )

  target_mute :
      p.command.kind ≡ MutationKind.mute
      → shows_target d p.command before ≡ true
      → (some d.muted ≡ some p.command.muted) × (some d.volume ≡ before.volume)
  unfolding shows_target
  target_mute k h =
      let shown =
        confirmed_shown d (level_of before.volume) (some p.command.muted) (ground (arith, k)) in
      (shown.1, level-injective before.volume d.volume shown.0)

  pub Moves-IsSound : Moves before p d q → IsSound before p → IsSound before q
  Moves-IsSound (unchanged e) s = rw e s
  Moves-IsSound (volume h e) s = rw e record {
    level = λ k _. target_level k h;
    mute = λ k _. target_mute k h;
    repeat = s.repeat;
    shuffle = s.shuffle;
  }
  Moves-IsSound (repeat h e) s =
      rw e record { level = s.level; mute = s.mute; repeat = λ _. h; shuffle = s.shuffle }
  Moves-IsSound (shuffle h e) s =
      rw e record { level = s.level; mute = s.mute; repeat = s.repeat; shuffle = λ _. h }
