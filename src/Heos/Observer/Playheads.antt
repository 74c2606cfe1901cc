-- ===== src/Heos/Observer/Playheads.antt =====
-- internal/heos: the position that the observer shows belongs to the media that it shows.
use heos_control.Prelude.{
  leb, if_both, ◌≡◌, ◌≢◌, subst, inl, inr, refl, sym, Bool, true, false, ◌&&◌, ◌||◌, not, Option,
  none, some, ◌==◌, arith, ==→≡, string_eq, nat_eq, if◌then◌else◌, Bool-cases, Time,
}
use heos_control.Heos.Values.{PlayState, is_active, play_state_eq}
use heos_control.Heos.Snapshot.{Media, Playhead, Snapshot}
use heos_control.Heos.Events.{EventKind, EventData, Event, data_of, event_kind_eq}
use heos_control.Heos.Events.States.{data_of-state}
use heos_control.Heos.Observer.{
  Observer, ClientView, notify, record_progress, progress_recordable, sample, apply_observed_event,
  apply_kind, applied, skipped_event, follows, write_known,
}
use heos_control.Heos.Observer.Reads.{playhead_for_media, keeps_media, kept_sample}

-- The media of a sample is the media that is shown.
abbrev pub Shown : Option Media → Playhead → Type 0
Shown none p = ⊥
Shown (some m) p = (p.source ≡ m.source) × (p.media ≡ m.id) × (p.queue ≡ m.queue_id)

-- A position is shown only in an active state, and belongs to the media that is shown.
abbrev pub Located : Option Playhead → PlayState → Option Media → Type 0
Located none state media = Unit
Located (some p) state media = (is_active state ≡ true) × Shown media p

abbrev pub IsLocated : Snapshot → Type 0
IsLocated s = Located s.playhead s.state s.media

kept-Located :
    (p : Option Playhead) (state : PlayState) (m : Option Media)
    → is_active state ≡ true
    → Located (kept_sample p m) state m
kept-Located none state m a = tt
kept-Located (some p) state none a = tt
kept-Located (some p) state (some m) a =
    elim (Bool-cases (p.source == m.source && p.media == m.id && p.queue == m.queue_id)) [
      | inr f ↦ rw f tt
      | inl f ↦ rw f (
        a,
        (
          ==→≡ p.source m.source (ground (arith, f)),
          ==→≡ p.media m.id (ground (arith, f)),
          ==→≡ p.queue m.queue_id (ground (arith, f)),
        ),
      )
    ]

keeps_active :
    (o : Observer) (m : Option Media) (state : PlayState)
    → keeps_media o m state ≡ true
    → is_active state ≡ true
unfolding keeps_media
keeps_active o m state h = ground (arith, h)

pub playhead-Located :
    (o : Observer) (media : Option Media) (state : PlayState)
    → Located (playhead_for_media o media state) state media
unfolding playhead_for_media
playhead-Located o media state = elim (Bool-cases (keeps_media o media state)) [
  | inr f ↦ rw f tt
  | inl f ↦ rw f (kept-Located o.last.playhead state media (keeps_active o media state f))
]

Located-active :
    (p : Option Playhead) (old state : PlayState) (media : Option Media)
    → is_active state ≡ true
    → Located p old media
    → Located p state media
Located-active none old state media a l = tt
Located-active (some p) old state media a l = (a, l.1)

running :
    (s : PlayState)
    → s ≢ PlayState.absent
    → (s == PlayState.stop || s == PlayState.unknown) ≡ false
    → is_active s ≡ true
unfolding is_active
running PlayState.absent g h = absurd (g refl)
running PlayState.play g h = refl
running PlayState.pause g h = refl
running PlayState.stop g h = cc
running PlayState.unknown g h = cc

-- What is applied of an event keeps the position with its media.
Kept : Option Snapshot → Type 0
Kept none = Unit
Kept (some t) = IsLocated t

module _ (d : EventData) (s : Snapshot) (l : IsLocated s) where
  -- A transport event that is not Stop or unknown is Play or Pause.
  state-Kept : d.state ≢ PlayState.absent → Kept (apply_kind EventKind.state d s)
  unfolding apply_kind Kept
  state-Kept given = elim (Bool-cases (d.state == PlayState.stop || d.state == PlayState.unknown)) [
    | inl e ↦ rw e tt
    | inr e ↦ rw e (Located-active s.playhead s.state d.state s.media (running d.state given e) l)
  ]

  apply_kind-Kept :
      (k : EventKind) → (k ≡ EventKind.state → d.state ≢ PlayState.absent) → Kept (apply_kind k d s)
  unfolding apply_kind Kept
  apply_kind-Kept EventKind.state given = state-Kept (given refl)
  apply_kind-Kept EventKind.volume given = l
  apply_kind-Kept EventKind.repeat given = l
  apply_kind-Kept EventKind.shuffle given = l
  apply_kind-Kept EventKind.now_playing given = l
  apply_kind-Kept EventKind.sources given = tt
  apply_kind-Kept _ given = tt

  apply_observed_event-Kept :
      (d.kind ≡ EventKind.state → d.valid ≡ true → d.state ≢ PlayState.absent)
      → Kept (apply_observed_event d s)
  unfolding apply_observed_event Kept
  apply_observed_event-Kept given = elim (Bool-cases d.valid) [
    | inl v ↦
        subst (λ (b : Bool). Kept (if b then apply_kind d.kind d s else none)) (sym v)
          (apply_kind-Kept d.kind (λ k. given k v))
    | inr v ↦ subst (λ (b : Bool). Kept (if b then apply_kind d.kind d s else none)) (sym v) tt
  ]

applied-IsLocated :
    (o : Observer) (view : ClientView) (e : Event) (found : Option Snapshot)
    → IsLocated o.last
    → Kept found
    → IsLocated (applied o view e found).last
unfolding applied Kept
applied-IsLocated o view e none l k = l
applied-IsLocated o view e (some t) l k = k

sample-Located :
    (m : Option Media) (state : PlayState) (d : EventData) (now : Time)
    → is_active state ≡ true
    → Located (sample m d now) state m
unfolding sample
sample-Located none state d now a = tt
sample-Located (some m) state d now a = (a, (refl, refl, refl))

module _ (o : Observer) (view : ClientView) (e : Event) (now : Time) (l : IsLocated o.last) where
  record_progress-IsLocated : IsLocated (record_progress o view e now).last
  unfolding record_progress
  record_progress-IsLocated =
      elim (Bool-cases (
        leb e.progress_sequence o.progress_after
        || not (progress_recordable o view (data_of e).player e.token now))) [
          | inl h ↦ rw h l
          | inr h ↦ rw h (
              sample-Located o.last.media o.last.state (data_of e) now
                (recordable_active (ground (arith, h))))
        ]
    where
      recordable_active :
          progress_recordable o view (data_of e).player e.token now ≡ true
          → is_active o.last.state ≡ true
      recordable_active h = unfold progress_recordable in ground (arith, h)

  pub notify-IsLocated : IsLocated (notify o view e now).last
  unfolding notify
  notify-IsLocated =
      let at_last = λ (x : Observer). IsLocated x.last in
      let d = data_of e in
      let kept = apply_observed_event-Kept d o.last l (data_of-state e) in
      if_both at_last (not e.gap && d.kind == EventKind.progress && d.valid) _ _
        (if_both at_last d.has_progress _ _ record_progress-IsLocated l)
        (if_both at_last (skipped_event o e) _ _ l (
          if_both at_last (follows o view e now && write_known o view e) _ _
            (applied-IsLocated o view e (apply_observed_event d o.last) l kept) l))
