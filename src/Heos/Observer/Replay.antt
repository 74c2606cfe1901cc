-- ===== src/Heos/Observer/Replay.antt =====
-- internal/heos/observation_events.go: what the observer shows is a replay of the player's events.
use heos_control.Prelude.{
  ℕ, ◌+◌, ◌≡◌, ◌⊎◌, inl, inr, refl, ap, ◌∙◌, subst, Bool, true, false, ◌&&◌, ◌||◌, not, Option,
  none, some, List, [], ◌∷◌, arith, length, map, ◌==◌, nat_eq, string_eq, if_both, if_given, Time,
  leb,
}
use heos_control.Heos.Values.{PlayState, Repeat, play_state_eq}
use heos_control.Heos.Snapshot.{Token, Snapshot}
use heos_control.Heos.Events.{EventKind, EventData, Event, data_of, event_kind_eq}
use heos_control.Heos.Observer.{
  Observer, ClientView, notify, record_progress, progress_recordable, apply_observed_event,
  apply_kind, applied, invalidate, skipped_event, follows, write_known,
}

-- The abstract view: the five controls, and what an event says of them.
pub record Controls : Type 0 where
  pub state : PlayState
  pub volume : Option ℕ
  pub muted : Option Bool
  pub repeat : Repeat
  pub shuffle : Bool

abbrev pub controls : Snapshot → Controls
controls s = record {
  state = s.state;
  volume = s.volume;
  muted = s.muted;
  repeat = s.repeat;
  shuffle = s.shuffle;
}

abbrev heard_kind : EventKind → EventData → Controls → Controls
heard_kind EventKind.state d c = record c { state = d.state }
heard_kind EventKind.volume d c = record c { volume = some d.volume; muted = some d.muted }
heard_kind EventKind.repeat d c = record c { repeat = d.repeat }
heard_kind EventKind.shuffle d c = record c { shuffle = d.shuffle }
heard_kind _ d c = c

abbrev pub heard : Event → Controls → Controls
heard e c = heard_kind (data_of e).kind (data_of e) c

unfoldable pub replay : Controls → List Event → Controls
replay c [] = c
replay c (e ∷ es) = replay (heard e c) es

-- The events are numbered one after the other from the given number on.
abbrev pub Consecutive : ℕ → List Event → Type 0
Consecutive n [] = Unit
Consecutive n (e ∷ es) = (e.token.player ≡ n + 1) × Consecutive (n + 1) es

-- Some of the events, in their order.
pub data Within : List Event → List Event → Type 0 where
  done : Within [] []
  skip : {es fs : List Event} (e : Event) → Within es fs → Within es (e ∷ fs)
  take : {es fs : List Event} (e : Event) → Within es fs → Within (e ∷ es) (e ∷ fs)

-- One call of the handler, with what the client held and the time.
pub record Notice : Type 0 where
  pub view : ClientView
  pub event : Event
  pub now : Time

abbrev pub event_of : Notice → Event
event_of n = n.event

unfoldable pub notifies : Observer → List Notice → Observer
notifies o [] = o
notifies o (n ∷ ns) = notifies (notify o n.view n.event n.now) ns

-- What one call leaves: it was given up, nothing that is compared has changed, or the next event was heard.
abbrev Same : Observer → Observer → Type 0
Same o x = (controls x.last ≡ controls o.last) × (x.last.token ≡ o.last.token)

abbrev Next : Observer → Event → Observer → Type 0
Next o e x =
    (e.token.player ≡ o.last.token.player + 1)
    × (x.last.token ≡ e.token)
    × (controls x.last ≡ heard e (controls o.last))

abbrev Left : Observer → Event → Observer → Type 0
Left o e x = (x.invalid ≡ true) ⊎ (Same o x ⊎ Next o e x)

abbrev Hears : EventKind → EventData → Controls → Option Snapshot → Type 0
Hears k d c none = Unit
Hears k d c (some t) = controls t ≡ heard_kind k d c

apply_kind-Hears :
    (k : EventKind) (d : EventData) (s : Snapshot) → Hears k d (controls s) (apply_kind k d s)
unfolding apply_kind
apply_kind-Hears EventKind.state d s =
    if_both (Hears EventKind.state d (controls s))
      (d.state == PlayState.stop || d.state == PlayState.unknown) _ _ refl refl
apply_kind-Hears EventKind.volume d s = refl
apply_kind-Hears EventKind.repeat d s = refl
apply_kind-Hears EventKind.shuffle d s = refl
apply_kind-Hears EventKind.now_playing d s = refl
apply_kind-Hears EventKind.sources d s = tt
apply_kind-Hears _ d s = tt

apply_observed_event-Hears :
    (d : EventData) (s : Snapshot) → Hears d.kind d (controls s) (apply_observed_event d s)
unfolding apply_observed_event
apply_observed_event-Hears d s =
    if_both (Hears d.kind d (controls s)) d.valid _ _ (apply_kind-Hears d.kind d s) tt

applied-Left :
    (o : Observer) (view : ClientView) (e : Event) (found : Option Snapshot)
    → e.token.player ≡ o.last.token.player + 1
    → Hears (data_of e).kind (data_of e) (controls o.last) found
    → Left o e (applied o view e found)
unfolding applied
applied-Left o view e none n h = inl (unfold invalidate in refl)
applied-Left o view e (some t) n h = inr (inr (n, refl, h))

record_progress-Same :
    (o : Observer) (view : ClientView) (e : Event) (now : Time)
    → Same o (record_progress o view e now)
unfolding record_progress
record_progress-Same o view e now =
    if_both (Same o)
      (leb e.progress_sequence o.progress_after
        || not (progress_recordable o view (data_of e).player e.token now))
      _ _ (refl, refl) (refl, refl)

follows-next :
    (o : Observer) (view : ClientView) (e : Event) (now : Time)
    → follows o view e now ≡ true
    → e.token.player ≡ o.last.token.player + 1
unfolding follows
follows-next o view e now h = ground (arith, h)

notify-Left :
    (o : Observer) (view : ClientView) (e : Event) (now : Time) → Left o e (notify o view e now)
unfolding notify
notify-Left o view e now =
    let d = data_of e in
    if_both (Left o e) (not e.gap && d.kind == EventKind.progress && d.valid) _ _
      (if_both (Left o e) d.has_progress _ _ (inr (inl (record_progress-Same o view e now)))
        (inr (inl (refl, refl))))
      (if_both (Left o e) (skipped_event o e) _ _ (inr (inl (refl, refl))) (
        if_given (Left o e) (follows o view e now && write_known o view e) _ _
          (λ h.
            applied-Left o view e (apply_observed_event d o.last)
              (follows-next o view e now (ground (arith, h))) (apply_observed_event-Hears d o.last))
          (inl (unfold invalidate in refl))))

follows-valid :
    (o : Observer) (view : ClientView) (e : Event) (now : Time)
    → follows o view e now ≡ true
    → o.invalid ≡ false
unfolding follows
follows-valid o view e now h = ground (arith, h)

-- Only a full read makes an observer valid again.
notify-invalid :
    (o : Observer) (view : ClientView) (e : Event) (now : Time)
    → o.invalid ≡ true
    → (notify o view e now).invalid ≡ true
unfolding notify
notify-invalid o view e now v =
    let given_up = λ (x : Observer). x.invalid ≡ true in
    let d = data_of e in
    if_both given_up (not e.gap && d.kind == EventKind.progress && d.valid) _ _
      (if_both given_up d.has_progress _ _
        (unfold record_progress in
          if_both given_up
            (leb e.progress_sequence o.progress_after
              || not (progress_recordable o view d.player e.token now))
            _ _ v v)
        v)
      (if_both given_up (skipped_event o e) _ _ v (
        if_given given_up (follows o view e now && write_known o view e) _ _
          (λ h. absurd (ground (arith, v, h, follows-valid o view e now)))
          (unfold invalidate in refl)))

notifies-invalid :
    (o : Observer) (ns : List Notice) → o.invalid ≡ true → (notifies o ns).invalid ≡ true
unfolding notifies
notifies-invalid o [] v = v
notifies-invalid o (n ∷ ns) v =
    notifies-invalid (notify o n.view n.event n.now) ns (notify-invalid o n.view n.event n.now v)

-- The events that were applied, and what they come to.
pub record IsReplay (o p : Observer) (es : List Event) : Type 0 where
  pub log : List Event
  pub within : Within log es
  pub numbered : Consecutive o.last.token.player log
  pub counted : p.last.token.player ≡ o.last.token.player + length log
  pub shown : controls p.last ≡ replay (controls o.last) log

IsReplay-step :
    (o x p : Observer) (e : Event) (es : List Event)
    → Same o x ⊎ Next o e x
    → IsReplay x p es
    → IsReplay o p (e ∷ es)
unfolding replay
IsReplay-step o x p e es (inl s) r =
    let n = ap (λ (t : Token). t.player) s.1 in
    record {
      log = r.log;
      within = Within.skip e r.within;
      numbered = subst (λ (k : ℕ). Consecutive k r.log) n r.numbered;
      counted = omega (arith, n, r.counted);
      shown = r.shown ∙ ap (λ (c : Controls). replay c r.log) s.0;
    }
IsReplay-step o x p e es (inr s) r =
    let n = ap (λ (t : Token). t.player) s.1 ∙ s.0 in
    record {
      log = e ∷ r.log;
      within = Within.take e r.within;
      numbered = (s.0, subst (λ (k : ℕ). Consecutive k r.log) n r.numbered);
      counted = omega (arith, n, r.counted);
      shown = r.shown ∙ ap (λ (c : Controls). replay c r.log) s.2;
    }

-- An observer that is still valid after any calls of its handler refines the log of its player: of the
-- events it was given, in their order, there are some that are numbered one after the other from its
-- token on, the last of them has the number of its token now, and the transport state, the volume, the
-- mute, the repeat and the shuffle that it shows are those at the start with these events replayed.
pub notifies-IsReplay :
    (o : Observer) (ns : List Notice)
    → (notifies o ns).invalid ≡ false
    → IsReplay o (notifies o ns) (map event_of ns)
unfolding notifies replay
notifies-IsReplay o [] v = record {
  log = [];
  within = Within.done;
  numbered = tt;
  counted = omega arith;
  shown = refl;
}
notifies-IsReplay o (n ∷ ns) v =
    let x = notify o n.view n.event n.now in
    let r = notifies-IsReplay x ns v in
    elim (notify-Left o n.view n.event n.now) [
      | inl i ↦ absurd (ground (arith, v, notifies-invalid x ns i))
      | inr s ↦ IsReplay-step o x (notifies x ns) n.event (map event_of ns) s r
    ]
