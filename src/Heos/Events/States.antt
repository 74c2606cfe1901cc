-- ===== src/Heos/Events/States.antt =====
-- internal/heos/events.go: a valid transport event carries a state.
use heos_control.Prelude.{
  ◌≡◌, ◌≢◌, true, Option, none, some, String, arith, ℤ, pos, negsuc, refl, ℕ, string_eq, nat_eq,
  ◌∙◌, sym, subst, [], ◌∷◌,
}
use heos_control.Heos.Numbers.{atoi}
use heos_control.Heos.Values.{PlayState, play_state_eq}
use heos_control.Heos.Events.{
  choice, EventKind, EventData, Event, data_of, Values, with_level, with_mute, with_shuffle,
  with_progress, volume_event, decode_kind, decode_event_data, blank, event_kind, one,
}

with_level-kind : (l : Option ℤ) (d : EventData) → (with_level l d).kind ≡ d.kind
unfolding with_level
with_level-kind none d = refl
with_level-kind (some (negsuc n)) d = refl
with_level-kind (some (pos n)) d = ground arith

with_mute-kind : (s : String) (d : EventData) → (with_mute s d).kind ≡ d.kind
unfolding with_mute
with_mute-kind s d = ground arith

with_shuffle-kind : (s : String) (d : EventData) → (with_shuffle s d).kind ≡ d.kind
unfolding with_shuffle
with_shuffle-kind s d = ground arith

with_progress-kind : (p q : Option ℕ) (d : EventData) → (with_progress p q d).kind ≡ d.kind
unfolding with_progress
with_progress-kind (some p) (some q) d = ground arith
with_progress-kind (some p) none d = refl
with_progress-kind none q d = refl

volume_event-kind :
    (s : String) (params : Values) (d : EventData) → (volume_event s params d).kind ≡ d.kind
unfolding volume_event
volume_event-kind s params d =
    let level = with_level (atoi (one params "level")) d in
    with_mute-kind (choice params "mute" ("on" ∷ "off" ∷ [])) level
    ∙ with_level-kind (atoi (one params "level")) d

-- The decoder keeps the kind.
decode_kind-kind :
    (k : EventKind) (params : Values) (d : EventData) → (decode_kind k params d).kind ≡ d.kind
unfolding decode_kind
decode_kind-kind EventKind.unknown params d = refl
decode_kind-kind EventKind.sources params d = refl
decode_kind-kind EventKind.players params d = refl
decode_kind-kind EventKind.groups params d = refl
decode_kind-kind EventKind.state params d = refl
decode_kind-kind EventKind.now_playing params d = refl
decode_kind-kind EventKind.progress params d = with_progress-kind _ _ d
decode_kind-kind EventKind.playback_error params d = refl
decode_kind-kind EventKind.queue params d = refl
decode_kind-kind EventKind.volume params d = volume_event-kind d.player params d
decode_kind-kind EventKind.repeat params d = refl
decode_kind-kind EventKind.shuffle params d = with_shuffle-kind _ d
decode_kind-kind EventKind.group_volume params d = volume_event-kind (one params "gid") params d
decode_kind-kind EventKind.user params d = refl

valid_state :
    (params : Values) (d : EventData)
    → (decode_kind EventKind.state params d).valid ≡ true
    → (decode_kind EventKind.state params d).state ≢ PlayState.absent
unfolding decode_kind
valid_state params d v e = ground (arith, v, e)

decode_kind-state :
    (k : EventKind) (params : Values) (d : EventData)
    → k ≡ EventKind.state
    → (decode_kind k params d).valid ≡ true
    → (decode_kind k params d).state ≢ PlayState.absent
decode_kind-state k params d e =
    subst
      (λ (k : EventKind).
        (decode_kind k params d).valid ≡ true → (decode_kind k params d).state ≢ PlayState.absent)
      (sym e) (valid_state params d)

decode_event_data-state :
    (command : String) (params : Values)
    → (decode_event_data command params).kind ≡ EventKind.state
    → (decode_event_data command params).valid ≡ true
    → (decode_event_data command params).state ≢ PlayState.absent
unfolding decode_event_data
decode_event_data-state command params k v =
    let d = blank (event_kind command) (one params "pid") in
    decode_kind-state (event_kind command) params d
      (sym (decode_kind-kind (event_kind command) params d) ∙ k) v

-- A valid transport event carries one of the four states.
pub data_of-state :
    (e : Event)
    → (data_of e).kind ≡ EventKind.state
    → (data_of e).valid ≡ true
    → (data_of e).state ≢ PlayState.absent
unfolding data_of
data_of-state e k v absent =
    decode_event_data-state e.command e.params (ground (arith, k, v)) (ground (arith, v))
      (ground (arith, absent))
