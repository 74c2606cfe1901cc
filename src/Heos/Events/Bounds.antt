-- ===== src/Heos/Events/Bounds.antt =====
-- What the decoder of notifications lets through.
use heos_control.Prelude.{
  ℕ, ◌≢◌, ◌≤◌, ◌==◌, ◌!=◌, Bool, true, ◌&&◌, ◌||◌, Option, none, some, String, arith, ℤ, pos,
  negsuc, [], ◌∷◌, leb, Bool-cases, inl, inr, string_eq, nat_eq,
}
use heos_control.Heos.Numbers.{atoi, parse_uint}
use heos_control.Heos.Events.{
  choice, EventKind, EventData, Values, max_int64, with_level, with_mute, with_shuffle,
  with_progress, volume_event, decode_kind, decode_event_data, blank, event_kind, one,
}

-- The numbers of decoded data are in range, and a position is inside of the duration, if that is
-- known.
pub record IsInRange (d : EventData) : Type 0 where
  pub volume : d.volume ≤ 100
  pub position : d.position ≤ max_int64
  pub duration : d.duration ≤ max_int64
  pub inside : d.duration ≢ 0 → d.position ≤ d.duration

module _ (d : EventData) (r : IsInRange d) where
  valid-IsInRange : (v : Bool) → IsInRange (record d { valid = v })
  valid-IsInRange v = record {
    volume = r.volume;
    position = r.position;
    duration = r.duration;
    inside = r.inside;
  }

  with_level-IsInRange : (level : Option ℤ) → IsInRange (with_level level d)
  unfolding with_level
  with_level-IsInRange none = r
  with_level-IsInRange (some (negsuc n)) = r
  with_level-IsInRange (some (pos n)) = elim (Bool-cases (leb n 100)) [
    | inl e ↦ rw e (record {
      volume = ground (arith, e);
      position = r.position;
      duration = r.duration;
      inside = r.inside;
    })
    | inr e ↦ rw e r
  ]

  with_mute-IsInRange : (mute : String) → IsInRange (with_mute mute d)
  unfolding with_mute
  with_mute-IsInRange mute = elim (Bool-cases (mute != "")) [
    | inl e ↦ rw e (record {
      volume = r.volume;
      position = r.position;
      duration = r.duration;
      inside = r.inside;
    })
    | inr e ↦ rw e r
  ]

  with_shuffle-IsInRange : (value : String) → IsInRange (with_shuffle value d)
  unfolding with_shuffle
  with_shuffle-IsInRange value = elim (Bool-cases (value != "")) [
    | inl e ↦ rw e (record {
      volume = r.volume;
      position = r.position;
      duration = r.duration;
      inside = r.inside;
    })
    | inr e ↦ rw e r
  ]

with_progress-IsInRange :
    (position duration : Option ℕ) (d : EventData)
    → IsInRange d
    → IsInRange (with_progress position duration d)
unfolding with_progress
with_progress-IsInRange none duration d h = h
with_progress-IsInRange (some p) none d h = h
with_progress-IsInRange (some p) (some q) d h =
    elim (Bool-cases
      ((d.player != "" && (q == 0 || leb p q)) && leb p max_int64 && leb q max_int64)) [
        | inl e ↦ rw e (record {
          volume = h.volume;
          position = ground (arith, e);
          duration = ground (arith, e);
          inside = λ n. ground (arith, e, n);
        })
        | inr e ↦ rw e (record {
          volume = h.volume;
          position = h.position;
          duration = h.duration;
          inside = h.inside;
        })
      ]

volume_event-IsInRange :
    (identity : String) (params : Values) (d : EventData)
    → IsInRange d
    → IsInRange (volume_event identity params d)
unfolding volume_event
volume_event-IsInRange identity params d r =
    let levelled = with_level (atoi (one params "level")) d in
    let muted = with_mute (choice params "mute" ("on" ∷ "off" ∷ [])) levelled in
    valid-IsInRange muted
      (with_mute-IsInRange levelled (with_level-IsInRange d r (atoi (one params "level")))
        (choice params "mute" ("on" ∷ "off" ∷ [])))
      (identity != "" && muted.has_volume && muted.has_mute)

decode_kind-IsInRange :
    (k : EventKind) (params : Values) (d : EventData)
    → IsInRange d
    → IsInRange (decode_kind k params d)
unfolding decode_kind
decode_kind-IsInRange EventKind.unknown params d r = r
decode_kind-IsInRange EventKind.volume params d r = volume_event-IsInRange d.player params d r
decode_kind-IsInRange EventKind.group_volume params d r =
    volume_event-IsInRange (one params "gid") params d r
decode_kind-IsInRange EventKind.progress params d r =
    with_progress-IsInRange (parse_uint (one params "cur_pos")) (parse_uint (one params "duration"))
      d r
decode_kind-IsInRange EventKind.shuffle params d r =
    let value = choice params "shuffle" ("on" ∷ "off" ∷ []) in
    valid-IsInRange (with_shuffle value d) (with_shuffle-IsInRange d r value)
      (d.player != "" && (with_shuffle value d).has_shuffle)
decode_kind-IsInRange EventKind.sources params d r = valid-IsInRange d r true
decode_kind-IsInRange EventKind.players params d r = valid-IsInRange d r true
decode_kind-IsInRange EventKind.groups params d r = valid-IsInRange d r true
decode_kind-IsInRange EventKind.now_playing params d r = valid-IsInRange d r (d.player != "")
decode_kind-IsInRange EventKind.queue params d r = valid-IsInRange d r (d.player != "")
decode_kind-IsInRange EventKind.state params d r = record {
  volume = r.volume;
  position = r.position;
  duration = r.duration;
  inside = r.inside;
}
decode_kind-IsInRange EventKind.repeat params d r = record {
  volume = r.volume;
  position = r.position;
  duration = r.duration;
  inside = r.inside;
}
decode_kind-IsInRange EventKind.playback_error params d r = record {
  volume = r.volume;
  position = r.position;
  duration = r.duration;
  inside = r.inside;
}
decode_kind-IsInRange EventKind.user params d r = record {
  volume = r.volume;
  position = r.position;
  duration = r.duration;
  inside = r.inside;
}

-- Whatever a notification says, its decoded volume is at most 100, its position and duration fit
-- 63 bits, and the position is inside of a duration that is not 0.
pub decode_event_data-IsInRange :
    (command : String) (params : Values) → IsInRange (decode_event_data command params)
unfolding decode_event_data
decode_event_data-IsInRange command params =
    decode_kind-IsInRange (event_kind command) params
      (blank (event_kind command) (one params "pid"))
      (record {
        volume = omega arith;
        position = omega arith;
        duration = omega arith;
        inside = λ n. omega arith;
      })
