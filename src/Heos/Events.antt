-- ===== src/Heos/Events.antt =====
-- internal/heos/events.go: the typed view of one notification. `url.Values` is an association
-- list from a key to its values. The memo fields `data` and `decoded` of an event are left out:
-- `data_of` computes what `Decode` would have stored.
pub mod Bounds
pub mod States
use heos_control.Prelude.{
  ℕ, ◌≡◌, ◌↔◌, arith, nat_beq, Eq, ◌-◌, ◌^◌, String, Bool, true, false, ◌&&◌, ◌||◌, not, Option,
  none, some, List, [], ◌∷◌, leb, if◌then◌else◌, ◌==◌, ◌!=◌, ℤ, pos, negsuc, nat_eq, bool_eq,
  string_eq,
}
use heos_control.Heos.Values.{PlayState, Repeat, play_state_eq, repeat_eq}
use heos_control.Heos.Snapshot.{Token}
use heos_control.Heos.Numbers.{atoi, parse_uint}

pub data EventKind : Type 0 where
  unknown sources players groups state now_playing progress playback_error queue volume repeat
        shuffle group_volume user :
      EventKind

abbrev pub event_kind_code : EventKind → ℕ
event_kind_code EventKind.unknown = 0
event_kind_code EventKind.sources = 1
event_kind_code EventKind.players = 2
event_kind_code EventKind.groups = 3
event_kind_code EventKind.state = 4
event_kind_code EventKind.now_playing = 5
event_kind_code EventKind.progress = 6
event_kind_code EventKind.playback_error = 7
event_kind_code EventKind.queue = 8
event_kind_code EventKind.volume = 9
event_kind_code EventKind.repeat = 10
event_kind_code EventKind.shuffle = 11
event_kind_code EventKind.group_volume = 12
event_kind_code EventKind.user = 13

abbrev pub event_kind_beq : EventKind → EventKind → Bool
event_kind_beq a b = nat_beq (event_kind_code a) (event_kind_code b)

pub event_kind_beq_iff : (a b : EventKind) → (event_kind_beq a b ≡ true) ↔ (a ≡ b)
event_kind_beq_iff a b = (λ h. ground arith, λ h. ground arith)

instance abbrev pub event_kind_eq : Eq EventKind
event_kind_eq = record { beq = event_kind_beq; beq_law = event_kind_beq_iff }

-- `EventKind(command)`, with the `default` case of the decoder's switch.
unfoldable pub event_kind : String → EventKind
event_kind command =
    if command == "event/sources_changed"
    then EventKind.sources
    else if command == "event/players_changed"
    then EventKind.players
    else if command == "event/groups_changed"
    then EventKind.groups
    else if command == "event/player_state_changed"
    then EventKind.state
    else if command == "event/player_now_playing_changed"
    then EventKind.now_playing
    else if command == "event/player_now_playing_progress"
    then EventKind.progress
    else if command == "event/player_playback_error"
    then EventKind.playback_error
    else if command == "event/player_queue_changed"
    then EventKind.queue
    else if command == "event/player_volume_changed"
    then EventKind.volume
    else if command == "event/repeat_mode_changed"
    then EventKind.repeat
    else if command == "event/shuffle_mode_changed"
    then EventKind.shuffle
    else if command == "event/group_volume_changed"
    then EventKind.group_volume
    else if command == "event/user_changed"
    then EventKind.user
    else EventKind.unknown

pub record EventData : Type 0 where
  pub kind : EventKind
  pub player : String
  pub state : PlayState
  pub volume : ℕ
  pub muted : Bool
  pub repeat : Repeat
  pub shuffle : Bool
  pub has_volume : Bool
  pub has_mute : Bool
  pub has_shuffle : Bool
  pub has_progress : Bool
  pub position : ℕ
  pub duration : ℕ
  pub valid : Bool

abbrev pub Values : Type 0
Values = List (String × List String)

unfoldable pub values_of : Values → String → List String
values_of [] key = []
values_of ((k, vs) ∷ rest) key = if k == key then vs else values_of rest key

abbrev single : List String → String
single (v ∷ []) = v
single _ = ""

-- `one`: the value of a key that is given exactly once.
unfoldable pub one : Values → String → String
unfolding values_of
one params key = single (values_of params key)

abbrev is_single : List String → Bool
is_single (v ∷ []) = true
is_single _ = false

given_once : Values → String → Bool
unfolding values_of
given_once params key = is_single (values_of params key)

one_of : String → List String → String
one_of value [] = ""
one_of value (want ∷ rest) = if value == want then value else one_of value rest

unfoldable pub choice : Values → String → List String → String
unfolding one one_of
choice params key allowed = one_of (one params key) allowed

-- `PlayState(s)` and `Repeat(s)` at the spellings that `choice` lets through.
unfoldable pub play_state_of : String → PlayState
play_state_of s =
    if s == "play"
    then PlayState.play
    else if s == "pause"
    then PlayState.pause
    else if s == "stop"
    then PlayState.stop
    else if s == "unknown"
    then PlayState.unknown
    else PlayState.absent

unfoldable pub repeat_of : String → Repeat
repeat_of s =
    if s == "off"
    then Repeat.off
    else if s == "on_one"
    then Repeat.on_one
    else if s == "on_all"
    then Repeat.on_all
    else Repeat.absent

abbrev blank : EventKind → String → EventData
blank kind player = record {
  kind = kind;
  player = player;
  state = PlayState.absent;
  volume = 0;
  muted = false;
  repeat = Repeat.absent;
  shuffle = false;
  has_volume = false;
  has_mute = false;
  has_shuffle = false;
  has_progress = false;
  position = 0;
  duration = 0;
  valid = false;
}

-- The first branch of a volume event: a level from 0 to 100.
with_level : Option ℤ → EventData → EventData
with_level none d = d
with_level (some (negsuc n)) d = d
with_level (some (pos n)) d = if leb n 100 then record d { volume = n; has_volume = true } else d

with_mute : String → EventData → EventData
with_mute mute d = if mute != "" then record d { muted = mute == "on"; has_mute = true } else d

with_shuffle : String → EventData → EventData
with_shuffle value d =
    if value != "" then record d { shuffle = value == "on"; has_shuffle = true } else d

abbrev max_int64 : ℕ
max_int64 = 2 ^ 63 - 1

with_progress : Option ℕ → Option ℕ → EventData → EventData
with_progress (some position) (some duration) d =
    let valid = d.player != "" && (duration == 0 || leb position duration) in
    if valid && leb position max_int64 && leb duration max_int64
    then record d { valid = valid; position = position; duration = duration; has_progress = true }
    else record d { valid = valid }
with_progress _ _ d = d

volume_event : String → Values → EventData → EventData
unfolding with_level with_mute
volume_event identity params d =
    let e =
      with_mute (choice params "mute" ("on" ∷ "off" ∷ []))
        (with_level (atoi (one params "level")) d) in
    record e { valid = identity != "" && e.has_volume && e.has_mute }

decode_kind : EventKind → Values → EventData → EventData
unfolding volume_event with_progress with_shuffle given_once
decode_kind EventKind.sources params d = record d { valid = true }
decode_kind EventKind.players params d = record d { valid = true }
decode_kind EventKind.groups params d = record d { valid = true }
decode_kind EventKind.state params d =
    let s = play_state_of (choice params "state" ("play" ∷ "pause" ∷ "stop" ∷ "unknown" ∷ [])) in
    record d { state = s; valid = d.player != "" && s != PlayState.absent }
decode_kind EventKind.now_playing params d = record d { valid = d.player != "" }
decode_kind EventKind.queue params d = record d { valid = d.player != "" }
decode_kind EventKind.progress params d =
    with_progress (parse_uint (one params "cur_pos")) (parse_uint (one params "duration")) d
decode_kind EventKind.playback_error params d = record d {
  valid = d.player != "" && one params "error" != "";
}
decode_kind EventKind.volume params d = volume_event d.player params d
decode_kind EventKind.group_volume params d = volume_event (one params "gid") params d
decode_kind EventKind.repeat params d =
    let r = repeat_of (choice params "repeat" ("off" ∷ "on_one" ∷ "on_all" ∷ [])) in
    record d { repeat = r; valid = d.player != "" && r != Repeat.absent }
decode_kind EventKind.shuffle params d =
    let e = with_shuffle (choice params "shuffle" ("on" ∷ "off" ∷ [])) d in
    record e { valid = d.player != "" && e.has_shuffle }
decode_kind EventKind.user params d =
    let signed_in = given_once params "signed_in" in
    let signed_out = given_once params "signed_out" in
    record d { valid = (signed_in != signed_out) && (not signed_in || one params "un" != "") }
decode_kind EventKind.unknown params d = d

unfoldable pub decode_event_data : String → Values → EventData
unfolding decode_kind
decode_event_data command params =
    decode_kind (event_kind command) params (blank (event_kind command) (one params "pid"))

pub record Event : Type 0 where
  pub command : String
  pub params : Values
  pub token : Token
  pub gap : Bool
  pub progress_sequence : ℕ

-- `Data`: a gap invalidates whatever was decoded.
unfoldable pub data_of : Event → EventData
data_of e =
    let d = decode_event_data e.command e.params in if e.gap then record d { valid = false } else d
