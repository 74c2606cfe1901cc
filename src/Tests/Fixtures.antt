-- ===== src/Tests/Fixtures.antt =====
-- Observations that the tests share: a device that plays a queue of two tracks.
use heos_control.Prelude.{ℕ, true, false, Option, none, some, List, [], ◌∷◌, String}
use heos_control.Heos.Values.{PlayState, Repeat}
use heos_control.Heos.Snapshot.{Token, Player, Media, QueuePage, Snapshot}
use heos_control.Control.Safety.{PlayerConfig}

abbrev pub track : String → String → Media
track queue_id id = record {
  source = "1024";
  id = id;
  queue_id = queue_id;
  song = "song";
  album = "album";
  artist = "artist";
}

abbrev pub token : Token
token = record { generation = 1; revision = 2; catalog = 3; player = 4; write = 5 }

abbrev pub page : List Media → ℕ → QueuePage
page items total = record { items = items; total = some total; next = none; token = token }

-- Two entries of the media 7 and 8, and the same queue before the second was added.
abbrev pub two_tracks : QueuePage
two_tracks = page (track "1" "7" ∷ track "2" "8" ∷ []) 2

abbrev pub first_track : QueuePage
first_track = page (track "1" "7" ∷ []) 1

abbrev pub last_track : QueuePage
last_track = page (track "1" "8" ∷ []) 1

abbrev pub player : Player
player = record {
  id = "11";
  name = "Kitchen";
  model = "HEOS 1";
  serial = "ABC";
  ip = "10.0.0.2";
  group_id = "";
}

abbrev pub observed : PlayState → Option Media → QueuePage → Snapshot
observed state media queue = record {
  repeat = Repeat.off;
  shuffle = false;
  player = player;
  grouped = false;
  state = state;
  volume = some 20;
  muted = some false;
  media = media;
  queue = queue;
  observed_at = 5;
  token = token;
  stale = false;
  connected = true;
  verified = true;
  media_stale = false;
  event_updated = false;
  playhead = none;
}

-- The first track plays; the transport stops between the tracks; the second track plays.
abbrev pub playing : Snapshot
playing = observed PlayState.play (some (track "1" "7")) two_tracks

abbrev pub stopped : Snapshot
stopped = observed PlayState.stop (some (track "1" "7")) two_tracks

abbrev pub next_playing : Snapshot
next_playing = observed PlayState.play (some (track "2" "8")) two_tracks

abbrev pub plan : List String
plan = "7" ∷ "8" ∷ []

abbrev pub config : PlayerConfig
config = record { key = "kitchen"; serial = "ABC"; writes_enabled = true; volume_ceiling = some 60 }
