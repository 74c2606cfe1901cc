-- ===== src/Control/Safety.antt =====
-- internal/control/coordinator.go: the checks that a device and an observation of it must pass.
-- `PlayerConfig` holds the fields of `config.Player` that the checks read.
use heos_control.Prelude.{
  ℕ, ◌≡◌, Bool, true, false, ◌||◌, not, Option, none, some, String, ◌==◌, ◌!=◌, string_eq, nat_eq,
  bool_eq, option_eq, if◌then◌else◌, arith, !=→≡,
}
use heos_control.Heos.Values.{PlayState, play_state_eq, is_writable}
use heos_control.Heos.Snapshot.{Snapshot}
use heos_control.Control.Errors.{Err}

pub record PlayerConfig : Type 0 where
  pub key : String
  pub serial : String
  pub writes_enabled : Bool
  pub volume_ceiling : Option ℕ

-- `deviceObservationSafety`.
unfoldable pub observation_safety : PlayerConfig → Snapshot → Option Err
observation_safety p s =
    if not p.writes_enabled
    then some Err.read_only
    else if not s.verified
        || s.stale
        || not s.connected
        || s.player.id == ""
        || s.player.serial != p.serial
        || s.volume == none
        || s.muted == none
    then some Err.unavailable
    else if s.grouped
    then some Err.grouped
    else if p.volume_ceiling == none
    then some Err.read_only
    else none

unfoldable pub device_safety : PlayerConfig → Snapshot → Option Err
unfolding observation_safety is_writable
device_safety p s = elim (observation_safety p s) [
  | some e ↦ some e
  | none ↦ if not (is_writable s.state) then some Err.unavailable else none
]

unfoldable pub mutation_safety : PlayerConfig → Snapshot → Bool → Option Err
unfolding device_safety
mutation_safety p s skip =
    if not skip || s.state != PlayState.unknown
    then device_safety p s
    else elim (observation_safety p s) [ some e ↦ some e | none ↦ some Err.not_skippable ]

-- What an observation that passes the checks is known to hold.
pub record IsControllable (p : PlayerConfig) (s : Snapshot) : Type 0 where
  pub writes : p.writes_enabled ≡ true
  pub verified : s.verified ≡ true
  pub fresh : s.stale ≡ false
  pub connected : s.connected ≡ true
  pub identity : s.player.serial ≡ p.serial
  pub ungrouped : s.grouped ≡ false
  pub ceiling : (c : ℕ) × (p.volume_ceiling ≡ some c)
  pub volume : (v : ℕ) × (s.volume ≡ some v)
  pub muted : (m : Bool) × (s.muted ≡ some m)

pub observation_safety-IsControllable :
    (p : PlayerConfig) (s : Snapshot) → observation_safety p s ≡ none → IsControllable p s
unfolding observation_safety
observation_safety-IsControllable p s h = record {
  writes = ground arith;
  verified = ground arith;
  fresh = ground arith;
  connected = ground arith;
  identity = !=→≡ s.player.serial p.serial (ground arith);
  ungrouped = ground arith;
  ceiling = ground arith;
  volume = ground arith;
  muted = ground arith;
}

-- A mutation is let through only at a controllable device whose playback state can be written:
-- an unknown state never authorises a write, and for a skip it has its own error.
pub mutation_safety_lem :
    (p : PlayerConfig) (s : Snapshot) (skip : Bool)
    → mutation_safety p s skip ≡ none
    → IsControllable p s × (is_writable s.state ≡ true)
unfolding mutation_safety
mutation_safety_lem p s skip h = (
  observation_safety-IsControllable p s (unfold device_safety in ground arith),
  unfold device_safety in ground arith,
)
