-- ===== src/Control/Command.antt =====
-- internal/control/coordinator.go (Command), automation.go, buffered_plan.go, playback_plan.go and
-- expected_owner.go: a command's settings and their validation. A Go `int` is an integer here.
use Prim.Native.String.{len}
use heos_control.Prelude.{
  ℕ, Bool, true, false, ◌&&◌, ◌||◌, not, Option, none, some, List, [], ◌∷◌, String, ◌==◌, ◌!=◌,
  nat_eq, string_eq, bool_eq, Eq, nat_beq, ◌≡◌, ◌↔◌, arith, if◌then◌else◌, length, is_empty, all,
  ltb, ℤ, pos, ◌+ℤ◌, ◌-ℤ◌, ◌<?◌,
}
use heos_control.Heos.Values.{PlayState, Repeat, repeat_eq, repeat_known}
use heos_control.Control.Errors.{Err}

pub data CommandKind : Type 0 where
  absent volume mute transport skip playback stop cancel : CommandKind

abbrev pub command_kind_code : CommandKind → ℕ
command_kind_code CommandKind.absent = 0
command_kind_code CommandKind.volume = 1
command_kind_code CommandKind.mute = 2
command_kind_code CommandKind.transport = 3
command_kind_code CommandKind.skip = 4
command_kind_code CommandKind.playback = 5
command_kind_code CommandKind.stop = 6
command_kind_code CommandKind.cancel = 7

abbrev pub command_kind_beq : CommandKind → CommandKind → Bool
command_kind_beq a b = nat_beq (command_kind_code a) (command_kind_code b)

pub command_kind_beq_iff : (a b : CommandKind) → (command_kind_beq a b ≡ true) ↔ (a ≡ b)
command_kind_beq_iff a b = (λ h. ground arith, λ h. ground arith)

instance abbrev pub command_kind_eq : Eq CommandKind
command_kind_eq = record { beq = command_kind_beq; beq_law = command_kind_beq_iff }

pub record Automation : Type 0 where
  pub target_level : ℤ
  pub ramp_seconds : ℤ
  pub duration_seconds : ℤ
  pub fade_seconds : ℤ

pub record BufferedPlayback : Type 0 where
  pub part_tracks : List ℤ
  pub refill_threshold : ℤ
  pub max_queue_tracks : ℤ
  pub retain_previous : ℤ
  pub max_session_seconds : ℤ

pub record Command : Type 0 where
  pub kind : CommandKind
  pub level : ℤ
  pub muted : Bool
  pub state : PlayState
  pub direction : String
  pub takeover : Bool
  pub expected_owner : String
  pub item_ref : String
  pub item_refs : Option (List String)
  pub shuffle : Bool
  pub repeat : Repeat
  pub mode : String
  pub fade_seconds : ℤ
  pub target : String
  pub automation : Option Automation
  pub buffered : Option BufferedPlayback

abbrev pub max_browse_items : ℕ
max_browse_items = 10000

abbrev above : ℤ → Option ℤ → Bool
above level none = true
above level (some c) = c <? level

-- `Automation.validate`; the ceiling may be absent.
unfoldable pub validate_automation : Automation → Command → Option ℤ → Option Err
validate_automation a cmd ceiling =
    if cmd.kind != CommandKind.playback
      || cmd.repeat != Repeat.off
      || a.target_level <? cmd.level
      || above a.target_level ceiling
      || pos 100 <? a.target_level
      || a.duration_seconds <? pos 1
      || pos 7200 <? a.duration_seconds
      || a.fade_seconds <? pos 0
      || pos 60 <? a.fade_seconds
      || not (a.fade_seconds <? a.duration_seconds)
      || a.ramp_seconds <? pos 0
      || a.duration_seconds -ℤ a.fade_seconds <? a.ramp_seconds
    then some Err.bounds
    else none

-- The largest part that the settings leave room for.
abbrev pub part_limit : BufferedPlayback → ℤ
part_limit b = b.max_queue_tracks -ℤ b.refill_threshold -ℤ b.retain_previous -ℤ pos 1

-- The loop over the declared part sizes, with the total so far.
unfoldable pub parts_fit : BufferedPlayback → ℤ → List ℤ → Bool
parts_fit b total [] = true
parts_fit b total (n ∷ parts) =
    let rest = parts_fit b (total +ℤ n) parts in
    if n <? pos 1 || part_limit b <? n
    then false
    else if pos max_browse_items <? total +ℤ n
    then false
    else rest

abbrev same_length : List ℤ → Option (List String) → Bool
same_length parts none = nat_beq (length parts) 0
same_length parts (some refs) = nat_beq (length parts) (length refs)

abbrev longer_than : ℤ → Option Automation → Bool
longer_than limit none = false
longer_than limit (some a) = limit <? a.duration_seconds

abbrev absent_refs : Option (List String) → Bool
absent_refs none = true
absent_refs (some refs) = false

-- `BufferedPlayback.validate`.
unfoldable pub validate_buffered : BufferedPlayback → Command → Option Err
unfolding parts_fit
validate_buffered b cmd =
    if cmd.kind != CommandKind.playback
      || absent_refs cmd.item_refs
      || cmd.repeat != Repeat.off
      || cmd.shuffle
      || not (same_length b.part_tracks cmd.item_refs)
      || b.refill_threshold <? pos 1
      || pos 100 <? b.refill_threshold
      || b.max_queue_tracks <? pos 2
      || pos 1000 <? b.max_queue_tracks
      || b.retain_previous <? pos 0
      || pos 100 <? b.retain_previous
      || b.max_session_seconds <? pos 1
      || pos 86400 <? b.max_session_seconds
    then some Err.bounds
    else if longer_than b.max_session_seconds cmd.automation
    then some Err.bounds
    else if not (parts_fit b (pos 0) b.part_tracks)
    then some Err.bounds
    else none

abbrev pub max_playback_parts : ℕ
max_playback_parts = 32

abbrev pub max_buffered_parts : ℕ
max_buffered_parts = 256

-- A reference of 1 to 256 bytes.
abbrev pub ref_fits : String → Bool
ref_fits ref = not (nat_beq (len ref) 0) && not (ltb 256 (len ref))

abbrev refs_fit : ℕ → Bool → List String → Bool
refs_fit limit shuffled refs =
    not (is_empty refs) && not (ltb limit (length refs)) && not shuffled && all ref_fits refs

abbrev selected : Command → Option BufferedPlayback → Option (List String) → Option Err
selected cmd none none = none
selected cmd (some b) none = some Err.bounds
selected cmd none (some refs) =
    if refs_fit max_playback_parts cmd.shuffle refs then none else some Err.bounds
selected cmd (some b) (some refs) = elim (validate_buffered b cmd) [
  | some e ↦ some e
  | none ↦ if refs_fit max_buffered_parts cmd.shuffle refs then none else some Err.bounds
]

-- `validatePlaybackSelection`.
unfoldable pub validate_selection : Command → Option Err
unfolding validate_buffered repeat_known all
validate_selection cmd =
    if not (repeat_known cmd.repeat)
      || (cmd.item_ref != "") == not (absent_refs cmd.item_refs)
      || ltb 256 (len cmd.item_ref)
    then some Err.bounds
    else selected cmd cmd.buffered cmd.item_refs

-- `validateExpectedOwner`.
unfoldable pub validate_expected_owner : Command → Option Err
validate_expected_owner cmd =
    if cmd.expected_owner == ""
    then none
    else if not cmd.takeover || ltb 128 (len cmd.expected_owner)
    then some Err.bounds
    else elim cmd.kind [
      | CommandKind.playback ↦ none
      | CommandKind.volume ↦ none
      | CommandKind.mute ↦ none
      | CommandKind.transport ↦ none
      | _ ↦ some Err.bounds
    ]
