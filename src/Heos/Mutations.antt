-- ===== src/Heos/Mutations.antt =====
-- internal/heos/writes.go and queue_removal.go: the closed set of commands and their arguments. A
-- Go `int` is an integer here, since `command` is the first to bound a level.
use Prim.Native.Char.{code}
use Prim.Native.String.{len, ◌++◌}
use heos_control.Prelude.{
  ℕ, Bool, true, false, ◌&&◌, ◌||◌, not, List, [], ◌∷◌, String, ◌==◌, ◌!=◌, string_eq, nat_beq,
  if◌then◌else◌, length, contains, ltb, leb, ℤ, pos, ◌<?◌,
}
use heos_control.Heos.Values.{
  MutationKind, PlayState, Repeat, is_writable, repeat_known, mutation_kind_eq,
}
use heos_control.Heos.Events.{Values}
use heos_control.Heos.Numbers.{itoa}

-- The fields of `Item` that a queue command reads.
pub record Item : Type 0 where
  pub source : String
  pub container_id : String
  pub media_id : String
  pub container : String
  pub playable : String
  pub item_type : String

pub record Mutation : Type 0 where
  pub kind : MutationKind
  pub player : String
  pub level : ℤ
  pub muted : Bool
  pub state : PlayState
  pub direction : String
  pub repeat : Repeat
  pub shuffle : Bool
  pub item : Item
  pub append : Bool
  pub queue_ids : List String

-- A byte that the transport refuses in a queue id: a comma or a control character. Of the control
-- characters those of ASCII are listed; a Go string that is not UTF-8 is no text here.
refused_byte : ℕ → Bool
refused_byte c = nat_beq c b',' || ltb c 32 || leb 127 c && ltb c 160

has_refused : String → Bool
unfolding refused_byte
has_refused String.[] = false
has_refused (String.◌∷◌ c s) =
    let rest = has_refused s in if refused_byte (code c) then true else rest

-- The loop of `validateQueueRemoval`, with the ids already seen.
unfoldable pub valid_removal : List String → List String → Bool
unfolding has_refused contains
valid_removal seen [] = true
valid_removal seen (id ∷ ids) =
    let rest = valid_removal (id ∷ seen) ids in
    if id == "" || ltb 4096 (len id) || has_refused id || contains id seen then false else rest

-- `validateQueueRemoval`.
unfoldable pub validate_queue_removal : List String → Bool
unfolding valid_removal
validate_queue_removal ids =
    if nat_beq (length ids) 0 || ltb 1000 (length ids) then false else valid_removal [] ids

-- `strings.Join(ids, ",")`.
join_comma : List String → String
join_comma [] = ""
join_comma (s ∷ []) = s
join_comma (s ∷ t ∷ ss) = s ++ "," ++ join_comma (t ∷ ss)

-- `url.Values.Set`.
set_value : Values → String → String → Values
set_value [] key v = (key, v ∷ []) ∷ []
set_value ((k, vs) ∷ rest) key v =
    if k == key then (key, v ∷ []) ∷ rest else (k, vs) ∷ set_value rest key v

abbrev pub on_off : Bool → String
on_off b = if b then "on" else "off"

unfoldable pub play_state_text : PlayState → String
play_state_text PlayState.absent = ""
play_state_text PlayState.play = "play"
play_state_text PlayState.pause = "pause"
play_state_text PlayState.stop = "stop"
play_state_text PlayState.unknown = "unknown"

unfoldable pub repeat_text : Repeat → String
repeat_text Repeat.absent = ""
repeat_text Repeat.off = "off"
repeat_text Repeat.on_all = "on_all"
repeat_text Repeat.on_one = "on_one"

-- The two errors that `command` returns, or the name and the arguments.
pub data Prepared : Type 0 where
  refused_bounds refused_read_only : Prepared
  ready : String → Values → Prepared

-- An item is queued as a container, or as a playable track with an id.
unfoldable pub queueable : Item → Bool
queueable i =
    i.source != ""
    && i.container_id != ""
    && (i.container == "yes"
        || i.playable == "yes"
          && i.media_id != ""
          && (i.item_type == "song" || i.item_type == "track"))

queue_arguments : Mutation → Values → Values
unfolding set_value
queue_arguments m a =
    let i = m.item in
    let base = set_value (set_value (set_value a "sid" i.source) "cid" i.container_id) "aid" "4" in
    let placed = if m.append then set_value base "aid" "3" else base in
    if i.container != "yes" then set_value placed "mid" i.media_id else placed

-- The switch on the kind, for a player that is given.
prepare : MutationKind → Mutation → Values → Prepared
unfolding set_value queueable queue_arguments join_comma validate_queue_removal is_writable
    repeat_known play_state_text repeat_text itoa
prepare MutationKind.volume m a =
    if m.level <? pos 0 || pos 100 <? m.level
    then refused_bounds
    else ready "player/set_volume" (set_value a "level" (itoa m.level))
prepare MutationKind.mute m a = ready "player/set_mute" (set_value a "state" (on_off m.muted))
prepare MutationKind.transport m a =
    if not (is_writable m.state)
    then refused_bounds
    else ready "player/set_play_state" (set_value a "state" (play_state_text m.state))
prepare MutationKind.skip m a =
    if m.direction == "next"
    then ready "player/play_next" a
    else if m.direction == "previous"
    then ready "player/play_previous" a
    else refused_bounds
prepare MutationKind.mode m a =
    if not (repeat_known m.repeat)
    then refused_bounds
    else ready "player/set_play_mode"
        (set_value (set_value a "repeat" (repeat_text m.repeat)) "shuffle" (on_off m.shuffle))
prepare MutationKind.queue m a =
    if queueable m.item then ready "browse/add_to_queue" (queue_arguments m a) else refused_bounds
prepare MutationKind.remove m a =
    if validate_queue_removal m.queue_ids
    then ready "player/remove_from_queue" (set_value a "qid" (join_comma m.queue_ids))
    else refused_bounds
prepare MutationKind.absent m a = refused_read_only

-- `Mutation.command`.
unfoldable pub command : Mutation → Prepared
unfolding prepare
command m =
    if m.player == "" then refused_bounds else prepare m.kind m (("pid", m.player ∷ []) ∷ [])
