-- ===== src/Heos/Snapshot.antt =====
-- internal/heos/protocol.go (Token) and internal/heos/observations.go: what one observation
-- of a player holds. A `*int` that the decoder has bounded is `Option ℕ`; an instant is the
-- number of nanoseconds since Go's zero time, so that 0 is `time.Time{}`.
use heos_control.Prelude.{
  ℕ, ◌≡◌, ◌↔◌, Bool, true, ◌&&◌, Option, List, String, arith, nat_beq, Eq, ◌==◌, ==→≡, ==_refl,
  string_eq,
}
use heos_control.Heos.Values.{PlayState, Repeat}

-- uint64 counters.
pub record Token : Type 0 where
  pub generation : ℕ
  pub revision : ℕ
  pub catalog : ℕ
  pub player : ℕ
  pub write : ℕ

abbrev pub token_beq : Token → Token → Bool
token_beq a b =
    nat_beq a.generation b.generation
    && nat_beq a.revision b.revision
    && nat_beq a.catalog b.catalog
    && nat_beq a.player b.player
    && nat_beq a.write b.write

pub token_beq_iff : (a b : Token) → (token_beq a b ≡ true) ↔ (a ≡ b)
token_beq_iff a b = (λ h. ground arith, λ h. ground arith)

instance abbrev pub token_eq : Eq Token
token_eq = record { beq = token_beq; beq_law = token_beq_iff }

-- Player and write counters do not take part.
unfoldable pub same_global : Token → Token → Bool
same_global a b = record a { player = 0; write = 0 } == record b { player = 0; write = 0 }

pub record Player : Type 0 where
  pub id : String
  pub name : String
  pub model : String
  pub serial : String
  pub ip : String
  pub group_id : String

pub record Media : Type 0 where
  pub source : String
  pub id : String
  pub queue_id : String
  pub song : String
  pub album : String
  pub artist : String

pub record QueuePage : Type 0 where
  pub items : List Media
  pub total : Option ℕ
  pub next : Option ℕ
  pub token : Token

pub record Playhead : Type 0 where
  pub position_ms : ℕ
  pub duration_ms : ℕ
  pub at : ℕ
  pub source : String
  pub media : String
  pub queue : String

pub record Snapshot : Type 0 where
  pub repeat : Repeat
  pub shuffle : Bool
  pub player : Player
  pub grouped : Bool
  pub state : PlayState
  pub volume : Option ℕ
  pub muted : Option Bool
  pub media : Option Media
  pub queue : QueuePage
  pub observed_at : ℕ
  pub token : Token
  pub stale : Bool
  pub connected : Bool
  pub verified : Bool
  pub media_stale : Bool
  pub event_updated : Bool
  pub playhead : Option Playhead

abbrev pub player_beq : Player → Player → Bool
player_beq a b =
    a.id == b.id
    && a.name == b.name
    && a.model == b.model
    && a.serial == b.serial
    && a.ip == b.ip
    && a.group_id == b.group_id

pub player_beq_iff : (a b : Player) → (player_beq a b ≡ true) ↔ (a ≡ b)
player_beq_iff a b = (
  λ h. ground (
    arith,
    ==→≡ a.id b.id,
    ==→≡ a.name b.name,
    ==→≡ a.model b.model,
    ==→≡ a.serial b.serial,
    ==→≡ a.ip b.ip,
    ==→≡ a.group_id b.group_id,
  ),
  λ h. ground (
    arith,
    ==_refl a.id,
    ==_refl a.name,
    ==_refl a.model,
    ==_refl a.serial,
    ==_refl a.ip,
    ==_refl a.group_id,
  ),
)

instance abbrev pub player_eq : Eq Player
player_eq = record { beq = player_beq; beq_law = player_beq_iff }

abbrev pub media_beq : Media → Media → Bool
media_beq a b =
    a.source == b.source
    && a.id == b.id
    && a.queue_id == b.queue_id
    && a.song == b.song
    && a.album == b.album
    && a.artist == b.artist

pub media_beq_iff : (a b : Media) → (media_beq a b ≡ true) ↔ (a ≡ b)
media_beq_iff a b = (
  λ h. ground (
    arith,
    ==→≡ a.source b.source,
    ==→≡ a.id b.id,
    ==→≡ a.queue_id b.queue_id,
    ==→≡ a.song b.song,
    ==→≡ a.album b.album,
    ==→≡ a.artist b.artist,
  ),
  λ h. ground (
    arith,
    ==_refl a.source,
    ==_refl a.id,
    ==_refl a.queue_id,
    ==_refl a.song,
    ==_refl a.album,
    ==_refl a.artist,
  ),
)

instance abbrev pub media_eq : Eq Media
media_eq = record { beq = media_beq; beq_law = media_beq_iff }
