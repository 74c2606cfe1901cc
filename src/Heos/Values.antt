-- ===== src/Heos/Values.antt =====
-- internal/heos/values.go: the closed vocabularies of the wire. `absent` is Go's empty
-- string; a decoder admits no other spelling than those of the constants.
use heos_control.Prelude.{ℕ, ◌≡◌, ◌↔◌, Bool, true, false, arith, nat_beq, Eq}

pub data PlayState : Type 0 where
  absent play pause stop unknown : PlayState

unfoldable pub is_active : PlayState → Bool
is_active PlayState.play = true
is_active PlayState.pause = true
is_active _ = false

unfoldable pub is_known : PlayState → Bool
is_known PlayState.absent = false
is_known _ = true

unfoldable pub is_writable : PlayState → Bool
is_writable PlayState.play = true
is_writable PlayState.pause = true
is_writable PlayState.stop = true
is_writable _ = false

abbrev pub play_state_code : PlayState → ℕ
play_state_code PlayState.absent = 0
play_state_code PlayState.play = 1
play_state_code PlayState.pause = 2
play_state_code PlayState.stop = 3
play_state_code PlayState.unknown = 4

abbrev pub play_state_beq : PlayState → PlayState → Bool
play_state_beq a b = nat_beq (play_state_code a) (play_state_code b)

pub play_state_beq_iff : (a b : PlayState) → (play_state_beq a b ≡ true) ↔ (a ≡ b)
play_state_beq_iff a b = (λ h. ground arith, λ h. ground arith)

instance abbrev pub play_state_eq : Eq PlayState
play_state_eq = record { beq = play_state_beq; beq_law = play_state_beq_iff }

pub data Repeat : Type 0 where
  absent off on_all on_one : Repeat

unfoldable pub repeat_known : Repeat → Bool
repeat_known Repeat.absent = false
repeat_known _ = true

abbrev pub repeat_code : Repeat → ℕ
repeat_code Repeat.absent = 0
repeat_code Repeat.off = 1
repeat_code Repeat.on_all = 2
repeat_code Repeat.on_one = 3

abbrev pub repeat_beq : Repeat → Repeat → Bool
repeat_beq a b = nat_beq (repeat_code a) (repeat_code b)

pub repeat_beq_iff : (a b : Repeat) → (repeat_beq a b ≡ true) ↔ (a ≡ b)
repeat_beq_iff a b = (λ h. ground arith, λ h. ground arith)

instance abbrev pub repeat_eq : Eq Repeat
repeat_eq = record { beq = repeat_beq; beq_law = repeat_beq_iff }

pub data MutationKind : Type 0 where
  absent volume mute transport skip mode queue remove : MutationKind

abbrev pub mutation_kind_code : MutationKind → ℕ
mutation_kind_code MutationKind.absent = 0
mutation_kind_code MutationKind.volume = 1
mutation_kind_code MutationKind.mute = 2
mutation_kind_code MutationKind.transport = 3
mutation_kind_code MutationKind.skip = 4
mutation_kind_code MutationKind.mode = 5
mutation_kind_code MutationKind.queue = 6
mutation_kind_code MutationKind.remove = 7

abbrev pub mutation_kind_beq : MutationKind → MutationKind → Bool
mutation_kind_beq a b = nat_beq (mutation_kind_code a) (mutation_kind_code b)

pub mutation_kind_beq_iff : (a b : MutationKind) → (mutation_kind_beq a b ≡ true) ↔ (a ≡ b)
mutation_kind_beq_iff a b = (λ h. ground arith, λ h. ground arith)

instance abbrev pub mutation_kind_eq : Eq MutationKind
mutation_kind_eq = record { beq = mutation_kind_beq; beq_law = mutation_kind_beq_iff }
