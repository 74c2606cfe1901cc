-- ===== src/Journal/Types.antt =====
-- internal/journal/operation.go and the tables of internal/journal/migrations: operations,
-- idempotency records, device reservations and the control row. JSON documents are opaque texts.
use heos_control.Prelude.{
  ℕ, ◌≡◌, ◌↔◌, refl, Bool, true, false, Option, List, String, arith, nat_beq, Eq, Time,
}

pub data State : Type 0 where
  accepted running succeeded failed cancelled released interrupted uncertain : State

abbrev pub state_code : State → ℕ
state_code State.accepted = 0
state_code State.running = 1
state_code State.succeeded = 2
state_code State.failed = 3
state_code State.cancelled = 4
state_code State.released = 5
state_code State.interrupted = 6
state_code State.uncertain = 7

abbrev pub state_beq : State → State → Bool
state_beq a b = nat_beq (state_code a) (state_code b)

pub state_beq_iff : (a b : State) → (state_beq a b ≡ true) ↔ (a ≡ b)
state_beq_iff a b = (λ h. ground arith, λ h. ground arith)

instance abbrev pub state_eq : Eq State
state_eq = record { beq = state_beq; beq_law = state_beq_iff }

abbrev pub is_terminal : State → Bool
is_terminal State.accepted = false
is_terminal State.running = false
is_terminal _ = true

-- The sentinel errors; `database` stands for any other error of a query.
pub data JournalErr : Type 0 where
  invalid not_found conflict busy capacity expired future revision stale_epoch : JournalErr
  not_initialized commit_uncertain database : JournalErr

pub data Result {ℓ} (A : Type ℓ) : Type ℓ where
  ok : A → Result A
  err : JournalErr → Result A

infixl 5 ◌>>=◌ ◌>>◌
abbrev pub ◌>>=◌ {ℓ κ} : {A : Type ℓ} {B : Type κ} → Result A → (A → Result B) → Result B
ok x >>= next = next x
err why >>= next = err why

abbrev pub ◌>>◌ {ℓ} : {A : Type ℓ} → Result (Unit {0}) → Result A → Result A
check >> rest = check >>= λ _. rest

-- An early return unless the test holds.
abbrev pub require : Bool → JournalErr → Result (Unit {0})
require true e = ok tt
require false e = err e

pub record Request : Type 0 where
  pub principal : String
  pub method : String
  pub endpoint : String
  pub key : String
  pub player : String
  pub if_match : String
  pub body : String

pub record Proposal : Type 0 where
  pub owner_id : String
  pub replace_uncertain : Bool
  pub replace_id : String
  pub replace_revision : ℕ
  pub kind : String
  pub device_key : String
  pub config_revision : String
  pub effective_arguments : String
  pub not_before : Time
  pub not_after : Time

pub record Operation : Type 0 where
  pub id : String
  pub kind : String
  pub player : String
  pub device_key : String
  pub principal : String
  pub epoch : String
  pub state : State
  pub revision : ℕ
  pub phase : String
  pub config_revision : String
  pub effective_arguments : String
  pub selected_album : Option String
  pub progress : String
  pub outcome : String
  pub error_code : String
  pub scheduled_for : Time
  pub not_after : Time
  pub created_at : Time
  pub updated_at : Time
  pub started_at : Option Time
  pub finished_at : Option Time

pub record Update : Type 0 where
  pub state : State
  pub phase : String
  pub progress : String
  pub outcome : String
  pub error_code : String

-- heos.idempotency_records, heos.device_reservations, heos.journal_control.
pub record RequestRecord : Type 0 where
  pub principal : String
  pub method : String
  pub endpoint : String
  pub key : String
  pub request_hash : String
  pub operation_id : String
  pub expires_at : Time

pub record Reservation : Type 0 where
  pub device_key : String
  pub operation_id : String
  pub epoch : String

pub record Db : Type 0 where
  pub control_epoch : String
  pub ready : Bool
  pub operations : List Operation
  pub requests : List RequestRecord
  pub reservations : List Reservation

pub record Admission : Type 0 where
  pub operation : Operation
  pub created : Bool
  pub recovered_commit : Bool

-- A chain that succeeds succeeds at every step.
pub >>=-ok :
    {A B : Type 0} (m : Result A) (f : A → Result B) (b : B)
    → (m >>= f) ≡ ok b
    → (a : A) × (m ≡ ok a) × (f a ≡ ok b)
>>=-ok (ok a) f b h = (a, refl, h)
>>=-ok (err e) f b h = cc

pub >>-ok : {B : Type 0} (m : Result (Unit {0})) (k : Result B) (b : B) → (m >> k) ≡ ok b → k ≡ ok b
>>-ok (ok tt) k b h = h
>>-ok (err e) k b h = cc
