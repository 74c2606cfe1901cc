-- ===== src/Journal/Store.antt =====
-- internal/journal/operations.go and operation.go: admission, transition, recovery and retention.
-- Each function is one transaction under the lock of the control row, so it is a function of the
-- tables; an error leaves them as they were. `Codec` is what the functions use of JSON and SHA-256.
use Prim.Native.Char.{code}
use Prim.Native.String.{len}
use heos_control.Prelude.{
  ◌≡◌, ℕ, ◌+◌, ◌*◌, Bool, true, false, ◌&&◌, ◌||◌, not, Option, none, some, List, String, ◌==◌,
  ◌!=◌, nat_eq, nat_beq, string_eq, if◌then◌else◌, Time, second, leb,
}
use heos_control.Journal.Types.{
  JournalErr, Result, ok, err, ◌>>=◌, ◌>>◌, require, Request, Operation, Db, state_eq,
}
use heos_control.Journal.Queries.{
  lookup_request, get_operation, release_reservations, extend_retention,
}

abbrev pub retention : Time
retention = 7 * 24 * 3600 * second

abbrev pub max_batch : ℕ
max_batch = 100

-- `canonicalObject`, the digest of a fingerprint, the outcome of an uncertain handoff, and
-- `WithDiagnostics` at a reason, a phase and a time, and the object that InterruptBatch builds
-- from the phase that it interrupts.
pub record Codec : Type 0 where
  pub canonical_object : String → Option String
  pub digest : String → String → String → String
  pub mark_unknown : String → Option String
  pub with_diagnostics : String → String → String → Time → Option String
  pub restart_outcome : String → String

-- The fields of `Store`.
pub record Store : Type 0 where
  pub epoch : String
  pub initialized : Bool
  pub previous_epoch : Option String
  pub max_operations : ℕ

has_byte : ℕ → String → Bool
has_byte b String.[] = false
has_byte b (String.◌∷◌ c s) = let rest = has_byte b s in if nat_beq (code c) b then true else rest

abbrev starts_with_slash : String → Bool
starts_with_slash String.[] = false
starts_with_slash (String.◌∷◌ c s) = nat_beq (code c) b'/'

-- `textWithin`.
unfoldable pub text_within : String → ℕ → Bool
unfolding has_byte
text_within s max = s != "" && leb (len s) max && not (has_byte 0 s)

abbrev pub found {ℓ} : {A : Type ℓ} → JournalErr → Option A → Result A
found e none = err e
found e (some a) = ok a

-- `Request.fingerprint`.
unfoldable pub fingerprint : Codec → Request → Result String
unfolding text_within has_byte
fingerprint c r = do
  require
      (text_within r.principal 256
        && text_within r.key 256
        && text_within r.player 256
        && text_within r.endpoint 1024
        && starts_with_slash r.endpoint
        && not (has_byte b'?' r.endpoint || has_byte b'#' r.endpoint)
        && leb (len r.if_match) 256
        && (r.method == "POST" || r.method == "PUT" || r.method == "DELETE" || r.method == "PATCH"))
      JournalErr.invalid
  body ← found JournalErr.invalid (c.canonical_object r.body)
  ok (c.digest r.player r.if_match body)

-- `Store.active`: the epoch of the control row is this store's.
unfoldable pub active : Store → Db → Result (Unit {0})
active s db =
    if not s.initialized || not db.ready
    then err JournalErr.not_initialized
    else if db.control_epoch != s.epoch
    then err JournalErr.stale_epoch
    else ok tt

-- `lookup`.
unfoldable pub lookup : Request → String → Db → Result Operation
lookup r hash db = elim (lookup_request r db) [
  | none ↦ err JournalErr.not_found
  | some i ↦
      if i.request_hash != hash
      then err JournalErr.conflict
      else found JournalErr.database (get_operation i.operation_id db)
]

-- `finish`.
unfoldable pub finish : List String → Time → Db → Db
finish ids now db = extend_retention ids (now + retention) (release_reservations ids db)

pub found-ok : {A : Type 0} (e : JournalErr) (o : Option A) (a : A) → found e o ≡ ok a → o ≡ some a
found-ok e none a h = cc
found-ok e (some x) a h = cc
