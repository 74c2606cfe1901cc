-- ===== src/Journal/Held.antt =====
-- A reservation is held by an unfinished operation of its device and epoch.
use heos_control.Prelude.{
  if◌then◌else◌, option_cases, find, ℕ, ≡→==, ◌≡◌, Bool, true, false, some, List, [], ◌∷◌, String,
  arith, refl, sym, string_eq, nat_eq, map, All, Any, Any-map, All-imp, All-keep, contains, not,
  Time, Bool-cases, inl, inr, ==→≡,
}
use heos_control.Journal.Types.{is_terminal, Operation, Update, Reservation, Db}
use heos_control.Journal.Queries.{
  transition_operation, unfinished, updated, transitions, set_where, release_reservations,
  extend_retention,
}
use heos_control.Journal.Store.{finish}

pub record Holds (r : Reservation) (o : Operation) : Type 0 where
  pub id : o.id ≡ r.operation_id
  pub device : o.device_key ≡ r.device_key
  pub epoch : o.epoch ≡ r.epoch
  pub is_open : unfinished o ≡ true

-- Every reserved device is held by an operation that is not finished.
abbrev pub AllHeld : Db → Type 0
AllHeld db = All (λ r. Any (Holds r) db.operations) db.reservations

pub AllHeld-map :
    (db : Db) (f : Operation → Operation)
    → ((r : Reservation) (o : Operation) → Holds r o → Holds r (f o))
    → AllHeld db
    → AllHeld (record db { operations = map f db.operations })
AllHeld-map db f k h =
    All-imp (λ r. Any (Holds r) db.operations) (λ r. Any (Holds r) (map f db.operations))
      (λ r m. Any-map (Holds r) (Holds r) f (k r) db.operations m) db.reservations h

-- Operations may change in any way if their devices are released in the same transaction.
pub AllHeld-finish :
    (db : Db) (ids : List String) (now : Time) (f : Operation → Operation)
    → ((o : Operation) → contains o.id ids ≡ false → f o ≡ o)
    → AllHeld db
    → AllHeld (finish ids now (record db { operations = map f db.operations }))
unfolding finish release_reservations extend_retention
AllHeld-finish db ids now f k h =
    All-keep (λ r. Any (Holds r) db.operations) (λ r. Any (Holds r) (map f db.operations))
      (λ (r : Reservation). not (contains r.operation_id ids))
      (λ r kept m.
        Any-map (Holds r) (Holds r) f
          (λ o t.
            let out : contains r.operation_id ids ≡ false = ground arith in
            let same : f o ≡ o = k o (rw t.id out) in rw same t)
          db.operations m)
      db.reservations h

-- What `transition_operation` does to the tables.
abbrev pub moved_db : String → ℕ → String → Update → Time → Db → Db
moved_db id revision epoch u at db = record db {
  operations = map (set_where (transitions id revision epoch) (updated u at)) db.operations;
}

pub transition_operation-moved_db :
    (id : String) (revision : ℕ) (epoch : String) (u : Update) (at : Time) (db : Db) (o : Operation)
    (d : Db)
    → transition_operation id revision epoch u at db ≡ some (o, d)
    → d ≡ moved_db id revision epoch u at db
unfolding transition_operation
transition_operation-moved_db id revision epoch u at db o d h =
    elim (option_cases (find (transitions id revision epoch) db.operations)) [
      | inl e ↦ cc (e, h)
      | inr (x, e) ↦ ground (arith, e, h)
    ]

-- An operation with another id is not moved.
pub other_operation :
    (id : String) (revision : ℕ) (epoch : String) (f : Operation → Operation) (o : Operation)
    → contains o.id (id ∷ []) ≡ false
    → set_where (transitions id revision epoch) f o ≡ o
unfolding contains
other_operation id revision epoch f o out = elim (Bool-cases (transitions id revision epoch o)) [
  | inl e ↦
      let same : o.id ≡ id = ==→≡ o.id id (ground arith) in
      absurd (ground (arith, ≡→== id o.id (sym same)))
  | inr e ↦ rw e refl
]

pub updated_stays_open :
    (u : Update) (at : Time) (p : Operation → Bool) (r : Reservation) (o : Operation)
    → is_terminal u.state ≡ false
    → Holds r o
    → Holds r (set_where p (updated u at) o)
unfolding updated
updated_stays_open u at p r o live h = elim (Bool-cases (p o)) [
  | inl e ↦ rw e (record { id = h.id; device = h.device; epoch = h.epoch; is_open = ground arith })
  | inr e ↦ rw e h
]

-- A move and, when it is the last one, the release of the device.
pub moved-AllHeld :
    (id : String) (revision : ℕ) (epoch : String) (u : Update) (at : Time) (db : Db)
    → AllHeld db
    → AllHeld (
        if is_terminal u.state
        then finish (id ∷ []) at (moved_db id revision epoch u at db)
        else moved_db id revision epoch u at db)
moved-AllHeld id revision epoch u at db h = elim (Bool-cases (is_terminal u.state)) [
  | inl e ↦ rw e (
      AllHeld-finish db (id ∷ []) at (set_where (transitions id revision epoch) (updated u at))
        (other_operation id revision epoch (updated u at)) h)
  | inr e ↦ rw e (
      AllHeld-map db (set_where (transitions id revision epoch) (updated u at))
        (λ r o t. updated_stays_open u at (transitions id revision epoch) r o e t) h)
]
