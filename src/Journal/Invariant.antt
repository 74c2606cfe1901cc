-- ===== src/Journal/Invariant.antt =====
-- The invariant of the tables, over every sequence of committed transactions.
use Prim.Native.String.{len}
use heos_control.Prelude.{
  leb, ◌||◌, ℕ, ◌≡◌, Bool, false, List, [], ◌∷◌, String, ◌==◌, refl, subst, string_eq, nat_eq, map,
  contains, Time, Bool-cases, inl, inr, Distinct, Distinct-keep, not, if◌then◌else◌, ◌&&◌,
}
use heos_control.Journal.Types.{
  State, is_terminal, JournalErr, ok, require, >>=-ok, >>-ok, Operation, Update, Reservation, Db,
  state_eq,
}
use heos_control.Journal.Queries.{
  updated, transitions, set_where, release_reservations, extend_retention, transition_operation,
}
use heos_control.Journal.Store.{Codec, Store, finish, found, found-ok, active}
use heos_control.Journal.Recovery.{transition, interrupted}
use heos_control.Journal.Held.{
  AllHeld, AllHeld-finish, moved_db, moved-AllHeld, other_operation, transition_operation-moved_db,
}

-- Each device is reserved at most once, each reservation is held by an unfinished operation of
-- that device and epoch, and no operation id occurs twice.
pub record WellFormed (db : Db) : Type 0 where
  pub held : AllHeld db
  pub devices : Distinct (map (λ r. r.device_key) db.reservations)
  pub ids : Distinct (map (λ o. o.id) db.operations)

pub ids-map :
    (f : Operation → Operation) (ops : List Operation)
    → ((o : Operation) → (f o).id ≡ o.id)
    → map (λ (o : Operation). o.id) (map f ops) ≡ map (λ (o : Operation). o.id) ops
ids-map f [] h = refl
ids-map f (o ∷ ops) h = rw (h o, ids-map f ops h) refl

pub updated-id :
    (p : Operation → Bool) (u : Update) (at : Time) (o : Operation)
    → (set_where p (updated u at) o).id ≡ o.id
unfolding updated
updated-id p u at o = elim (Bool-cases (p o)) [ inl e ↦ rw e refl | inr e ↦ rw e refl ]

pub interrupted-id :
    (c : Codec) (now : Time) (p : Operation → Bool) (o : Operation)
    → (set_where p (interrupted c now) o).id ≡ o.id
unfolding interrupted
interrupted-id c now p o = elim (Bool-cases (p o)) [ inl e ↦ rw e refl | inr e ↦ rw e refl ]

finish-devices :
    (ids : List String) (now : Time) (db : Db)
    → Distinct (map (λ (r : Reservation). r.device_key) db.reservations)
    → Distinct (map (λ (r : Reservation). r.device_key) (finish ids now db).reservations)
unfolding finish release_reservations extend_retention
finish-devices ids now db h =
    Distinct-keep (λ (r : Reservation). r.device_key)
      (λ (r : Reservation). not (contains r.operation_id ids)) db.reservations h

finish-operations :
    (ids : List String) (now : Time) (db : Db) → (finish ids now db).operations ≡ db.operations
unfolding finish release_reservations extend_retention
finish-operations ids now db = refl

-- Operations that keep their ids are changed, and the devices of those that may change released.
pub settled-WellFormed :
    (db : Db) (ids : List String) (now : Time) (f : Operation → Operation)
    → ((o : Operation) → (f o).id ≡ o.id)
    → ((o : Operation) → contains o.id ids ≡ false → f o ≡ o)
    → WellFormed db
    → WellFormed (finish ids now (record db { operations = map f db.operations }))
settled-WellFormed db ids now f same other w =
    let moved : Db = record db { operations = map f db.operations } in
    record {
      held = AllHeld-finish db ids now f other w.held;
      devices = finish-devices ids now moved w.devices;
      ids = rw (finish-operations ids now moved, ids-map f db.operations same) w.ids;
    }

moved-WellFormed :
    (id : String) (revision : ℕ) (epoch : String) (u : Update) (now : Time) (db : Db)
    → WellFormed db
    → WellFormed (
        if is_terminal u.state
        then finish (id ∷ []) now (moved_db id revision epoch u now db)
        else moved_db id revision epoch u now db)
moved-WellFormed id revision epoch u now db w = elim (Bool-cases (is_terminal u.state)) [
  | inl e ↦ rw e (
      settled-WellFormed db (id ∷ []) now
        (set_where (transitions id revision epoch) (updated u now))
        (updated-id (transitions id revision epoch) u now)
        (other_operation id revision epoch (updated u now)) w)
  | inr e ↦
      let held : AllHeld (moved_db id revision epoch u now db) =
        subst
          (λ b. AllHeld (
            if b
            then finish (id ∷ []) now (moved_db id revision epoch u now db)
            else moved_db id revision epoch u now db))
          e (moved-AllHeld id revision epoch u now db w.held) in
      rw e (record {
        held = held;
        devices = w.devices;
        ids =
            rw
              (ids-map (set_where (transitions id revision epoch) (updated u now)) db.operations
                (updated-id (transitions id revision epoch) u now))
              w.ids;
      })
]

-- What a successful transition did to the tables, with the update that it wrote.
pub transition-moved :
    (c : Codec) (s : Store) (id : String) (revision : ℕ) (u : Update) (now : Time) (db : Db)
    (m : Operation × Db)
    → transition c s id revision u now db ≡ ok m
    → (v : Update) × ((if is_terminal v.state
          then finish (id ∷ []) now (moved_db id revision s.epoch v now db)
          else moved_db id revision s.epoch v now db)
        ≡ m.1)
unfolding transition
transition-moved c s id revision u now db m h =
    let k0 =
      >>-ok
        (require
          (leb 1 revision
            && leb (len u.phase) 128
            && leb (len u.error_code) 128
            && (u.state == State.running || is_terminal u.state))
          JournalErr.invalid)
        _ m h in
    let (progress, e1, k1) =
      >>=-ok (found JournalErr.invalid (c.canonical_object u.progress)) _ m k0 in
    let (outcome, e2, k2) =
      >>=-ok (found JournalErr.invalid (c.canonical_object u.outcome)) _ m k1 in
    let k3 = >>-ok (active s db) _ m k2 in
    let v : Update = record u { progress = progress; outcome = outcome } in
    let ((o, d), e3, k4) =
      >>=-ok (found JournalErr.revision (transition_operation id revision s.epoch v now db)) _ m
        k3 in
    let e : d ≡ moved_db id revision s.epoch v now db =
      transition_operation-moved_db id revision s.epoch v now db o d
        (found-ok JournalErr.revision _ (o, d) e3) in
    (v, cc (e, k4))

pub transition-WellFormed :
    (c : Codec) (s : Store) (id : String) (revision : ℕ) (u : Update) (now : Time) (db : Db)
    (m : Operation × Db)
    → transition c s id revision u now db ≡ ok m
    → WellFormed db
    → WellFormed m.1
transition-WellFormed c s id revision u now db m h w =
    let (v, r) = transition-moved c s id revision u now db m h in
    subst WellFormed r (moved-WellFormed id revision s.epoch v now db w)
