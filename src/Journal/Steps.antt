-- ===== src/Journal/Steps.antt =====
-- The committed transactions as steps, and the invariant along every sequence of them.
use heos_control.Prelude.{
  ◌≡◌, ◌⊎◌, Bool, true, false, List, [], ◌∷◌, ◌++◌, String, arith, refl, string_eq, map, All, Any,
  Any-append_left, Any-append_right, All-imp, All-append, contains, Time, inl, inr, Distinct,
  Distinct-append, ℕ,
}
use heos_control.Journal.Types.{
  JournalErr, ok, err, >>=-ok, Request, Proposal, Operation, Update, Reservation, Db,
}
use heos_control.Journal.Queries.{set_where, set_journal_epoch, transitions, updated, unfinished}
use heos_control.Journal.Store.{Codec, Store, lookup, fingerprint}
use heos_control.Journal.Admission.{admit, admit_new, Admitted, new_operation}
use heos_control.Journal.Recovery.{
  transition, interrupted, interrupt_batch, recover_batch, batch_of, settled_by,
}
use heos_control.Journal.Album.{select_album, select_album-WellFormed}
use heos_control.Journal.Held.{Holds, other_operation}
use heos_control.Journal.Inserted.{HandedOver, IsInserted, admit_new-IsAdmitted, reservation_of}
use heos_control.Journal.Invariant.{
  WellFormed, settled-WellFormed, transition-WellFormed, interrupted-id, updated-id,
}

-- An admission returns an operation that it finds or is a new one.
pub admit-cases :
    (c : Codec) (s : Store) (r : Request) (p : Proposal) (id : String) (now : Time) (db : Db)
    (a : Admitted)
    → admit c s r p id now db ≡ ok a
    → (hash : String) × (fingerprint c r ≡ ok hash)
      × (((a.db ≡ db)
            × (a.admission.created ≡ false)
            × (lookup r hash db ≡ ok a.admission.operation))
          ⊎ ((lookup r hash db ≡ err JournalErr.not_found)
              × (admit_new c s r p hash id now db ≡ ok a)))
unfolding admit
admit-cases c s r p id now db a h =
    let (hash, e, k) = >>=-ok (fingerprint c r) _ a h in (hash, e, ground (arith, k))

interrupt_other :
    (c : Codec) (now : Time) (ids : List String) (o : Operation)
    → contains o.id ids ≡ false
    → set_where (λ (x : Operation). contains x.id ids) (interrupted c now) o ≡ o
interrupt_other c now ids o h = rw h refl

-- The invariant does not read the control row.
epoch-WellFormed :
    (epoch : String) (ready : Bool) (db : Db)
    → WellFormed db
    → WellFormed (set_journal_epoch epoch ready db)
epoch-WellFormed epoch ready db w = record { held = w.held; devices = w.devices; ids = w.ids }

-- What a successful recovery batch did to the tables.
pub recover_batch-db :
    (c : Codec) (s : Store) (now : Time) (db : Db) (done : Bool) (t : Store) (d : Db)
    → recover_batch c s now db ≡ ok (done, t, d)
    → (d ≡ settled_by c s now db) ⊎ (d ≡ set_journal_epoch s.epoch true (settled_by c s now db))
unfolding recover_batch
recover_batch-db c s now db done t d h = ground (arith, h)

settled_by-WellFormed :
    (c : Codec) (s : Store) (now : Time) (db : Db)
    → WellFormed db
    → WellFormed (settled_by c s now db)
unfolding settled_by interrupt_batch
settled_by-WellFormed c s now db w =
    settled-WellFormed (set_journal_epoch s.epoch false db) (batch_of s db) now
      (set_where (λ (x : Operation). contains x.id (batch_of s db)) (interrupted c now))
      (interrupted-id c now (λ (x : Operation). contains x.id (batch_of s db)))
      (interrupt_other c now (batch_of s db)) (epoch-WellFormed s.epoch false db w)

recover_batch-WellFormed :
    (c : Codec) (s : Store) (now : Time) (db : Db) (done : Bool) (t : Store) (d : Db)
    → recover_batch c s now db ≡ ok (done, t, d)
    → WellFormed db
    → WellFormed d
recover_batch-WellFormed c s now db done t d h w =
    let ws = settled_by-WellFormed c s now db w in
    elim (recover_batch-db c s now db done t d h) [
      | inl e ↦ rw e ws
      | inr e ↦ rw e (epoch-WellFormed s.epoch true (settled_by c s now db) ws)
    ]

HandedOver-WellFormed :
    (db cleared : Db) → HandedOver db cleared → WellFormed db → WellFormed cleared
HandedOver-WellFormed db _ HandedOver.nothing w = w
HandedOver-WellFormed db _ (HandedOver.settled id revision epoch u now) w =
    settled-WellFormed db (id ∷ []) now (set_where (transitions id revision epoch) (updated u now))
      (updated-id (transitions id revision epoch) u now)
      (other_operation id revision epoch (updated u now)) w

module _ (r : Request) (p : Proposal) (hash : String) (o : Operation) (now : Time) (db done : Db)
    (i : IsInserted r p hash o now db done) (device : o.device_key ≡ p.device_key)
    (live : unfinished o ≡ true) (w : WellFormed db) where
  old_held : All (λ r. Any (Holds r) (db.operations ++ o ∷ [])) db.reservations
  old_held =
      All-imp (λ r. Any (Holds r) db.operations) (λ r. Any (Holds r) (db.operations ++ o ∷ []))
        (λ r m. Any-append_left (Holds r) db.operations (o ∷ []) m) db.reservations w.held

  new_held : Any (Holds (reservation_of p o)) (db.operations ++ o ∷ [])
  new_held =
      Any-append_right (Holds (reservation_of p o)) db.operations (o ∷ [])
        (inl (record { id = refl; device = device; epoch = refl; is_open = live }))

  inserted_reservations :
      All (λ r. Any (Holds r) (db.operations ++ o ∷ [])) done.reservations
      × Distinct (map (λ r. r.device_key) done.reservations)
  inserted_reservations = elim i.reservations [
    | inl (e, same) ↦ rw same (old_held, w.devices)
    | inr (e, added, free) ↦ rw added (
      All-append (λ r. Any (Holds r) (db.operations ++ o ∷ [])) db.reservations
          (reservation_of p o ∷ []) old_held (new_held, tt),
      Distinct-append (λ (r : Reservation). r.device_key) db.reservations (reservation_of p o)
          w.devices free,
    )
  ]

  inserted-WellFormed : WellFormed done
  inserted-WellFormed = record {
    held = rw i.operations inserted_reservations.0;
    devices = inserted_reservations.1;
    ids =
        rw i.operations (Distinct-append (λ (x : Operation). x.id) db.operations o w.ids i.new_id);
  }

pub admit-WellFormed :
    (c : Codec) (s : Store) (r : Request) (p : Proposal) (id : String) (now : Time) (db : Db)
    (a : Admitted)
    → admit c s r p id now db ≡ ok a
    → WellFormed db
    → WellFormed a.db
admit-WellFormed c s r p id now db a h w = elim ((admit-cases c s r p id now db a h).2) [
  | inl old ↦ rw old.0 w
  | inr new ↦
      let hash = (admit-cases c s r p id now db a h).0 in
      let i = admit_new-IsAdmitted c s r p hash id now db a new.1 in
      inserted-WellFormed r p hash (new_operation s r p id i.effective now) now i.cleared a.db
        i.inserted refl refl (HandedOver-WellFormed db i.cleared i.handed_over w)
]

-- One committed transaction.
pub data Step (c : Codec) : Db → Db → Type 0 where
  admits :
      (s : Store) (r : Request) (p : Proposal) (id : String) (now : Time) (db : Db) (a : Admitted)
      → admit c s r p id now db ≡ ok a
      → Step c db a.db
  moves :
      (s : Store) (id : String) (revision : ℕ) (u : Update) (now : Time) (db : Db)
      (m : Operation × Db)
      → transition c s id revision u now db ≡ ok m
      → Step c db m.1
  selects :
      (s : Store) (id : String) (revision : ℕ) (album : String) (now : Time) (db : Db)
      (m : Operation × Db)
      → select_album s id revision album now db ≡ ok m
      → Step c db m.1
  recovers :
      (s : Store) (now : Time) (db : Db) (done : Bool) (t : Store) (d : Db)
      → recover_batch c s now db ≡ ok (done, t, d)
      → Step c db d

pub data Steps (c : Codec) : Db → Db → Type 0 where
  start : (db : Db) → Steps c db db
  extend : (a b d : Db) → Steps c a b → Step c b d → Steps c a d

Step-WellFormed : (c : Codec) (a b : Db) → Step c a b → WellFormed a → WellFormed b
Step-WellFormed c _ _ (Step.admits s r p id now db a h) w = admit-WellFormed c s r p id now db a h w
Step-WellFormed c _ _ (Step.moves s id revision u now db m h) w =
    transition-WellFormed c s id revision u now db m h w
Step-WellFormed c _ _ (Step.selects s id revision album now db m h) w =
    select_album-WellFormed s id revision album now db m h w
Step-WellFormed c _ _ (Step.recovers s now db done t d h) w =
    recover_batch-WellFormed c s now db done t d h w

-- From well-formed tables, every sequence of admissions, transitions, album choices and recovery batches leads
-- to well-formed tables: no device is reserved twice, each reservation is held by an unfinished
-- operation of its device and epoch, and no operation id occurs twice.
pub Steps-WellFormed : (c : Codec) (a b : Db) → Steps c a b → WellFormed a → WellFormed b
Steps-WellFormed c a _ (Steps.start _) w = w
Steps-WellFormed c a _ (Steps.extend _ b d prior s) w =
    Step-WellFormed c b d s (Steps-WellFormed c a b prior w)
