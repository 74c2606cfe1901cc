-- ===== src/Journal/Inserted.antt =====
-- What a successful admission did to the tables, step by step.
use heos_control.Prelude.{
  ◌⊎◌, subst, nat_beq, ◌&&◌, ℕ, ◌≡◌, ◌<◌, true, false, some, [], ◌∷◌, ◌++◌, String, ◌==◌, ◌+◌,
  arith, string_eq, nat_eq, Time, Bool-cases, inl, inr, contains, option_cases, any, length,
}
use heos_control.Journal.Types.{
  JournalErr, ok, ◌>>=◌, ◌>>◌, require, >>=-ok, >>-ok, Request, Proposal, Operation, Update,
  RequestRecord, Reservation, Db,
}
use heos_control.Journal.Queries.{
  insert_operation, insert_request, reserve_device, active_operation, transition_operation,
  count_operations,
}
use heos_control.Journal.Store.{
  Codec, Store, found, found-ok, finish, retention, active, text_within,
}
use heos_control.Journal.Admission.{
  reserve_for, insert_admitted, hand_over, handoff_update, admit_new, Admitted, new_operation,
  admissible, check_owner, known_kinds,
}
use heos_control.Journal.Held.{moved_db, transition_operation-moved_db}

abbrev pub request_record : Request → String → String → Time → RequestRecord
request_record r hash id now = record {
  principal = r.principal;
  method = r.method;
  endpoint = r.endpoint;
  key = r.key;
  request_hash = hash;
  operation_id = id;
  expires_at = now + retention;
}

abbrev pub reservation_of : Proposal → Operation → Reservation
reservation_of p o = record { device_key = p.device_key; operation_id = o.id; epoch = o.epoch }

-- The tables after the inserts.
pub record IsInserted (r : Request) (p : Proposal) (hash : String) (o : Operation) (now : Time)
    (db done : Db) : Type 0 where
  pub operations : done.operations ≡ db.operations ++ o ∷ []
  pub requests : done.requests ≡ db.requests ++ request_record r hash o.id now ∷ []
  pub new_id : any (λ (x : Operation). x.id == o.id) db.operations ≡ false
  pub reservations :
      ((p.owner_id == "") ≡ false × (done.reservations ≡ db.reservations))
      ⊎ (((p.owner_id == "") ≡ true)
          × (done.reservations ≡ db.reservations ++ reservation_of p o ∷ [])
          × (any (λ (x : Reservation). x.device_key == p.device_key) db.reservations ≡ false))

insert_operation-inv :
    (o : Operation) (db d : Db)
    → insert_operation o db ≡ some d
    → (any (λ (x : Operation). x.id == o.id) db.operations ≡ false)
      × (d ≡ record db { operations = db.operations ++ o ∷ [] })
unfolding insert_operation
insert_operation-inv o db d h =
    elim (Bool-cases (any (λ (x : Operation). x.id == o.id) db.operations)) [
      | inl e ↦ ground (arith, e, h)
      | inr e ↦ (e, ground (arith, e, h))
    ]

insert_request-inv :
    (i : RequestRecord) (db d : Db)
    → insert_request i db ≡ some d
    → d ≡ record db { requests = db.requests ++ i ∷ [] }
unfolding insert_request
insert_request-inv i db d h = ground (arith, h)

reserve_device-inv :
    (r : Reservation) (db d : Db)
    → reserve_device r db ≡ some d
    → (any (λ (x : Reservation). x.device_key == r.device_key) db.reservations ≡ false)
      × (d ≡ record db { reservations = db.reservations ++ r ∷ [] })
unfolding reserve_device
reserve_device-inv r db d h =
    elim (Bool-cases (any (λ (x : Reservation). x.device_key == r.device_key) db.reservations)) [
      | inl e ↦ ground (arith, e, h)
      | inr e ↦ (e, ground (arith, e, h))
    ]

reserve_for-inv :
    (p : Proposal) (o : Operation) (db d : Db)
    → reserve_for p o db ≡ ok d
    → (d.operations ≡ db.operations)
      × (d.requests ≡ db.requests)
      × (((p.owner_id == "") ≡ false × (d.reservations ≡ db.reservations))
          ⊎ (((p.owner_id == "") ≡ true)
              × (d.reservations ≡ db.reservations ++ reservation_of p o ∷ [])
              × (any (λ (x : Reservation). x.device_key == p.device_key) db.reservations ≡ false)))
unfolding reserve_for
reserve_for-inv p o db d h = elim (Bool-cases (p.owner_id == "")) [
  | inl e ↦
      let q =
        reserve_device-inv (reservation_of p o) db d
          (found-ok JournalErr.busy _ d (ground (arith, e, h))) in
      (cc (q.1), cc (q.1), inr (e, cc (q.1), q.0))
  | inr e ↦ let q : db ≡ d = ground (arith, e, h) in (cc q, cc q, inl (e, cc q))
]

pub insert_admitted-IsInserted :
    (r : Request) (p : Proposal) (hash : String) (o : Operation) (now : Time) (db done : Db)
    → insert_admitted r p hash o now db ≡ ok done
    → IsInserted r p hash o now db done
unfolding insert_admitted
insert_admitted-IsInserted r p hash o now db done h =
    let (one, e1, k1) = >>=-ok (found JournalErr.database (insert_operation o db)) _ done h in
    let (two, e2, k2) =
      >>=-ok (found JournalErr.database (insert_request (request_record r hash o.id now) one)) _
        done k1 in
    let a = insert_operation-inv o db one (found-ok JournalErr.database _ one e1) in
    let b =
      insert_request-inv (request_record r hash o.id now) one two
        (found-ok JournalErr.database _ two e2) in
    let c = reserve_for-inv p o two done k2 in
    let same : db.reservations ≡ two.reservations = cc (a.1, b) in
    record {
      operations = cc (a.1, b, c.0);
      requests = cc (a.1, b, c.1);
      new_id = a.0;
      reservations = rw same c.2;
    }

-- The tables after the handoff: unchanged, or with one operation moved and its device released.
pub data HandedOver (db : Db) : Db → Type 0 where
  nothing : HandedOver db db
  settled :
      (id : String) (revision : ℕ) (epoch : String) (u : Update) (now : Time)
      → HandedOver db (finish (id ∷ []) now (moved_db id revision epoch u now db))

hand_over_old-HandedOver :
    (c : Codec) (s : Store) (r : Request) (p : Proposal) (now : Time) (db done : Db)
    (old : Operation)
    → (do
      require
          (old.id == p.replace_id
            && old.device_key == p.device_key
            && nat_beq old.revision p.replace_revision)
          JournalErr.revision
      u ← handoff_update c old p now
      moved ← found JournalErr.database (transition_operation old.id old.revision s.epoch u now db)
      ok (finish (old.id ∷ []) now moved.1))
      ≡ ok done
    → HandedOver db done
hand_over_old-HandedOver c s r p now db done old h =
    let k0 =
      >>-ok
        (require
          (old.id == p.replace_id
            && old.device_key == p.device_key
            && nat_beq old.revision p.replace_revision)
          JournalErr.revision)
        _ done h in
    let (u, e1, k1) = >>=-ok (handoff_update c old p now) _ done k0 in
    let ((o, d), e2, k2) =
      >>=-ok (found JournalErr.database (transition_operation old.id old.revision s.epoch u now db))
        _ done k1 in
    let m : d ≡ moved_db old.id old.revision s.epoch u now db =
      transition_operation-moved_db old.id old.revision s.epoch u now db o d
        (found-ok JournalErr.database _ (o, d) e2) in
    let e : finish (old.id ∷ []) now (moved_db old.id old.revision s.epoch u now db) ≡ done =
      cc (m, k2) in
    subst (HandedOver db) e (HandedOver.settled old.id old.revision s.epoch u now)

pub hand_over-HandedOver :
    (c : Codec) (s : Store) (r : Request) (p : Proposal) (now : Time) (db done : Db)
    → hand_over c s r p now db ≡ ok done
    → HandedOver db done
unfolding hand_over
hand_over-HandedOver c s r p now db done h = elim (Bool-cases (p.replace_id == "")) [
  | inl e ↦ let q : db ≡ done = ground (arith, e, h) in subst (HandedOver db) q HandedOver.nothing
  | inr e ↦ elim (option_cases (active_operation r.player db)) [
    | inl n ↦ ground (arith, e, n, h)
    | inr (old, n) ↦ hand_over_old-HandedOver c s r p now db done old (ground (arith, e, n, h))
  ]
]

-- A successful new admission is a handoff followed by the inserts, and there was room for it.
pub record IsAdmitted (c : Codec) (s : Store) (r : Request) (p : Proposal) (hash id : String)
    (now : Time) (db : Db) (a : Admitted) : Type 0 where
  pub effective : String
  pub cleared : Db
  pub handed_over : HandedOver db cleared
  pub inserted : IsInserted r p hash (new_operation s r p id effective now) now cleared a.db
  pub room : length db.operations < s.max_operations
  pub result : a.admission ≡ record {
    operation = new_operation s r p id effective now;
    created = true;
    recovered_commit = false;
  }

admissible-room :
    (s : Store) (p : Proposal) (now : Time) (db : Db)
    → admissible s p now db ≡ ok tt
    → length db.operations < s.max_operations
unfolding admissible count_operations
admissible-room s p now db h = ground (arith, h)

pub admit_new-IsAdmitted :
    (c : Codec) (s : Store) (r : Request) (p : Proposal) (hash id : String) (now : Time) (db : Db)
    (a : Admitted)
    → admit_new c s r p hash id now db ≡ ok a
    → IsAdmitted c s r p hash id now db a
unfolding admit_new
admit_new-IsAdmitted c s r p hash id now db a h =
    let k0 = >>-ok (active s db) _ a h in
    let k1 =
      >>-ok
        (require (text_within p.device_key 256 && text_within p.config_revision 256)
          JournalErr.invalid)
        _ a k0 in
    let k2 = >>-ok (require (contains p.kind known_kinds) JournalErr.invalid) _ a k1 in
    let (effective, e0, k3) =
      >>=-ok (found JournalErr.invalid (c.canonical_object p.effective_arguments)) _ a k2 in
    let (u, e1, k4) = >>=-ok (admissible s p now db) _ a k3 in
    let k5 = >>-ok (check_owner s r p db) _ a k4 in
    let (cleared, e2, k6) = >>=-ok (hand_over c s r p now db) _ a k5 in
    let o = new_operation s r p id effective now in
    let (done, e3, k7) = >>=-ok (insert_admitted r p hash o now cleared) _ a k6 in
    record {
      effective = effective;
      cleared = cleared;
      handed_over = hand_over-HandedOver c s r p now db cleared e2;
      inserted =
          subst (IsInserted r p hash o now cleared) (cc k7)
            (insert_admitted-IsInserted r p hash o now cleared done e3);
      room = admissible-room s p now db e1;
      result = cc k7;
    }
