-- ===== src/Journal/Repeat.antt =====
-- A request and its operation are found again after any sequence of transactions.
use heos_control.Prelude.{
  ℕ, ◌≡◌, true, false, some, List, [], ◌∷◌, String, arith, refl, string_eq, nat_eq, map, ap, subst,
  sym, if_both, !=→≡, ltb, ◌&&◌, ◌+◌, Bool, if◌then◌else◌, ==_refl, option_cases, contains, Time,
  inl, inr, ◌==◌, ==→≡, find-map-some, find-append_left, find-passes,
}
use heos_control.Journal.Types.{
  ok, JournalErr, Request, Proposal, Operation, Update, RequestRecord, Db, is_terminal,
}
use heos_control.Journal.Queries.{
  set_where, transitions, updated, set_journal_epoch, extend_retention, release_reservations,
  lookup_request, matches_request, get_operation,
}
use heos_control.Journal.Store.{Codec, Store, finish, lookup, retention, found-ok}
use heos_control.Journal.Admission.{admit, Admitted, new_operation}
use heos_control.Journal.Recovery.{interrupted, interrupt_batch, batch_of, settled_by}
use heos_control.Journal.Album.{selectable, with_album, album-id, select_album-db}
use heos_control.Journal.Held.{moved_db}
use heos_control.Journal.Inserted.{HandedOver, admit_new-IsAdmitted, request_record, IsInserted}
use heos_control.Journal.Invariant.{transition-moved, updated-id, interrupted-id}
use heos_control.Journal.Steps.{Step, Steps, admit-cases, recover_batch-db}

-- The request has a row with this digest, and that names an operation that is there.
pub record IsKnown (r : Request) (hash id : String) (db : Db) : Type 0 where
  pub row : RequestRecord
  pub listed : lookup_request r db ≡ some row
  pub same_hash : row.request_hash ≡ hash
  pub same_operation : row.operation_id ≡ id
  pub operation : Operation
  pub stored : get_operation id db ≡ some operation

pub IsKnown-id :
    (r : Request) (hash id : String) (db : Db) (k : IsKnown r hash id db) → k.operation.id ≡ id
unfolding get_operation
IsKnown-id r hash id db k =
    ==→≡ k.operation.id id
      (find-passes (λ (x : Operation). x.id == id) db.operations k.operation k.stored)

module _ (r : Request) (hash id : String) where
  IsKnown-map :
      (f : Operation → Operation)
      → ((o : Operation) → (f o).id ≡ o.id)
      → (db : Db) → IsKnown r hash id db
      → IsKnown r hash id (record db { operations = map f db.operations })
  unfolding get_operation lookup_request
  IsKnown-map f same db k = record {
    row = k.row;
    listed = k.listed;
    same_hash = k.same_hash;
    same_operation = k.same_operation;
    operation = f k.operation;
    stored =
        find-map-some (λ (x : Operation). x.id == id) f (λ o. ap (λ (s : String). s == id) (same o))
          db.operations k.operation k.stored;
  }

  abbrev prolonged : List String → Time → RequestRecord → RequestRecord
  prolonged ids at i =
      if contains i.operation_id ids && ltb i.expires_at at then record i { expires_at = at } else i

  prolonged-matches :
      (ids : List String) (at : Time) (i : RequestRecord)
      → matches_request r (prolonged ids at i) ≡ matches_request r i
  prolonged-matches ids at i =
      if_both (λ x. matches_request r x ≡ matches_request r i)
        (contains i.operation_id ids && ltb i.expires_at at) _ _ refl refl

  IsKnown-finish :
      (ids : List String) (now : Time) (db : Db)
      → IsKnown r hash id db
      → IsKnown r hash id (finish ids now db)
  unfolding finish extend_retention release_reservations get_operation lookup_request
  IsKnown-finish ids now db k =
      let at = now + retention in
      record {
        row = prolonged ids at k.row;
        listed =
            find-map-some (matches_request r) (prolonged ids at) (prolonged-matches ids at)
              db.requests k.row k.listed;
        same_hash =
            if_both (λ (x : RequestRecord). x.request_hash ≡ hash)
              (contains k.row.operation_id ids && ltb k.row.expires_at at) _ _ k.same_hash
              k.same_hash;
        same_operation =
            if_both (λ (x : RequestRecord). x.operation_id ≡ id)
              (contains k.row.operation_id ids && ltb k.row.expires_at at) _ _ k.same_operation
              k.same_operation;
        operation = k.operation;
        stored = k.stored;
      }

  IsKnown-epoch :
      (epoch : String) (ready : Bool) (db : Db)
      → IsKnown r hash id db
      → IsKnown r hash id (set_journal_epoch epoch ready db)
  unfolding get_operation lookup_request
  IsKnown-epoch epoch ready db k = record {
    row = k.row;
    listed = k.listed;
    same_hash = k.same_hash;
    same_operation = k.same_operation;
    operation = k.operation;
    stored = k.stored;
  }

  IsKnown-moved :
      (i : String) (revision : ℕ) (epoch : String) (u : Update) (now : Time) (db : Db)
      → IsKnown r hash id db
      → IsKnown r hash id (moved_db i revision epoch u now db)
  IsKnown-moved i revision epoch u now db k =
      IsKnown-map (set_where (transitions i revision epoch) (updated u now))
        (updated-id (transitions i revision epoch) u now) db k

  IsKnown-HandedOver :
      (db cleared : Db) → HandedOver db cleared → IsKnown r hash id db → IsKnown r hash id cleared
  IsKnown-HandedOver db _ HandedOver.nothing k = k
  IsKnown-HandedOver db _ (HandedOver.settled i revision epoch u now) k =
      IsKnown-finish (i ∷ []) now (moved_db i revision epoch u now db)
        (IsKnown-moved i revision epoch u now db k)

  IsKnown-inserted :
      (q : Request) (p : Proposal) (digest : String) (o : Operation) (now : Time) (db done : Db)
      → IsInserted q p digest o now db done
      → IsKnown r hash id db
      → IsKnown r hash id done
  unfolding get_operation lookup_request
  IsKnown-inserted q p digest o now db done i k = record {
    row = k.row;
    listed = rw i.requests (
        find-append_left (matches_request r) db.requests (request_record q digest o.id now ∷ [])
          k.row k.listed);
    same_hash = k.same_hash;
    same_operation = k.same_operation;
    operation = k.operation;
    stored = rw i.operations (
        find-append_left (λ (x : Operation). x.id == id) db.operations (o ∷ []) k.operation
          k.stored);
  }

  IsKnown-admit :
      (c : Codec) (s : Store) (q : Request) (p : Proposal) (i : String) (now : Time) (db : Db)
      (a : Admitted)
      → admit c s q p i now db ≡ ok a
      → IsKnown r hash id db
      → IsKnown r hash id a.db
  IsKnown-admit c s q p i now db a h k =
      let (digest, e, cases) = admit-cases c s q p i now db a h in
      elim cases [
        | inl old ↦ rw old.0 k
        | inr new ↦
            let x = admit_new-IsAdmitted c s q p digest i now db a new.1 in
            IsKnown-inserted q p digest (new_operation s q p i x.effective now) now x.cleared a.db
              x.inserted (IsKnown-HandedOver db x.cleared x.handed_over k)
      ]

  IsKnown-settled :
      (c : Codec) (s : Store) (now : Time) (db : Db)
      → IsKnown r hash id db
      → IsKnown r hash id (settled_by c s now db)
  unfolding settled_by interrupt_batch
  IsKnown-settled c s now db k =
      let p = λ (x : Operation). contains x.id (batch_of s db) in
      IsKnown-finish (batch_of s db) now
        (interrupt_batch c s.epoch now (batch_of s db) (set_journal_epoch s.epoch false db))
        (IsKnown-map (set_where p (interrupted c now)) (interrupted-id c now p)
          (set_journal_epoch s.epoch false db) (IsKnown-epoch s.epoch false db k))

  IsKnown-Step : (c : Codec) (a b : Db) → Step c a b → IsKnown r hash id a → IsKnown r hash id b
  IsKnown-Step c _ _ (Step.admits s q p i now db a h) k = IsKnown-admit c s q p i now db a h k
  IsKnown-Step c _ _ (Step.moves s i revision u now db m h) k =
      let (v, e) = transition-moved c s i revision u now db m h in
      let moved = IsKnown-moved i revision s.epoch v now db k in
      subst (IsKnown r hash id) e (
        if_both (IsKnown r hash id) (is_terminal v.state) _ _
          (IsKnown-finish (i ∷ []) now (moved_db i revision s.epoch v now db) moved) moved)
  IsKnown-Step c _ _ (Step.selects s i revision album now db m h) k =
      subst (IsKnown r hash id) (select_album-db s i revision album now db m h) (
        IsKnown-map (set_where (selectable i revision s.epoch) (with_album album now))
          (album-id (selectable i revision s.epoch) album now) db k)
  IsKnown-Step c _ _ (Step.recovers s now db done t d h) k =
      let settled = IsKnown-settled c s now db k in
      elim (recover_batch-db c s now db done t d h) [
        | inl e ↦ rw e settled
        | inr e ↦ rw e (IsKnown-epoch s.epoch true (settled_by c s now db) settled)
      ]

  pub Steps-IsKnown :
      (c : Codec) (a b : Db) → Steps c a b → IsKnown r hash id a → IsKnown r hash id b
  Steps-IsKnown c a _ (Steps.start _) k = k
  Steps-IsKnown c a _ (Steps.extend _ b d prior s) k =
      IsKnown-Step c b d s (Steps-IsKnown c a b prior k)

-- What is known is what a lookup returns.
pub lookup-IsKnown :
    (r : Request) (hash id : String) (db : Db) (k : IsKnown r hash id db)
    → lookup r hash db ≡ ok k.operation
unfolding lookup
lookup-IsKnown r hash id db k =
    let found : get_operation k.row.operation_id db ≡ some k.operation =
      rw k.same_operation k.stored in
    ground (arith, k.listed, k.same_hash, found, ==_refl hash)

-- What a lookup returns is known.
pub IsKnown-lookup :
    (r : Request) (hash : String) (db : Db) (o : Operation)
    → lookup r hash db ≡ ok o
    → IsKnown r hash o.id db
unfolding lookup get_operation
IsKnown-lookup r hash db o h = elim (option_cases (lookup_request r db)) [
  | inl n ↦ absurd (ground (arith, n, h))
  | inr (row, n) ↦
      let same : row.request_hash ≡ hash = !=→≡ row.request_hash hash (ground (arith, n, h)) in
      let stored : get_operation row.operation_id db ≡ some o =
        found-ok JournalErr.database _ o (ground (arith, n, h)) in
      let named : o.id ≡ row.operation_id =
        ==→≡ o.id row.operation_id
          (find-passes (λ (x : Operation). x.id == row.operation_id) db.operations o stored) in
      record {
        row = row;
        listed = n;
        same_hash = same;
        same_operation = sym named;
        operation = o;
        stored = subst (λ (i : String). get_operation i db ≡ some o) (sym named) stored;
      }
]
