-- ===== src/Journal/Retry.antt =====
-- A retried request and the capacity of the journal.
use heos_control.Prelude.{
  subst, sym, ◌≡◌, ◌+◌, length-map, ◌≤◌, true, false, none, some, [], ◌∷◌, String, ◌==◌, ==_refl,
  arith, refl, string_eq, length, length-append, Time, option_cases, inl, inr, find-append,
  find-map-none, any-find,
}
use heos_control.Journal.Types.{JournalErr, ok, err, Request, Proposal, Operation, Db}
use heos_control.Journal.Queries.{
  lookup_request, matches_request, get_operation, extend_retention, release_reservations, set_where,
  transitions, updated,
}
use heos_control.Journal.Store.{Codec, Store, finish, lookup, fingerprint}
use heos_control.Journal.Admission.{admit, Admitted, new_operation}
use heos_control.Journal.Inserted.{HandedOver, IsInserted, admit_new-IsAdmitted, request_record}
use heos_control.Journal.Steps.{Steps, admit-cases}
use heos_control.Journal.Repeat.{IsKnown, IsKnown-id, Steps-IsKnown, lookup-IsKnown, IsKnown-lookup}

not_found-none :
    (r : Request) (hash : String) (db : Db)
    → lookup r hash db ≡ err JournalErr.not_found
    → lookup_request r db ≡ none
unfolding lookup
not_found-none r hash db h = elim (option_cases (lookup_request r db)) [
  | inl e ↦ e
  | inr (i, e) ↦ ground (arith, e, h)
]

HandedOver-requests :
    (r : Request) (db cleared : Db)
    → HandedOver db cleared
    → lookup_request r db ≡ none
    → lookup_request r cleared ≡ none
unfolding lookup_request
HandedOver-requests r db _ HandedOver.nothing h = h
HandedOver-requests r db _ (HandedOver.settled id revision epoch u now) h =
    unfold finish in
    unfold extend_retention in
    unfold release_reservations in
    find-map-none (matches_request r) _ (λ i. ground (arith)) db.requests h

module _ (r : Request) (p : Proposal) (hash : String) (o : Operation) (now : Time) (db done : Db)
    (i : IsInserted r p hash o now db done) where
  inserted-lookup : lookup_request r db ≡ none → lookup r hash done ≡ ok o
  unfolding lookup
  inserted-lookup h =
      let row : lookup_request r done ≡ some (request_record r hash o.id now) =
        unfold lookup_request in
        rw i.requests (
          find-append (matches_request r) db.requests (request_record r hash o.id now) h (
            ground
              (arith, ==_refl r.principal, ==_refl r.method, ==_refl r.endpoint, ==_refl r.key))) in
      let op : get_operation o.id done ≡ some o =
        unfold get_operation in
        rw i.operations (
          find-append (λ (x : Operation). x.id == o.id) db.operations o
            (any-find (λ (x : Operation). x.id == o.id) db.operations i.new_id) (==_refl o.id)) in
      ground (arith, row, op, ==_refl hash)

abbrev pub returned : Operation → Db → Admitted
returned o db = record {
  admission = record { operation = o; created = false; recovered_commit = false };
  db = db;
}

admit-known :
    (c : Codec) (s : Store) (r : Request) (p : Proposal) (hash id : String) (now : Time) (db : Db)
    (o : Operation)
    → fingerprint c r ≡ ok hash
    → lookup r hash db ≡ ok o
    → admit c s r p id now db ≡ ok (returned o db)
unfolding admit
admit-known c s r p hash id now db o e k = rw e (ground (arith, k))

-- The first admission leaves the operation to be found.
created-IsKnown :
    (c : Codec) (s : Store) (r : Request) (p : Proposal) (id : String) (now : Time) (db : Db)
    (a : Admitted)
    → admit c s r p id now db ≡ ok a
    → a.admission.created ≡ true
    → (hash : String) × (fingerprint c r ≡ ok hash) × IsKnown r hash a.admission.operation.id a.db
created-IsKnown c s r p id now db a h created =
    let (hash, e, k) = admit-cases c s r p id now db a h in
    elim k [
      | inl old ↦ cc (old.1, created)
      | inr new ↦
          let i = admit_new-IsAdmitted c s r p hash id now db a new.1 in
          let o = new_operation s r p id i.effective now in
          let none_before =
            HandedOver-requests r db i.cleared i.handed_over (not_found-none r hash db new.0) in
          let found_now : lookup r hash a.db ≡ ok o =
            inserted-lookup r p hash o now i.cleared a.db i.inserted none_before in
          let same : a.admission.operation ≡ o = cc (i.result) in
          (
            hash,
            e,
            subst (λ (x : Operation). IsKnown r hash x.id a.db) (sym same)
                (IsKnown-lookup r hash a.db o found_now),
          )
    ]

-- Repeating a request whose admission created an operation, after any sequence of admissions,
-- transitions, album choices and recovery batches, with any proposal, at any time and by any process,
-- succeeds, creates nothing and changes nothing: it returns the row that this operation has by then.
pub admit_retry :
    (c : Codec) (s t : Store) (r : Request) (p q : Proposal) (id id' : String) (now later : Time)
    (db d : Db) (a : Admitted)
    → admit c s r p id now db ≡ ok a
    → a.admission.created ≡ true
    → Steps c a.db d
    → (o : Operation) × (o.id ≡ a.admission.operation.id)
      × (get_operation a.admission.operation.id d ≡ some o)
      × (admit c t r q id' later d ≡ ok (returned o d))
admit_retry c s t r p q id id' now later db d a h created steps =
    let (hash, e, known) = created-IsKnown c s r p id now db a h created in
    let still = Steps-IsKnown r hash a.admission.operation.id c a.db d steps known in
    (
      still.operation,
      IsKnown-id r hash a.admission.operation.id d still,
      still.stored,
      admit-known c t r q hash id' later d still.operation e
          (lookup-IsKnown r hash a.admission.operation.id d still),
    )

HandedOver-length :
    (db cleared : Db) → HandedOver db cleared → length cleared.operations ≡ length db.operations
HandedOver-length db _ HandedOver.nothing = refl
HandedOver-length db _ (HandedOver.settled id revision epoch u now) =
    unfold finish in
    unfold extend_retention in
    unfold release_reservations in
    length-map (set_where (transitions id revision epoch) (updated u now)) db.operations

-- An admission that creates an operation adds exactly one, and never goes above the capacity.
pub admit_capacity :
    (c : Codec) (s : Store) (r : Request) (p : Proposal) (id : String) (now : Time) (db : Db)
    (a : Admitted)
    → admit c s r p id now db ≡ ok a
    → a.admission.created ≡ true
    → (length a.db.operations ≡ length db.operations + 1)
      × (length a.db.operations ≤ s.max_operations)
admit_capacity c s r p id now db a h created =
    let (hash, e, k) = admit-cases c s r p id now db a h in
    elim k [
      | inl old ↦ cc (old.1, created)
      | inr new ↦
          let i = admit_new-IsAdmitted c s r p hash id now db a new.1 in
          let l1 = HandedOver-length db i.cleared i.handed_over in
          let l2 =
            length-append i.cleared.operations (new_operation s r p id i.effective now ∷ []) in
          let n : length a.db.operations ≡ length db.operations + 1 =
            rw i.inserted.operations (omega (arith, l1, l2)) in
          (n, omega (arith, n, i.room))
    ]
