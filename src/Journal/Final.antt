-- ===== src/Journal/Final.antt =====
-- A finished operation is never changed again.
use heos_control.Prelude.{
  ℕ, ◌≡◌, true, false, List, [], ◌∷◌, String, arith, refl, ap, string_eq, nat_eq, map, Any, Any-map,
  Any-append_left, contains, contains-take, keep-passes, keep, Time, Bool-cases, inl, inr, ◌∙◌,
}
use heos_control.Journal.Types.{ok, Request, Proposal, Operation, Update, Db, is_terminal}
use heos_control.Journal.Queries.{
  unfinished, set_where, transitions, updated, set_journal_epoch, extend_retention,
  release_reservations,
}
use heos_control.Journal.Store.{Codec, Store, finish, max_batch}
use heos_control.Journal.Admission.{admit, Admitted, new_operation}
use heos_control.Journal.Recovery.{stale, interrupted, interrupt_batch, batch, batch_of, settled_by}
use heos_control.Journal.Album.{selectable, with_album, select_album-db}
use heos_control.Journal.Held.{moved_db}
use heos_control.Journal.Inserted.{HandedOver, admit_new-IsAdmitted}
use heos_control.Journal.Invariant.{WellFormed, transition-moved}
use heos_control.Journal.Steps.{Step, Steps, admit-cases, Steps-WellFormed, recover_batch-db}

abbrev pub IsIn : Operation → Db → Type 0
IsIn o db = Any (λ x. x ≡ o) db.operations

module _ (o : Operation) (over : unfinished o ≡ false) where
  IsIn-map :
      (f : Operation → Operation) (ops : List Operation)
      → f o ≡ o
      → Any (λ x. x ≡ o) ops
      → Any (λ x. x ≡ o) (map f ops)
  IsIn-map f ops same m = Any-map (λ x. x ≡ o) (λ x. x ≡ o) f (λ x e. ap f e ∙ same) ops m

  IsIn-moved :
      (id : String) (revision : ℕ) (epoch : String) (u : Update) (now : Time) (db : Db)
      → IsIn o db
      → IsIn o (moved_db id revision epoch u now db)
  IsIn-moved id revision epoch u now db m =
      IsIn-map (set_where (transitions id revision epoch) (updated u now)) db.operations
        (ground (arith, over)) m

  IsIn-finish : (ids : List String) (now : Time) (db : Db) → IsIn o db → IsIn o (finish ids now db)
  unfolding finish extend_retention release_reservations
  IsIn-finish ids now db m = m

  IsIn-HandedOver : (db cleared : Db) → HandedOver db cleared → IsIn o db → IsIn o cleared
  IsIn-HandedOver db _ HandedOver.nothing m = m
  IsIn-HandedOver db _ (HandedOver.settled id revision epoch u now) m =
      IsIn-finish (id ∷ []) now (moved_db id revision epoch u now db)
        (IsIn-moved id revision epoch u now db m)

  IsIn-admit :
      (c : Codec) (s : Store) (r : Request) (p : Proposal) (id : String) (now : Time) (db : Db)
      (a : Admitted)
      → admit c s r p id now db ≡ ok a
      → IsIn o db
      → IsIn o a.db
  IsIn-admit c s r p id now db a h m =
      let (hash, e, k) = admit-cases c s r p id now db a h in
      elim k [
        | inl old ↦ rw old.0 m
        | inr new ↦
            let i = admit_new-IsAdmitted c s r p hash id now db a new.1 in
            rw i.inserted.operations (
              Any-append_left (λ x. x ≡ o) i.cleared.operations
                (new_operation s r p id i.effective now ∷ [])
                (IsIn-HandedOver db i.cleared i.handed_over m))
      ]

  -- It is in no batch: of operations with distinct ids, a batch holds only unfinished ones.
  outside_batch :
      (s : Store) (db : Db) → WellFormed db → IsIn o db → contains o.id (batch_of s db) ≡ false
  unfolding batch
  outside_batch s db w m = elim (Bool-cases (contains o.id (batch_of s db))) [
    | inr e ↦ e
    | inl e ↦
        let listed =
          contains-take o.id max_batch
            (map (λ (x : Operation). x.id) (keep (stale s.epoch) db.operations)) e in
        let p : stale s.epoch o ≡ true =
          keep-passes (λ (x : Operation). x.id) (stale s.epoch) o db.operations w.ids m listed in
        absurd (ground (arith, p, over))
  ]

  IsIn-settled :
      (c : Codec) (s : Store) (now : Time) (db : Db)
      → WellFormed db
      → IsIn o db
      → IsIn o (settled_by c s now db)
  unfolding settled_by interrupt_batch
  IsIn-settled c s now db w m =
      let out = outside_batch s db w m in
      IsIn-finish (batch_of s db) now
        (interrupt_batch c s.epoch now (batch_of s db) (set_journal_epoch s.epoch false db))
        (IsIn-map (set_where (λ (x : Operation). contains x.id (batch_of s db)) (interrupted c now))
          db.operations (rw out refl) m)

  IsIn-Step : (c : Codec) (a b : Db) → Step c a b → WellFormed a → IsIn o a → IsIn o b
  IsIn-Step c _ _ (Step.admits s r p id now db a h) w m = IsIn-admit c s r p id now db a h m
  IsIn-Step c _ _ (Step.moves s id revision u now db m h) w i =
      let (v, e) = transition-moved c s id revision u now db m h in
      elim (Bool-cases (is_terminal v.state)) [
        | inl t ↦
            rw (← e, t)
              (IsIn-finish (id ∷ []) now (moved_db id revision s.epoch v now db)
                (IsIn-moved id revision s.epoch v now db i))
        | inr t ↦ rw (← e, t) (IsIn-moved id revision s.epoch v now db i)
      ]
  IsIn-Step c _ _ (Step.selects s id revision album now db m h) w i =
      rw (← select_album-db s id revision album now db m h) (
        IsIn-map (set_where (selectable id revision s.epoch) (with_album album now)) db.operations
          (ground (arith, over)) i)
  IsIn-Step c _ _ (Step.recovers s now db done t d h) w m =
      elim (recover_batch-db c s now db done t d h) [
        | inl e ↦ rw e (IsIn-settled c s now db w m)
        | inr e ↦ rw e (IsIn-settled c s now db w m)
      ]

-- From well-formed tables, no sequence of admissions, transitions, album choices and recovery batches changes or
-- removes an operation that is finished: its row stays as it is.
pub finished_stays :
    (c : Codec) (a b : Db) (o : Operation)
    → Steps c a b
    → WellFormed a
    → unfinished o ≡ false
    → IsIn o a
    → IsIn o b
finished_stays c a _ o (Steps.start _) w over m = m
finished_stays c a _ o (Steps.extend _ b d prior s) w over m =
    IsIn-Step o over c b d s (Steps-WellFormed c a b prior w)
      (finished_stays c a b o prior w over m)
