-- ===== src/Journal/Revision.antt =====
-- The revision of an operation is a compare-and-set: it is spent by the transition that uses it.
use Prim.Native.String.{len}
use heos_control.Prelude.{
  ℕ, ◌≡◌, ◌≢◌, Bool, false, none, List, [], ◌∷◌, String, ◌==◌, arith, refl, string_eq, nat_eq, map,
  find, Time, Bool-cases, inl, inr, ◌&&◌, ◌+◌, leb, ◌||◌,
}
use heos_control.Journal.Types.{
  ok, require, >>=-ok, >>-ok, Operation, Update, Db, is_terminal, JournalErr, State, state_eq,
}
use heos_control.Journal.Queries.{
  set_where, transitions, updated, extend_retention, release_reservations, transition_operation,
}
use heos_control.Journal.Store.{Codec, Store, finish, found, found-ok, active}
use heos_control.Journal.Recovery.{transition}
use heos_control.Journal.Held.{moved_db}
use heos_control.Journal.Invariant.{transition-moved}

find_nothing :
    (p : Operation → Bool) (f : Operation → Operation)
    → ((x : Operation) → p (f x) ≡ false)
    → (xs : List Operation) → find p (map f xs) ≡ none
unfolding find
find_nothing p f h [] = refl
find_nothing p f h (x ∷ xs) = let e = h x in let r = find_nothing p f h xs in rw e r

spent :
    (id : String) (revision : ℕ) (epoch : String) (u : Update) (now : Time) (o : Operation)
    → transitions id revision epoch (set_where (transitions id revision epoch) (updated u now) o)
      ≡ false
unfolding updated
spent id revision epoch u now o = elim (Bool-cases (transitions id revision epoch o)) [
  | inl e ↦
      let same : o.revision ≡ revision = ground (arith, e) in
      let next : (o.revision + 1 == revision) ≡ false = ground (arith, same) in
      rw e (ground (arith, next))
  | inr e ↦ rw (e, e) refl
]

moved-spent :
    (id : String) (revision : ℕ) (epoch : String) (u v : Update) (now later : Time) (db : Db)
    → transition_operation id revision epoch v later (moved_db id revision epoch u now db) ≡ none
unfolding transition_operation
moved-spent id revision epoch u v now later db =
    let e =
      find_nothing (transitions id revision epoch)
        (set_where (transitions id revision epoch) (updated u now)) (spent id revision epoch u now)
        db.operations in
    rw (e, transition_operation) refl

finish-transition_operation :
    (ids : List String) (now : Time) (id : String) (revision : ℕ) (epoch : String) (v : Update)
    (later : Time) (db : Db)
    → transition_operation id revision epoch v later db ≡ none
    → transition_operation id revision epoch v later (finish ids now db) ≡ none
unfolding transition_operation finish extend_retention release_reservations
finish-transition_operation ids now id revision epoch v later db h = ground (arith, h)

no_row :
    (c : Codec) (s : Store) (id : String) (revision : ℕ) (u : Update) (later : Time) (db : Db)
    (m : Operation × Db)
    → ((v : Update) → transition_operation id revision s.epoch v later db ≡ none)
    → transition c s id revision u later db ≢ ok m
unfolding transition
no_row c s id revision u later db m none_found h =
    let k0 =
      >>-ok
        (require
          (leb 1 revision
            && leb (len u.phase) 128
            && leb (len u.error_code) 128
            && (u.state == State.running || is_terminal u.state))
          JournalErr.invalid)
        _ m h in
    let (progress, e1, k1) =
      >>=-ok (found JournalErr.invalid (c.canonical_object u.progress)) _ m k0 in
    let (outcome, e2, k2) =
      >>=-ok (found JournalErr.invalid (c.canonical_object u.outcome)) _ m k1 in
    let k3 = >>-ok (active s db) _ m k2 in
    let v : Update = record u { progress = progress; outcome = outcome } in
    let ((o, d), e3, k4) =
      >>=-ok (found JournalErr.revision (transition_operation id revision s.epoch v later db)) _ m
        k3 in
    cc (found-ok JournalErr.revision _ (o, d) e3, none_found v)

-- After a transition of an operation, a second one at the same revision, by the same store and on
-- the tables that the first one left, never succeeds, whatever it writes and whenever it comes.
pub transition_once :
    (c : Codec) (s : Store) (id : String) (revision : ℕ) (u v : Update) (now later : Time) (db : Db)
    (m n : Operation × Db)
    → transition c s id revision u now db ≡ ok m
    → transition c s id revision v later m.1 ≢ ok n
transition_once c s id revision u v now later db m n h =
    let (w, e) = transition-moved c s id revision u now db m h in
    no_row c s id revision v later m.1 n (λ x. elim (Bool-cases (is_terminal w.state)) [
      | inl t ↦
          rw (← e, t)
            (finish-transition_operation (id ∷ []) now id revision s.epoch x later
              (moved_db id revision s.epoch w now db)
              (moved-spent id revision s.epoch w x now later db))
      | inr t ↦ rw (← e, t) (moved-spent id revision s.epoch w x now later db)
    ])
