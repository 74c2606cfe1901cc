-- ===== src/Journal/Album.antt =====
-- internal/journal/operations.go, `SelectAlbum`, `Get` and `Active`.
use heos_control.Prelude.{
  ℕ, ◌≡◌, ◌+◌, Bool, ◌&&◌, none, some, String, ◌==◌, nat_eq, string_eq, option_eq, map, find, Time,
  leb, refl, subst, Bool-cases, inl, inr,
}
use heos_control.Journal.Types.{
  JournalErr, Result, ok, ◌>>=◌, ◌>>◌, require, >>=-ok, >>-ok, Operation, Reservation, Db,
}
use heos_control.Journal.Queries.{unfinished, set_where, get_operation, active_operation}
use heos_control.Journal.Store.{Store, text_within, found, active}
use heos_control.Journal.Held.{Holds, AllHeld-map}
use heos_control.Journal.Invariant.{WellFormed, ids-map}

abbrev get : String → Db → Result Operation
get id db = found JournalErr.not_found (get_operation id db)

abbrev active_of : String → Db → Result Operation
active_of player db = found JournalErr.not_found (active_operation player db)

-- The condition and the assignments of the query SelectAlbum.
abbrev pub selectable : String → ℕ → String → Operation → Bool
selectable id revision epoch o =
    o.id == id
    && o.revision == revision
    && o.epoch == epoch
    && o.selected_album == none
    && unfinished o

abbrev pub with_album : String → Time → Operation → Operation
with_album album at o = record o {
  selected_album = some album;
  revision = o.revision + 1;
  updated_at = at;
}

abbrev pub album_db : String → ℕ → String → String → Time → Db → Db
album_db id revision epoch album at db = record db {
  operations = map (set_where (selectable id revision epoch) (with_album album at)) db.operations;
}

unfoldable pub select_album : Store → String → ℕ → String → Time → Db → Result (Operation × Db)
unfolding text_within active
select_album s id revision album now db = do
  require (text_within album 1024 && leb 1 revision) JournalErr.invalid
  active s db
  row ← found JournalErr.revision (find (selectable id revision s.epoch) db.operations)
  ok (with_album album now row, album_db id revision s.epoch album now db)

pub select_album-db :
    (s : Store) (id : String) (revision : ℕ) (album : String) (now : Time) (db : Db)
    (m : Operation × Db)
    → select_album s id revision album now db ≡ ok m
    → album_db id revision s.epoch album now db ≡ m.1
unfolding select_album
select_album-db s id revision album now db m h =
    let k0 = >>-ok (require (text_within album 1024 && leb 1 revision) JournalErr.invalid) _ m h in
    let k1 = >>-ok (active s db) _ m k0 in
    let (row, e, k2) =
      >>=-ok (found JournalErr.revision (find (selectable id revision s.epoch) db.operations)) _ m
        k1 in
    cc k2

album-Holds :
    (p : Operation → Bool) (album : String) (now : Time) {r : Reservation} (o : Operation)
    → Holds r o
    → Holds r (set_where p (with_album album now) o)
album-Holds p album now o h = elim (Bool-cases (p o)) [
  | inl e ↦ rw e (record { id = h.id; device = h.device; epoch = h.epoch; is_open = h.is_open })
  | inr e ↦ rw e h
]

pub album-id :
    (p : Operation → Bool) (album : String) (now : Time) (o : Operation)
    → (set_where p (with_album album now) o).id ≡ o.id
album-id p album now o = elim (Bool-cases (p o)) [ inl e ↦ rw e refl | inr e ↦ rw e refl ]

pub select_album-WellFormed :
    (s : Store) (id : String) (revision : ℕ) (album : String) (now : Time) (db : Db)
    (m : Operation × Db)
    → select_album s id revision album now db ≡ ok m
    → WellFormed db
    → WellFormed m.1
select_album-WellFormed s id revision album now db m h w =
    let p = selectable id revision s.epoch in
    subst WellFormed (select_album-db s id revision album now db m h) (record {
      held =
          AllHeld-map db (set_where p (with_album album now)) (λ r o t. album-Holds p album now o t)
            w.held;
      devices = w.devices;
      ids =
          rw (ids-map (set_where p (with_album album now)) db.operations (album-id p album now))
            w.ids;
    })
