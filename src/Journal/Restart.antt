-- ===== src/Journal/Restart.antt =====
-- Recovery after a restart ends, and leaves no operation of an earlier process unfinished.
use heos_control.Prelude.{
  ℕ, zero, suc, ◌≡◌, ◌⊎◌, ◌<◌, true, false, none, some, Option, [], String, ◌!=◌, ==_refl, ≡→==,
  arith, refl, string_eq, map, length, Time, Bool-cases, inl, inr, keep, take, ltb, ◌&&◌, ap, ◌∙◌,
}
use heos_control.Journal.Types.{ok, Operation, Db}
use heos_control.Journal.Queries.{set_journal_epoch, extend_retention, release_reservations}
use heos_control.Journal.Store.{Codec, Store, finish, max_batch}
use heos_control.Journal.Recovery.{
  batch, interrupt_batch, recover_batch, recover, met_epoch, claim_epoch, batch_of, settled_by,
  refused,
}
use heos_control.Journal.Stale.{
  stale_operations, outside, stale-settle, take_short, ltb_lt, ltb_ge, fewer, keep-outside,
  contains-own_ids,
}

-- The control row is this store's, or of the epoch that it met at its first attempt.
abbrev Claimable : Option String → String → Db → Type 0
Claimable none epoch db = Unit
Claimable (some e) epoch db = (db.control_epoch ≡ e) ⊎ (db.control_epoch ≡ epoch)

abbrev pub CanClaim : Store → Db → Type 0
CanClaim s db = Claimable s.previous_epoch s.epoch db

CanClaim-refused : (s : Store) (db : Db) → CanClaim s db → refused s db ≡ false
unfolding refused
CanClaim-refused s db h = go s.previous_epoch h
  where
    go :
        (o : Option String)
        → Claimable o s.epoch db
        → (db.control_epoch != met_epoch o db && db.control_epoch != s.epoch) ≡ false
    go none h = ground (arith, ==_refl db.control_epoch)
    go (some e) (inl p) = ground (arith, ≡→== db.control_epoch e p)
    go (some e) (inr p) = ground (arith, ≡→== db.control_epoch s.epoch p)

recover_batch-full :
    (c : Codec) (s : Store) (now : Time) (db : Db)
    → CanClaim s db
    → ltb (length (batch_of s db)) max_batch ≡ false
    → recover_batch c s now db
      ≡ ok (false, record s { previous_epoch = some (claim_epoch s db) }, settled_by c s now db)
unfolding recover_batch
recover_batch-full c s now db h n = rw (CanClaim-refused s db h, n) refl

recover_batch-last :
    (c : Codec) (s : Store) (now : Time) (db : Db)
    → CanClaim s db
    → ltb (length (batch_of s db)) max_batch ≡ true
    → recover_batch c s now db
      ≡ ok (
        true,
        record s { previous_epoch = some (claim_epoch s db) },
        set_journal_epoch s.epoch true (settled_by c s now db),
      )
unfolding recover_batch
recover_batch-last c s now db h n = rw (CanClaim-refused s db h, n) refl

settled-stale :
    (c : Codec) (s : Store) (now : Time) (db : Db)
    → stale_operations s.epoch (settled_by c s now db)
      ≡ keep (outside (batch_of s db)) (stale_operations s.epoch db)
unfolding settled_by finish extend_retention release_reservations interrupt_batch
settled-stale c s now db = stale-settle c s.epoch now (batch_of s db) db.operations

last_batch-stale :
    (c : Codec) (s : Store) (now : Time) (db : Db)
    → ltb (length (batch_of s db)) max_batch ≡ true
    → stale_operations s.epoch (settled_by c s now db) ≡ []
unfolding batch
last_batch-stale c s now db n =
    let ids = map (λ (o : Operation). o.id) (stale_operations s.epoch db) in
    let short : take max_batch ids ≡ ids = take_short max_batch ids (ltb_lt _ max_batch n) in
    settled-stale c s now db
    ∙ ap (λ b. keep (outside b) (stale_operations s.epoch db)) short
    ∙ keep-outside ids (stale_operations s.epoch db)
        (contains-own_ids (stale_operations s.epoch db))

full_batch-fewer :
    (c : Codec) (s : Store) (now : Time) (db : Db)
    → ltb (length (batch_of s db)) max_batch ≡ false
    → length (stale_operations s.epoch (settled_by c s now db))
      < length (stale_operations s.epoch db)
unfolding batch
full_batch-fewer c s now db n =
    let full = ltb_ge (length (batch_of s db)) max_batch n in
    rw (settled-stale c s now db) (fewer 99 (stale_operations s.epoch db) (omega (arith, full)))

-- The tables and the store when recovery is done.
pub record IsRecovered (s : Store) (t : Store) (d : Db) : Type 0 where
  pub initialized : t.initialized ≡ true
  pub epoch : d.control_epoch ≡ s.epoch
  pub ready : d.ready ≡ true
  pub none_stale : stale_operations s.epoch d ≡ []

-- One round of the loop.
round-last :
    (c : Codec) (fuel : ℕ) (s t : Store) (now : Time) (db d : Db)
    → s.initialized ≡ false
    → recover_batch c s now db ≡ ok (true, t, d)
    → recover c (suc fuel) s now db ≡ some (ok (record t { initialized = true }, d))
unfolding recover
round-last c fuel s t now db d i e = ground (arith, i, e)

round-next :
    (c : Codec) (fuel : ℕ) (s t : Store) (now : Time) (db d : Db)
    → s.initialized ≡ false
    → recover_batch c s now db ≡ ok (false, t, d)
    → recover c (suc fuel) s now db ≡ recover c fuel t now d
unfolding recover
round-next c fuel s t now db d i e = ground (arith, i, e)

-- On fuel for more rounds than there are stale operations, a recovery that may claim the control
-- row comes to its end: the row is this store's and ready, and no operation of another epoch is
-- left unfinished.
pub recover_ends :
    (c : Codec) (fuel : ℕ) (s : Store) (now : Time) (db : Db)
    → s.initialized ≡ false
    → CanClaim s db
    → length (stale_operations s.epoch db) < fuel
    → (t : Store) × (d : Db) × (recover c fuel s now db ≡ some (ok (t, d))) × IsRecovered s t d
recover_ends c zero s now db i h f = absurd (omega (arith, f))
recover_ends c (suc fuel) s now db i h f =
    elim (Bool-cases (ltb (length (batch_of s db)) max_batch)) [
      | inl n ↦ (
        record s { previous_epoch = some (claim_epoch s db); initialized = true },
        set_journal_epoch s.epoch true (settled_by c s now db),
        round-last c fuel s _ now db _ i (recover_batch-last c s now db h n),
        record {
          initialized = refl;
          epoch = refl;
          ready = refl;
          none_stale = last_batch-stale c s now db n;
        },
      )
      | inr n ↦
          let t = record s { previous_epoch = some (claim_epoch s db) } in
          let m = full_batch-fewer c s now db n in
          let (t', d, e, r) =
            recover_ends c fuel t now (settled_by c s now db) i
              (inr (
                unfold settled_by in
                unfold finish in
                unfold extend_retention in
                unfold release_reservations in unfold interrupt_batch in refl))
              (omega (arith, m, f)) in
          (
            t',
            d,
            round-next c fuel s t now db _ i (recover_batch-full c s now db h n) ∙ e,
            record {
              initialized = r.initialized;
              epoch = r.epoch;
              ready = r.ready;
              none_stale = r.none_stale;
            },
          )
    ]
