-- ===== src/Control/Attribution/Run.antt =====
-- internal/control/events.go: an operation that keeps its ownership over many events.
use heos_control.Prelude.{
  ◌≡◌, ◌⊎◌, inl, inr, refl, ◌∙◌, true, false, none, List, [], ◌∷◌, arith, Time, All, ==→≡, nat_eq,
  string_eq,
}
use heos_control.Heos.Snapshot.{Token}
use heos_control.Heos.Events.{Event, data_of}
use heos_control.Control.Attribution.{Attribution, foreign, progress_only, target_event, event}
use heos_control.Control.Attribution.Laws.{Kept, event-Kept, attribute-Framed}

-- The callback, called with each event in turn.
unfoldable pub events_run : Attribution → List (Event × Time) → Attribution
events_run r [] = r
events_run r ((e, now) ∷ rest) = events_run (event r e now) rest

-- The counters of a token that every player shares.
abbrev pub SameCounters : Token → Token → Type 0
SameCounters t u =
    (t.generation ≡ u.generation) × (t.revision ≡ u.revision) × (t.catalog ≡ u.catalog)

abbrev pub Harmless : Attribution → Event × Time → Type 0
Harmless r (e, now) =
    (e.gap ≡ false)
    × ((foreign r e ≡ true)
        ⊎ (progress_only e ≡ true)
        ⊎ ((data_of e).player ≡ r.expected.player.id) × SameCounters e.token r.expected.token)

module _ (r : Attribution) (e : Event) (now : Time) where
  foreign-gap : foreign r e ≡ true → e.gap ≡ false
  unfolding foreign
  foreign-gap h = ground (arith, h)

  progress_only-gap : progress_only e ≡ true → e.gap ≡ false
  unfolding progress_only
  progress_only-gap h = ground (arith, h)

  target-Harmless : target_event r e ≡ true → Harmless r (e, now)
  unfolding target_event
  target-Harmless h = (
    ground (arith, h),
    inr (
        inr (
          ==→≡ (data_of e).player r.expected.player.id (ground (arith, h)),
          (ground (arith, h), ground (arith, h), ground (arith, h)),
        )),
  )

  event-sticky : (event r e now).cancelled ≡ none → r.cancelled ≡ none
  unfolding event
  event-sticky h = ground (arith, h, (attribute-Framed r e now).1)

events_run-sticky :
    (r : Attribution) (es : List (Event × Time))
    → (events_run r es).cancelled ≡ none
    → r.cancelled ≡ none
unfolding events_run
events_run-sticky r [] h = h
events_run-sticky r ((e, now) ∷ rest) h =
    event-sticky r e now (events_run-sticky (event r e now) rest h)

-- The operation's player and the shared counters of its token stay what they were.
abbrev Anchored : Attribution → Attribution → Type 0
Anchored r s =
    (s.expected.player.id ≡ r.expected.player.id) × SameCounters s.expected.token r.expected.token

Kept-Anchored : (r s : Attribution) (e : Event) (now : Time) → Kept r e now s → Anchored r s
unfolding target_event
Kept-Anchored r s e now (inl m) = rw m.1 (refl, (refl, refl, refl))
Kept-Anchored r s e now (inr (inl m)) = rw m.1 (refl, (refl, refl, refl))
Kept-Anchored r s e now (inr (inr m)) =
    rw m.2 (refl, (ground (arith, m.0), ground (arith, m.0), ground (arith, m.0)))

foreign-Anchored :
    (r s : Attribution) (e : Event) → Anchored r s → foreign s e ≡ true → foreign r e ≡ true
unfolding foreign
foreign-Anchored r s e a h = ground (arith, a.0, h)

Harmless-Anchored :
    (r s : Attribution) (e : Event) (now : Time)
    → Anchored r s
    → Harmless s (e, now)
    → Harmless r (e, now)
Harmless-Anchored r s e now a (gap, inl h) = (gap, inl (foreign-Anchored r s e a h))
Harmless-Anchored r s e now a (gap, inr (inl h)) = (gap, inr (inl h))
Harmless-Anchored r s e now a (gap, inr (inr h)) =
    (gap, inr (inr (h.0 ∙ a.0, (h.1.0 ∙ a.1.0, h.1.1 ∙ a.1.1, h.1.2 ∙ a.1.2))))

All-Anchored :
    (r s : Attribution) (es : List (Event × Time))
    → Anchored r s
    → All (Harmless s) es
    → All (Harmless r) es
All-Anchored r s [] a h = tt
All-Anchored r s ((e, now) ∷ rest) a h =
    (Harmless-Anchored r s e now a h.0, All-Anchored r s rest a h.1)

Kept-Harmless : (r s : Attribution) (e : Event) (now : Time) → Kept r e now s → Harmless r (e, now)
Kept-Harmless r s e now (inl m) = (foreign-gap r e now m.0, inl m.0)
Kept-Harmless r s e now (inr (inl m)) = (progress_only-gap r e now m.0, inr (inl m.0))
Kept-Harmless r s e now (inr (inr m)) = target-Harmless r e now m.0

-- An operation that is still not cancelled after any sequence of events has seen no gap, and every
-- event that was neither about another player nor a progress report was about its own player and
-- carried the connection generation, the global revision and the catalog revision of the token that
-- the operation expected at the start.
pub events_run-Harmless :
    (r : Attribution) (es : List (Event × Time))
    → (events_run r es).cancelled ≡ none
    → All (Harmless r) es
unfolding events_run
events_run-Harmless r [] h = tt
events_run-Harmless r ((e, now) ∷ rest) h =
    let s = event r e now in
    let survived = event-Kept r e now (events_run-sticky s rest h) in
    (
      Kept-Harmless r s e now survived,
      All-Anchored r s rest (Kept-Anchored r s e now survived) (events_run-Harmless s rest h),
    )
