-- ===== src/Control/Queue/Fresh.antt =====
-- Queue ids that a loop over a queue page has found to be present and new. Every comparison of
-- queues runs the same test against the ids seen before; here it is told once what it gives.
use mathlib.Core.List.{Mem, not-mem-nil, mem-cons, Nodup, Nodup-cons, Nodup-nil}
use mathlib.Core.Logic.Or
use heos_control.Prelude.{
  ◌≡◌, ◌≢◌, true, false, List, [], ◌∷◌, String, arith, ==_refl, string_eq, contains, All, map,
}
use heos_control.Heos.Snapshot.{Media}

abbrev pub qids : List Media → List String
qids = map (λ m. m.queue_id)

abbrev pub ids_of : List Media → List String
ids_of = map (λ m. m.id)

-- None of the ids is empty, seen before, or repeated.
abbrev pub Fresh : List String → List String → Type 0
Fresh seen [] = Unit
Fresh seen (q ∷ qs) = (q ≢ "") × (contains q seen ≡ false) × Fresh (q ∷ seen) qs

pub Fresh-contains :
    (seen qs : List String) (x : String) → Fresh seen qs → contains x seen ≡ true → ¬ Mem x qs
unfolding contains
Fresh-contains seen [] x h c m = not-mem-nil m
Fresh-contains seen (q ∷ qs) x h c m =
    Or.elim (λ a b. absurd a) (mem-cons.0 m) (λ e. cc (h.1, e, c))
      (Fresh-contains (q ∷ seen) qs x h.2 (ground arith))

pub Fresh-Nodup : (seen qs : List String) → Fresh seen qs → Nodup qs
unfolding contains
Fresh-Nodup seen [] h = Nodup-nil
Fresh-Nodup seen (q ∷ qs) h =
    Nodup-cons.1 (
      Fresh-contains (q ∷ seen) qs q h.2 (ground (arith, ==_refl q)),
      Fresh-Nodup (q ∷ seen) qs h.2,
    )

pub Fresh-present : (seen qs : List String) → Fresh seen qs → All (λ q. q ≢ "") qs
Fresh-present seen [] h = tt
Fresh-present seen (q ∷ qs) h = (h.0, Fresh-present (q ∷ seen) qs h.2)
