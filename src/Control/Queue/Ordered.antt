-- ===== src/Control/Queue/Ordered.antt =====
-- The planned queue against plain facts about lists.
use mathlib.Core.List.{Nodup}
use heos_control.Prelude.{
  ℕ, zero, suc, ◌≡◌, ◌≢◌, refl, ap, true, none, some, List, [], ◌∷◌, String, arith, ==→≡, ≡→==,
  ==_refl, !=→≡, string_eq, nat_eq, option_eq, All, map, length, take,
}
use heos_control.Heos.Snapshot.{Media, QueuePage}
use heos_control.Control.Queue.{ordered_items, ordered_queue}
use heos_control.Control.Queue.Fresh.{qids, ids_of, Fresh, Fresh-Nodup, Fresh-present}

ordered_items_sound :
    (seen : List String) (items : List Media) (ids : List String)
    → ordered_items seen items ids ≡ true
    → (ids_of items ≡ ids) × Fresh seen (qids items)
unfolding ordered_items
ordered_items_sound seen [] [] h = (refl, tt)
ordered_items_sound seen [] (i ∷ ids) h = cc
ordered_items_sound seen (m ∷ items) [] h = cc
ordered_items_sound seen (m ∷ items) (i ∷ ids) h =
    let p : ordered_items (m.queue_id ∷ seen) items ids ≡ true = ground arith in
    let r = ordered_items_sound (m.queue_id ∷ seen) items ids p in
    (
      ground (arith, !=→≡ m.id i, r.0),
      (λ e. ground (arith, ≡→== m.queue_id "" e), ground arith, r.1),
    )

pub ordered_items_complete :
    (seen : List String) (items : List Media)
    → Fresh seen (qids items)
    → ordered_items seen items (ids_of items) ≡ true
unfolding ordered_items
ordered_items_complete seen [] h = refl
ordered_items_complete seen (m ∷ items) h = ground (
  arith,
  ==_refl m.id,
  ==→≡ m.queue_id "",
  h.0,
  h.1,
  ordered_items_complete (m.queue_id ∷ seen) items h.2,
)

-- The page holds the planned media in the planned order, repeats included, as one complete page
-- in which every entry has a queue id of its own.
pub record IsOrdered (q : QueuePage) (ids : List String) : Type 0 where
  pub media : ids_of q.items ≡ ids
  pub distinct : Nodup (qids q.items)
  pub present : All (λ x. x ≢ "") (qids q.items)
  pub total : q.total ≡ some (length ids)
  pub last_page : q.next ≡ none

-- `ordered_queue` accepts only such a page.
pub ordered_queue-IsOrdered :
    (q : QueuePage) (ids : List String) → ordered_queue q ids ≡ true → IsOrdered q ids
unfolding ordered_queue
ordered_queue-IsOrdered q ids h =
    let r = ordered_items_sound [] q.items ids (ground arith) in
    record {
      media = r.0;
      distinct = Fresh-Nodup [] (qids q.items) r.1;
      present = Fresh-present [] (qids q.items) r.1;
      total = !=→≡ q.total (some (length ids)) (ground arith);
      last_page = !=→≡ q.next none (ground arith);
    }

pub length-ids_of : (items : List Media) → length (ids_of items) ≡ length items
length-ids_of [] = refl
length-ids_of (m ∷ items) = omega (arith, length-ids_of items)

pub take_all : {A : Type 0} (ids : List A) (n : ℕ) → n ≡ length ids → take n ids ≡ ids
take_all [] zero h = refl
take_all [] (suc n) h = refl
take_all (i ∷ ids) zero h = absurd (omega arith)
take_all (i ∷ ids) (suc n) h = ap (λ r. i ∷ r) (take_all ids n (omega arith))

-- What identifies an entry.
abbrev pub entry : Media → String × String
entry m = (m.queue_id, m.id)

abbrev pub entries : List Media → List (String × String)
entries = map entry
