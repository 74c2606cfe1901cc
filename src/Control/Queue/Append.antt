-- ===== src/Control/Queue/Append.antt =====
-- `appendQueueProblem`: what a queue may show while an append is pending.
use mathlib.Core.List.{Nodup}
use heos_control.Prelude.{
  ◌≡◌, ◌≢◌, ◌≤◌, refl, ap, subst, ◌∙◌, true, false, some, List, [], ◌∷◌, String, arith, ==→≡, ≡→==,
  !=→≡, ≡→!=, string_eq, nat_eq, option_eq, contains, length, take,
}
use heos_control.Heos.Snapshot.{Media, QueuePage}
use heos_control.Control.Queue.{
  ordered_items, ordered_queue, append_items_problem, append_queue_problem, rest_of,
}
use heos_control.Control.Queue.Fresh.{qids, ids_of, Fresh, Fresh-Nodup}
use heos_control.Control.Queue.Ordered.{ordered_items_complete, take_all, entries}

module _ (m : Media) (i : String) where
  append_head :
      (seen : List String) (old items : List Media) (ids : List String)
      → append_items_problem seen old (m ∷ items) (i ∷ ids) ≡ false
      → (m.id ≡ i)
        × (m.queue_id ≢ "")
        × (contains m.queue_id seen ≡ false)
        × (append_items_problem (m.queue_id ∷ seen) (rest_of old) items ids ≡ false)
  unfolding append_items_problem
  append_head seen old items ids h = (
    !=→≡ m.id i (ground arith),
    λ e. ground (arith, ≡→== m.queue_id "" e),
    ground arith,
    ground arith,
  )

append_items_sound :
    (seen : List String) (old items : List Media) (ids : List String)
    → append_items_problem seen old items ids ≡ false
    → (ids_of items ≡ take (length items) ids) × Fresh seen (qids items)
append_items_sound seen old [] ids h = (refl, tt)
append_items_sound seen old (m ∷ items) [] h = unfold append_items_problem in cc
append_items_sound seen old (m ∷ items) (i ∷ ids) h =
    let p = append_head m i seen old items ids h in
    let r = append_items_sound (m.queue_id ∷ seen) (rest_of old) items ids p.3 in
    (cc (p.0, r.0), (p.1, p.2, r.1))

append_items-prefix :
    (seen : List String) (old items : List Media) (ids : List String)
    → append_items_problem seen old items ids ≡ false
    → length old ≤ length items
    → entries old ≡ take (length old) (entries items)
append_items-prefix seen [] items ids h le = refl
append_items-prefix seen (b ∷ old) [] ids h le = absurd (omega arith)
append_items-prefix seen (b ∷ old) (m ∷ items) [] h le = unfold append_items_problem in cc
append_items-prefix seen (b ∷ old) (m ∷ items) (i ∷ ids) h le =
    let p = append_head m i seen (b ∷ old) items ids h in
    let r = append_items-prefix (m.queue_id ∷ seen) old items ids p.3 (omega arith) in
    let e1 : m.queue_id ≡ b.queue_id =
      unfold append_items_problem in !=→≡ m.queue_id b.queue_id (ground arith) in
    let e2 : m.id ≡ b.id = unfold append_items_problem in !=→≡ m.id b.id (ground arith) in
    cc (e1, e2, r)

-- A page that an append in progress may show: the old entries, with the queue ids that they had,
-- and after them some of the planned media, in order.
pub record IsGrowing (old q : QueuePage) (ids : List String) : Type 0 where
  pub media : ids_of q.items ≡ take (length q.items) ids
  pub kept : entries old.items ≡ take (length old.items) (entries q.items)
  pub distinct : Nodup (qids q.items)
  pub at_least : length old.items ≤ length q.items
  pub at_most : length q.items ≤ length ids
  pub total : q.total ≡ some (length q.items)

-- A page that `append_queue_problem` lets pass is such a page.
pub append-IsGrowing :
    (old q : QueuePage) (ids : List String)
    → append_queue_problem old q ids ≡ false
    → IsGrowing old q ids
unfolding append_queue_problem
append-IsGrowing old q ids h =
    let p : append_items_problem [] old.items q.items ids ≡ false = ground arith in
    let r = append_items_sound [] old.items q.items ids p in
    let le : length old.items ≤ length q.items = ground arith in
    record {
      media = r.0;
      kept = append_items-prefix [] old.items q.items ids p le;
      distinct = Fresh-Nodup [] (qids q.items) r.1;
      at_least = le;
      at_most = ground arith;
      total = ==→≡ q.total (some (length q.items)) (ground arith);
    }

-- Once such a page has as many entries as the plan, it is exactly the planned queue.
pub append-ordered_queue :
    (old q : QueuePage) (ids : List String)
    → append_queue_problem old q ids ≡ false
    → length q.items ≡ length ids
    → ordered_queue q ids ≡ true
unfolding append_queue_problem ordered_queue
append-ordered_queue old q ids h n =
    let p : append_items_problem [] old.items q.items ids ≡ false = ground arith in
    let r = append_items_sound [] old.items q.items ids p in
    let e : ids_of q.items ≡ ids = r.0 ∙ take_all ids (length q.items) n in
    let t : q.total ≡ some (length ids) =
      ==→≡ q.total (some (length q.items)) (ground arith) ∙ ap some n in
    let o : ordered_items [] q.items ids ≡ true =
      subst (λ x. ordered_items [] q.items x ≡ true) e (ordered_items_complete [] q.items r.1) in
    ground (arith, ≡→!= q.total (some (length ids)) t)
