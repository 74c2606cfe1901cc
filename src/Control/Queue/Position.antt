-- ===== src/Control/Queue/Position.antt =====
-- `queueIndex` and `bufferedPosition`: where the current media stands in the queue.
use heos_control.Prelude.{
  ℕ, suc, ◌≡◌, ◌<◌, refl, true, some, List, [], ◌∷◌, String, arith, ◌==◌, ==→≡, !=→≡, length,
  get_elem?, string_eq, option_cases, inl, inr, Bool-cases, ◌&&◌,
}
use heos_control.Heos.Values.{PlayState, play_state_eq}
use heos_control.Heos.Snapshot.{Media, Snapshot}
use heos_control.Control.Queue.{ordered_queue, index_in, buffered_position}

-- The entry at an index is the media's.
pub record IsAt (items : List Media) (m : Media) (i : ℕ) : Type 0 where
  pub in_range : i < length items
  pub item : Media
  pub found : get_elem? items i ≡ some item
  pub same_queue_id : item.queue_id ≡ m.queue_id
  pub same_id : item.id ≡ m.id

pub index_in-IsAt :
    (items : List Media) (m : Media) (i : ℕ) → index_in items m ≡ some i → IsAt items m i
unfolding index_in
index_in-IsAt [] m i h = cc
index_in-IsAt (x ∷ items) m i h = elim (Bool-cases (x.queue_id == m.queue_id && x.id == m.id)) [
  | inl e ↦
      let z : i ≡ 0 = ground arith in
      record {
        in_range = omega arith;
        item = x;
        found = rw z refl;
        same_queue_id = ==→≡ x.queue_id m.queue_id (ground arith);
        same_id = ==→≡ x.id m.id (ground arith);
      }
  | inr e ↦ elim (option_cases (index_in items m)) [
    | inl n ↦ ground arith
    | inr (j, n) ↦
        let at = index_in-IsAt items m j n in
        let z : i ≡ suc j = ground arith in
        record {
          in_range = omega (arith, at.in_range);
          item = at.item;
          found = rw z at.found;
          same_queue_id = at.same_queue_id;
          same_id = at.same_id;
        }
  ]
]

-- A buffered position is that of the current media in a playing queue that is exactly the plan.
pub buffered_position_sound :
    (s : Snapshot) (ids : List String) (i : ℕ)
    → buffered_position s ids ≡ some i
    → (s.state ≡ PlayState.play)
      × (ordered_queue s.queue ids ≡ true)
      × (m : Media) × (s.media ≡ some m)
      × IsAt s.queue.items m i
unfolding buffered_position
buffered_position_sound s ids i h =
    let p : (m : Media) × (s.media ≡ some m) = ground arith in
    let f : index_in s.queue.items p.0 ≡ some i = ground (arith, p.1) in
    (
      !=→≡ s.state PlayState.play (ground arith),
      ground arith,
      p.0,
      p.1,
      index_in-IsAt s.queue.items p.0 i f,
    )
