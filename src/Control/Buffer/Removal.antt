-- ===== src/Control/Buffer/Removal.antt =====
-- A removal that is still allowed at the moment of the write takes played entries only.
use heos_control.Prelude.{
  ℕ, suc, ◌+◌, ◌≡◌, ◌⊎◌, Bool, subst, get_elem?, ==→≡, ◌≤◌, ◌<◌, true, Option, none, some, List, [],
  ◌∷◌, String, ◌==◌, ◌!=◌, !=→≡, string_eq, arith, refl, length, take, Bool-cases, option_cases,
  inl, inr, ◌&&◌, ℤ, pos, ◌-ℤ◌, ◌≤ℤ◌, if◌then◌else◌,
}
use heos_control.Heos.Snapshot.{Media, Snapshot}
use heos_control.Heos.Values.{PlayState, play_state_eq}
use heos_control.Control.Membership.{queued_media}
use heos_control.Control.Command.{BufferedPlayback}
use heos_control.Control.Buffer.{removal_scan, removal_allowed, far_enough}
use heos_control.Control.Queue.Fresh.{qids}

-- The scan accepts only the ids at the front.
scan-take :
    (m : Media) (i : ℕ) (current r : Option ℕ) (items : List Media) (ids : List String)
    → removal_scan m i current items ids ≡ some r
    → length ids ≤ length items
    → take (length ids) (qids items) ≡ ids
unfolding removal_scan
scan-take m i current r [] [] h l = refl
scan-take m i current r [] (q ∷ ids) h l = absurd (omega (arith, l))
scan-take m i current r (x ∷ items) [] h l = refl
scan-take m i current r (x ∷ items) (q ∷ ids) h l = elim (Bool-cases (x.queue_id != q)) [
  | inl e ↦ ground (arith, e, h)
  | inr e ↦
      let rest =
        scan-take m (suc i) (if x.queue_id == m.queue_id && x.id == m.id then some i else current) r
          items ids (ground (arith, e, h)) (omega (arith, l)) in
      let same : x.queue_id ≡ q = !=→≡ x.queue_id q e in cc (same, rest)
]

abbrev matching : Media → Media → Bool
matching m x = x.queue_id == m.queue_id && x.id == m.id

-- The media stands at an index.
pub record StandsAt (m : Media) (items : List Media) (i : ℕ) : Type 0 where
  pub item : Media
  pub found : get_elem? items i ≡ some item
  pub same_queue_id : item.queue_id ≡ m.queue_id
  pub same_id : item.id ≡ m.id

StandsAt-later :
    (m x : Media) (items : List Media) (j : ℕ) → StandsAt m items j → StandsAt m (x ∷ items) (suc j)
StandsAt-later m x items j a = record {
  item = a.item;
  found = a.found;
  same_queue_id = a.same_queue_id;
  same_id = a.same_id;
}

-- The scan from the index `i` ends with the match that it began with or with one further on.
abbrev Located : Media → ℕ → Option ℕ → List Media → ℕ → Type 0
Located m i current items c = (current ≡ some c) ⊎ ((j : ℕ) × (c ≡ i + j) × StandsAt m items j)

Located-later :
    (m x : Media) (i : ℕ) (current : Option ℕ) (items : List Media) (c : ℕ)
    → Located m (suc i) (if matching m x then some i else current) items c
    → Located m i current (x ∷ items) c
Located-later m x i current items c (inr (j, e, a)) =
    inr (suc j, omega (arith, e), StandsAt-later m x items j a)
Located-later m x i current items c (inl e) = elim (Bool-cases (matching m x)) [
  | inr n ↦ inl (ground (arith, n, e))
  | inl y ↦ inr (
    0,
    ground (arith, y, e),
    record {
      item = x;
      found = refl;
      same_queue_id = ==→≡ x.queue_id m.queue_id (ground (arith, y));
      same_id = ==→≡ x.id m.id (ground (arith, y));
    },
  )
]

scan-Located :
    (m : Media) (i : ℕ) (current : Option ℕ) (c : ℕ) (items : List Media) (ids : List String)
    → removal_scan m i current items ids ≡ some (some c)
    → Located m i current items c
unfolding removal_scan
scan-Located m i current c [] ids h = inl (ground (arith, h))
scan-Located m i current c (x ∷ items) [] h =
    Located-later m x i current items c (scan-Located m (suc i) _ c items [] h)
scan-Located m i current c (x ∷ items) (q ∷ ids) h = elim (Bool-cases (x.queue_id != q)) [
  | inl e ↦ ground (arith, e, h)
  | inr e ↦
      Located-later m x i current items c
        (scan-Located m (suc i) _ c items ids (ground (arith, e, h)))
]

-- What an allowed removal of the entries `ids` is known to be.
pub record IsRemovable (b : BufferedPlayback) (s : Snapshot) (ids : List String) : Type 0 where
  pub plays : s.state ≡ PlayState.play
  pub member : queued_media s.queue s.media ≡ true
  pub front : take (length ids) (qids s.queue.items) ≡ ids
  pub some_left : length ids < length s.queue.items
  pub media : Media
  pub is_current : s.media ≡ some media
  pub current : ℕ
  pub stands : StandsAt media s.queue.items current
  pub retained : b.retain_previous ≤ℤ pos current -ℤ pos (length ids)

from_start :
    (m : Media) (items : List Media) (c : ℕ) → Located m 0 none items c → StandsAt m items c
from_start m items c (inl e) = cc
from_start m items c (inr (j, e, a)) =
    let same : j ≡ c = omega (arith, e) in subst (StandsAt m items) same a

removal_scan-far_enough :
    (n : ℕ) (retain : ℤ) (o : Option (Option ℕ))
    → far_enough n retain o ≡ true
    → (current : ℕ) × (o ≡ some (some current)) × (retain ≤ℤ pos current -ℤ pos n)
removal_scan-far_enough n retain none h = cc
removal_scan-far_enough n retain (some none) h = cc
removal_scan-far_enough n retain (some (some c)) h = (c, refl, ground (arith, h))

-- A removal is allowed only while a queued entry plays, of entries at the front that leave some
-- entry; and the playing media stands in the queue, with its queue id and its id, at an index that
-- exceeds the number of removed entries by at least `retain_previous`.
pub removal_allowed-IsRemovable :
    (b : BufferedPlayback) (s : Snapshot) (ids : List String)
    → removal_allowed b s ids ≡ true
    → IsRemovable b s ids
unfolding removal_allowed
removal_allowed-IsRemovable b s ids h = elim (option_cases s.media) [
  | inl e ↦ ground (arith, e, h)
  | inr (m, e) ↦
      let far : far_enough (length ids) b.retain_previous (removal_scan m 0 none s.queue.items ids)
          ≡ true =
        ground (arith, e, h) in
      let left : length ids < length s.queue.items = ground (arith, h) in
      let (c, found, kept) =
        removal_scan-far_enough (length ids) b.retain_previous
          (removal_scan m 0 none s.queue.items ids) far in
      record {
        plays = !=→≡ s.state PlayState.play (ground (arith, h));
        member = ground (arith, h);
        front = scan-take m 0 none (some c) s.queue.items ids found (omega (arith, left));
        some_left = left;
        media = m;
        is_current = e;
        current = c;
        stands = from_start m s.queue.items c (scan-Located m 0 none c s.queue.items ids found);
        retained = kept;
      }
]
