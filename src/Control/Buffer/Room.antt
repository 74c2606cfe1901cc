-- ===== src/Control/Buffer/Room.antt =====
-- Validated settings always leave room: a step never fails for want of capacity.
use heos_control.Prelude.{
  ℕ, ◌≡◌, ◌≢◌, ◌<◌, Bool, true, false, Option, none, some, List, [], ◌∷◌, arith, length, ℤ, pos,
  ◌+ℤ◌, ◌-ℤ◌, ◌≤ℤ◌, ◌<?◌, +ℤ_parts, -ℤ_parts, Any, before, is_zero, not, ◌&&◌, Bool-cases, inl, inr,
  Time, String,
}
use heos_control.Heos.Snapshot.{Snapshot}
use heos_control.Control.Errors.{Err}
use heos_control.Control.Queue.{buffered_position}
use heos_control.Control.Queue.Position.{buffered_position_sound}
use heos_control.Control.Command.{
  BufferedPlayback, Command, part_limit, parts_fit, validate_buffered,
}
use heos_control.Control.Buffer.{BufferedStep, make_room, refill, buffered_step}

-- One of the declared part sizes.
abbrev pub IsPart : ℤ → List ℤ → Type 0
IsPart count = Any (λ n. n ≡ count)

parts_fit-limit :
    (b : BufferedPlayback) (total count : ℤ) (parts : List ℤ)
    → parts_fit b total parts ≡ true
    → IsPart count parts
    → (pos 1 ≤ℤ count) × (count ≤ℤ part_limit b)
unfolding parts_fit
parts_fit-limit b total count [] h p = absurd p
parts_fit-limit b total count (n ∷ parts) h (inl e) = rw (← e) (ground arith)
parts_fit-limit b total count (n ∷ parts) h (inr p) =
    parts_fit-limit b (total +ℤ n) count parts (ground arith) p

-- A refill that is due (at most `refill_threshold` tracks follow the current one) makes room
-- without ever failing for capacity.
make_room_due :
    (b : BufferedPlayback) (size position : ℕ) (count : ℤ)
    → position < size
    → (b.refill_threshold <? pos size -ℤ pos position -ℤ pos 1) ≡ false
    → pos 1 ≤ℤ count
    → count ≤ℤ part_limit b
    → make_room b size position count ≢ BufferedStep.fail Err.capacity
unfolding make_room
make_room_due b size position count lt due lo hi h = ground (
  arith,
  -ℤ_parts (pos size) (pos position),
  -ℤ_parts (pos size -ℤ pos position) (pos 1),
  +ℤ_parts (pos size) count,
  -ℤ_parts (pos position) b.retain_previous,
  -ℤ_parts (pos size) (pos position -ℤ b.retain_previous),
  +ℤ_parts (pos size -ℤ (pos position -ℤ b.retain_previous)) count,
  -ℤ_parts b.max_queue_tracks b.refill_threshold,
  -ℤ_parts (b.max_queue_tracks -ℤ b.refill_threshold) b.retain_previous,
  -ℤ_parts (b.max_queue_tracks -ℤ b.refill_threshold -ℤ b.retain_previous) (pos 1),
)

-- The bounds that a step keeps: an append fits the queue; a removal takes at least one entry,
-- leaves the retained entries before the current one, and makes room for the part.
abbrev pub KeepsBounds : BufferedPlayback → ℕ → ℕ → ℤ → BufferedStep → Type 0
KeepsBounds b size position count BufferedStep.append = pos size +ℤ count ≤ℤ b.max_queue_tracks
KeepsBounds b size position count (BufferedStep.prune n) =
    (pos 1 ≤ℤ n)
    × (n +ℤ b.retain_previous ≤ℤ pos position)
    × (pos size -ℤ n +ℤ count ≤ℤ b.max_queue_tracks)
KeepsBounds b size position count _ = Unit

make_room-KeepsBounds :
    (b : BufferedPlayback) (size position : ℕ) (count : ℤ)
    → KeepsBounds b size position count (make_room b size position count)
unfolding make_room
make_room-KeepsBounds b size position count = ground (
  arith,
  +ℤ_parts (pos size) count,
  -ℤ_parts (pos position) b.retain_previous,
  +ℤ_parts (pos position -ℤ b.retain_previous) b.retain_previous,
  -ℤ_parts (pos size) (pos position -ℤ b.retain_previous),
  +ℤ_parts (pos size -ℤ (pos position -ℤ b.retain_previous)) count,
)

module _ (b : BufferedPlayback) (cmd : Command) (count : ℤ) (valid : validate_buffered b cmd ≡ none)
    (part : IsPart count b.part_tracks) where
  part_bounds : (pos 1 ≤ℤ count) × (count ≤ℤ part_limit b)
  unfolding validate_buffered
  part_bounds = parts_fit-limit b (pos 0) count b.part_tracks (ground arith) part

  refill_room :
      (size position : ℕ) (prepared : Option Err)
      → position < size
      → prepared ≢ some Err.capacity
      → (refill b size position prepared count ≢ BufferedStep.fail Err.capacity)
        × KeepsBounds b size position count (refill b size position prepared count)
  unfolding refill
  refill_room size position prepared lt ok =
      elim (Bool-cases (b.refill_threshold <? pos size -ℤ pos position -ℤ pos 1)) [
        | inl e ↦ rw e ((λ h. cc), tt)
        | inr e ↦ rw e (prepared_room prepared ok e)
      ]
    where
      prepared_room :
          (p : Option Err)
          → p ≢ some Err.capacity
          → (b.refill_threshold <? pos size -ℤ pos position -ℤ pos 1) ≡ false
          → (elim p [ some e ↦ BufferedStep.fail e | none ↦ make_room b size position count ]
              ≢ BufferedStep.fail Err.capacity)
            × KeepsBounds b size position count
                (elim p [ some e ↦ BufferedStep.fail e | none ↦ make_room b size position count ])
      prepared_room none ok e = (
        make_room_due b size position count lt e part_bounds.0 part_bounds.1,
        make_room-KeepsBounds b size position count,
      )
      prepared_room (some x) ok e = ((λ h. ok (cc)), tt)

  -- With validated settings, a part that they declare, a known position, and a preparation that
  -- did not itself fail for want of capacity, no step fails for want of capacity, and every
  -- command that a step issues keeps the bounds of the queue.
  pub buffered_step_room :
      (more : Bool) (now expires append_until : Time) (s : Snapshot) (ordered : List String)
      (prepared : Option Err) (position : ℕ)
      → buffered_position s ordered ≡ some position
      → prepared ≢ some Err.capacity
      → let step = buffered_step b more now expires append_until s ordered prepared count in
        (step ≢ BufferedStep.fail Err.capacity)
        × KeepsBounds b (length s.queue.items) position count step
  unfolding buffered_step
  buffered_step_room false now expires append_until s ordered prepared position at ok =
      ((λ h. cc), tt)
  buffered_step_room true now expires append_until s ordered prepared position at ok =
      elim (Bool-cases (before now expires)) [
        | inr e ↦ rw e ((λ h. cc), tt)
        | inl e ↦ elim (Bool-cases (not (is_zero append_until) && not (before now append_until))) [
          | inl w ↦ rw (e, w) ((λ h. cc), tt)
          | inr w ↦
              rw (e, w, at)
                (refill_room (length s.queue.items) position prepared
                  (buffered_position_sound s ordered position at).4.in_range ok)
        ]
      ]
