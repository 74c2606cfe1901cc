-- ===== src/Control/Skip/Laws.antt =====
-- An admitted skip has somewhere to go, and a confirmed one went to another entry.
use heos_control.Prelude.{
  ℕ, suc, ◌≡◌, ◌≢◌, ◌<◌, true, false, ◌&&◌, Option, none, some, List, [], ◌∷◌, String, ◌==◌, arith,
  string_eq, Bool-cases, option_cases, inl, inr, length, any, is_empty, refl, ≡→==,
}
use heos_control.Heos.Values.{Repeat, is_active}
use heos_control.Heos.Snapshot.{Media, Snapshot}
use heos_control.Control.Changes.{state_changes}
use heos_control.Control.Changes.Same.{SameControls, state_changes-nil}
use heos_control.Control.Membership.{queued_media}
use heos_control.Control.Queue.{index_in, queue_index}
use heos_control.Control.Queue.Position.{IsAt, index_in-IsAt}
use heos_control.Control.Skip.{
  over_ceiling, at_skip_boundary, skip_admissible, skipped, other_media, skip_confirmed,
}

index_in-any :
    (items : List Media) (m : Media)
    → any (λ (x : Media). x.queue_id == m.queue_id && x.id == m.id) items ≡ true
    → (i : ℕ) × (index_in items m ≡ some i)
unfolding any index_in
index_in-any [] m h = cc
index_in-any (x ∷ items) m h = elim (Bool-cases (x.queue_id == m.queue_id && x.id == m.id)) [
  | inl e ↦ (0, ground (arith, e))
  | inr e ↦
      let (i, r) = index_in-any items m (ground (arith, e, h)) in (suc i, ground (arith, e, r))
]

queued_index :
    (items : List Media) (m : Media) (s : Snapshot)
    → s.queue.items ≡ items
    → queued_media s.queue (some m) ≡ true
    → (i : ℕ) × (index_in items m ≡ some i)
unfolding queued_media
queued_index items m s e h = rw (← e) (index_in-any s.queue.items m (ground (arith, h)))

-- The current entry, with a later one behind it.
pub record HasNext (s : Snapshot) : Type 0 where
  pub media : Media
  pub is_current : s.media ≡ some media
  pub index : ℕ
  pub at : IsAt s.queue.items media index
  pub more : suc index < length s.queue.items

-- The four checks of an admitted skip.
pub skip_admissible-ceiling :
    (ceiling : Option ℕ) (direction : String) (s : Snapshot)
    → skip_admissible ceiling direction s ≡ none
    → (over_ceiling ceiling s.volume ≡ false)
      × (is_active s.state ≡ true)
      × (queued_media s.queue s.media ≡ true)
      × (at_skip_boundary direction s ≡ false)
unfolding skip_admissible
skip_admissible-ceiling ceiling direction s h = ground (arith, h)

inside :
    (s : Snapshot) (i : ℕ)
    → at_skip_boundary "next" s ≡ false
    → s.repeat ≡ Repeat.off
    → s.shuffle ≡ false
    → queue_index s ≡ some i
    → suc i ≢ length s.queue.items
unfolding at_skip_boundary
inside s i h off plain at e = ground (arith, h, off, plain, at, e)

-- With repeat and shuffle off, a skip to the next entry is admitted only where there is one.
pub skip_admissible-HasNext :
    (ceiling : Option ℕ) (s : Snapshot)
    → skip_admissible ceiling "next" s ≡ none
    → s.repeat ≡ Repeat.off
    → s.shuffle ≡ false
    → HasNext s
skip_admissible-HasNext ceiling s h off plain =
    let t = skip_admissible-ceiling ceiling "next" s h in
    elim (option_cases s.media) [
      | inl e ↦ absurd (unfold queued_media in cc (e, t.2))
      | inr (m, e) ↦
          let (i, found) = queued_index s.queue.items m s refl (rw (← e) t.2) in
          let place = index_in-IsAt s.queue.items m i found in
          let current : queue_index s ≡ some i = unfold queue_index in ground (arith, e, found) in
          let inner = inside s i t.3 off plain current in
          record {
            media = m;
            is_current = e;
            index = i;
            at = place;
            more = omega (arith, place.in_range, inner);
          }
    ]

-- What a confirmed skip shows.
pub record IsSkipped (a b : Snapshot) : Type 0 where
  pub old : Media
  pub new : Media
  pub was : a.media ≡ some old
  pub is_now : b.media ≡ some new
  pub moved : new.queue_id ≢ old.queue_id
  pub member : queued_media a.queue (some new) ≡ true
  pub playing : is_active b.state ≡ true
  pub unchanged : SameControls (skipped a b) b

empty_list : (xs : List String) → is_empty xs ≡ true → xs ≡ []
empty_list [] h = refl
empty_list (x ∷ xs) h = cc

-- A skip is confirmed only by an active state at an entry of the old queue with another queue id,
-- with every other control as it was.
pub skip_confirmed-IsSkipped : (a b : Snapshot) → skip_confirmed a b ≡ true → IsSkipped a b
unfolding skip_confirmed
skip_confirmed-IsSkipped a b h = elim (option_cases a.media) [
  | inl e ↦ ground (arith, e, h)
  | inr (m, e) ↦ elim (option_cases b.media) [
    | inl e' ↦ ground (arith, e, e', h)
    | inr (n, e') ↦
        let o : other_media a (some m) (some n) ≡ true = ground (arith, e, e', h) in
        record {
          old = m;
          new = n;
          was = e;
          is_now = e';
          moved = λ q. ground (arith, o, ≡→== n.queue_id m.queue_id q);
          member = ground (arith, o);
          playing = ground (arith, h);
          unchanged =
              (state_changes-nil (skipped a b) b).0
                (empty_list (state_changes (skipped a b) b) (ground (arith, h)));
        }
  ]
]
