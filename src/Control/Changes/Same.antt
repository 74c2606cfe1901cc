-- ===== src/Control/Changes/Same.antt =====
-- What `stateChanges` compares, said without it: two observations have the same controls.
use heos_control.Prelude.{
  ◌≡◌, refl, ap, ◌↔◌, Bool, true, false, Option, none, some, List, [], ◌∷◌, ◌++◌, String, arith,
  !=→≡, ≡→!=, All, nat_eq, bool_eq, string_eq, option_eq, list_eq,
}
use heos_control.Heos.Values.{play_state_eq, repeat_eq}
use heos_control.Heos.Snapshot.{Media, Snapshot, player_eq, media_eq}
use heos_control.Control.Changes.{named, media_changes, control_rows, state_changes}

pub record SameControls (a b : Snapshot) : Type 0 where
  pub repeat : a.repeat ≡ b.repeat
  pub shuffle : a.shuffle ≡ b.shuffle
  pub player : a.player ≡ b.player
  pub grouped : a.grouped ≡ b.grouped
  pub state : a.state ≡ b.state
  pub volume : a.volume ≡ b.volume
  pub muted : a.muted ≡ b.muted
  pub items : a.queue.items ≡ b.queue.items
  pub total : a.queue.total ≡ b.queue.total
  pub media : a.media ≡ b.media

media_changes-nil : (m n : Option Media) → media_changes m n ≡ [] → m ≡ n
unfolding media_changes
media_changes-nil none none h = refl
media_changes-nil none (some b) h = cc
media_changes-nil (some a) none h = cc
media_changes-nil (some a) (some b) h = ap some (
    ground (
      arith,
      !=→≡ a.source b.source,
      !=→≡ a.id b.id,
      !=→≡ a.queue_id b.queue_id,
      !=→≡ a.song b.song,
      !=→≡ a.album b.album,
      !=→≡ a.artist b.artist,
    ))

media_changes_self : (m n : Option Media) → m ≡ n → media_changes m n ≡ []
unfolding media_changes
media_changes_self none none h = refl
media_changes_self none (some b) h = cc
media_changes_self (some a) none h = cc
media_changes_self (some a) (some b) h = ground (
  arith,
  ≡→!= a.source b.source,
  ≡→!= a.id b.id,
  ≡→!= a.queue_id b.queue_id,
  ≡→!= a.song b.song,
  ≡→!= a.album b.album,
  ≡→!= a.artist b.artist,
)

abbrev Unchanged : String × Bool → Type 0
Unchanged row = row.1 ≡ false

named-nil : (rows : List (String × Bool)) → named rows ≡ [] → All Unchanged rows
unfolding named
named-nil [] h = tt
named-nil ((name, true) ∷ rows) h = cc
named-nil ((name, false) ∷ rows) h = (refl, named-nil rows h)

named-Unchanged : (rows : List (String × Bool)) → All Unchanged rows → named rows ≡ []
unfolding named
named-Unchanged [] h = refl
named-Unchanged ((name, true) ∷ rows) h = cc (h.0)
named-Unchanged ((name, false) ∷ rows) h = named-Unchanged rows h.1

append_nil : (xs ys : List String) → (xs ++ ys) ≡ [] → (xs ≡ []) × (ys ≡ [])
append_nil [] ys h = (refl, h)
append_nil (x ∷ xs) ys h = cc

control_changes-nil :
    (a b : Snapshot) → named (control_rows a b) ≡ [] → a.media ≡ b.media → SameControls a b
control_changes-nil a b h m =
    let t = named-nil (control_rows a b) h in
    record {
      repeat = !=→≡ a.repeat b.repeat t.0;
      shuffle = !=→≡ a.shuffle b.shuffle t.1.0;
      player = !=→≡ a.player b.player t.1.1.0;
      grouped = !=→≡ a.grouped b.grouped t.1.1.1.0;
      state = !=→≡ a.state b.state t.1.1.1.1.0;
      volume = !=→≡ a.volume b.volume t.1.1.1.1.1.0;
      muted = !=→≡ a.muted b.muted t.1.1.1.1.1.1.0;
      items = !=→≡ a.queue.items b.queue.items t.1.1.1.1.1.1.1.0;
      total = !=→≡ a.queue.total b.queue.total t.1.1.1.1.1.1.1.1.0;
      media = m;
    }

control_changes_self : (a b : Snapshot) → SameControls a b → named (control_rows a b) ≡ []
control_changes_self a b s = named-Unchanged (control_rows a b) (
  ≡→!= a.repeat b.repeat s.repeat,
  (
    ≡→!= a.shuffle b.shuffle s.shuffle,
    (
      ≡→!= a.player b.player s.player,
      (
        ≡→!= a.grouped b.grouped s.grouped,
        (
          ≡→!= a.state b.state s.state,
          (
            ≡→!= a.volume b.volume s.volume,
            (
              ≡→!= a.muted b.muted s.muted,
              (
                ≡→!= a.queue.items b.queue.items s.items,
                (≡→!= a.queue.total b.queue.total s.total, tt),
              ),
            ),
          ),
        ),
      ),
    ),
  ),
)

-- No field is reported as changed exactly when every compared control is equal.
pub state_changes-nil : (a b : Snapshot) → (state_changes a b ≡ []) ↔ SameControls a b
unfolding state_changes
state_changes-nil a b = (
  λ h.
      let parts = append_nil (named (control_rows a b)) (media_changes a.media b.media) h in
      control_changes-nil a b parts.0 (media_changes-nil a.media b.media parts.1),
  λ s. cc (control_changes_self a b s, media_changes_self a.media b.media s.media),
)
