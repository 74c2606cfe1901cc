-- ===== src/Heos/Writer.antt =====
-- internal/heos/protocol.go (writeAll): a whole command is handed to a connection that may take it in
-- pieces. The connection is a parameter, with what `io.Writer` documents of it.
pub mod Laws
use heos_control.Prelude.{
  ℕ, zero, suc, ◌+◌, ◌≤◌, ◌≡◌, ◌⊎◌, inl, inr, refl, sym, ◌∙◌, ap, Bool, true, false, Option, none,
  some, List, [], ◌∷◌, ◌++◌, arith, nat_beq, if◌then◌else◌, length, take, drop, Bool-cases,
}
use mathlib.Core.List.{append_assoc, append-nil}

-- What a call of `Write` returns, with the connection after it.
pub record Written (W : Type 0) : Type 0 where
  pub sent : ℕ
  pub failure : Bool
  pub connection : W

pub data Ending : Type 0 where
  complete write_error no_progress : Ending

pub record Delivery (W : Type 0) : Type 0 where
  pub total : ℕ
  pub ending : Ending
  pub connection : W

-- A connection, what it has taken, and the contract: it takes the next bytes of the slice in order.
pub record Writer (W : Type 0) : Type 0 where
  pub write : W → List ℕ → Written W
  pub taken : W → List ℕ
  pub sent_le : (w : W) (p : List ℕ) → (write w p).sent ≤ length p
  pub taken_next :
      (w : W) (p : List ℕ) → taken (write w p).connection ≡ taken w ++ take (write w p).sent p

module _ {W : Type 0} (writer : Writer W) where
  -- The loop of `writeAll`; every round that goes on has sent a byte.
  unfoldable pub write_from : ℕ → W → List ℕ → ℕ → Option (Delivery W)
  write_from fuel w [] total =
      some record { total = total; ending = Ending.complete; connection = w }
  write_from zero w (b ∷ p) total = none
  write_from (suc fuel) w (b ∷ p) total =
      let r = writer.write w (b ∷ p) in
      let sum = total + r.sent in
      let more = write_from fuel r.connection (drop r.sent (b ∷ p)) sum in
      if r.failure
      then some record { total = sum; ending = Ending.write_error; connection = r.connection }
      else if nat_beq r.sent 0
      then some record { total = sum; ending = Ending.no_progress; connection = r.connection }
      else more

  -- `writeAll`, with as much fuel as there are bytes.
  unfoldable pub write_all : W → List ℕ → Option (Delivery W)
  unfolding write_from
  write_all w p = write_from (length p) w p 0
