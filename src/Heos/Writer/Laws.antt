-- ===== src/Heos/Writer/Laws.antt =====
-- internal/heos/protocol.go (writeAll): the loop ends, and what the connection has taken.
use heos_control.Prelude.{
  ℕ, zero, suc, ◌+◌, ◌≤◌, ◌≡◌, ◌≢◌, ◌⊎◌, inl, inr, refl, sym, ◌∙◌, ap, Option, some, List, [], ◌∷◌,
  ◌++◌, arith, nat_beq, length, take, drop, Bool-cases, length-drop, take-add,
}
use mathlib.Core.List.{append_assoc, append-nil}
use heos_control.Heos.Writer.{Ending, Delivery, Writer, write_from, write_all}

module _ {W : Type 0} (writer : Writer W) where
  -- The loop has ended: the connection has taken the first `sent` bytes, and all without an error.
  pub record IsDelivered (w : W) (p : List ℕ) (start : ℕ) (result : Option (Delivery W))
      : Type 0 where
    pub outcome : Delivery W
    pub returned : result ≡ some outcome
    pub sent : ℕ
    pub counted : outcome.total ≡ start + sent
    pub bounded : sent ≤ length p
    pub received : writer.taken outcome.connection ≡ writer.taken w ++ take sent p
    pub all_or_error : (outcome.ending ≢ Ending.complete) ⊎ (sent ≡ length p)

  write_from-IsDelivered :
      (fuel : ℕ) (w : W) (p : List ℕ) (start : ℕ)
      → length p ≤ fuel
      → IsDelivered w p start (write_from writer fuel w p start)
  unfolding write_from
  write_from-IsDelivered fuel w [] start h = record {
    outcome = record { total = start; ending = Ending.complete; connection = w };
    returned = refl;
    sent = 0;
    counted = omega arith;
    bounded = omega arith;
    received = sym (append-nil (writer.taken w));
    all_or_error = inr refl;
  }
  write_from-IsDelivered zero w (b ∷ p) start h = absurd (omega arith)
  write_from-IsDelivered (suc fuel) w (b ∷ p) start h =
      let r = writer.write w (b ∷ p) in
      elim (Bool-cases r.failure) [
        | inl e ↦ record {
          outcome = record {
            total = start + r.sent;
            ending = Ending.write_error;
            connection = r.connection;
          };
          returned = rw e refl;
          sent = r.sent;
          counted = refl;
          bounded = writer.sent_le w (b ∷ p);
          received = writer.taken_next w (b ∷ p);
          all_or_error = inl (λ x. cc);
        }
        | inr e ↦ elim (Bool-cases (nat_beq r.sent 0)) [
          | inl f ↦ record {
            outcome = record {
              total = start + r.sent;
              ending = Ending.no_progress;
              connection = r.connection;
            };
            returned = rw (e, f) refl;
            sent = r.sent;
            counted = refl;
            bounded = writer.sent_le w (b ∷ p);
            received = writer.taken_next w (b ∷ p);
            all_or_error = inl (λ x. cc);
          }
          | inr f ↦
              let n = writer.sent_le w (b ∷ p) in
              let left = length-drop r.sent (b ∷ p) in
              let rest = drop r.sent (b ∷ p) in
              let d =
                write_from-IsDelivered fuel r.connection rest (start + r.sent)
                  (ground (arith, h, n, f, left)) in
              record {
                outcome = d.outcome;
                returned = rw (e, f) d.returned;
                sent = r.sent + d.sent;
                counted = omega (arith, d.counted);
                bounded = omega (arith, d.bounded, left, n);
                received =
                    d.received
                    ∙ ap (λ (x : List ℕ). x ++ take d.sent rest) (writer.taken_next w (b ∷ p))
                    ∙ append_assoc (writer.taken w) (take r.sent (b ∷ p)) (take d.sent rest)
                    ∙ ap (λ (x : List ℕ). writer.taken w ++ x) (take-add r.sent d.sent (b ∷ p));
                all_or_error = elim d.all_or_error [
                  | inl x ↦ inl x
                  | inr x ↦ inr (omega (arith, x, left, n))
                ];
              }
        ]
      ]

  -- Writing a command ends, whatever pieces the connection takes: the count that is returned is at most
  -- the length of the command, the connection has taken exactly that many of its first bytes, in order,
  -- and either the loop ends with an error or all of the command was taken.
  pub write_all-IsDelivered : (w : W) (p : List ℕ) → IsDelivered w p 0 (write_all writer w p)
  unfolding write_all
  write_all-IsDelivered w p = write_from-IsDelivered (length p) w p 0 (omega arith)
