-- ===== src/Heos/Frames/Roundtrip.antt =====
-- internal/heos/protocol.go: a frame is read exactly when it was written so.
use heos_control.Prelude.{
  ℕ, ◌+◌, ◌≤◌, ◌<◌, ◌≡◌, ◌↔◌, inl, inr, refl, sym, ap, ◌∙◌, true, false, List, [], ◌∷◌, ◌++◌, arith,
  Bool-cases, nat_beq, length, length-append, all,
}
use mathlib.Core.List.{append_assoc, append-nil}
use heos_control.Heos.Frames.{frame, ends_cr, init, read_from, read_frame, terminated, is_plain}

-- The payloads that the wire carries.
pub record IsPayload (limit : ℕ) (p : List ℕ) : Type 0 where
  pub some_bytes : 0 < length p
  pub plain : all is_plain p ≡ true
  pub fits : length p ≤ limit

ends_cr-append : (bs : List ℕ) (b : ℕ) → ends_cr (bs ++ b ∷ []) ≡ nat_beq b 13
unfolding ends_cr
ends_cr-append [] b = refl
ends_cr-append (c ∷ []) b = refl
ends_cr-append (c ∷ d ∷ bs) b = ends_cr-append (d ∷ bs) b

init-append : (bs : List ℕ) (b : ℕ) → init (bs ++ b ∷ []) ≡ bs
unfolding init
init-append [] b = refl
init-append (c ∷ []) b = refl
init-append (c ∷ d ∷ bs) b = ap (λ (x : List ℕ). c ∷ x) (init-append (d ∷ bs) b)

plain-ends_cr : (bs : List ℕ) → all is_plain bs ≡ true → ends_cr bs ≡ false
unfolding ends_cr all
plain-ends_cr [] h = refl
plain-ends_cr (b ∷ []) h = ground (arith, h)
plain-ends_cr (b ∷ c ∷ bs) h = plain-ends_cr (c ∷ bs) (ground (arith, h))

all_cons :
    (b : ℕ) (bs : List ℕ)
    → all is_plain (b ∷ bs) ≡ true
    → (is_plain b ≡ true) × (all is_plain bs ≡ true)
unfolding all
all_cons b bs h = (ground (arith, h), ground (arith, h))

all-append :
    (bs : List ℕ) (b : ℕ)
    → all is_plain bs ≡ true
    → is_plain b ≡ true
    → all is_plain (bs ++ b ∷ []) ≡ true
unfolding all
all-append [] b h k = ground (arith, k)
all-append (c ∷ bs) b h k = ground (arith, h, k, all-append bs b (ground (arith, h)) k)

-- Reading on from a plain prefix over the rest of the payload.
read_from-payload :
    (limit : ℕ) (sofar p rest : List ℕ)
    → all is_plain sofar ≡ true
    → all is_plain p ≡ true
    → 0 < length sofar + length p
    → length sofar + length p ≤ limit
    → read_from limit sofar (terminated p rest) ≡ frame (sofar ++ p) rest
unfolding read_from
read_from-payload limit sofar [] rest s p n h = ground (
  arith,
  plain-ends_cr sofar s,
  ends_cr-append sofar 13,
  init-append sofar 13,
  append-nil sofar,
  length-append sofar (13 ∷ []),
)
read_from-payload limit sofar (b ∷ p) rest s q n h =
    let plain = all_cons b p q in
    let more =
      read_from-payload limit (sofar ++ b ∷ []) p rest (all-append sofar b s plain.0) plain.1
        (omega (arith, length-append sofar (b ∷ [])))
        (omega (arith, length-append sofar (b ∷ []))) in
    ground (arith, plain.0, plain-ends_cr sofar s, more, append_assoc sofar (b ∷ []) p)

-- After a carriage return only the line feed ends the frame.
read_from-cr :
    (limit : ℕ) (s input q rest : List ℕ)
    → read_from limit (s ++ 13 ∷ []) input ≡ frame q rest
    → (input ≡ 10 ∷ rest) × (q ≡ s) × (0 < length s)
unfolding read_from
read_from-cr limit s [] q rest h = absurd (ground (arith, h))
read_from-cr limit s (b ∷ input) q rest h = elim (Bool-cases (nat_beq b 10)) [
  | inl e ↦ (
    ground (arith, h, e),
    ground (arith, h, e, init-append s 13),
    ground (arith, h, e, length-append s (13 ∷ [])),
  )
  | inr e ↦ absurd (ground (arith, h, e, ends_cr-append s 13))
]

read_from-frame :
    (limit : ℕ) (s input q rest : List ℕ)
    → all is_plain s ≡ true
    → length s ≤ limit
    → read_from limit s input ≡ frame q rest
    → (p : List ℕ) × (input ≡ terminated p rest) × (q ≡ s ++ p) × IsPayload limit q
unfolding read_from
read_from-frame limit s [] q rest a n h = absurd (ground (arith, h))
read_from-frame limit s (b ∷ input) q rest a n h = elim (Bool-cases (nat_beq b 10)) [
  | inl e ↦ absurd (ground (arith, h, e, plain-ends_cr s a))
  | inr e ↦ elim (Bool-cases (nat_beq b 13)) [
    | inl f ↦
        let r = read_from-cr limit s input q rest (ground (arith, h, f, plain-ends_cr s a)) in
        (
          [],
          ground (arith, f, r.0),
          r.1 ∙ sym (append-nil s),
          rw r.1 record { some_bytes = r.2; plain = a; fits = n },
        )
    | inr f ↦
        let r =
          read_from-frame limit (s ++ b ∷ []) input q rest (all-append s b a (ground (arith, e, f)))
            (ground (arith, h, e, f, plain-ends_cr s a, length-append s (b ∷ [])))
            (ground (arith, h, e, f, plain-ends_cr s a)) in
        (b ∷ r.0, ap (λ (x : List ℕ). b ∷ x) r.1, r.2 ∙ append_assoc s (b ∷ []) r.0, r.3)
  ]
]

-- A frame is read from the wire exactly when the wire holds its payload, a carriage return and a line
-- feed, and the payload has at least one byte, no line end inside and no more bytes than the limit;
-- what is left to read starts after the line feed.
pub read_frame-terminated :
    (limit : ℕ) (input p rest : List ℕ)
    → (read_frame limit input ≡ frame p rest) ↔ (IsPayload limit p × (input ≡ terminated p rest))
unfolding read_frame all
read_frame-terminated limit input p rest = (
  λ h. let r = read_from-frame limit [] input p rest refl (omega arith) h in (r.3, rw r.2 r.1),
  λ h. rw h.1 (
      read_from-payload limit [] p rest refl h.0.plain (omega (arith, h.0.some_bytes))
        (omega (arith, h.0.fits))),
)
