-- ===== src/Tests/Wires.antt =====
-- A frame on the wire, and a connection that takes three bytes at a time.
use heos_control.Prelude.{
  ℕ, ◌≡◌, ◌↔◌, ◌≤◌, refl, ◌++◌, List, [], ◌∷◌, false, arith, length, take, leb, if◌then◌else◌,
}
use heos_control.Heos.Frames.{Frame, frame, read_frame, terminated}
use heos_control.Heos.Frames.Roundtrip.{IsPayload, read_frame-terminated}
use heos_control.Heos.Writer.{Written, Writer, write_all}
use heos_control.Heos.Writer.Laws.{IsDelivered, write_all-IsDelivered}

abbrev payload : List ℕ
payload = 123 ∷ 125 ∷ []

read_back : read_frame 100 (terminated payload (7 ∷ [])) ≡ frame payload (7 ∷ [])
unfolding read_frame
read_back = refl

too_short : read_frame 1 (terminated payload []) ≡ Frame.too_long
unfolding read_frame
too_short = refl

read_frame-terminated_example :
    (read_frame 100 (terminated payload (7 ∷ [])) ≡ frame payload (7 ∷ []))
    ↔ (IsPayload 100 payload × (terminated payload (7 ∷ []) ≡ terminated payload (7 ∷ [])))
read_frame-terminated_example =
    read_frame-terminated 100 (terminated payload (7 ∷ [])) payload (7 ∷ [])

abbrev piece : List ℕ → ℕ
piece p = if leb 3 (length p) then 3 else length p

abbrev take_three : List ℕ → List ℕ → Written (List ℕ)
take_three w p = record { sent = piece p; failure = false; connection = w ++ take (piece p) p }

piece-le : (p : List ℕ) → piece p ≤ length p
piece-le p = ground arith

abbrev slow : Writer (List ℕ)
slow = record {
  write = take_three;
  taken = λ w. w;
  sent_le = λ w p. piece-le p;
  taken_next = λ w p. refl;
}

write_all-IsDelivered_example :
    IsDelivered slow [] (1 ∷ 2 ∷ 3 ∷ 4 ∷ []) 0 (write_all slow [] (1 ∷ 2 ∷ 3 ∷ 4 ∷ []))
write_all-IsDelivered_example = write_all-IsDelivered slow [] (1 ∷ 2 ∷ 3 ∷ 4 ∷ [])
