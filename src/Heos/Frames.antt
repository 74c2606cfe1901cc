-- ===== src/Heos/Frames.antt =====
-- internal/heos/protocol.go: frames on the wire. Bytes are numbers; the reader is the list of the
-- bytes that it still delivers before its end.
pub mod Roundtrip
use heos_control.Prelude.{
  ℕ, ◌≡◌, Bool, true, false, ◌&&◌, ◌||◌, not, List, [], ◌∷◌, ◌++◌, if◌then◌else◌, ltb, leb, nat_beq,
  is_empty, length,
}

-- A frame without its line end, and what the reader still holds; or the error.
pub data Frame : Type 0 where
  frame : List ℕ → List ℕ → Frame
  invalid too_long unterminated end_of_input : Frame

-- `len(frame) > 0 && frame[len(frame)-1] == '\r'`.
unfoldable pub ends_cr : List ℕ → Bool
ends_cr [] = false
ends_cr (b ∷ []) = nat_beq b 13
ends_cr (b ∷ c ∷ bs) = ends_cr (c ∷ bs)

-- `frame[:len(frame)-1]`.
unfoldable pub init : List ℕ → List ℕ
init [] = []
init (b ∷ []) = []
init (b ∷ c ∷ bs) = b ∷ init (c ∷ bs)

-- The loop of `readFrame`, with the bytes of the frame so far.
unfoldable pub read_from : ℕ → List ℕ → List ℕ → Frame
unfolding ends_cr init
read_from limit sofar [] = if is_empty sofar then end_of_input else unterminated
read_from limit sofar (b ∷ rest) =
    let more = read_from limit (sofar ++ b ∷ []) rest in
    if nat_beq b 10
    then (if ltb (length sofar) 2 || not (ends_cr sofar) then invalid else frame (init sofar) rest)
    else if ends_cr sofar
    then invalid
    else if leb limit (length sofar) && not (nat_beq b 13) || ltb limit (length sofar)
    then too_long
    else more

-- `readFrame`.
unfoldable pub read_frame : ℕ → List ℕ → Frame
unfolding read_from
read_frame limit input = read_from limit [] input

-- What ends a frame on the wire.
abbrev pub terminated : List ℕ → List ℕ → List ℕ
terminated payload rest = payload ++ 13 ∷ 10 ∷ rest

-- What a frame may hold: something, no line end inside, and no more than the limit.
abbrev pub is_plain : ℕ → Bool
is_plain b = not (nat_beq b 10) && not (nat_beq b 13)
