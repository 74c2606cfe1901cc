-- ===== src/Heos/Numbers.antt =====
-- The parts of Go's strconv that the decoders call: `Atoi` and `ParseUint(s, 10, 64)`.
use Prim.Native.Char.{code}
use Prim.Native.String.{◌++◌}
use heos_control.Prelude.{
  zero, List, [], ◌∷◌, ◌/◌, ◌%◌, ℕ, suc, ◌+◌, ◌*◌, ◌-◌, ◌^◌, String, ◌&&◌, Option, none, some, ◌≡◌,
  refl, ltb, nat_beq, leb, if◌then◌else◌, ℤ, pos, negsuc,
}

-- The value of a run of digits, read after `n`.
decimal : ℕ → String → Option ℕ
decimal n String.[] = some n
decimal n (String.◌∷◌ c s) =
    let d = code c in
    let rest = decimal (n * 10 + (d - b'0')) s in if leb b'0' d && leb d b'9' then rest else none

-- At least one digit.
digits : String → Option ℕ
unfolding decimal
digits String.[] = none
digits (String.◌∷◌ c s) = decimal 0 (String.◌∷◌ c s)

abbrev below : ℕ → Option ℕ → Option ℕ
below bound none = none
below bound (some n) = if ltb n bound then some n else none

unfoldable pub parse_uint : String → Option ℕ
unfolding digits
parse_uint s = below (2 ^ 64) (digits s)

abbrev positive : Option ℕ → Option ℤ
positive none = none
positive (some n) = some (pos n)

abbrev negated : Option ℕ → Option ℤ
negated none = none
negated (some n) = elim n [ ℕ.zero ↦ some (pos 0) | suc m ↦ some (negsuc m) ]

unfoldable pub atoi : String → Option ℤ
unfolding digits
atoi String.[] = none
atoi (String.◌∷◌ c s) =
    if nat_beq (code c) b'-'
    then negated (below (2 ^ 63 + 1) (digits s))
    else if nat_beq (code c) b'+'
    then positive (below (2 ^ 63) (digits s))
    else positive (below (2 ^ 63) (digits (String.◌∷◌ c s)))

atoi_examples : (atoi "-12" ≡ some (negsuc 11)) × (atoi "+7" ≡ some (pos 7)) × (atoi "1x" ≡ none)
unfolding atoi
atoi_examples = (refl, refl, refl)

-- `strconv.Itoa`: the digits from the last one on, on fuel for one more than the number.
text_at : List String → ℕ → String
text_at [] n = ""
text_at (s ∷ ss) zero = s
text_at (s ∷ ss) (suc n) = text_at ss n

digit : ℕ → String
unfolding text_at
digit n = text_at ("0" ∷ "1" ∷ "2" ∷ "3" ∷ "4" ∷ "5" ∷ "6" ∷ "7" ∷ "8" ∷ "9" ∷ []) n

decimal_text : ℕ → ℕ → String → String
unfolding digit
decimal_text zero n tail = tail
decimal_text (suc fuel) n tail =
    let rest = decimal_text fuel (n / 10) (digit (n % 10) ++ tail) in
    if ltb n 10 then digit n ++ tail else rest

unfoldable pub itoa : ℤ → String
unfolding decimal_text
itoa (pos n) = decimal_text (suc n) n ""
itoa (negsuc n) = "-" ++ decimal_text (suc (suc n)) (suc n) ""

itoa_examples : (itoa (pos 0) ≡ "0") × (itoa (pos 100) ≡ "100") × (itoa (negsuc 41) ≡ "-42")
unfolding itoa
itoa_examples = (refl, refl, refl)
