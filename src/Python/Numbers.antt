-- ===== src/Python/Numbers.antt =====
-- Python's floats and the text form of an integer.
-- A finite double is exactly m * 2 ^ e. `int(text)` takes ASCII digits, single underscores between
-- them, a sign and surrounding space; it refuses more than 4300 digits.
use Prim.Native.Char.{code}
use hass_tplink_easy_smart.Base.{
  ℕ, suc, ◌+◌, ◌-◌, ◌*◌, ◌/◌, ◌^◌, String, ◌≡◌, refl, Bool, true, false, ◌&&◌, ◌||◌, Option, none,
  some, ltb, leb, ◌==◌, if◌then◌else◌,
}
use hass_tplink_easy_smart.Base.Int.{ℤ, pos, negsuc, sub_ℕ}

pub data Float : Type 0 where
  finite : ℤ → ℤ → Float
  infinity : Bool → Float
  nan : Float

abbrev negate : ℕ → ℤ
negate n = sub_ℕ 0 n

-- The integer part of m * 2 ^ e, towards zero.
unfoldable pub truncate : ℤ → ℤ → ℤ
truncate (pos m) (pos e) = pos (m * 2 ^ e)
truncate (pos m) (negsuc e) = pos (m / 2 ^ suc e)
truncate (negsuc m) (pos e) = negate (suc m * 2 ^ e)
truncate (negsuc m) (negsuc e) = negate (suc m / 2 ^ suc e)

-- `str.isspace` of one code point, which is also what `\s` matches.
unfoldable pub is_space : ℕ → Bool
is_space c =
    (leb 9 c && leb c 13)
    || ((leb 28 c && leb c 32)
        || (c == 0x85
            || (c == 0xa0
                || (c == 0x1680
                    || ((leb 0x2000 c && leb c 0x200a)
                        || ((leb 0x2028 c && leb c 0x2029)
                            || (c == 0x202f || (c == 0x205f || c == 0x3000))))))))

is_digit : ℕ → Bool
is_digit c = leb b'0' c && leb c b'9'

-- Nothing but space is left.
only_space : String → Bool
only_space String.[] = true
only_space (String.◌∷◌ c s) = is_space (code c) && only_space s

finish : ℕ → ℕ → Option ℕ
finish count value = if ltb 4300 count then none else some value

mutual
  -- After a digit: a digit, an underscore with a digit behind it, or the end.
  digits_from : ℕ → ℕ → String → Option ℕ
  digits_from count value String.[] = finish count value
  digits_from count value (String.◌∷◌ c s) = elim (is_digit (code c)) [
    | true ↦ digits_from (count + 1) (value * 10 + (code c - b'0')) s
    | false ↦ elim (code c == b'_') [
      | true ↦ digit_from count value s
      | false ↦ elim (is_space (code c) && only_space s) [
        | true ↦ finish count value
        | false ↦ none
      ]
    ]
  ]

  digit_from : ℕ → ℕ → String → Option ℕ
  digit_from count value String.[] = none
  digit_from count value (String.◌∷◌ c s) = elim (is_digit (code c)) [
    | true ↦ digits_from (count + 1) (value * 10 + (code c - b'0')) s
    | false ↦ none
  ]

signed : (ℕ → ℤ) → String → Option ℤ
signed sign s = elim (digit_from 0 0 s) [ none ↦ none | some n ↦ some (sign n) ]

-- `int(text)`; `none` is `ValueError`.
unfoldable pub parse_int : String → Option ℤ
unfolding is_space is_digit only_space finish digits_from digit_from signed
parse_int String.[] = none
parse_int (String.◌∷◌ c s) =
    let rest = parse_int s in
    if is_space (code c)
    then rest
    else if code c == b'-'
    then signed negate s
    else if code c == b'+'
    then signed pos s
    else signed pos (String.◌∷◌ c s)

parse_int-negative : parse_int " -1_0 " ≡ some (negsuc 9)
unfolding parse_int
parse_int-negative = refl

parse_int-refused : parse_int "1__0" ≡ none
unfolding parse_int
parse_int-refused = refl
