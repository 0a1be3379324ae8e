-- ===== src/Api/Query.antt =====
-- `_query`: `urllib.parse.urlencode` of the parameters in their order, repeated keys kept.
use Prim.Native.Char.{code}
use Prim.Native.String.{◌++◌ as str_append}
use hass_tplink_easy_smart.Base.{
  ℕ, zero, suc, ◌+◌, ◌/◌, ◌%◌, ◌≡◌, refl, String, Bool, ◌&&◌, ◌||◌, List, [], ◌∷◌, ltb, leb, ◌==◌,
  if◌then◌else◌,
}
use hass_tplink_easy_smart.Base.Int.{ℤ, pos, negsuc}
use hass_tplink_easy_smart.Base.Lists.{get_or}

-- A parameter's value: an integer or a text.
pub data Param : Type 0 where
  number : ℤ → Param
  text : String → Param

abbrev pub digit_texts : List String
digit_texts =
    "0" ∷ "1" ∷ "2" ∷ "3" ∷ "4" ∷ "5" ∷ "6" ∷ "7" ∷ "8" ∷ "9" ∷ "A" ∷ "B" ∷ "C" ∷ "D" ∷ "E" ∷ "F"
    ∷ []

-- The decimal digits of `n`, ahead of `rest`; `n` rounds are more than it has digits.
decimal_from : ℕ → ℕ → String → String
decimal_from zero n rest = rest
decimal_from (suc fuel) n rest =
    let last = str_append (get_or digit_texts (n % 10) "") rest in
    let more = decimal_from fuel (n / 10) last in if ltb n 10 then last else more

-- `str(number)`
unfoldable pub str_of_int : ℤ → String
unfolding decimal_from
str_of_int (pos n) = decimal_from (suc n) n ""
str_of_int (negsuc n) = str_append "-" (decimal_from (suc (suc n)) (suc n) "")

-- The bytes of one character in UTF-8.
utf8_bytes : ℕ → List ℕ
utf8_bytes c =
    if ltb c 0x80
    then c ∷ []
    else if ltb c 0x800
    then (0xc0 + c / 64) ∷ (0x80 + c % 64) ∷ []
    else if ltb c 0x10000
    then (0xe0 + c / 4096) ∷ (0x80 + c / 64 % 64) ∷ (0x80 + c % 64) ∷ []
    else (0xf0 + c / 262144) ∷ (0x80 + c / 4096 % 64) ∷ (0x80 + c / 64 % 64) ∷ (0x80 + c % 64) ∷ []

percent : List ℕ → String
percent [] = ""
percent (b ∷ bytes) = str_append "%" (
    str_append (get_or digit_texts (b / 16) "")
      (str_append (get_or digit_texts (b % 16) "") (percent bytes)))

-- `quote_plus` leaves letters, digits and `_.-~`, and writes a space as `+`.
is_safe : ℕ → Bool
is_safe c =
    (leb b'a' c && leb c b'z')
    || ((leb b'A' c && leb c b'Z')
        || ((leb b'0' c && leb c b'9') || (c == b'_' || (c == b'.' || (c == b'-' || c == b'~')))))

unfoldable pub quote_plus : String → String
unfolding utf8_bytes percent is_safe
quote_plus String.[] = ""
quote_plus (String.◌∷◌ c s) =
    let rest = quote_plus s in
    if is_safe (code c)
    then String.◌∷◌ c rest
    else if code c == b' '
    then str_append "+" rest
    else str_append (percent (utf8_bytes (code c))) rest

unfoldable pub param_text : Param → String
param_text (number z) = quote_plus (str_of_int z)
param_text (text s) = quote_plus s

pair_text : String × Param → String
unfolding param_text
pair_text (key, value) = str_append (quote_plus key) (str_append "=" (param_text value))

joined : String → List (String × Param) → String
unfolding pair_text
joined first [] = first
joined first (pair ∷ params) = str_append first (str_append "&" (joined (pair_text pair) params))

unfoldable pub query : List (String × Param) → String
unfolding joined pair_text
query [] = ""
query (pair ∷ params) = joined (pair_text pair) params

query-lag :
    query (
      ("groupId", number (pos 2))
      ∷ ("setapply", text "Add/Modify")
      ∷ ("portid", number (pos 15))
      ∷ ("portid", number (pos 4))
      ∷ [])
    ≡ "groupId=2&setapply=Add%2FModify&portid=15&portid=4"
unfolding query str_of_int quote_plus
query-lag = refl
