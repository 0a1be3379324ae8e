-- ===== src/Core/Regex.antt =====
-- Python's `re`, as far as `client/coreapi.py` uses it: backtracking matchers in the order in
-- which `re` tries its choices. A matcher gets the position and what has to match behind it.
use Prim.Native.Char.{code}
use hass_tplink_easy_smart.Base.{
  ℕ, zero, suc, ◌-◌, ◌+◌, String, Bool, false, not, ◌&&◌, ◌||◌, Option, none, some, List, [], ◌∷◌,
  ◌++◌, ltb, leb, ◌==◌, if◌then◌else◌,
}

-- The character before the position, the text behind it, and the groups captured so far.
pub record Position : Type 0 where
  pub before : Option ℕ
  pub rest : String
  pub groups : List String

abbrev pub Matcher : Type 0
Matcher = Position → (Position → Option Position) → Option Position

abbrev pub start : String → Position
start text = record { before = none; rest = text; groups = [] }

unfoldable pub size : String → ℕ
size String.[] = 0
size (String.◌∷◌ c s) = suc (size s)

unfoldable pub first_chars : ℕ → String → String
first_chars zero s = String.[]
first_chars (suc n) String.[] = String.[]
first_chars (suc n) (String.◌∷◌ c s) = String.◌∷◌ c (first_chars n s)

-- One character that passes a test.
unfoldable pub char_if : (ℕ → Bool) → Matcher
char_if test p next = elim p.rest [
  | String.[] ↦ none
  | String.◌∷◌ c s ↦
      if test (code c) then next (record p { before = some (code c); rest = s }) else none
]

infixr 40 ◌then_match◌
abbrev pub ◌then_match◌ : Matcher → Matcher → Matcher
◌then_match◌ m n p next = m p (λ q. n q next)

abbrev pub or_match : Matcher → Matcher → Matcher
or_match m n p next = elim (m p next) [ none ↦ n p next | some q ↦ some q ]

-- `(?:m)?`
abbrev pub optional : Matcher → Matcher
optional m p next = elim (m p next) [ none ↦ next p | some q ↦ some q ]

greedy : ℕ → Matcher → Matcher
greedy zero m p next = next p
greedy (suc fuel) m p next = elim (m p (λ q. greedy fuel m q next)) [
  | none ↦ next p
  | some q ↦ some q
]

lazy : ℕ → Matcher → Matcher
lazy zero m p next = next p
lazy (suc fuel) m p next = elim (next p) [ none ↦ m p (λ q. lazy fuel m q next) | some q ↦ some q ]

-- `m*`, `m+` and `m*?` of matchers of one character: no more rounds than characters are left.
unfoldable pub many : Matcher → Matcher
unfolding greedy
many m p next = greedy (size p.rest) m p next

abbrev pub some_of : Matcher → Matcher
some_of m = m then_match many m

unfoldable pub many_lazy : Matcher → Matcher
unfolding lazy
many_lazy m p next = lazy (size p.rest) m p next

-- `(m)`
unfoldable pub capture : Matcher → Matcher
unfolding size first_chars
capture m p next = m p λ q.
    next (record q { groups = q.groups ++ first_chars (size p.rest - size q.rest) p.rest ∷ [] })

-- `(?=m)`
unfoldable pub look_ahead : Matcher → Matcher
look_ahead m p next = elim (m p some) [ none ↦ none | some _ ↦ next p ]

-- `\Z`
unfoldable pub at_end : Matcher
at_end p next = elim p.rest [ String.[] ↦ next p | String.◌∷◌ _ _ ↦ none ]

-- The text itself, each character tested by `same`.
unfoldable pub literal : (ℕ → ℕ → Bool) → String → Matcher
literal same String.[] p next = next p
literal same (String.◌∷◌ c s) p next = char_if (same (code c)) p (λ q. literal same s q next)

-- Equality of code points under `re.IGNORECASE`, for a lower-case ASCII letter of a pattern: `re`
-- also equates i with U+0130 and U+0131, and s with U+017F.
unfoldable pub same_ignoring_case : ℕ → ℕ → Bool
same_ignoring_case c d =
    d == c
    || (d + 32 == c || ((c == b'i' && (d == 0x130 || d == 0x131)) || (c == b's' && d == 0x17f)))

-- `\w`: above ASCII it rests on the Unicode tables, which are a parameter.
unfoldable pub is_word : (ℕ → Bool) → ℕ → Bool
is_word unicode_word c =
    if ltb c 128
    then (leb b'a' c && leb c b'z')
      || ((leb b'A' c && leb c b'Z') || ((leb b'0' c && leb c b'9') || c == b'_'))
    else unicode_word c

word_before : (ℕ → Bool) → Option ℕ → Bool
word_before unicode_word none = false
word_before unicode_word (some c) = is_word unicode_word c

word_behind : (ℕ → Bool) → String → Bool
word_behind unicode_word String.[] = false
word_behind unicode_word (String.◌∷◌ c s) = is_word unicode_word (code c)

-- `\b`
unfoldable pub word_boundary : (ℕ → Bool) → Matcher
unfolding word_before word_behind is_word
word_boundary unicode_word p next =
    let b = word_before unicode_word p.before in
    let a = word_behind unicode_word p.rest in if (b && not a) || (a && not b) then next p else none

-- `regex.finditer(text)`, for a regex that matches no empty text: the groups of each match.
unfoldable pub find_all : ℕ → Matcher → Position → List (List String)
find_all zero m p = []
find_all (suc fuel) m p = elim (m p some) [
  | some q ↦ q.groups ∷ find_all fuel m (record q { groups = [] })
  | none ↦ elim p.rest [
    | String.[] ↦ []
    | String.◌∷◌ c s ↦ find_all fuel m (record p { before = some (code c); rest = s })
  ]
]
