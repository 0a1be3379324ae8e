-- ===== src/Core/Variables.antt =====
-- `_get_variables`, `_to_list`, `_to_dict`, `_convert_value` and `_get_variable`.
use Prim.Native.Char.{code}
use Prim.Native.String.{◌++◌ as str_append}
use hass_tplink_easy_smart.Core.Regex.{
  Position, Matcher, start, size, char_if, ◌then_match◌, or_match, optional, many, some_of,
  many_lazy, capture, look_ahead, at_end, literal, same_ignoring_case, word_boundary, find_all,
}
use hass_tplink_easy_smart.Base.{
  ℕ, suc, ◌≡◌, refl, String, Bool, true, false, not, ◌&&◌, ◌||◌, Option, none, some, List, [], ◌∷◌,
  map, leb, ◌==◌, if◌then◌else◌,
}
use hass_tplink_easy_smart.Base.Assoc.{lookup, insert, string_eq}
use hass_tplink_easy_smart.Python.{
  Value, nil, str, int, list, Items, no_items, item, of_list, Result, ok, err, value_error,
  is_space, parse_int,
}

-- What the client takes from libraries: `json5.loads` (`none` is its `ValueError`), `str()` of a
-- value that is no text, Unicode's word characters above ASCII, and the codecs by which it decodes
-- bytes (`none` is `UnicodeDecodeError`).
pub record Library : Type 0 where
  pub loads : String → Option Value
  pub str_of : Value → String
  pub unicode_word : ℕ → Bool
  pub utf8 : List ℕ → Option String
  pub gb18030 : List ℕ → Option String
  pub gb18030_replace : List ℕ → String

-- `text.strip(chars)`
strip_left : (ℕ → Bool) → String → String
strip_left test String.[] = String.[]
strip_left test (String.◌∷◌ c s) =
    let rest = strip_left test s in if test (code c) then rest else String.◌∷◌ c s

is_nothing : String → Bool
is_nothing String.[] = true
is_nothing (String.◌∷◌ _ _) = false

strip_right : (ℕ → Bool) → String → String
strip_right test String.[] = String.[]
strip_right test (String.◌∷◌ c s) =
    let rest = strip_right test s in
    if is_nothing rest && test (code c) then String.[] else String.◌∷◌ c rest

unfoldable pub strip : (ℕ → Bool) → String → String
unfolding strip_left strip_right is_nothing
strip test s = strip_right test (strip_left test s)

-- `text.split(",")`
split_from : String → String → List String
split_from piece String.[] = piece ∷ []
split_from piece (String.◌∷◌ c s) =
    if code c == b','
    then piece ∷ split_from String.[] s
    else split_from (str_append piece (String.◌∷◌ c String.[])) s

same : ℕ → ℕ → Bool
same c d = c == d

space : Matcher
space = char_if is_space

any_char : Matcher
any_char = char_if (λ c. true)

-- `_SCRIPT_REGEX`
script_regex : Matcher
unfolding same any_char space
script_regex =
    literal same "<"
    then_match literal same_ignoring_case "script"
    then_match optional (space then_match many (char_if (λ c. not (c == b'>'))))
    then_match literal same ">"
    then_match capture (many_lazy any_char)
    then_match literal same "</"
    then_match literal same_ignoring_case "script"
    then_match literal same ">"

name_char : ℕ → Bool
name_char c =
    (leb b'a' c && leb c b'z')
    || ((leb b'A' c && leb c b'Z') || ((leb b'0' c && leb c b'9') || c == b'_'))

-- `_VARIABLES_REGEX`
variables_regex : (ℕ → Bool) → Matcher
unfolding same any_char space name_char
variables_regex unicode_word =
    word_boundary unicode_word
    then_match literal same "var"
    then_match some_of space
    then_match capture (some_of (char_if name_char))
    then_match many space
    then_match literal same "="
    then_match many space
    then_match capture (many_lazy any_char)
    then_match look_ahead (
        or_match (literal same ";") (
          or_match
            (optional (char_if (λ c. c == 13))
              then_match char_if (λ c. c == 10)
              then_match many space
              then_match word_boundary unicode_word
              then_match literal same "var"
              then_match some_of space)
            at_end))

-- `_ARRAY_VALUES_REGEX`, to the end of the text as `fullmatch` asks.
array_regex : Matcher
unfolding same space
array_regex =
    many space
    then_match literal same "new"
    then_match many space
    then_match literal same "Array"
    then_match many space
    then_match literal same "("
    then_match capture (many (char_if (λ c. not (c == b')'))))
    then_match literal same ")"
    then_match at_end

-- The body of the inner loop of `_get_variables`.
store : List String → List (String × String) → List (String × String)
store (variable ∷ value ∷ []) result = insert variable (strip is_space value) result
store _ result = result

store_all : List (List String) → List (String × String) → List (String × String)
store_all [] result = result
store_all (groups ∷ matches) result = store_all matches (store groups result)

variables_of : (ℕ → Bool) → List (List String) → List (String × String) → List (String × String)
unfolding store_all store variables_regex
variables_of unicode_word [] result = result
variables_of unicode_word ((script ∷ []) ∷ scripts) result =
    variables_of unicode_word scripts (
      store_all (find_all (suc (size script)) (variables_regex unicode_word) (start script)) result)
variables_of unicode_word (_ ∷ scripts) result = variables_of unicode_word scripts result

unfoldable pub get_variables : Library → String → List (String × String)
unfolding variables_of script_regex
get_variables library page =
    variables_of library.unicode_word (find_all (suc (size page)) script_regex (start page)) []

array_item_char : ℕ → Bool
array_item_char c =
    c == b' ' || (c == b',' || (c == 13 || (c == 10 || (c == 9 || (c == b'"' || c == 39)))))

constructor_items : String → List Value
unfolding split_from array_item_char
constructor_items String.[] = []
constructor_items (String.◌∷◌ c s) =
    map (λ piece. str (strip array_item_char piece)) (split_from String.[] (String.◌∷◌ c s))

-- `yield item`, `yield str(item)`, or nothing for `None`.
literal_items : Library → Items → List Value
literal_items library no_items = []
literal_items library (item nil items) = literal_items library items
literal_items library (item (str s) items) = str s ∷ literal_items library items
literal_items library (item v items) = str (library.str_of v) ∷ literal_items library items

items_of : Library → Option Value → List Value
unfolding literal_items
items_of library (some (list items)) = literal_items library items
items_of library _ = []

constructor_or_literal : Library → String → Option Position → List Value
unfolding constructor_items items_of
constructor_or_literal library text none = items_of library (library.loads text)
constructor_or_literal library text (some q) = elim q.groups [
  | [] ↦ []
  | items ∷ _ ↦ constructor_items items
]

unfoldable pub list_of : Library → String → List Value
unfolding constructor_or_literal array_regex
list_of library text = constructor_or_literal library text (array_regex (start text) some)

unfoldable pub dict_of : Library → String → Result Value
dict_of library String.[] = ok nil
dict_of library (String.◌∷◌ c s) = elim (library.loads (String.◌∷◌ c s)) [
  | none ↦ err value_error
  | some v ↦ ok v
]

pub data VariableType : Type 0 where
  str_type int_type list_type dict_type : VariableType

quote : ℕ → Bool
quote c = c == 39 || c == b'"'

unfoldable pub convert_value : Library → Option String → VariableType → Result Value
unfolding quote
convert_value library none _ = ok nil
convert_value library (some value) str_type = ok (str (strip quote value))
convert_value library (some value) int_type = elim (parse_int value) [
  | none ↦ err value_error
  | some z ↦ ok (int z)
]
convert_value library (some value) list_type = ok (list (of_list (list_of library value)))
convert_value library (some value) dict_type = dict_of library value

-- `if not variable_str: return None`
present : Option String → Option String
present (some (String.◌∷◌ c s)) = some (String.◌∷◌ c s)
present _ = none

unfoldable pub get_variable : Library → String → String → VariableType → Result Value
unfolding present
get_variable library page name variable_type =
    convert_value library (present (lookup name (get_variables library page))) variable_type

abbrev plain : Library
plain = record {
  loads = λ s. none;
  str_of = λ v. "";
  unicode_word = λ c. false;
  utf8 = λ bytes. none;
  gb18030 = λ bytes. none;
  gb18030_replace = λ bytes. "";
}

-- A login page, a page of settings, and an array that a newline ends.
variables_of_page :
    get_variables plain
      "<SCRIPT type='x'>\nvar led = 1;var  a=new Array(3, 4)\r\nvar b = 2</script><script>var logonInfo = new Array(\n0, 0);</script>"
    ≡ ("led", "1") ∷ ("a", "new Array(3, 4)") ∷ ("b", "2") ∷ ("logonInfo", "new Array(\n0, 0)") ∷ []
unfolding get_variables insert find_all literal char_if same_ignoring_case is_space many size
    capture many_lazy word_boundary look_ahead at_end strip
variables_of_page = refl

array_items : list_of plain "new Array(\n0, 'a')" ≡ str "0" ∷ str "a" ∷ []
unfolding list_of many size char_if is_space literal capture at_end strip
array_items = refl
