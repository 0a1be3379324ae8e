-- ===== src/Api/Device/Laws.antt =====
-- The form in which `_normalize_mac` returns an address.
use Prim.Native.String.{◌++◌ as str_append}
use text.Mathlib.TextLemmas.{nil-append, cons-append}
use hass_tplink_easy_smart.Base.{
  ℕ, zero, suc, ◌+◌, ◌<◌, ◌≡◌, refl, ap, String, Option, none, some, List, [], ◌∷◌, ◌++◌, arith,
  ◌∙◌,
}
use hass_tplink_easy_smart.Base.Lists.{length, get_or, All}
use hass_tplink_easy_smart.Api.Query.{digit_texts}
use hass_tplink_easy_smart.Api.Device.{hex_value, also, compact, digit_text, pairs, normalize_mac}
use Prim.Native.Char.{code}

also-append : (o : Option ℕ) (xs ys : List ℕ) → also o (xs ++ ys) ≡ also o xs ++ ys
unfolding also
also-append none xs ys = refl
also-append (some d) xs ys = refl

compact-append : (s t : String) → compact (str_append s t) ≡ compact s ++ compact t
unfolding compact
compact-append String.[] t = ap compact (nil-append t)
compact-append (String.◌∷◌ c s) t =
    ap compact (cons-append c s t)
    ∙ ap (also (hex_value (code c))) (compact-append s t)
    ∙ also-append (hex_value (code c)) (compact s) (compact t)

-- The texts are those of the digits from `k` on.
abbrev Each : ℕ → List String → Type 0
Each k [] = Unit
Each k (t ∷ texts) = (compact t ≡ k ∷ []) × Each (suc k) texts

digit_texts-Each : Each 0 digit_texts
unfolding compact hex_value also
digit_texts-Each = ground arith

Each-get_or :
    (k i : ℕ) (texts : List String)
    → Each k texts
    → i < length texts
    → compact (get_or texts i "") ≡ (k + i) ∷ []
Each-get_or k i [] e h = absurd (omega arith)
Each-get_or k zero (t ∷ texts) e h = e.0 ∙ ap (λ n. n ∷ []) (omega arith)
Each-get_or k (suc i) (t ∷ texts) e h =
    Each-get_or (suc k) i texts e.1 (omega arith) ∙ ap (λ n. n ∷ []) (omega arith)

compact-digit_text : (d : ℕ) → d < 16 → compact (digit_text d) ≡ d ∷ []
unfolding digit_text
compact-digit_text d h =
    Each-get_or 0 d digit_texts digit_texts-Each h ∙ ap (λ n. n ∷ []) (omega arith)

compact-pairs : (digits : List ℕ) → All (λ d. d < 16) digits → compact (pairs digits) ≡ digits
unfolding pairs compact hex_value also
compact-pairs [] h = refl
compact-pairs (a ∷ []) h = compact-digit_text a h.0
compact-pairs (a ∷ b ∷ []) h =
    compact-append (digit_text a) (digit_text b)
    ∙ rw (compact-digit_text a h.0, compact-digit_text b h.1.0) refl
compact-pairs (a ∷ b ∷ c ∷ digits) h =
    let tail = pairs (c ∷ digits) in
    compact-append (digit_text a) (str_append (digit_text b) (str_append ":" tail))
    ∙ rw
        (
          compact-append (digit_text b) (str_append ":" tail),
          compact-append ":" tail,
          compact-digit_text a h.0,
          compact-digit_text b h.1.0,
          compact-pairs (c ∷ digits) h.1.1,
        )
        refl

hex_value-lt : (c : ℕ) {d : ℕ} → hex_value c ≡ some d → d < 16
unfolding hex_value
hex_value-lt c h = ground arith

also-lt :
    (o : Option ℕ) (digits : List ℕ)
    → ((d : ℕ) → o ≡ some d → d < 16)
    → All (λ d. d < 16) digits
    → All (λ d. d < 16) (also o digits)
unfolding also
also-lt none digits h a = a
also-lt (some d) digits h a = (h d refl, a)

compact-lt : (s : String) → All (λ d. d < 16) (compact s)
unfolding compact
compact-lt String.[] = tt
compact-lt (String.◌∷◌ c s) =
    also-lt (hex_value (code c)) (compact s) (λ d e. hex_value-lt (code c) e) (compact-lt s)

-- An address that is returned is in normal form: normalizing it again changes nothing.
pub normalize_mac_idem :
    (value : Option String) {mac : String}
    → normalize_mac value ≡ some mac
    → normalize_mac (some mac) ≡ some mac
unfolding normalize_mac
normalize_mac_idem none h = cc
normalize_mac_idem (some value) {mac} h =
    let again = compact-pairs (compact value) (compact-lt value) in ground arith
