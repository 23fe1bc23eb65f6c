-- ===== src/Dialer/Text.antt =====
-- The text functions that backend/src/dialer uses: `trim`, `toLowerCase` and the pattern of an
-- E.164 number, `/^\+[1-9]\d{1,14}$/`. The column names that are looked for have only letters whose
-- one other case is the ASCII capital, so lower case is taken of ASCII letters alone.
use Prim.Native.String
use Prim.Native.Char.{code}
use Prim.Native.String.{len, slice}
use text.Mathlib.Text.{starts_with}
use Prim.Native.Nat.{◌%◌, suc}
use mathlib.Core.List.{[], ◌∷◌}
use callnow.Base.{
  ℕ, Bool, Option, String, if◌then◌else◌, eqb, false, leb, some, true, ◌&&◌, map_option, none, ◌+◌,
  ◌==◌, ◌||◌, ltb, List, ◌/◌, zero, ◌-◌,
}
use Prim.Native.String.{String}

-- white space and line ends, as `trim` removes them
abbrev pub is_space : ℕ → Bool
is_space c =
    eqb c 9
    || eqb c 10
    || eqb c 11
    || eqb c 12
    || eqb c 13
    || eqb c 32
    || eqb c 160
    || eqb c 5760
    || (leb 8192 c && leb c 8202)
    || eqb c 8232
    || eqb c 8233
    || eqb c 8239
    || eqb c 8287
    || eqb c 12288
    || eqb c 65279

unfoldable pub trim_start : String → String
trim_start String.[] = ""
trim_start (String.◌∷◌ c s) =
    let rest = trim_start s in if is_space (code c) then rest else String.◌∷◌ c s

unfoldable pub trim_end : String → String
trim_end String.[] = ""
trim_end (String.◌∷◌ c s) =
    if is_space (code c) && trim_end s == "" then "" else String.◌∷◌ c (trim_end s)

unfoldable pub trim : String → String
unfolding trim_start trim_end
trim s = trim_end (trim_start s)

-- A text in lower case equals a word exactly when its letters do, one by one.
lower : ℕ → ℕ
lower c = if leb 65 c && leb c 90 then c + 32 else c

unfoldable pub lower_equals : String → String → Bool
unfolding lower
lower_equals String.[] String.[] = true
lower_equals String.[] (String.◌∷◌ d w) = false
lower_equals (String.◌∷◌ c s) String.[] = false
lower_equals (String.◌∷◌ c s) (String.◌∷◌ d w) = eqb (lower (code c)) (code d) && lower_equals s w

abbrev pub is_digit : ℕ → Bool
is_digit c = leb b'0' c && leb c b'9'

-- how many digits a text of digits has; none for any other text
unfoldable pub digit_count : String → Option ℕ
digit_count String.[] = some 0
digit_count (String.◌∷◌ c s) =
    if is_digit (code c) then map_option (λ n. n + 1) (digit_count s) else none

-- `\d{1,14}$`
abbrev pub between : Option ℕ → Bool
between none = false
between (some n) = leb 1 n && leb n 14

after_plus : String → Bool
unfolding digit_count
after_plus String.[] = false
after_plus (String.◌∷◌ c s) = leb b'1' (code c) && leb (code c) b'9' && between (digit_count s)

unfoldable pub is_e164 : String → Bool
unfolding after_plus
is_e164 String.[] = false
is_e164 (String.◌∷◌ c s) = eqb (code c) b'+' && after_plus s

-- `s.replace('Bearer ', '')`: the first occurrence goes.
unfoldable pub strip_bearer : String → String
strip_bearer String.[] = ""
strip_bearer (String.◌∷◌ c s) =
    if starts_with (String.◌∷◌ c s) "Bearer "
    then slice (String.◌∷◌ c s) 7 (len (String.◌∷◌ c s))
    else String.◌∷◌ c (strip_bearer s)

-- `s.includes(q)`, and `contains` of a query
unfoldable pub includes_text : String → String → Bool
includes_text q String.[] = q == ""
includes_text q (String.◌∷◌ c s) = starts_with (String.◌∷◌ c s) q || includes_text q s

-- `s.length`
unfoldable pub utf16_length : String → ℕ
utf16_length String.[] = 0
utf16_length (String.◌∷◌ c s) = (if ltb (code c) 65536 then 1 else 2) + utf16_length s

-- a text as its code points
unfoldable pub codes : String → List ℕ
codes String.[] = []
codes (String.◌∷◌ c s) = code c ∷ codes s

-- `String(n)`: the decimal digits, found from the last one on. The fuel is the number plus one, and a
-- number has no more digits than that.
decimal_digits : ℕ → ℕ → List ℕ → List ℕ
decimal_digits zero n later = later
decimal_digits (suc fuel) n later =
    let digits = (b'0' + n % 10) ∷ later in
    elim (ltb n 10) [ true ↦ digits | false ↦ decimal_digits fuel (n / 10) digits ]

unfoldable pub decimal : ℕ → List ℕ
unfolding decimal_digits
decimal n = decimal_digits (n + 1) n []

-- `String(n)`, from the code points of its decimal_text
unfoldable pub decimal_text : List ℕ → String
decimal_text [] = ""
decimal_text (d ∷ ds) = String.◌++◌ (slice "0123456789" (d - b'0') (d - b'0' + 1)) (decimal_text ds)
