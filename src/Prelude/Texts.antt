-- ===== src/Prelude/Texts.antt =====
-- Texts: what the source uses of `str`. Only the ASCII letters and digits have a case or a value.
use Prim.Native.Nat.{ℕ, zero, suc, ◌+◌, ◌-◌, ◌*◌, ◌/◌, ◌%◌}
use Prim.Native.Char.{Char, code}
use Prim.Native.String.{String, count, slice}
use Prim.Native.String
use mathlib.Core.Path.{◌≡◌, refl}
use mathlib.Core.Bool.{Bool, true, ◌&&◌, ◌||◌}
use mathlib.Core.Option.{Option, none, some}
use mathlib.Core.List.{List, [], ◌∷◌}
use devin_automation.Prelude.Tests.{if◌then◌else◌, leb, ltb}
use devin_automation.Prelude.Equality.{◌==◌, nat_eq, string_eq}

-- A text is falsy when it is empty.
abbrev pub is_blank : String → Bool
is_blank s = s == ""

-- `a or b` on texts.
abbrev pub or_text : String → String → String
or_text a b = if is_blank a then b else a

-- An f-string, or `"".join`.
unfoldable pub concat : List String → String
concat [] = ""
concat (s ∷ rest) = String.◌++◌ s (concat rest)

abbrev alphabet : List (Char × Char)
alphabet =
    ("A", "a")
    ∷ ("B", "b")
    ∷ ("C", "c")
    ∷ ("D", "d")
    ∷ ("E", "e")
    ∷ ("F", "f")
    ∷ ("G", "g")
    ∷ ("H", "h")
    ∷ ("I", "i")
    ∷ ("J", "j")
    ∷ ("K", "k")
    ∷ ("L", "l")
    ∷ ("M", "m")
    ∷ ("N", "n")
    ∷ ("O", "o")
    ∷ ("P", "p")
    ∷ ("Q", "q")
    ∷ ("R", "r")
    ∷ ("S", "s")
    ∷ ("T", "t")
    ∷ ("U", "u")
    ∷ ("V", "v")
    ∷ ("W", "w")
    ∷ ("X", "x")
    ∷ ("Y", "y")
    ∷ ("Z", "z")
    ∷ []

lower_char : List (Char × Char) → Char → Char
lower_char [] c = c
lower_char ((big, small) ∷ rest) c = if code big == code c then small else lower_char rest c

-- `str.lower`
unfoldable pub lower : String → String
unfolding lower_char
lower String.[] = ""
lower (String.◌∷◌ c s) = String.◌∷◌ (lower_char alphabet c) (lower s)

upper_char : List (Char × Char) → Char → Char
upper_char [] c = c
upper_char ((big, small) ∷ rest) c = if code small == code c then big else upper_char rest c

-- `str.upper`
unfoldable pub upper : String → String
unfolding upper_char
upper String.[] = ""
upper (String.◌∷◌ c s) = String.◌∷◌ (upper_char alphabet c) (upper s)

-- A character that `str.strip` removes, of the ASCII ones.
is_space : ℕ → Bool
is_space c = leb 9 c && leb c 13 || leb 28 c && leb c 32

strip_left : String → String
unfolding is_space
strip_left String.[] = ""
strip_left (String.◌∷◌ c s) = if is_space (code c) then strip_left s else String.◌∷◌ c s

strip_right : String → String
unfolding is_space
strip_right String.[] = ""
strip_right (String.◌∷◌ c s) =
    let rest = strip_right s in if is_space (code c) && is_blank rest then "" else String.◌∷◌ c rest

-- `str.strip`
unfoldable pub strip : String → String
unfolding strip_left strip_right
strip s = strip_right (strip_left s)

strip_test : strip " a b  " ≡ "a b"
unfolding strip
strip_test = refl

unfoldable pub codes : String → List ℕ
codes String.[] = []
codes (String.◌∷◌ c s) = code c ∷ codes s

unfoldable pub is_digit : ℕ → Bool
is_digit c = leb b'0' c && leb c b'9'

-- A character of "0123456789abcdef".
unfoldable pub is_hex : ℕ → Bool
unfolding is_digit
is_hex c = is_digit c || (leb b'a' c && leb c b'f')

all_codes : (ℕ → Bool) → List ℕ → Bool
all_codes p [] = true
all_codes p (c ∷ cs) = p c && all_codes p cs

-- `len(sha) == 40` and every character is in "0123456789abcdef".
unfoldable pub is_full_sha : String → Bool
unfolding all_codes is_hex codes
is_full_sha s = count s == 40 && all_codes is_hex (codes s)

-- `text[len(prefix):]` if the text starts with the prefix.
unfoldable pub strip_prefix : List ℕ → List ℕ → Option (List ℕ)
strip_prefix [] cs = some cs
strip_prefix (p ∷ ps) [] = none
strip_prefix (p ∷ ps) (c ∷ cs) = if p == c then strip_prefix ps cs else none

-- `text.split(sep)[0]`
unfoldable pub before : ℕ → List ℕ → List ℕ
before sep [] = []
before sep (c ∷ cs) = if c == sep then [] else c ∷ before sep cs

value_from : ℕ → List ℕ → ℕ
value_from acc [] = acc
value_from acc (c ∷ cs) = value_from (acc * 10 + (c - b'0')) cs

-- `int(text)` after `text.isdigit()`
unfoldable pub parse_digits : List ℕ → Option ℕ
unfolding value_from all_codes is_digit
parse_digits [] = none
parse_digits (c ∷ cs) = if all_codes is_digit (c ∷ cs) then some (value_from 0 (c ∷ cs)) else none

digit : ℕ → String
digit n =
    if n == 0
    then "0"
    else if n == 1
    then "1"
    else if n == 2
    then "2"
    else if n == 3
    then "3"
    else if n == 4
    then "4"
    else if n == 5
    then "5"
    else if n == 6
    then "6"
    else if n == 7
    then "7"
    else if n == 8
    then "8"
    else "9"

show_from : ℕ → ℕ → String
unfolding digit
show_from zero n = ""
show_from (suc f) n =
    let rest = show_from f (n / 10) in
    if ltb n 10 then digit n else concat (rest ∷ digit (n % 10) ∷ [])

-- `str(n)`: a number has at most as many digits as it counts, so the fuel is enough.
unfoldable pub show : ℕ → String
unfolding show_from concat
show n = show_from (suc n) n

-- `len(text)`
unfoldable pub char_count : String → ℕ
char_count = count

-- `sha[:12]`
unfoldable pub short : String → String
short s = slice s 0 12

lower_test : lower "AbC-9z" ≡ "abc-9z"
unfolding lower
lower_test = refl

show_test : show 120 ≡ "120"
unfolding show
show_test = refl
