-- ===== src/Text/Split.antt =====
-- `split`, `strip_prefix` and the two hexadecimal digits of a byte, over texts.
use Prim.Native.Char.{Char, code}
use Prim.Native.String.{◌++◌}
use checkgate.Common.{
  true, false, ℕ, ◌/◌, ◌%◌, String, Option, none, some, List, [], ◌∷◌, ◌==◌, if◌then◌else◌,
}

abbrev prepend : Char → List String → List String
prepend c [] = String.◌∷◌ c "" ∷ []
prepend c (w ∷ ws) = String.◌∷◌ c w ∷ ws

-- `s.split(c)`
unfoldable pub split : String → ℕ → List String
split String.[] separator = "" ∷ []
split (String.◌∷◌ letter text) separator =
    let words = split text separator in
    if code letter == separator then "" ∷ words else prepend letter words

-- `s.strip_prefix(p)`
unfoldable pub strip_prefix : String → String → Option String
strip_prefix text String.[] = some text
strip_prefix String.[] (String.◌∷◌ wanted prefix) = none
strip_prefix (String.◌∷◌ first text) (String.◌∷◌ wanted prefix) = elim (code first == code wanted) [
  | true ↦ strip_prefix text prefix
  | false ↦ none
]

hex_digit : ℕ → String
hex_digit n =
    if n == 0
    then "0"
    else if n == 1
    then "1"
    else if n == 2
    then "2"
    else if n == 3
    then "3"
    else if n == 4
    then "4"
    else if n == 5
    then "5"
    else if n == 6
    then "6"
    else if n == 7
    then "7"
    else if n == 8
    then "8"
    else if n == 9
    then "9"
    else if n == 10
    then "a"
    else if n == 11
    then "b"
    else if n == 12
    then "c"
    else if n == 13
    then "d"
    else if n == 14
    then "e"
    else "f"

-- `bytes.iter().map(|b| format!("{b:02x}")).collect()`
unfoldable pub hex : List ℕ → String
unfolding hex_digit
hex [] = ""
hex (b ∷ bs) = hex_digit (b / 16) ++ (hex_digit (b % 16) ++ hex bs)
