-- ===== src/Text.antt =====
-- Text operations of the Rust standard library that core/src/evaluator.rs calls on `str`:
-- `contains`, `starts_with`, `ends_with` and `trim`, over the characters of a text.
pub mod Bytes
pub mod Split
pub mod Laws
use Prim.Native.Char.{Char, code}
use Prim.Native.String.{[], ◌∷◌}
use checkgate.Common.{ℕ, String, Bool, true, false, ◌&&◌, ◌||◌, leb, ◌==◌, str_eq, if◌then◌else◌}

abbrev same_char : Char → Char → Bool
same_char c d = code c == code d

-- `s.starts_with(p)`
unfoldable pub starts_with : String → String → Bool
starts_with s [] = true
starts_with [] (d ∷ p) = false
starts_with (c ∷ s) (d ∷ p) = same_char c d && starts_with s p

-- `s.ends_with(p)`: a tail of `s` is `p`
unfoldable pub ends_with : String → String → Bool
ends_with [] p = str_eq "" p
ends_with (c ∷ s) p = str_eq (c ∷ s) p || ends_with s p

-- `s.contains(p)`: a tail of `s` starts with `p`
unfoldable pub contains : String → String → Bool
unfolding starts_with
contains [] p = starts_with "" p
contains (c ∷ s) p = starts_with (c ∷ s) p || contains s p

-- `char::is_whitespace`: the code points of Unicode's White_Space
abbrev is_whitespace : ℕ → Bool
is_whitespace c =
    (leb 9 c && leb c 13)
    || c == 32
    || c == 0x85
    || c == 0xa0
    || c == 0x1680
    || (leb 0x2000 c && leb c 0x200a)
    || c == 0x2028
    || c == 0x2029
    || c == 0x202f
    || c == 0x205f
    || c == 0x3000

abbrev is_blank : String → Bool
is_blank [] = true
is_blank (c ∷ s) = false

trim_start : String → String
trim_start [] = []
trim_start (c ∷ s) = let rest = trim_start s in if is_whitespace (code c) then rest else c ∷ s

trim_end : String → String
trim_end [] = []
trim_end (c ∷ s) =
    let rest = trim_end s in if is_whitespace (code c) && is_blank rest then [] else c ∷ rest

-- `s.trim()`
unfoldable pub trim : String → String
unfolding trim_start trim_end
trim s = trim_end (trim_start s)
