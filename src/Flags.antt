-- ===== src/Flags.antt =====
-- server/src/api/flags.rs: the validation of keys, the pages of a list, patches and handlers.
pub mod Patch
pub mod Bounds
pub mod Write
pub mod Handlers
mod Tests
use Prim.Native.Char.{Char, code}
use checkgate.Common.{
  ℕ, String, Bool, true, false, not, ◌&&◌, ◌||◌, List, [], ◌∷◌, str_eq, leb, ◌==◌, all, length,
  if◌then◌else◌,
}
use checkgate.Text.Bytes.{as_bytes}

-- `c.is_ascii_alphanumeric() || c == '_' || c == '-'`
abbrev pub is_key_char : Char → Bool
is_key_char c =
    (leb 48 (code c) && leb (code c) 57)
    || (leb 65 (code c) && leb (code c) 90)
    || (leb 97 (code c) && leb (code c) 122)
    || code c == b'_'
    || code c == b'-'

unfoldable pub all_key_chars : String → Bool
all_key_chars String.[] = true
all_key_chars (String.◌∷◌ c s) = is_key_char c && all_key_chars s

unfoldable pub is_valid_flag_key : String → Bool
unfolding as_bytes all_key_chars
is_valid_flag_key key = not (str_eq key "") && leb (length (as_bytes key)) 100 && all_key_chars key

abbrev pub max_page_limit : ℕ
max_page_limit = 500

abbrev pub max_page_offset : ℕ
max_page_offset = 1000000

-- `i64::try_from(n).unwrap_or(bound).clamp(0, bound)`
abbrev pub clamped : ℕ → ℕ → ℕ
clamped bound n =
    let narrow = if leb n 9223372036854775807 then n else bound in
    if leb narrow bound then narrow else bound

unfoldable pub limit_i64 : ℕ → ℕ
limit_i64 limit = clamped max_page_limit limit

unfoldable pub offset_i64 : ℕ → ℕ
offset_i64 offset = clamped max_page_offset offset
