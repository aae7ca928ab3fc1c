-- ===== src/Flags/Bounds.antt =====
-- The bounds of a page.
use checkgate.Common.{ℕ, ◌≤◌, ◌≡◌, arith}
use checkgate.Flags.{clamped, limit_i64, offset_i64}

clamped_lem :
    (bound n : ℕ)
    → bound ≤ 9223372036854775807
    → (clamped bound n ≤ bound) × (n ≤ bound → clamped bound n ≡ n)
clamped_lem bound n h = ground arith

-- Whatever a client asks for, a page has at most 500 flags and starts at most 1 000 000 flags in, so what is
-- bound as an `i64` is not negative; and within these bounds the client gets what it asks for.
pub page_lem :
    (limit offset : ℕ)
    → (limit_i64 limit ≤ 500)
      × (limit ≤ 500 → limit_i64 limit ≡ limit)
      × (offset_i64 offset ≤ 1000000)
      × (offset ≤ 1000000 → offset_i64 offset ≡ offset)
unfolding limit_i64 offset_i64
page_lem limit offset =
    let (a, b) = clamped_lem 500 limit (omega arith) in
    let (c, d) = clamped_lem 1000000 offset (omega arith) in (a, b, c, d)
