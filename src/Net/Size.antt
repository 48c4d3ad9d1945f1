-- ===== src/Net/Size.antt =====
-- The 8-byte big-endian sizes of `send_size` and `read_size`.
use clip_share_desktop.Prelude.{◌≡◌, refl, ℤ, pos, negsuc, IsInt64, length, arith}
use clip_share_desktop.Net.{size_bytes, size_of_bytes}

pub length-size_bytes : (z : ℤ) → length (size_bytes z) ≡ 8
unfolding size_bytes
length-size_bytes z = refl

-- Every `int64_t` is read back from the bytes that it was sent as.
pub size_of_bytes-size_bytes : (z : ℤ) → IsInt64 z → size_of_bytes (size_bytes z) ≡ z
unfolding size_bytes size_of_bytes
size_of_bytes-size_bytes (pos n) h = ground arith
size_of_bytes-size_bytes (negsuc n) h = ground arith
