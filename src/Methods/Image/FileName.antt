-- ===== src/Methods/Image/FileName.antt =====
-- `_set_filename` of proto/methods.c: the time in base 32 over the nine zeros of "000000000.png".
pub mod Digits
use clip_share_desktop.Prelude.{
  ℕ, zero, suc, ◌+◌, ◌*◌, ◌/◌, ◌%◌, ◌^◌, ◌<◌, ◌≤◌, ◌≡◌, refl, ap, ◌∙◌, Option, none, some, List, [],
  ◌∷◌, ◌++◌, Bytes, length, replicate, ltb, ◌==◌, if◌then◌else◌, codes, arith,
}

-- `base32_alpha[d]`
abbrev pub base32_digit : ℕ → ℕ
base32_digit d = if ltb d 10 then 48 + d else 87 + d

-- The loop writes from the ninth character to the left, while `tm` is not 0; `slots` of them are left,
-- and one more write is before the buffer.
pub fill_digits : ℕ → ℕ → Bytes → Option Bytes
fill_digits slots zero acc = some (replicate slots b'0' ++ acc)
fill_digits zero (suc tm) acc = none
fill_digits (suc slots) (suc tm) acc =
    fill_digits slots (suc tm / 32) (base32_digit (suc tm % 32) ∷ acc)

unfoldable pub image_file_name : ℕ → Option Bytes
unfolding fill_digits
image_file_name tm = fill_digits 9 tm (codes ".png")
