-- ===== src/Config/Numbers.antt =====
-- The values of utils/config.c: `set_is_true`, `set_uint16`, `set_uint32` and `set_int64`, with what
-- they use of `strtol` and `strtoull`.
pub mod Ranges
use clip_share_desktop.Prelude.{
  ℕ, zero, suc, ◌+◌, ◌-◌, ◌*◌, ◌%◌, ◌^◌, min, Bool, true, false, ◌&&◌, ◌||◌, List, [], ◌∷◌, Bytes,
  ltb, leb, ◌==◌, if◌then◌else◌, ℤ, pos, negsuc, to_int64, is_neg, exceeds, to_ℕ, str_eq, codes,
}

-- `exits` is `error_exit`; `overflows` is a signed overflow, and `hangs` a loop without end.
pub data Parsed (A : Type 0) : Type 0 where
  value : A → Parsed A
  exits overflows hangs : Parsed A

abbrev pub is_space : ℕ → Bool
is_space c = c == 32 || leb 9 c && leb c 13

abbrev pub is_digit : ℕ → Bool
is_digit c = leb 48 c && leb c 57

abbrev pub skip_spaces : Bytes → Bytes
skip_spaces [] = []
skip_spaces (c ∷ s) = let rest = skip_spaces s in if is_space c then rest else c ∷ s

-- The number of a run of digits, and what follows it.
abbrev pub read_number : ℕ → Bytes → ℕ × Bytes
read_number acc [] = (acc, [])
read_number acc (c ∷ s) =
    let more = read_number (acc * 10 + (c - 48)) s in if is_digit c then more else (acc, c ∷ s)

-- Is the number negative, how large is it, and where does it end? Without a digit it is 0, and ends
-- where the string begins.
pub record Scanned : Type 0 where
  pub minus : Bool
  pub size : ℕ
  pub end : Bytes

abbrev pub scan_digits : Bool → Bytes → Bytes → Scanned
scan_digits minus s [] = record { minus = false; size = 0; end = s }
scan_digits minus s (c ∷ t) =
    if is_digit c
    then record { minus = minus; size = (read_number 0 (c ∷ t)).0; end = (read_number 0 (c ∷ t)).1 }
    else record { minus = false; size = 0; end = s }

abbrev pub scan_sign : Bytes → Bytes → Scanned
scan_sign s [] = scan_digits false s []
scan_sign s (c ∷ t) =
    if c == b'-'
    then scan_digits true s t
    else if c == b'+'
    then scan_digits false s t
    else scan_digits false s (c ∷ t)

abbrev pub scan : Bytes → Scanned
scan s = scan_sign s (skip_spaces s)

-- `(int64_t)strtoull(str, &end_ptr, 10)`: too large a number is `ULLONG_MAX`, and a minus negates the
-- 64-bit value.
abbrev pub strtoull_bits : Scanned → ℕ
strtoull_bits n =
    if leb (2 ^ 64) n.size
    then 2 ^ 64 - 1
    else if n.minus
    then (2 ^ 64 - n.size) % 2 ^ 64
    else n.size

-- `strtol(str, &end_ptr, 10)`
abbrev pub strtol_value : Scanned → ℤ
strtol_value n =
    if n.minus && ltb 0 n.size
    then negsuc (min n.size (2 ^ 63) - 1)
    else pos (min n.size (2 ^ 63 - 1))

abbrev pub ends : Bytes → Bool
ends [] = true
ends (c ∷ s) = false

abbrev pub uint16_of : Scanned → Parsed ℕ
uint16_of n =
    let v = strtol_value n in
    if is_neg v || exceeds v 65535 then exits else if ends n.end then value (to_ℕ v) else exits

unfoldable pub set_uint16 : Bytes → Parsed ℕ
set_uint16 str = uint16_of (scan str)

-- `value *= factor`, unless the value is over the limit.
abbrev pub scaled : ℕ → ℕ → ℕ → Parsed ℕ
scaled n limit factor = if ltb limit n then exits else value (n * factor)

-- The switch on the suffix, and the test that nothing follows it.
abbrev pub suffix_uint32 : ℕ → Bytes → Parsed ℕ
suffix_uint32 n [] = value n
suffix_uint32 n (c ∷ []) =
    if c == b'k' || c == b'K'
    then scaled n 4294967 1000
    else if c == b'm' || c == b'M'
    then scaled n 4294 1000000
    else if c == b'g' || c == b'G'
    then scaled n 4 1000000000
    else exits
suffix_uint32 n (c ∷ d ∷ s) = exits

abbrev pub in_uint32 : Parsed ℕ → Parsed ℕ
in_uint32 (value n) = if n == 0 || leb 4294967295 n then exits else value n
in_uint32 p = p

abbrev pub uint32_of : Scanned → Parsed ℕ
uint32_of n =
    let v = to_int64 (strtoull_bits n) in
    if is_neg v || exceeds v 4294967294 then exits else in_uint32 (suffix_uint32 (to_ℕ v) n.end)

unfoldable pub set_uint32 : Bytes → Parsed ℕ
set_uint32 str = uint32_of (scan str)

-- A negative value passes the limits; its product may leave the type.
abbrev pub scaled_int64 : ℤ → ℕ → ℕ → Parsed ℤ
scaled_int64 (pos n) limit factor = if ltb limit n then exits else value (pos (n * factor))
scaled_int64 (negsuc n) limit factor =
    if ltb (2 ^ 63) (suc n * factor) then overflows else value (negsuc (suc n * factor - 1))

abbrev pub suffix_int64 : ℤ → Bytes → Parsed ℤ
suffix_int64 z [] = value z
suffix_int64 z (c ∷ s) =
    if c == b'k' || c == b'K'
    then scaled_int64 z 2305843009213693 1000
    else if c == b'm' || c == b'M'
    then scaled_int64 z 2305843009213 1000000
    else if c == b'g' || c == b'G'
    then scaled_int64 z 2305843009 1000000000
    else if c == b't' || c == b'T'
    then scaled_int64 z 2305843 1000000000000
    else exits

-- `*end_ptr && *(end_ptr + 1)`
abbrev pub goes_on : Bytes → Bool
goes_on (c ∷ d ∷ s) = true
goes_on _ = false

abbrev pub in_int64 : Bytes → Parsed ℤ → Parsed ℤ
in_int64 end (value (pos n)) = if goes_on end || n == 0 then exits else value (pos n)
in_int64 end (value (negsuc n)) = exits
in_int64 end p = p

abbrev pub int64_of : Scanned → Parsed ℤ
int64_of n = in_int64 n.end (suffix_int64 (to_int64 (strtoull_bits n)) n.end)

unfoldable pub set_int64 : Bytes → Parsed ℤ
set_int64 str = int64_of (scan str)

abbrev lower : ℕ → ℕ
lower c = if leb b'A' c && leb c b'Z' then c + 32 else c

abbrev pub lowered : Bytes → Bytes
lowered [] = []
lowered (c ∷ s) = lower c ∷ lowered s

unfoldable pub set_is_true : Bytes → Parsed ℤ
unfolding str_eq
set_is_true str =
    if str_eq (codes "true") (lowered str) || str_eq (codes "1") str
    then value (pos 1)
    else if str_eq (codes "false") (lowered str) || str_eq (codes "0") str
    then value (pos 0)
    else exits
