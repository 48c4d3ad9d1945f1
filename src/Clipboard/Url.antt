-- ===== src/Clipboard/Url.antt =====
-- `url_encode`, `hex2char` and `url_decode` of utils/utils.c.
pub mod RoundTrip
use clip_share_desktop.Prelude.{
  ℕ, zero, suc, ◌+◌, ◌-◌, ◌*◌, ◌/◌, ◌%◌, Bool, true, false, ◌&&◌, ◌||◌, Option, none, some, List,
  [], ◌∷◌, ◌++◌, Bytes, drop, ltb, leb, ◌==◌, if◌then◌else◌, codes,
}
use clip_share_desktop.Text.{starts_with}

-- The bytes that stay as they are. `char` is signed, so a byte from 128 on is in none of the ranges.
abbrev pub is_plain : ℕ → Bool
is_plain c =
    leb b'a' c && leb c b'z'
    || leb b'@' c && leb c b'Z'
    || leb b'&' c && leb c b':'
    || c == b'_'
    || c == b'='
    || c == b'!'
    || c == b'~'

abbrev pub hex_digit : ℕ → ℕ
hex_digit a = if ltb a 10 then a + 48 else a + 55

abbrev pub encode_byte : ℕ → Bytes → Bytes
encode_byte c rest =
    if is_plain c then c ∷ rest else b'%' ∷ hex_digit (c / 16) ∷ hex_digit (c % 16) ∷ rest

-- The second pass of `url_encode`; the first one computes the length of this.
unfoldable pub url_encode : Bytes → Bytes
url_encode [] = []
url_encode (c ∷ s) = encode_byte c (url_encode s)

-- `none` for the -1 of `hex2char`
abbrev pub hex2char : ℕ → Option ℕ
hex2char h =
    if leb 48 h && leb h 57
    then some (h - 48)
    else if leb b'A' h && leb h b'F'
    then some (h - b'A' + 10)
    else if leb b'a' h && leb h b'f'
    then some (h - b'a' + 10)
    else none

-- `overread`: the loop went past the end of the memory that it was given.
pub data Decoded : Type 0 where
  decoded : Bytes → Decoded
  invalid : Decoded
  overread : Decoded

abbrev pub prepend : ℕ → Decoded → Decoded
prepend c (decoded s) = decoded (c ∷ s)
prepend c invalid = invalid
prepend c overread = overread

-- `while (*ptr2)`: the test reads one more byte of the memory.
abbrev pub ends_here : Bytes → Bool
ends_here [] = false
ends_here (c ∷ s) = c == 0

-- The two digits of `%41`, from the bytes behind the `%`. A NUL is no digit, so the text is not left.
abbrev pub hex_pair : Bytes → Option ℕ
hex_pair (a ∷ b ∷ s) = elim (hex2char a) [
  | none ↦ none
  | some hi ↦ elim (hex2char b) [ none ↦ none | some lo ↦ some (hi * 16 + lo) ]
]
hex_pair _ = none

-- The loop of `url_decode` over the memory from `ptr2` on, the terminating NUL and what stands
-- behind it included. It looks at the byte under `ptr2` before it tests for the end.
pub decode_loop : Bytes → Decoded
decode_loop [] = overread
decode_loop (c ∷ []) = overread
decode_loop (c ∷ a ∷ []) =
    if c == b'%'
    then elim (hex2char a) [ none ↦ invalid | some hi ↦ overread ]
    else if a == 0
    then decoded (c ∷ [])
    else overread
decode_loop (c ∷ a ∷ b ∷ s) =
    let escaped = if ends_here s then decoded [] else decode_loop s in
    let plain = if a == 0 then decoded [] else decode_loop (a ∷ b ∷ s) in
    if c == b'%'
    then elim (hex_pair (a ∷ b ∷ [])) [ none ↦ invalid | some d ↦ prepend d escaped ]
    else prepend c plain

abbrev pub file_scheme : Bytes
file_scheme = codes "file://"

-- `str` with the NUL that ends it and what the memory holds behind it.
unfoldable pub url_decode : Bytes → Decoded
unfolding decode_loop starts_with
url_decode memory = if starts_with file_scheme memory then decode_loop (drop 7 memory) else invalid
