-- ===== src/Clipboard/Url/RoundTrip.antt =====
-- `url_encode` and `url_decode` of utils/utils.c one behind the other, and the memory that is read.
use clip_share_desktop.Prelude.{
  ℕ, ◌/◌, ◌%◌, ◌<◌, ◌≡◌, ◌≢◌, refl, ap, sym, Bool, Option, none, some, [], ◌∷◌, ◌++◌, Bytes, All,
  ◌==◌, if◌then◌else◌, arith, ◌∙◌, Bool-cases, inl, inr,
}
use clip_share_desktop.Clipboard.Url.{
  is_plain, hex_digit, encode_byte, url_encode, hex2char, Decoded, decoded, invalid, overread,
  prepend, hex_pair, decode_loop, file_scheme, url_decode,
}

hex2char-hex_digit : (d : ℕ) → d < 16 → hex2char (hex_digit d) ≡ some d
hex2char-hex_digit d h = ground arith

hex_pair-byte :
    (c : ℕ) (s : Bytes) → c < 256 → hex_pair (hex_digit (c / 16) ∷ hex_digit (c % 16) ∷ s) ≡ some c
hex_pair-byte c s h =
    rw
      (
        hex_pair,
        hex2char-hex_digit (c / 16) (omega arith),
        hex2char-hex_digit (c % 16) (omega arith),
      )
      (ap some (omega arith))

decode-plain :
    (c a : ℕ) (m : Bytes)
    → c ≢ b'%'
    → a ≢ 0
    → decode_loop (c ∷ a ∷ m) ≡ prepend c (decode_loop (a ∷ m))
unfolding decode_loop
decode-plain c a [] h k = ground arith
decode-plain c a (b ∷ m) h k = ground arith

decode-plain_last : (c : ℕ) (m : Bytes) → c ≢ b'%' → decode_loop (c ∷ 0 ∷ m) ≡ decoded (c ∷ [])
unfolding decode_loop
decode-plain_last c [] h = ground arith
decode-plain_last c (b ∷ m) h = ground arith

decode-escape :
    (c a : ℕ) (m : Bytes)
    → c < 256
    → a ≢ 0
    → decode_loop (b'%' ∷ hex_digit (c / 16) ∷ hex_digit (c % 16) ∷ a ∷ m)
      ≡ prepend c (decode_loop (a ∷ m))
unfolding decode_loop
decode-escape c a m h k = rw (decode_loop, hex_pair-byte c [] h) (ground arith)

decode-escape_last :
    (c : ℕ) (m : Bytes)
    → c < 256
    → decode_loop (b'%' ∷ hex_digit (c / 16) ∷ hex_digit (c % 16) ∷ 0 ∷ m) ≡ decoded (c ∷ [])
unfolding decode_loop
decode-escape_last c m h = rw (decode_loop, hex_pair-byte c [] h) refl

-- The bytes that a C string can hold.
abbrev pub IsText : Bytes → Type 0
IsText = All (λ c. (c ≢ 0) × (c < 256))

encode_head : ℕ → ℕ
encode_head c = if is_plain c then c else b'%'

encode_head-ne-zero : (c : ℕ) → encode_head c ≢ 0
unfolding encode_head
encode_head-ne-zero c = ground arith

encode_tail : ℕ → Bytes → Bytes
encode_tail c rest = if is_plain c then rest else hex_digit (c / 16) ∷ hex_digit (c % 16) ∷ rest

encode_byte-eq-cons :
    (c : ℕ) (rest : Bytes) → encode_byte c rest ≡ encode_head c ∷ encode_tail c rest
unfolding encode_head encode_tail
encode_byte-eq-cons c rest = elim (Bool-cases (is_plain c)) [
  | inl e ↦ rw (encode_byte, e)
  | inr e ↦ rw (encode_byte, e)
]

encode_byte-append : (c : ℕ) (rest m : Bytes) → encode_byte c rest ++ m ≡ encode_byte c (rest ++ m)
encode_byte-append c rest m = elim (Bool-cases (is_plain c)) [
  | inl e ↦ rw (encode_byte, e)
  | inr e ↦ rw (encode_byte, e)
]

decode-byte :
    (c a : ℕ) (rest : Bytes)
    → c < 256
    → a ≢ 0
    → decode_loop (encode_byte c (a ∷ rest)) ≡ prepend c (decode_loop (a ∷ rest))
decode-byte c a rest h k = elim (Bool-cases (is_plain c)) [
  | inl e ↦ rw (encode_byte, e) (decode-plain c a rest (ground arith) k)
  | inr e ↦ rw (encode_byte, e) (decode-escape c a rest h k)
]

decode-last_byte :
    (c : ℕ) (rest : Bytes) → c < 256 → decode_loop (encode_byte c (0 ∷ rest)) ≡ decoded (c ∷ [])
decode-last_byte c rest h = elim (Bool-cases (is_plain c)) [
  | inl e ↦ rw (encode_byte, e) (decode-plain_last c rest (ground arith))
  | inr e ↦ rw (encode_byte, e) (decode-escape_last c rest h)
]

-- A byte in front of an encoding that goes on with another byte.
decode-next :
    (c d : ℕ) (rest : Bytes)
    → c < 256
    → decode_loop (encode_byte c (encode_byte d rest))
      ≡ prepend c (decode_loop (encode_byte d rest))
decode-next c d rest h =
    rw (encode_byte-eq-cons d rest)
      (decode-byte c (encode_head d) (encode_tail d rest) h (encode_head-ne-zero d))

decode_loop-url_encode :
    (c : ℕ) (s m : Bytes)
    → IsText (c ∷ s)
    → decode_loop (url_encode (c ∷ s) ++ 0 ∷ m) ≡ decoded (c ∷ s)
unfolding url_encode
decode_loop-url_encode c [] m h = rw (encode_byte-append c [] (0 ∷ m)) (decode-last_byte c m h.0.1)
decode_loop-url_encode c (d ∷ s) m h =
    ap decode_loop (
      encode_byte-append c (url_encode (d ∷ s)) (0 ∷ m)
      ∙ ap (encode_byte c) (encode_byte-append d (url_encode s) (0 ∷ m)))
    ∙ decode-next c d (url_encode s ++ 0 ∷ m) h.0.1
    ∙ ap (λ m'. prepend c (decode_loop m')) (sym (encode_byte-append d (url_encode s) (0 ∷ m)))
    ∙ ap (prepend c) (decode_loop-url_encode d s m h.1)

-- `url_decode` gets a path back from its URL, whatever the memory behind the URL holds. The path is
-- not empty and has no NUL.
pub url_decode-url_encode :
    (path m : Bytes)
    → path ≢ []
    → IsText path
    → url_decode (file_scheme ++ (url_encode path ++ 0 ∷ m)) ≡ decoded path
unfolding url_decode
url_decode-url_encode [] m e h = absurd (e refl)
url_decode-url_encode (c ∷ s) m e h = decode_loop-url_encode c s m h

decode_step : ℕ → Option ℕ → Decoded → Decoded → Decoded
decode_step c o escaped plain =
    if c == b'%' then elim o [ none ↦ invalid | some d ↦ prepend d escaped ] else prepend c plain

decode_step-ne-overread :
    (c : ℕ) (o : Option ℕ) (escaped plain : Decoded)
    → escaped ≢ overread
    → plain ≢ overread
    → decode_step c o escaped plain ≢ overread
unfolding decode_step
decode_step-ne-overread c none escaped plain h k = ground arith
decode_step-ne-overread c (some d) escaped plain h k = ground arith

if-ne-overread :
    (b : Bool) (s : Bytes) (x : Decoded) → x ≢ overread → (if b then decoded s else x) ≢ overread
if-ne-overread b s x h = ground arith

decode_loop-ne-overread :
    (c : ℕ) (u m : Bytes) → c ≢ 0 → All (λ x. x ≢ 0) u → decode_loop (c ∷ (u ++ 0 ∷ m)) ≢ overread
unfolding decode_loop decode_step
decode_loop-ne-overread c [] [] n h = ground arith
decode_loop-ne-overread c [] (x ∷ m) n h = ground arith
decode_loop-ne-overread c (a ∷ []) m n h = ground (arith, decode_loop-ne-overread a [] m)
decode_loop-ne-overread c (a ∷ b ∷ []) m n h = ground (arith, decode_loop-ne-overread a (b ∷ []) m)
decode_loop-ne-overread c (a ∷ b ∷ d ∷ u) m n h =
    decode_step-ne-overread c (hex_pair (a ∷ b ∷ []))
      (if d == 0 then decoded [] else decode_loop (d ∷ (u ++ 0 ∷ m)))
      (if a == 0 then decoded [] else decode_loop (a ∷ b ∷ d ∷ (u ++ 0 ∷ m)))
      (if-ne-overread (d == 0) [] (decode_loop (d ∷ (u ++ 0 ∷ m)))
        (decode_loop-ne-overread d u m h.1.1.0 h.1.1.1))
      (if-ne-overread (a == 0) [] (decode_loop (a ∷ b ∷ d ∷ (u ++ 0 ∷ m)))
        (decode_loop-ne-overread a (b ∷ d ∷ u) m h.0 h.1))

-- On a URL with a path, well formed or not, `url_decode` stays within the text and its terminator.
pub url_decode-ne-overread :
    (u m : Bytes)
    → u ≢ []
    → All (λ x. x ≢ 0) u
    → url_decode (file_scheme ++ (u ++ 0 ∷ m)) ≢ overread
unfolding url_decode
url_decode-ne-overread [] m e h = absurd (e refl)
url_decode-ne-overread (c ∷ u) m e h = decode_loop-ne-overread c u m h.0 h.1

-- Without a path the terminator is taken for a character, and decoding goes on behind it: where the
-- memory ends there the loop leaves it, and otherwise what follows becomes part of the result.
pub url_decode-no_path :
    (a : ℕ) (m : Bytes)
    → a ≢ 0
    → (url_decode (file_scheme ++ 0 ∷ []) ≡ overread)
      × (url_decode (file_scheme ++ 0 ∷ a ∷ m) ≡ prepend 0 (decode_loop (a ∷ m)))
unfolding url_decode
url_decode-no_path a m h = (refl, decode-plain 0 a m (omega arith) h)
