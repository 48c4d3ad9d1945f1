-- ===== src/Clipboard/Listing/Memory.antt =====
-- The memory that the loops over copied files go over, as a list of URLs.
use clip_share_desktop.Prelude.{
  ℕ, zero, suc, ◌≤◌, ◌<◌, ◌≡◌, ◌≢◌, refl, ap, ◌∙◌, Bool-cases, inl, inr, ◌/◌, ◌%◌, List, [], ◌∷◌,
  ◌++◌, Bytes, All, All-append, length, take, drop, map, append_assoc, arith,
}
use clip_share_desktop.Text.{c_str}
use clip_share_desktop.Text.Eol.{NoNul}
use clip_share_desktop.Clipboard.Url.{
  url_encode, encode_byte, url_decode, decoded, file_scheme, is_plain, hex_digit,
}
use clip_share_desktop.Clipboard.Url.RoundTrip.{IsText, url_decode-url_encode}
use clip_share_desktop.Clipboard.CutFiles.{cut_lines}
use clip_share_desktop.Clipboard.Listing.{split_lines, file_count, offset, overwritten}

drop-nil : (n : ℕ) → drop {A = ℕ} n [] ≡ []
drop-nil zero = refl
drop-nil (suc n) = refl

-- What is written over the beginning does not matter behind it.
drop-overwritten :
    (n : ℕ) (s memory : Bytes) → length s < n → drop n (overwritten s memory) ≡ drop n memory
drop-overwritten zero s memory h = absurd (omega arith)
drop-overwritten (suc n) [] [] h = drop-nil n
drop-overwritten (suc n) [] (c ∷ memory) h = refl
drop-overwritten (suc n) (a ∷ s) [] h = drop-overwritten n s [] (omega arith) ∙ drop-nil n
drop-overwritten (suc n) (a ∷ s) (c ∷ memory) h = drop-overwritten n s memory (omega arith)

-- No byte of an encoding is a line feed or a NUL.
abbrev pub IsFlat : ℕ → Type 0
IsFlat c = (c ≢ b'\n') × (c ≢ 0)

hex_digit-IsFlat : (d : ℕ) → d < 16 → IsFlat (hex_digit d)
hex_digit-IsFlat d h = ((λ e. ground arith), (λ e. ground arith))

encode_byte-IsFlat :
    (c : ℕ) (rest : Bytes) → c < 256 → All IsFlat rest → All IsFlat (encode_byte c rest)
encode_byte-IsFlat c rest h f = elim (Bool-cases (is_plain c)) [
  | inl e ↦ rw (encode_byte, e) (((λ q. ground arith), (λ q. ground arith)), f)
  | inr e ↦
      rw (encode_byte, e)
        (
          ((λ q. omega arith), (λ q. omega arith)),
          (hex_digit-IsFlat (c / 16) (omega arith), (hex_digit-IsFlat (c % 16) (omega arith), f)),
        )
]

pub url_encode-IsFlat : (s : Bytes) → IsText s → All IsFlat (url_encode s)
unfolding url_encode
url_encode-IsFlat [] h = tt
url_encode-IsFlat (c ∷ s) h = encode_byte-IsFlat c (url_encode s) h.0.1 (url_encode-IsFlat s h.1)

-- A path that the loops take: its URL is read whole.
pub record IsPath (path : Bytes) : Type 0 where
  pub full : path ≢ []
  pub text : IsText path
  pub short : length (url_encode path) ≤ 2040

pub take-all : (n : ℕ) (s : Bytes) → length s ≤ n → take n s ≡ s
take-all zero [] h = refl
take-all zero (c ∷ s) h = absurd (omega arith)
take-all (suc n) [] h = refl
take-all (suc n) (c ∷ s) h = ap (λ r. c ∷ r) (take-all n s (omega arith))

-- The memory that the loops go over: the URLs, each with a NUL.
abbrev pub memory_of : List Bytes → Bytes
memory_of [] = []
memory_of (p ∷ ps) = file_scheme ++ (url_encode p ++ 0 ∷ memory_of ps)

abbrev pub text_of : Bytes → List Bytes → Bytes
text_of p ps = file_scheme ++ (url_encode p ++ cut_lines (map url_encode ps))

pub split-flat : (s t : Bytes) → All IsFlat s → split_lines (s ++ t) ≡ s ++ split_lines t
split-flat [] t h = refl
split-flat (c ∷ s) t h = ground (arith, split-flat s t h.1)

pub count-flat : (s t : Bytes) → All IsFlat s → file_count (s ++ t) ≡ file_count t
count-flat [] t h = refl
count-flat (c ∷ s) t h = ground (arith, count-flat s t h.1)

pub split-cut_lines :
    (ps : List Bytes)
    → All IsPath ps
    → split_lines (cut_lines (map url_encode ps)) ++ 0 ∷ [] ≡ 0 ∷ memory_of ps
split-cut_lines [] h = refl
split-cut_lines (p ∷ ps) h =
    let rest = cut_lines (map url_encode ps) in
    let e : split_lines (take 4096 (url_encode p) ++ rest) ++ 0 ∷ []
        ≡ url_encode p ++ 0 ∷ memory_of ps =
      ap (λ u. split_lines (u ++ rest) ++ 0 ∷ [])
        (take-all 4096 (url_encode p) (omega (arith, h.0.short)))
      ∙ ap (λ m. m ++ 0 ∷ []) (split-flat (url_encode p) rest (url_encode-IsFlat p h.0.text))
      ∙ append_assoc (url_encode p) (split_lines rest) (0 ∷ [])
      ∙ ap (λ m. url_encode p ++ m) (split-cut_lines ps h.1) in
    ap (λ m. 0 ∷ (file_scheme ++ m)) e

pub count-cut_lines :
    (ps : List Bytes) → All IsPath ps → file_count (cut_lines (map url_encode ps)) ≡ suc (length ps)
count-cut_lines [] h = refl
count-cut_lines (p ∷ ps) h =
    let rest = cut_lines (map url_encode ps) in
    let e : file_count (take 4096 (url_encode p) ++ rest) ≡ suc (length ps) =
      ap (λ u. file_count (u ++ rest)) (take-all 4096 (url_encode p) (omega (arith, h.0.short)))
      ∙ count-flat (url_encode p) rest (url_encode-IsFlat p h.0.text)
      ∙ count-cut_lines ps h.1 in
    omega (arith, e)

c_str-append : (s m : Bytes) → All IsFlat s → c_str (s ++ 0 ∷ m) ≡ s
unfolding c_str
c_str-append [] m h = refl
c_str-append (c ∷ s) m h = ground (arith, c_str-append s m h.1)

scheme_chars : All IsFlat file_scheme
scheme_chars = omega arith

scheme-IsFlat : (s : Bytes) → All IsFlat s → All IsFlat (file_scheme ++ s)
scheme-IsFlat s h = All-append IsFlat file_scheme s scheme_chars h

pub IsText-NoNul : (s : Bytes) → IsText s → NoNul s
IsText-NoNul [] h = tt
IsText-NoNul (c ∷ s) h = (h.0.0, IsText-NoNul s h.1)

pub length-url_encode : (s : Bytes) → length s ≤ length (url_encode s)
unfolding url_encode
length-url_encode [] = omega arith
length-url_encode (c ∷ s) = ground (arith, length-url_encode s)

drop-append : (s m : Bytes) → drop (suc (length s)) (s ++ 0 ∷ m) ≡ m
drop-append [] m = refl
drop-append (c ∷ s) m = drop-append s m

-- One round: the first path, and the memory behind it.
module _ (p : Bytes) (ps : List Bytes) (ok : IsPath p) where
  first_memory : memory_of (p ∷ ps) ≡ (file_scheme ++ url_encode p) ++ 0 ∷ memory_of ps
  first_memory = refl

  pub first_decoded : url_decode (memory_of (p ∷ ps)) ≡ decoded p
  first_decoded = url_decode-url_encode p (memory_of ps) ok.full ok.text

  first_offset : offset (memory_of (p ∷ ps)) ≡ suc (length (file_scheme ++ url_encode p))
  first_offset =
      let e : c_str (memory_of (p ∷ ps)) ≡ file_scheme ++ url_encode p =
        c_str-append (file_scheme ++ url_encode p) (memory_of ps)
          (scheme-IsFlat (url_encode p) (url_encode-IsFlat p ok.text)) in
      omega (arith, ap length e, ok.short)

  pub next_memory :
      drop (offset (memory_of (p ∷ ps))) (overwritten p (memory_of (p ∷ ps))) ≡ memory_of ps
  next_memory =
      drop-overwritten (offset (memory_of (p ∷ ps))) p (memory_of (p ∷ ps))
        (omega (arith, first_offset, length-url_encode p))
      ∙ ap (λ n. drop n (memory_of (p ∷ ps))) first_offset
      ∙ drop-append (file_scheme ++ url_encode p) (memory_of ps)
