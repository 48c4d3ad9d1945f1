-- ===== src/Text/Eol.antt =====
-- `_convert_to_lf` of utils/utils.c.
use clip_share_desktop.Prelude.{
  ◌≤◌, ◌≡◌, ◌≢◌, refl, false, [], ◌∷◌, Bytes, length, All, ◌==◌, if◌then◌else◌, arith,
}
use clip_share_desktop.Text.{c_str, starts_with_lf, convert_to_lf}

-- LF to CRLF, as the reference for what the conversion undoes.
abbrev pub to_crlf : Bytes → Bytes
to_crlf [] = []
to_crlf (c ∷ s) = if c == b'\n' then b'\r' ∷ b'\n' ∷ to_crlf s else c ∷ to_crlf s

abbrev pub NoCr : Bytes → Type 0
NoCr = All (λ c. c ≢ b'\r')

starts-to_crlf : (s : Bytes) → NoCr s → starts_with_lf (to_crlf s) ≡ false
starts-to_crlf [] h = refl
starts-to_crlf (c ∷ s) h = ground arith

-- A text with LF line ends comes back from its CRLF form.
pub convert_to_lf-to_crlf : (s : Bytes) → NoCr s → convert_to_lf (to_crlf s) ≡ s
unfolding convert_to_lf
convert_to_lf-to_crlf [] h = refl
convert_to_lf-to_crlf (c ∷ s) h = ground (arith, convert_to_lf-to_crlf s h.1, starts-to_crlf s h.1)

-- A text without CR is left as it is.
pub convert_to_lf-NoCr : (s : Bytes) → NoCr s → convert_to_lf s ≡ s
unfolding convert_to_lf
convert_to_lf-NoCr [] h = refl
convert_to_lf-NoCr (c ∷ s) h = ground (arith, convert_to_lf-NoCr s h.1)

pub length-convert_to_lf : (s : Bytes) → length (convert_to_lf s) ≤ length s
unfolding convert_to_lf
length-convert_to_lf [] = omega arith
length-convert_to_lf (c ∷ s) = ground (arith, length-convert_to_lf s)

abbrev pub NoNul : Bytes → Type 0
NoNul = All (λ c. c ≢ 0)

pub c_str-NoNul : (s : Bytes) → NoNul s → c_str s ≡ s
unfolding c_str
c_str-NoNul [] h = refl
c_str-NoNul (c ∷ s) h = ground (arith, c_str-NoNul s h.1)
