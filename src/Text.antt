-- ===== src/Text.antt =====
-- The C strings of utils/utils.c and proto/methods.c: a byte string stands for the memory before the
-- terminating NUL, or for a whole buffer where `c_str` cuts it.
pub mod Eol
pub mod Crlf
use clip_share_desktop.Prelude.{
  ℕ, zero, suc, ◌+◌, ◌/◌, ◌%◌, Bool, true, false, not, ◌&&◌, ◌||◌, Option, none, some, List, [],
  ◌∷◌, ◌++◌, Bytes, length, ltb, leb, ◌==◌, if◌then◌else◌,
}

-- What a buffer holds as a C string: the bytes before the first NUL.
unfoldable pub c_str : Bytes → Bytes
c_str [] = []
c_str (c ∷ s) = let rest = c_str s in if c == 0 then [] else c ∷ rest

abbrev pub starts_with_lf : Bytes → Bool
starts_with_lf [] = false
starts_with_lf (c ∷ s) = c == b'\n'

-- `_convert_to_lf`, the whole of `convert_eol` where lines end in LF.
unfoldable pub convert_to_lf : Bytes → Bytes
convert_to_lf [] = []
convert_to_lf (c ∷ s) =
    let rest = convert_to_lf s in if c == b'\r' && starts_with_lf s then rest else c ∷ rest

abbrev pub path_sep : ℕ
path_sep = b'/'

-- `strchr(s, c) != NULL`
unfoldable pub contains : ℕ → Bytes → Bool
contains c [] = false
contains c (d ∷ s) = d == c || contains c s

unfoldable pub starts_with : Bytes → Bytes → Bool
starts_with [] s = true
starts_with (c ∷ p) [] = false
starts_with (c ∷ p) (d ∷ s) = c == d && starts_with p s

-- `strstr(s, p) != NULL`
unfoldable pub has_substring : Bytes → Bytes → Bool
unfolding starts_with
has_substring p [] = starts_with p []
has_substring p (c ∷ s) = starts_with p (c ∷ s) || has_substring p s

-- What stands behind and before the last separator: `strrchr`.
unfoldable pub after_last_sep : Bytes → Option Bytes
after_last_sep [] = none
after_last_sep (c ∷ s) = elim (after_last_sep s) [
  | some base ↦ some base
  | none ↦ if c == path_sep then some s else none
]

unfoldable pub before_last_sep : Bytes → Option Bytes
before_last_sep [] = none
before_last_sep (c ∷ s) = elim (before_last_sep s) [
  | some dir ↦ some (c ∷ dir)
  | none ↦ if c == path_sep then some [] else none
]

abbrev pub first_is : ℕ → Bytes → Bool
first_is c [] = false
first_is c (d ∷ s) = d == c

-- The last byte of the buffer, if it is a separator, is set to NUL.
unfoldable pub drop_last_sep : Bytes → Bytes
drop_last_sep [] = []
drop_last_sep (c ∷ []) = if c == path_sep then zero ∷ [] else c ∷ []
drop_last_sep (c ∷ d ∷ s) = c ∷ drop_last_sep (d ∷ s)

-- `%i` and `%x` of a number below `base ^ fuel`.
abbrev pub digit : ℕ → ℕ
digit d = if ltb d 10 then 48 + d else 87 + d

unfoldable pub print_number : ℕ → ℕ → ℕ → Bytes → Bytes
print_number zero base n acc = acc
print_number (suc fuel) base n acc =
    let rest = print_number fuel base (n / base) (digit (n % base) ∷ acc) in
    if n / base == 0 then digit (n % base) ∷ acc else rest
