-- ===== src/Clipboard/Copied.antt =====
-- `get_copied_type` and `get_copied_files_as_str` of utils/utils.c: what kind of thing is copied. What
-- `xclip_util` returns for an atom is a parameter, `none` where it fails.
pub mod Kinds
use clip_share_desktop.Prelude.{
  ℕ, Bool, true, false, ◌||◌, Option, none, some, List, [], ◌∷◌, Bytes, length, str_eq, ◌==◌,
  if◌then◌else◌, codes,
}
use clip_share_desktop.Text.{c_str, starts_with}

pub data CopiedType : Type 0 where
  copied_none copied_text copied_file : CopiedType

-- The rest of a line in front of the lines behind it.
abbrev pub onto_line : ℕ → List Bytes → List Bytes
onto_line c [] = (c ∷ []) ∷ []
onto_line c (line ∷ lines) = (c ∷ line) ∷ lines

-- The tokens of `strsep` with a line feed: as many as there are line feeds, and one.
unfoldable pub strsep_lines : Bytes → List Bytes
strsep_lines [] = [] ∷ []
strsep_lines (c ∷ s) =
    let rest = strsep_lines s in if c == b'\n' then [] ∷ rest else onto_line c rest

abbrev pub any : {A : Type 0} → (A → Bool) → List A → Bool
any test [] = false
any test (x ∷ xs) = test x || any test xs

abbrev pub files_atom : Bytes
files_atom = codes "x-special/gnome-copied-files"

abbrev pub is_files : Bytes → Bool
is_files token = starts_with files_atom token

abbrev pub is_text : Bytes → Bool
is_text token =
    starts_with (codes "text/plain") token
    || starts_with (codes "text/html") token
    || str_eq token (codes "UTF8_STRING")
    || str_eq token (codes "TEXT")

-- The two loops over the targets. The first one leaves a NUL in place of a line feed at the very end,
-- so the second one lacks an empty token, which is in no case a text.
abbrev pub type_of : List Bytes → CopiedType
type_of tokens =
    if any is_files tokens
    then copied_file
    else if any is_text tokens
    then copied_text
    else copied_none

unfoldable pub get_copied_type : Option Bytes → CopiedType
unfolding strsep_lines starts_with str_eq c_str
get_copied_type none = copied_none
get_copied_type (some targets) =
    if length targets == 0 then copied_none else type_of (strsep_lines (c_str targets))

-- The first line of the copied files, and what stands behind its line feed.
abbrev pub split_line : Bytes → Option (Bytes × Bytes)
split_line [] = none
split_line (c ∷ s) =
    let rest = split_line s in
    if c == b'\n'
    then some ([], s)
    else elim rest [ none ↦ none | some (line, more) ↦ some (c ∷ line, more) ]

-- The text from `offset` on.
abbrev pub without_action : Option (Bytes × Bytes) → Option Bytes
without_action none = none
without_action (some (line, more)) =
    if str_eq line (codes "copy") || str_eq line (codes "cut") then some more else none

unfoldable pub get_copied_files_as_str : Option Bytes → Option Bytes → Option Bytes
unfolding get_copied_type str_eq c_str
get_copied_files_as_str targets files = elim (get_copied_type targets) [
  | copied_none ↦ none
  | copied_text ↦ none
  | copied_file ↦ elim files [
    | none ↦ none
    | some names ↦ if length names == 0 then none else without_action (split_line (c_str names))
  ]
]
