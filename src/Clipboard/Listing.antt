-- ===== src/Clipboard/Listing.antt =====
-- `get_copied_files` and `get_copied_dirs_files` of utils/utils.c: the paths in the text of the copied
-- files. The text is worked on in place, so the loops go over the memory from `fname` on.
pub mod Memory
pub mod RoundTrip
pub mod Dirs
use clip_share_desktop.Prelude.{
  ℕ, zero, suc, ◌+◌, min, Bool, true, false, ◌||◌, Option, none, some, List, [], ◌∷◌, ◌++◌, Bytes,
  length, drop, ltb, leb, ◌==◌, if◌then◌else◌,
}
use clip_share_desktop.Text.{c_str, drop_last_sep, before_last_sep}
use clip_share_desktop.Clipboard.Url.{Decoded, decoded, invalid, overread, url_decode}
use clip_share_desktop.Clipboard.Copied.{get_copied_files_as_str}
use clip_share_desktop.Files.Walk.{
  Kind, regular, directory, special, FileSystem, recurse_dir, max_levels,
}

-- The list, or an overrun of the memory by `url_decode`.
pub data Listed : Type 0 where
  listed : List Bytes → Listed
  overrun : Listed

abbrev pub in_front : List Bytes → Listed → Listed
in_front paths (listed rest) = listed (paths ++ rest)
in_front paths overrun = overrun

-- The loop that counts the line feeds and puts a NUL in place of each.
abbrev pub split_lines : Bytes → Bytes
split_lines [] = []
split_lines (c ∷ s) = (if c == b'\n' then 0 else c) ∷ split_lines s

abbrev pub file_count : Bytes → ℕ
file_count [] = 1
file_count (c ∷ s) = (if c == b'\n' then 1 else 0) + file_count s

-- `strnlen(fname, 2047) + 1`
abbrev pub offset : Bytes → ℕ
offset memory = min (length (c_str memory)) 2047 + 1

-- The memory from `fname` on, once the string is written over its beginning.
abbrev pub overwritten : Bytes → Bytes → Bytes
overwritten s memory = s ++ 0 ∷ drop (suc (length s)) memory

-- What is appended for one file.
abbrev pub regular_only : Bytes → Option Kind → List Bytes
regular_only fname none = []
regular_only fname (some regular) = fname ∷ []
regular_only fname (some directory) = []
regular_only fname (some special) = []

-- The loop of `get_copied_files`.
unfoldable pub files_loop : FileSystem → ℕ → Bytes → Listed
unfolding c_str url_decode
files_loop fs zero memory = listed []
files_loop fs (suc count) memory = elim (url_decode memory) [
  | invalid ↦ listed []
  | overread ↦ overrun
  | decoded s ↦
      in_front (regular_only (c_str s) (fs.stat (c_str s)))
        (files_loop fs count (drop (offset memory) (overwritten s memory)))
]

abbrev too_many : ℕ → Bool
too_many count = leb 0xFFFFFFFF count

unfoldable pub get_copied_files : FileSystem → Option Bytes → Option Bytes → Option Listed
unfolding get_copied_files_as_str files_loop
get_copied_files fs targets files = elim (get_copied_files_as_str targets files) [
  | none ↦ none
  | some text ↦
      if too_many (file_count text)
      then none
      else some (files_loop fs (file_count text) (split_lines text ++ 0 ∷ []))
]

-- A directory is walked. `none` is anything else, where `fname` stays as it is.
abbrev pub paths_at : FileSystem → Bool → Bytes → Option Kind → Option (List Bytes)
paths_at fs leaf fname none = some []
paths_at fs leaf fname (some regular) = some (fname ∷ [])
paths_at fs leaf fname (some directory) = some (recurse_dir fs leaf max_levels fname)
paths_at fs leaf fname (some special) = none

-- The separator at the end of the first path is taken off.
abbrev pub decoded_name : Bool → Bytes → Bytes
decoded_name true s = drop_last_sep s
decoded_name false s = s

abbrev pub is_bad_length : Bytes → Bool
is_bad_length s = length s == 0 || ltb 2047 (length s)

-- The end of a round: the rest of the loop goes on from `fname` or behind it.
abbrev pub go_on : (Bytes → Listed) → ℕ → Bytes → Option (List Bytes) → Listed
go_on loop off memory none = loop memory
go_on loop off memory (some paths) = in_front paths (loop (drop off memory))

-- A round with the decoded name.
unfoldable pub take_name : FileSystem → Bool → (Bytes → Listed) → Bytes → Bytes → Listed
unfolding c_str recurse_dir
take_name fs leaf loop memory name =
    go_on loop (offset memory) (overwritten name memory)
      (paths_at fs leaf (c_str name) (fs.stat (c_str name)))

unfoldable pub dirs_round : FileSystem → Bool → (Bytes → Listed) → Bool → Bytes → Decoded → Listed
unfolding take_name drop_last_sep
dirs_round fs leaf loop first memory invalid = listed []
dirs_round fs leaf loop first memory overread = overrun
dirs_round fs leaf loop first memory (decoded s) =
    if is_bad_length s then listed [] else take_name fs leaf loop memory (decoded_name first s)

-- The loop of `get_copied_dirs_files`; is `i` 0?
unfoldable pub dirs_loop : FileSystem → Bool → ℕ → Bool → Bytes → Listed
unfolding url_decode dirs_round
dirs_loop fs leaf zero first memory = listed []
dirs_loop fs leaf (suc count) first memory =
    dirs_round fs leaf (dirs_loop fs leaf count false) first memory (url_decode memory)

-- `path_len`: what stands before the name of the first path, with its separator.
abbrev pub dir_length : Option Bytes → ℕ
dir_length none = 0
dir_length (some dir) = if length dir == 0 then 0 else length dir + 1

unfoldable pub path_length : Bytes → ℕ
unfolding c_str url_decode drop_last_sep before_last_sep
path_length memory = elim (url_decode memory) [
  | invalid ↦ 0
  | overread ↦ 0
  | decoded s ↦
      if is_bad_length s then 0 else dir_length (before_last_sep (c_str (drop_last_sep s)))
]

-- `dfiles_p`: the list, or NULL, and `path_len`.
unfoldable pub get_copied_dirs_files :
    FileSystem → Bool → Option Bytes → Option Bytes → Option Listed × ℕ
unfolding get_copied_files_as_str dirs_loop path_length
get_copied_dirs_files fs leaf targets files = elim (get_copied_files_as_str targets files) [
  | none ↦ (none, 0)
  | some text ↦
      if too_many (file_count text)
      then (none, 0)
      else let memory = split_lines text ++ 0 ∷ [] in
        (some (dirs_loop fs leaf (file_count text) true memory), path_length memory)
]
