-- ===== src/Tests/Copied.antt =====
-- A directory with a file and an empty directory, and what is copied.
use clip_share_desktop.Prelude.{
  ◌≡◌, refl, Option, none, some, List, [], ◌∷◌, ◌++◌, Bytes, All, map, codes, str_eq, arith, true,
  if◌then◌else◌,
}
use clip_share_desktop.Text.{drop_last_sep, before_last_sep}
use clip_share_desktop.Clipboard.Url.{url_encode}
use clip_share_desktop.Clipboard.CutFiles.{cut_lines}
use clip_share_desktop.Clipboard.Copied.{copied_file, get_copied_type}
use clip_share_desktop.Clipboard.Copied.Kinds.{IsTarget}
use clip_share_desktop.Clipboard.Listing.{listed, dir_length, get_copied_dirs_files}
use clip_share_desktop.Clipboard.Listing.Memory.{IsPath}
use clip_share_desktop.Clipboard.Listing.Dirs.{listed_of, get_copied_dirs_files-cut_lines}
use clip_share_desktop.Files.Walk.{Kind, regular, directory, FileSystem, recurse_dir}
use clip_share_desktop.Files.Walk.Trees.{Tree, file, dir, empty, child}
use clip_share_desktop.Files.Walk.Bounds.{IsBelow, recurse_dir-IsBelow}

abbrev kind_of : Bytes → Option Kind
kind_of path =
    if str_eq path (codes "/d")
    then some directory
    else if str_eq path (codes "/d/e")
    then some directory
    else some regular

abbrev entries : Bytes → Option (List Bytes)
entries path =
    if str_eq path (codes "/d")
    then some (codes "." ∷ codes "e" ∷ codes ".." ∷ codes "f" ∷ [])
    else if str_eq path (codes "/d/e")
    then some (codes ".." ∷ codes "." ∷ [])
    else none

abbrev disk : FileSystem
disk = record { stat = kind_of; lstat = kind_of; read_dir = entries }

abbrev tree : Tree
tree = dir (child (codes "e") (dir empty) (child (codes "f") file empty))

recurse_dir-IsBelow_example : All (IsBelow (codes "/d")) (recurse_dir disk true 256 (codes "/d"))
recurse_dir-IsBelow_example = recurse_dir-IsBelow disk true 256 (codes "/d")

abbrev two : List Bytes
two = codes "/d/f" ∷ codes "/a b" ∷ []

two-IsPath : All IsPath two
unfolding url_encode
two-IsPath = (
  record { full = λ e. cc; text = omega arith; short = omega arith },
  (record { full = λ e. cc; text = omega arith; short = omega arith }, tt),
)

abbrev offered : Option Bytes
offered = some (codes "TEXT\nx-special/gnome-copied-files")

offers_files : get_copied_type offered ≡ copied_file
unfolding get_copied_type
offers_files = refl

no_sep : drop_last_sep (codes "/d/f") ≡ codes "/d/f"
unfolding drop_last_sep
no_sep = refl

get_copied_dirs_files-cut_lines_example :
    get_copied_dirs_files disk true offered (some (codes "cut" ++ cut_lines (map url_encode two)))
    ≡ (some (listed (listed_of disk true two)), dir_length (before_last_sep (codes "/d/f")))
get_copied_dirs_files-cut_lines_example =
    get_copied_dirs_files-cut_lines disk true offered (codes "/d/f") (codes "/a b" ∷ [])
      offers_files two-IsPath (refl, (refl, tt)) no_sep (omega arith)

abbrev html : Bytes
html = codes "text/html"

abbrev length_target : Bytes
length_target = codes "LENGTH"

targets-IsTarget : All IsTarget (html ∷ length_target ∷ [])
targets-IsTarget = (
  record { flat = omega arith; text = omega arith },
  (record { flat = omega arith; text = omega arith }, tt),
)
