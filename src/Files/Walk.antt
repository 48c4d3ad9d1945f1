-- ===== src/Files/Walk.antt =====
-- `_process_path` and `_recurse_dir` of utils/utils.c: the files below a directory. What the kernel says
-- of a path is a parameter, and stays the same during the walk.
pub mod Trees
pub mod Bounds
use clip_share_desktop.Prelude.{
  ℕ, zero, suc, ◌+◌, Bool, true, false, ◌&&◌, ◌||◌, Option, none, some, List, [], ◌∷◌, ◌++◌, Bytes,
  length, str_eq, ltb, ◌==◌, if◌then◌else◌, codes,
}
use clip_share_desktop.Text.{path_sep}

pub data Kind : Type 0 where
  regular directory special : Kind

-- `stat`, `lstat`, and the names that `readdir` gives, those of the directory and its parent included;
-- `none` where the call fails.
pub record FileSystem : Type 0 where
  pub stat : Bytes → Option Kind
  pub lstat : Bytes → Option Kind
  pub read_dir : Bytes → Option (List Bytes)

abbrev pub is_dots : Bytes → Bool
is_dots name = str_eq name (codes ".") || str_eq name (codes "..")

abbrev pub without_dots : List Bytes → List Bytes
without_dots [] = []
without_dots (name ∷ names) =
    let rest = without_dots names in if is_dots name then rest else name ∷ rest

-- `path`, with a separator at its end.
abbrev pub with_sep : Bytes → Bytes
with_sep [] = path_sep ∷ []
with_sep (c ∷ []) = if c == path_sep then c ∷ [] else c ∷ path_sep ∷ []
with_sep (c ∷ d ∷ s) = c ∷ with_sep (d ∷ s)

abbrev pub max_path : ℕ
max_path = 2048

-- The loop over the entries, which ends at a name that makes the path too long.
unfoldable pub each_child : (Bytes → List Bytes) → Bytes → List Bytes → List Bytes
each_child process base [] = []
each_child process base (name ∷ names) =
    if ltb max_path (length name + length base)
    then []
    else process (base ++ name) ++ each_child process base names

-- `_process_path`, with the call for a directory.
abbrev pub process_kind : (Bytes → List Bytes) → Bytes → Option Kind → List Bytes
process_kind recurse path none = []
process_kind recurse path (some regular) = path ∷ []
process_kind recurse path (some directory) = recurse path
process_kind recurse path (some special) = []

abbrev pub list_entries : (Bytes → List Bytes) → Bool → Bytes → List Bytes → List Bytes
list_entries process include_leaf_dirs base [] = if include_leaf_dirs then base ∷ [] else []
list_entries process include_leaf_dirs base (name ∷ names) = each_child process base (name ∷ names)

abbrev pub list_opened : (Bytes → List Bytes) → Bool → Bytes → Option (List Bytes) → List Bytes
list_opened process include_leaf_dirs path none = []
list_opened process include_leaf_dirs path (some entries) =
    if ltb max_path (length path)
    then []
    else list_entries process include_leaf_dirs (with_sep path) (without_dots entries)

-- `_recurse_dir`: what it appends to the list. The number counts the levels that are left, 257 less the
-- depth.
unfoldable pub recurse_dir : FileSystem → Bool → ℕ → Bytes → List Bytes
unfolding each_child str_eq
recurse_dir fs include_leaf_dirs zero path = []
recurse_dir fs include_leaf_dirs (suc levels) path =
    list_opened
      (λ child. process_kind (recurse_dir fs include_leaf_dirs levels) child (fs.lstat child))
      include_leaf_dirs path (fs.read_dir path)

abbrev pub max_levels : ℕ
max_levels = 256
