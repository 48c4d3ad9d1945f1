-- ===== src/Windows/Dirs.antt =====
-- `get_copied_dirs_files` on Windows, with `_process_path` and `_recurse_dir` for wide strings. What the
-- system says of a path stays the same during the walk.
use clip_share_desktop.Prelude.{
  ℕ, zero, suc, ◌+◌, Bool, ◌||◌, Option, none, some, List, [], ◌∷◌, Bytes, length, take, ltb, leb,
  ◌==◌, if◌then◌else◌, str_eq,
}
use clip_share_desktop.World.{has_format, get_data, global_lock}
use clip_share_desktop.Action.{Action, pure, asks, ask, choose, attempt, ◌>>=◌}
use clip_share_desktop.Clipboard.CutFiles.{init_list}
use clip_share_desktop.Files.Walk.{
  without_dots, max_path, each_child, process_kind, list_entries, max_levels,
}
use clip_share_desktop.Windows.{Windows, cf_hdrop, open_clipboard_wrapper, close_with}
use clip_share_desktop.Windows.Clipboard.{has_bit, wappend}

-- `path`, with `\` at its end.
abbrev pub with_backslash : List ℕ → List ℕ
with_backslash [] = b'\\' ∷ []
with_backslash (c ∷ []) = if c == b'\\' then c ∷ [] else c ∷ b'\\' ∷ []
with_backslash (c ∷ d ∷ s) = c ∷ with_backslash (d ∷ s)

abbrev pub list_wide :
    (List ℕ → List (List ℕ)) → Bool → List ℕ → Option (List (List ℕ)) → List (List ℕ)
list_wide process include_leaf_dirs path none = []
list_wide process include_leaf_dirs path (some entries) =
    if ltb max_path (length path)
    then []
    else list_entries process include_leaf_dirs (with_backslash path) (without_dots entries)

-- `_recurse_dir`: the wide paths that it gives to `_wappend`. The number counts the levels that are left,
-- 257 less the depth.
unfoldable pub recurse_wide : Windows → Bool → ℕ → List ℕ → List (List ℕ)
unfolding each_child str_eq
recurse_wide host include_leaf_dirs zero path = []
recurse_wide host include_leaf_dirs (suc levels) path =
    list_wide
      (λ child. process_kind (recurse_wide host include_leaf_dirs levels) child (host.wstat child))
      include_leaf_dirs path (host.read_wdir path)

-- `FILE_ATTRIBUTE_DEVICE`, `REPARSE_POINT`, `OFFLINE`
abbrev pub skips : ℕ → Bool
skips attr = has_bit 64 attr || (has_bit 1024 attr || has_bit 4096 attr)

-- The characters up to the last `\`.
abbrev pub upto_sep : List ℕ → ℕ
upto_sep [] = 0
upto_sep (c ∷ s) = let n = upto_sep s in if ltb 0 n then n + 1 else if c == b'\\' then 1 else 0

abbrev pub wide_path_len : List ℕ → ℕ
wide_path_len file = let n = upto_sep file in if ltb 1 n then n else 0

-- `path_len` is set by the first file only.
abbrev pub first_path_len : Windows → List (List ℕ) → ℕ
first_path_len host [] = 0
first_path_len host (name ∷ names) =
    let file = take 259 name in if skips (host.attributes file) then 0 else wide_path_len file

abbrev pub wide_paths_at : Windows → Bool → List ℕ → List (List ℕ)
wide_paths_at host include_leaf_dirs file =
    let below = recurse_wide host include_leaf_dirs max_levels file in
    if has_bit 16 (host.attributes file) then below else file ∷ []

abbrev pub append_each : Windows → List (List ℕ) → List Bytes → List Bytes
append_each host [] rest = rest
append_each host (path ∷ paths) rest = wappend (host.to_utf8 path) (append_each host paths rest)

-- The loop over the names, of which at most 259 characters fit in the buffer.
unfoldable pub dropped_paths : Windows → Bool → List (List ℕ) → List Bytes
unfolding recurse_wide
dropped_paths host include_leaf_dirs [] = []
dropped_paths host include_leaf_dirs (name ∷ names) =
    let rest = dropped_paths host include_leaf_dirs names in
    let file = take 259 name in
    if skips (host.attributes file)
    then rest
    else append_each host (wide_paths_at host include_leaf_dirs file) rest

-- The list, if there is one, and the length of the directory's path.
abbrev pub DirFiles : Type 0
DirFiles = Option (List Bytes) × ℕ

abbrev pub no_files : DirFiles
no_files = (none, 0)

abbrev pub dirs_made : Windows → Bool → List (List ℕ) → Option (Unit {0}) → DirFiles
dirs_made host include_leaf_dirs names none = no_files
dirs_made host include_leaf_dirs names (some u) =
    (some (dropped_paths host include_leaf_dirs names), first_path_len host names)

-- From `DragQueryFileW` on, with the memory locked.
unfoldable pub list_dropped_dirs : Windows → Bool → List (List ℕ) → Action DirFiles
unfolding ◌>>=◌ choose attempt init_list dropped_paths close_with
list_dropped_dirs host include_leaf_dirs names =
    choose (length names == 0 || leb 0xFFFFFFFF (length names)) (close_with no_files) (do
      lst ← attempt (init_list (length names))
      close_with (dirs_made host include_leaf_dirs names lst))

-- From `IsClipboardFormatAvailable` on.
unfoldable pub open_dirs : Windows → Bool → Action DirFiles
unfolding ◌>>=◌ asks ask choose close_with list_dropped_dirs
open_dirs host include_leaf_dirs = do
  there ← ask (has_format cf_hdrop)
  choose there
      (do
        given ← ask (get_data cf_hdrop)
        choose given
            (do
              locked ← ask global_lock
              names ← asks (λ env h. host.dropped h)
              choose locked (list_dropped_dirs host include_leaf_dirs names) (close_with no_files))
            (close_with no_files))
      (close_with no_files)

unfoldable pub get_copied_dirs_files : Windows → Bool → Action DirFiles
unfolding ◌>>=◌ pure choose open_clipboard_wrapper open_dirs
get_copied_dirs_files host include_leaf_dirs = do
  got ← open_clipboard_wrapper
  choose got (open_dirs host include_leaf_dirs) (pure no_files)
