-- ===== src/Windows/Cut.antt =====
-- `set_clipboard_cut_files` on Windows: the paths in a block of memory that begins with `DROPFILES`.
use clip_share_desktop.Prelude.{
  ℕ, ◌+◌, ◌*◌, Bool, true, false, Option, none, some, List, [], ◌∷◌, ◌++◌, Bytes, length, take,
  ◌==◌,
}
use clip_share_desktop.World.{global_alloc, global_lock, set_data, clipboard_emptied}
use clip_share_desktop.Action.{Action, pure, ask, choose, record_event, attempt, ◌>>=◌, ◌>>◌}
use clip_share_desktop.Clipboard.CutFiles.{init_list}
use clip_share_desktop.Windows.{Windows, cf_hdrop, open_clipboard_wrapper, close_with}
use clip_share_desktop.Windows.Clipboard.{create_temp_file}

-- The loop over the paths: all of them as wide strings, or a failure.
abbrev pub with_path : Option (List ℕ) → Option (List (List ℕ)) → Option (List (List ℕ))
with_path none paths = none
with_path (some []) paths = none
with_path (some (c ∷ path)) none = none
with_path (some (c ∷ path)) (some paths) = some ((c ∷ path) ∷ paths)

unfoldable pub wide_paths : Windows → List Bytes → Option (List (List ℕ))
wide_paths host [] = some []
wide_paths host (path ∷ paths) = with_path (host.to_wide path) (wide_paths host paths)

-- `tot_sz`: `sizeof(DROPFILES)`, a NUL, and the paths with one each.
unfoldable pub total_size : List (List ℕ) → ℕ
total_size [] = 22
total_size (path ∷ paths) = total_size paths + (length path + 1) * 2

-- What is written from `pFiles` on.
unfoldable pub drop_names : List (List ℕ) → List ℕ
drop_names [] = 0 ∷ []
drop_names (path ∷ paths) = take 2048 path ++ (0 ∷ drop_names paths)

-- `DROPEFFECT_MOVE`, and the registered format of the preferred effect
abbrev pub dropeffect_move : ℕ
dropeffect_move = 2

abbrev pub preferred_effect : ℕ
preferred_effect = 49152

-- From `EmptyClipboard` on.
unfoldable pub fill_clipboard : List (List ℕ) → Action Bool
unfolding ◌>>=◌ ask record_event close_with drop_names
fill_clipboard paths = do
  record_event clipboard_emptied
  ask (set_data cf_hdrop (drop_names paths))
  ask (set_data preferred_effect (dropeffect_move ∷ []))
  close_with true

-- From `create_temp_file` on.
unfoldable pub give_names : Windows → List (List ℕ) → Action Bool
unfolding ◌>>=◌ pure choose open_clipboard_wrapper create_temp_file fill_clipboard
give_names host paths = do
  create_temp_file host
  got ← open_clipboard_wrapper
  choose got (fill_clipboard paths) (pure false)

-- `GlobalAlloc` and `GlobalLock`, and then `m`
unfoldable pub with_memory : ℕ → Action Bool → Action Bool
unfolding ◌>>=◌ pure ask choose
with_memory size m = do
  room ← ask (global_alloc size)
  choose room (do locked ← ask global_lock; choose locked m (pure false)) (pure false)

abbrev pub cut_wide : Windows → Option (List (List ℕ)) → Action Bool
cut_wide host none = pure false
cut_wide host (some paths) = with_memory (total_size paths) (with_memory 4 (give_names host paths))

abbrev pub if_list : Windows → List Bytes → Option (Unit {0}) → Action Bool
if_list host paths none = pure false
if_list host paths (some u) = cut_wide host (wide_paths host paths)

unfoldable pub set_clipboard_cut_files : Windows → List Bytes → Action Bool
unfolding ◌>>=◌ pure attempt choose init_list total_size with_memory give_names wide_paths
set_clipboard_cut_files host paths =
    choose (length paths == 0) (pure true)
      (do lst ← attempt (init_list (length paths)); if_list host paths lst)
