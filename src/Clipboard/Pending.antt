-- ===== src/Clipboard/Pending.antt =====
-- `set_pending_clipboard_item` of utils/utils.c, with `create_temp_file` and `check_and_delete_temp_file`.
-- The file tells the listener that the change of the clipboard is the client's own.
pub mod Given
use clip_share_desktop.Prelude.{
  ℕ, Bool, true, false, not, List, [], ◌∷◌, Bytes, codes, if◌then◌else◌,
}
use clip_share_desktop.World.{
  touch, put_clipboard, remove, Event, call, pending_text, pending_files, History, Env,
}
use clip_share_desktop.Action.{Action, pure, asks, ask, choose, file_exists, log_error, ◌>>=◌, ◌>>◌}
use clip_share_desktop.Clipboard.Copied.{files_atom}

-- `pending_type` and `pending_data`
pub data Pending : Type 0 where
  nothing : Pending
  text files : Bytes → Pending

-- What was set last, unless it has been given to xclip, after which nothing is pending.
abbrev pub pending : History → Pending
pending [] = nothing
pending (pending_text s ∷ h) = text s
pending (pending_files s ∷ h) = files s
pending (call (put_clipboard atom s) ∷ h) = nothing
pending (e ∷ h) = pending h

abbrev pub temp_file : Bytes
temp_file = codes "/tmp/clipshare-copied"

unfoldable pub create_temp_file : Action (Unit {0})
unfolding ask ◌>>=◌ pure
create_temp_file = do ask (touch temp_file); pure tt

-- Was it there?
unfoldable pub check_and_delete_temp_file : Action Bool
unfolding file_exists ask choose ◌>>=◌ pure
check_and_delete_temp_file = do
  exists ← file_exists temp_file
  choose exists (do ask (remove temp_file); pure true) (pure false)

unfoldable pub put_pending : Bytes → Bytes → Action (Unit {0})
unfolding create_temp_file ask choose log_error ◌>>=◌ pure
put_pending atom s = do
  create_temp_file
  put ← ask (put_clipboard atom s)
  choose put (pure tt) log_error

-- With the atom NULL, xclip takes the text.
unfoldable pub set_item : Pending → Action (Unit {0})
unfolding put_pending pure
set_item nothing = pure tt
set_item (text s) = put_pending [] s
set_item (files s) = put_pending files_atom s

unfoldable pub set_pending_clipboard_item : Action (Unit {0})
unfolding asks set_item ◌>>=◌
set_pending_clipboard_item = do item ← asks (λ env h. pending h); set_item item
