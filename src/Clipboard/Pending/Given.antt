-- ===== src/Clipboard/Pending/Given.antt =====
-- What `set_pending_clipboard_item` gives to xclip.
use clip_share_desktop.Prelude.{Option, none, some, [], ◌∷◌, Bytes}
use clip_share_desktop.World.{put_clipboard, call, History}

-- What xclip was given last: the atom and the bytes.
abbrev pub given : History → Option (Bytes × Bytes)
given [] = none
given (call (put_clipboard atom s) ∷ h) = some (atom, s)
given (e ∷ h) = given h
