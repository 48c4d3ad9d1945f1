-- ===== src/Windows.antt =====
-- The Windows variants of utils/utils.c that use the clipboard. A wide string is the list of its
-- characters.
pub mod Clipboard
pub mod Dirs
pub mod Cut
pub mod Sessions
pub mod Closing
pub mod Layout
use clip_share_desktop.Prelude.{ℕ, Bool, true, false, Option, none, some, List, Bytes}
use clip_share_desktop.World.{open_clipboard, clipboard_opened, clipboard_closed, History}
use clip_share_desktop.Files.Walk.{Kind}
use clip_share_desktop.Action.{Action, pure, ask, choose, record_event, ◌>>=◌, ◌>>◌}

-- `utf8_to_wchar_str` and `wchar_to_utf8_str`, which fail for want of memory too; `getenv("TEMP")`; the
-- text on the clipboard; the names that `DragQueryFileW` gives, and `GetFileAttributesW` of them; what
-- `_wstat64` says of a path, and the names that `_wreaddir` gives, `none` where the call fails.
pub record Windows : Type 0 where
  pub to_wide : Bytes → Option (List ℕ)
  pub to_utf8 : List ℕ → Option Bytes
  pub temp : Option Bytes
  pub wide_text : History → List ℕ
  pub dropped : History → List (List ℕ)
  pub attributes : List ℕ → ℕ
  pub wstat : List ℕ → Option Kind
  pub read_wdir : List ℕ → Option (List (List ℕ))

abbrev pub cf_unicodetext : ℕ
cf_unicodetext = 13

abbrev pub cf_hdrop : ℕ
cf_hdrop = 15

-- `OpenClipboard`
unfoldable pub open_once : Action Bool
unfolding ◌>>=◌ pure ask choose record_event
open_once = do
  got ← ask open_clipboard
  choose got (do record_event clipboard_opened; pure true) (pure false)

-- `OpenClipboardWrapper`, with a second attempt after a while.
unfoldable pub open_clipboard_wrapper : Action Bool
unfolding ◌>>=◌ pure choose open_once
open_clipboard_wrapper = do got ← open_once; choose got (pure true) open_once

-- `CloseClipboard`, before the value is returned
unfoldable pub close_with : {A : Type 0} → A → Action A
unfolding ◌>>=◌ pure record_event
close_with a = do record_event clipboard_closed; pure a
