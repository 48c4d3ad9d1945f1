-- ===== src/Windows/Clipboard.antt =====
-- `get_copied_type`, `get_clipboard_text`, `put_clipboard_text` and `get_copied_files` on Windows, with
-- the file that marks the clipboard as the client's own.
use clip_share_desktop.Prelude.{
  ℕ, ◌+◌, ◌*◌, ◌/◌, ◌%◌, Bool, true, false, not, ◌&&◌, ◌||◌, Option, none, some, List, [], ◌∷◌,
  ◌++◌, Bytes, length, take, leb, ◌==◌, if◌then◌else◌, codes,
}
use clip_share_desktop.World.{
  touch, exists, remove, has_format, get_data, global_alloc, global_lock, set_data,
  clipboard_emptied,
}
use clip_share_desktop.Action.{
  Action, pure, asks, ask, choose, record_event, attempt, unchecked, fail_if, ◌>>=◌, ◌>>◌,
}
use clip_share_desktop.Text.{c_str}
use clip_share_desktop.Clipboard.Copied.{CopiedType, copied_none, copied_text, copied_file}
use clip_share_desktop.Clipboard.CutFiles.{init_list}
use clip_share_desktop.Windows.{
  Windows, cf_unicodetext, cf_hdrop, open_clipboard_wrapper, close_with,
}

abbrev pub fits : (Bytes → Option (List ℕ)) → Bytes → Option (List ℕ)
fits to_wide path = if leb 1024 (length path) then none else to_wide path

-- `set_temp_file`: the path, unless there is no directory for it or it is too long.
unfoldable pub set_temp_file : Windows → Option (List ℕ)
set_temp_file host = elim host.temp [
  | none ↦ none
  | some dir ↦ fits host.to_wide (dir ++ codes "\\clipshare-copied")
]

abbrev pub touch_file : Option (List ℕ) → Action (Unit {0})
touch_file none = pure tt
touch_file (some path) = do ask (touch path); pure tt

unfoldable pub create_temp_file : Windows → Action (Unit {0})
unfolding ◌>>=◌ pure ask set_temp_file
create_temp_file host = touch_file (set_temp_file host)

abbrev pub take_file : Option (List ℕ) → Action Bool
take_file none = pure false
take_file (some path) = do
  there ← ask (exists path)
  choose there (do ask (remove path); pure true) (pure false)

unfoldable pub check_and_delete_temp_file : Windows → Action Bool
unfolding ◌>>=◌ pure ask choose set_temp_file
check_and_delete_temp_file host = take_file (set_temp_file host)

-- The formats that are asked for, once the clipboard is open.
unfoldable pub copied_format : Action CopiedType
unfolding ◌>>=◌ pure ask choose close_with
copied_format = do
  files ← ask (has_format cf_hdrop)
  choose files (close_with copied_file) (do
    text ← ask (has_format cf_unicodetext)
    choose text (close_with copied_text) (close_with copied_none))

unfoldable pub get_copied_type : Action CopiedType
unfolding ◌>>=◌ pure choose open_clipboard_wrapper copied_format
get_copied_type = do got ← open_clipboard_wrapper; choose got copied_format (pure copied_none)

-- `get_clipboard_text`. `wchar_to_utf8_str` does not take NULL.
unfoldable pub open_text : Windows → Action (Option Bytes)
unfolding ◌>>=◌ pure asks ask choose close_with
open_text host = do
  there ← ask (has_format cf_unicodetext)
  choose there
      (do
        given ← ask (get_data cf_unicodetext)
        text ← asks (λ env h. host.to_utf8 (host.wide_text h))
        close_with (if given then text else none))
      (close_with none)

unfoldable pub get_clipboard_text : Windows → Action (Option Bytes)
unfolding ◌>>=◌ pure choose open_clipboard_wrapper open_text
get_clipboard_text host = do got ← open_clipboard_wrapper; choose got (open_text host) (pure none)

-- `put_clipboard_text` from `GlobalAlloc` on. What `GlobalLock` gives is used without a test.
unfoldable pub put_wide : Windows → Option (List ℕ) → Action Bool
unfolding ◌>>=◌ ask fail_if unchecked record_event create_temp_file close_with
put_wide host none = close_with false
put_wide host (some text) = do
  room ← ask (global_alloc ((length text + 1) * 2))
  locked ← ask global_lock
  unchecked (fail_if (not (room && locked)))
  create_temp_file host
  record_event clipboard_emptied
  done ← ask (set_data cf_unicodetext (text ++ (0 ∷ [])))
  close_with done

unfoldable pub put_clipboard_text : Windows → Bytes → Action Bool
unfolding ◌>>=◌ pure choose open_clipboard_wrapper c_str put_wide
put_clipboard_text host text = do
  got ← open_clipboard_wrapper
  choose got (put_wide host (host.to_wide (c_str text))) (pure false)

-- `FILE_ATTRIBUTE_DIRECTORY`, `DEVICE`, `REPARSE_POINT`, `OFFLINE`: has the number one of these bits?
abbrev pub has_bit : ℕ → ℕ → Bool
has_bit bit n = not (leb (n / bit % 2) 0)

abbrev pub dont_want : ℕ → Bool
dont_want attr = has_bit 16 attr || (has_bit 64 attr || (has_bit 1024 attr || has_bit 4096 attr))

-- `_wappend`
abbrev pub wappend : Option Bytes → List Bytes → List Bytes
wappend none rest = rest
wappend (some path) rest = path ∷ rest

-- The loop over the names, of which at most 259 characters fit in the buffer.
unfoldable pub wanted_files : Windows → List (List ℕ) → List Bytes
wanted_files host [] = []
wanted_files host (name ∷ names) =
    let rest = wanted_files host names in
    let file = take 259 name in
    if dont_want (host.attributes file) then rest else wappend (host.to_utf8 file) rest

abbrev pub list_made : Windows → List (List ℕ) → Option (Unit {0}) → Option (List Bytes)
list_made host names none = none
list_made host names (some u) = some (wanted_files host names)

-- From `DragQueryFileW` on, with the memory locked.
unfoldable pub list_dropped : Windows → List (List ℕ) → Action (Option (List Bytes))
unfolding ◌>>=◌ choose attempt init_list wanted_files close_with
list_dropped host names =
    choose (length names == 0 || leb 0xFFFFFFFF (length names)) (close_with none)
      (do lst ← attempt (init_list (length names)); close_with (list_made host names lst))

-- From `IsClipboardFormatAvailable` on.
unfoldable pub open_files : Windows → Action (Option (List Bytes))
unfolding ◌>>=◌ asks ask choose close_with list_dropped
open_files host = do
  there ← ask (has_format cf_hdrop)
  choose there
      (do
        given ← ask (get_data cf_hdrop)
        choose given
            (do
              locked ← ask global_lock
              names ← asks (λ env h. host.dropped h)
              choose locked (list_dropped host names) (close_with none))
            (close_with none))
      (close_with none)

unfoldable pub get_copied_files : Windows → Action (Option (List Bytes))
unfolding ◌>>=◌ pure choose open_clipboard_wrapper open_files
get_copied_files host = do got ← open_clipboard_wrapper; choose got (open_files host) (pure none)
