-- ===== src/Windows/Closing.antt =====
-- The clipboard is closed as often as it was opened.
use clip_share_desktop.Prelude.{ℕ, Bool, Option, none, some, List, Bytes, false}
use clip_share_desktop.World.{global_lock}
use clip_share_desktop.Action.{Action}
use clip_share_desktop.Clipboard.Copied.{CopiedType}
use clip_share_desktop.Text.{c_str}
use clip_share_desktop.Windows.{Windows}
use clip_share_desktop.Windows.Sessions.{
  Owing, pure-Owing, asks-Owing, close_with-Owing, choose-Owing, >>=-Owing, opened-Owing, ask-Owing,
  emptied-Owing, fail_if-Owing, init_list-Owing,
}
use clip_share_desktop.Windows.Clipboard.{
  set_temp_file, touch_file, create_temp_file, copied_format, get_copied_type, open_text,
  get_clipboard_text, put_wide, put_clipboard_text, list_dropped, open_files, get_copied_files,
}
use clip_share_desktop.Windows.Dirs.{DirFiles, list_dropped_dirs, open_dirs, get_copied_dirs_files}
use clip_share_desktop.Windows.Cut.{
  fill_clipboard, give_names, with_memory, cut_wide, if_list, wide_paths, total_size,
  set_clipboard_cut_files,
}

touch_file-Owing : (path : Option (List ℕ)) → Owing 0 (Unit {0}) (touch_file path)
touch_file-Owing none = pure-Owing _ tt
touch_file-Owing (some path) = search (>>=-Owing, ask-Owing, pure-Owing)

create_temp_file-Owing : (host : Windows) → Owing 0 (Unit {0}) (create_temp_file host)
unfolding create_temp_file
create_temp_file-Owing host = touch_file-Owing (set_temp_file host)

copied_format-Owing : Owing 1 CopiedType copied_format
unfolding copied_format
copied_format-Owing = search (>>=-Owing, choose-Owing, ask-Owing, close_with-Owing) depth 8

get_copied_type-Owing : Owing 0 CopiedType get_copied_type
unfolding get_copied_type
get_copied_type-Owing = opened-Owing CopiedType _ _ copied_format-Owing (pure-Owing _ _)

open_text-Owing : (host : Windows) → Owing 1 (Option Bytes) (open_text host)
unfolding open_text
open_text-Owing host =
    search (>>=-Owing, choose-Owing, ask-Owing, asks-Owing, close_with-Owing) depth 8

get_clipboard_text-Owing : (host : Windows) → Owing 0 (Option Bytes) (get_clipboard_text host)
unfolding get_clipboard_text
get_clipboard_text-Owing host =
    opened-Owing (Option Bytes) _ _ (open_text-Owing host) (pure-Owing _ _)

put_wide-Owing : (host : Windows) (text : Option (List ℕ)) → Owing 1 Bool (put_wide host text)
unfolding put_wide
put_wide-Owing host none = close_with-Owing _ _
put_wide-Owing host (some text) =
    search
      (>>=-Owing, ask-Owing, fail_if-Owing, create_temp_file-Owing, emptied-Owing, close_with-Owing)
      depth 10

put_clipboard_text-Owing :
    (host : Windows) (text : Bytes) → Owing 0 Bool (put_clipboard_text host text)
unfolding put_clipboard_text
put_clipboard_text-Owing host text =
    opened-Owing Bool _ _ (put_wide-Owing host (host.to_wide (c_str text))) (pure-Owing _ _)

list_dropped-Owing :
    (host : Windows) (names : List (List ℕ))
    → Owing 1 (Option (List Bytes)) (list_dropped host names)
unfolding list_dropped
list_dropped-Owing host names =
    search (>>=-Owing, choose-Owing, init_list-Owing, close_with-Owing) depth 8

open_files-Owing : (host : Windows) → Owing 1 (Option (List Bytes)) (open_files host)
unfolding open_files
open_files-Owing host =
    search (>>=-Owing, choose-Owing, ask-Owing, asks-Owing, close_with-Owing, list_dropped-Owing)
      depth 10

get_copied_files-Owing : (host : Windows) → Owing 0 (Option (List Bytes)) (get_copied_files host)
unfolding get_copied_files
get_copied_files-Owing host =
    opened-Owing (Option (List Bytes)) _ _ (open_files-Owing host) (pure-Owing _ _)

list_dropped_dirs-Owing :
    (host : Windows) (leaf : Bool) (names : List (List ℕ))
    → Owing 1 DirFiles (list_dropped_dirs host leaf names)
unfolding list_dropped_dirs
list_dropped_dirs-Owing host leaf names =
    search (>>=-Owing, choose-Owing, init_list-Owing, close_with-Owing) depth 8

open_dirs-Owing : (host : Windows) (leaf : Bool) → Owing 1 DirFiles (open_dirs host leaf)
unfolding open_dirs
open_dirs-Owing host leaf =
    search
      (>>=-Owing, choose-Owing, ask-Owing, asks-Owing, close_with-Owing, list_dropped_dirs-Owing)
      depth 10

get_copied_dirs_files-Owing :
    (host : Windows) (leaf : Bool) → Owing 0 DirFiles (get_copied_dirs_files host leaf)
unfolding get_copied_dirs_files
get_copied_dirs_files-Owing host leaf =
    opened-Owing DirFiles _ _ (open_dirs-Owing host leaf) (pure-Owing _ _)

fill_clipboard-Owing : (paths : List (List ℕ)) → Owing 1 Bool (fill_clipboard paths)
unfolding fill_clipboard
fill_clipboard-Owing paths = search (>>=-Owing, ask-Owing, emptied-Owing, close_with-Owing) depth 8

give_names-Owing : (host : Windows) (paths : List (List ℕ)) → Owing 0 Bool (give_names host paths)
unfolding give_names
give_names-Owing host paths =
    >>=-Owing _ _ 0 _ _ (create_temp_file-Owing host)
      (λ u. opened-Owing Bool _ _ (fill_clipboard-Owing paths) (pure-Owing _ _))

with_memory-Owing :
    (size : ℕ) (m : Action Bool) → Owing 0 Bool m → Owing 0 Bool (with_memory size m)
unfolding with_memory
with_memory-Owing size m h = >>=-Owing _ _ 0 _ _ (ask-Owing _) (λ room.
    choose-Owing _ 0 room _ _
      (>>=-Owing _ _ 0 _ _ (ask-Owing global_lock)
        (λ locked. choose-Owing _ 0 locked _ _ h (pure-Owing Bool false)))
      (pure-Owing Bool false))

cut_wide-Owing :
    (host : Windows) (paths : Option (List (List ℕ))) → Owing 0 Bool (cut_wide host paths)
cut_wide-Owing host none = pure-Owing _ _
cut_wide-Owing host (some paths) =
    with_memory-Owing (total_size paths) (with_memory 4 (give_names host paths))
      (with_memory-Owing 4 (give_names host paths) (give_names-Owing host paths))

if_list-Owing :
    (host : Windows) (paths : List Bytes) (lst : Option (Unit {0}))
    → Owing 0 Bool (if_list host paths lst)
if_list-Owing host paths none = pure-Owing _ _
if_list-Owing host paths (some u) = cut_wide-Owing host (wide_paths host paths)

set_clipboard_cut_files-Owing :
    (host : Windows) (paths : List Bytes) → Owing 0 Bool (set_clipboard_cut_files host paths)
unfolding set_clipboard_cut_files
set_clipboard_cut_files-Owing host paths =
    search (>>=-Owing, choose-Owing, pure-Owing, init_list-Owing, if_list-Owing) depth 8

-- Whatever the system answers, each of the six operations on the clipboard (its kind, getting and
-- setting the text, listing the files, listing the files of directories too, and setting the files)
-- has, when it returns, closed the clipboard as often as it has opened it, so that other programs can
-- use it. Setting the text may end the process for want of memory instead.
pub clipboard-Owing :
    (host : Windows) (text : Bytes) (leaf : Bool) (paths : List Bytes)
    → Owing 0 CopiedType get_copied_type
      × Owing 0 (Option Bytes) (get_clipboard_text host)
      × Owing 0 Bool (put_clipboard_text host text)
      × Owing 0 (Option (List Bytes)) (get_copied_files host)
      × Owing 0 DirFiles (get_copied_dirs_files host leaf)
      × Owing 0 Bool (set_clipboard_cut_files host paths)
clipboard-Owing host text leaf paths = (
  get_copied_type-Owing,
  get_clipboard_text-Owing host,
  put_clipboard_text-Owing host text,
  get_copied_files-Owing host,
  get_copied_dirs_files-Owing host leaf,
  set_clipboard_cut_files-Owing host paths,
)
