-- ===== src/Clipboard/CutFiles.antt =====
-- `set_clipboard_cut_files` of utils/utils.c on Linux, and `get_abs_path` of proto/methods.c.
use clip_share_desktop.Prelude.{
  ℕ, ◌+◌, ◌*◌, not, ◌||◌, List, [], ◌∷◌, ◌++◌, Bytes, length, take, leb, ◌==◌, if◌then◌else◌, codes,
}
use clip_share_desktop.World.{alloc, pending_files}
use clip_share_desktop.Action.{
  Action, pure, asks, ◌>>=◌, ◌>>◌, ask, fail_if, record_event, unchecked,
}
use clip_share_desktop.Text.{path_sep}
use clip_share_desktop.Clipboard.Url.{url_encode}

-- `init_list`: two blocks, and failure if one of them is not there.
unfoldable pub init_list : ℕ → Action (Unit {0})
unfolding ◌>>=◌ ask fail_if
init_list len = do
  list ← ask (alloc 16)
  fail_if (not list)
  array ← ask (alloc (len * 8))
  fail_if (not array)

unfoldable pub get_abs_path : Bytes → Action Bytes
unfolding ◌>>=◌ ask fail_if asks pure
get_abs_path rel = do
  cwd ← asks (λ env h. env.cwd)
  room ← ask (alloc (length cwd + length rel + 2))
  fail_if (not room)
  pure (cwd ++ path_sep ∷ rel)

-- One string for each path. A path is skipped where its encoding is empty or `malloc` fails.
unfoldable pub encode_paths : List Bytes → Action (List Bytes)
unfolding ◌>>=◌ ask pure
encode_paths [] = pure []
encode_paths (p ∷ paths) = do
  room ← ask (alloc (length (url_encode p) + 1))
  urls ← encode_paths paths
  pure (if not room || length (url_encode p) == 0 then urls else url_encode p ∷ urls)

-- `tot_len`, with the terminator of "cut"
abbrev pub cut_length : List Bytes → ℕ
cut_length [] = 4
cut_length (url ∷ urls) = cut_length urls + length url + 8

-- The lines behind "cut". At most 4096 bytes of an encoded path are copied.
abbrev pub cut_lines : List Bytes → Bytes
cut_lines [] = []
cut_lines (url ∷ urls) = codes "\nfile://" ++ (take 4096 url ++ cut_lines urls)

-- The list is used without a test, so a failure of `init_list` is a NULL dereference. `pending_len` is
-- `tot_len`, so the terminator is pending too; what the buffer holds behind it, where an encoded path
-- has more than 4096 bytes, is left out.
unfoldable pub set_clipboard_cut_files : List Bytes → Action (Unit {0})
unfolding ◌>>=◌ ask fail_if record_event init_list unchecked encode_paths
set_clipboard_cut_files paths = do
  unchecked (init_list (length paths))
  urls ← encode_paths paths
  fail_if (leb 0xFFFFFFFF (cut_length urls))
  buf ← ask (alloc (cut_length urls))
  fail_if (not buf)
  record_event (pending_files (codes "cut" ++ (cut_lines urls ++ (0 ∷ []))))
