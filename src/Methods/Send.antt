-- ===== src/Methods/Send.antt =====
-- `_transfer_regular_file`, `_transfer_directory`, `_transfer_single_file` and `_send_files_common`
-- of proto/methods.c, and the methods made of them.
pub mod Contents
pub mod File
pub mod Several
use clip_share_desktop.Prelude.{
  ℕ, zero, suc, ◌+◌, ◌-◌, Bool, true, false, not, ◌&&◌, ◌||◌, Option, none, some, List, [], ◌∷◌,
  Bytes, length, drop, ltb, leb, ◌==◌, if◌then◌else◌, ℤ, pos, negsuc, is_neg, to_ℕ,
}
use clip_share_desktop.Config.{Config}
use clip_share_desktop.World.{Env, Event, open_read, fread}
use clip_share_desktop.Action.{
  Action, pure, fail, diverge, asks, ◌>>=◌, ◌>>◌, notify, notify_with, or_reject, or_notify, reject,
  fail_if, ask, record_event, log_error, write_sock, send_size, close_socket_await,
}
use clip_share_desktop.Text.{path_sep, after_last_sep}
use clip_share_desktop.Proto.Status.{resp_ok, resp_no_data, resp_communication_failure}
use clip_share_desktop.Methods.Frame.{send_data}
use clip_share_desktop.Methods.TextData.{finish_sending}
use clip_share_desktop.Methods.Save.{file_buf_sz, max_file_name_length, above}

-- `fread(data, 1, FILE_BUF_SZ, fp)`
unfoldable pub read_block : Bytes → Action Bytes
unfolding ◌>>=◌ asks record_event pure
read_block path = do
  data' ← asks (λ env h. env.file_data h path file_buf_sz)
  record_event (fread data')
  pure data'

-- `while (file_size > 0)`: an empty read only goes round once more. `fuel` bounds the rounds.
unfoldable pub send_contents : ℕ → Bytes → ℕ → Action (Unit {0})
unfolding ◌>>=◌ read_block or_reject write_sock pure diverge
send_contents fuel path zero = pure tt
send_contents zero path (suc left) = diverge
send_contents (suc fuel) path (suc left) = do
  data' ← read_block path
  let more = send_contents fuel path (suc left - length data')
  if length data' == 0
      then more
      else do or_reject resp_communication_failure (write_sock data'); more

unfoldable pub transfer_regular_file : Bytes → Bytes → Bool → Action (Unit {0})
unfolding ◌>>=◌ ask log_error fail asks fail_if or_reject send_data send_size send_contents pure
transfer_regular_file path filename auto = do
  opened ← ask (open_read path)
  (if opened then pure tt else (do log_error; fail))
  size ← asks (λ env h. env.file_size h path)
  config ← asks (λ env h. env.config)
  fail_if (
      is_neg size
      || above size config.max_file_size
      || auto && above size config.auto_send_max_file_size)
  or_reject resp_communication_failure (send_data filename)
  or_reject resp_communication_failure (send_size size)
  patience ← asks (λ env h. env.patience)
  send_contents patience path (to_ℕ size)

unfoldable pub transfer_directory : Bytes → Action (Unit {0})
unfolding ◌>>=◌ or_reject send_data send_size
transfer_directory filename = do
  or_reject resp_communication_failure (send_data filename)
  or_reject resp_communication_failure (send_size (negsuc 0))

-- The name without its last byte, if that is a separator.
abbrev pub without_last_sep : Bytes → Option Bytes
without_last_sep [] = none
without_last_sep (c ∷ []) = if c == path_sep then some [] else none
without_last_sep (c ∷ d ∷ s) = elim (without_last_sep (d ∷ s)) [
  | none ↦ none
  | some t ↦ some (c ∷ t)
]

-- The name that is sent: the base name in version 1, else the path below the copied directory.
abbrev pub sent_name : ℕ → Bytes → ℕ → Bytes
sent_name version path path_len =
    if version == 1
    then elim (after_last_sep path) [ none ↦ path | some base ↦ base ]
    else drop path_len path

unfoldable pub transfer_single_file : ℕ → Bytes → ℕ → Bool → Action (Unit {0})
unfolding ◌>>=◌ log_error fail transfer_directory transfer_regular_file
transfer_single_file version path path_len auto =
    let name = sent_name version path path_len in
    if ltb 4 version || version == 0
    then fail
    else if length name == 0 || ltb max_file_name_length (length name)
    then (do log_error; fail)
    else elim (without_last_sep name) [
      | some dir ↦ transfer_directory dir
      | none ↦ transfer_regular_file path name auto
    ]

unfoldable pub transfer_files : ℕ → List Bytes → ℕ → Bool → Action (Unit {0})
unfolding ◌>>=◌ transfer_single_file pure
transfer_files version [] path_len auto = pure tt
transfer_files version (path ∷ paths) path_len auto = do
  transfer_single_file version path path_len auto
  transfer_files version paths path_len auto

-- Version 1 sends one file, and does not say how many there are.
abbrev first_of : List Bytes → List Bytes
first_of [] = []
first_of (path ∷ paths) = path ∷ []

unfoldable pub send_list : ℕ → List Bytes → ℕ → Bool → Action (Unit {0})
unfolding ◌>>=◌ notify_with reject asks fail_if or_reject send_size transfer_files finish_sending
    pure
send_list version paths path_len auto =
    if length paths == 0 || leb 0xFFFFFFFF (length paths) then reject resp_no_data else do
      limit ← asks (λ env h. env.config.auto_send_max_files)
      fail_if (auto && ltb limit (length paths))
      (if ltb 1 version
          then or_reject resp_communication_failure (send_size (pos (length paths)))
          else pure tt)
      transfer_files version (if version == 1 then first_of paths else paths) path_len auto
      notify resp_ok
      finish_sending version

unfoldable pub send_files_common : ℕ → Option (List Bytes) → ℕ → Bool → Action (Unit {0})
unfolding reject send_list
send_files_common version none path_len auto = reject resp_no_data
send_files_common version (some paths) path_len auto = send_list version paths path_len auto

unfoldable pub send_file_v1 : Bool → Action (Unit {0})
unfolding ◌>>=◌ asks send_files_common
send_file_v1 auto = do files ← asks (λ env h. env.copied_files h); send_files_common 1 files 0 auto

-- `send_files_v2`, `send_files_v3` and `send_files_v4`: version 2 leaves out empty directories.
unfoldable pub send_files : ℕ → Bool → Action (Unit {0})
unfolding ◌>>=◌ asks send_files_common
send_files version auto = do
  copied ← asks (λ env h. env.copied_dirs_files (leb 3 version) h)
  send_files_common version copied.0 copied.1 auto
