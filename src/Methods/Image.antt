-- ===== src/Methods/Image.antt =====
-- `_set_filename`, `_save_image_common` and `_get_screenshot_common` of proto/methods.c.
pub mod FileName
use clip_share_desktop.Prelude.{
  ℕ, Bool, true, false, not, ◌&&◌, ◌||◌, Option, none, some, [], ◌∷◌, Bytes, leb, ◌==◌,
  if◌then◌else◌, ℤ, pos,
}
use clip_share_desktop.Config.{is_set}
use clip_share_desktop.World.{Env}
use clip_share_desktop.Action.{
  Action, pure, fail, diverge, asks, ◌>>=◌, ◌>>◌, notify, notify_with, attempt, or_reject,
  or_notify, reject_if, fail_if, send_size, close_socket, close_socket_no_wait, close_socket_await,
}
use clip_share_desktop.Proto.Status.{
  status_ok, resp_ok, resp_no_data, resp_communication_failure, resp_local_error,
}
use clip_share_desktop.Clipboard.CutFiles.{init_list, get_abs_path, set_clipboard_cut_files}
use clip_share_desktop.Methods.Frame.{send_ack, read_byte}
use clip_share_desktop.Methods.Save.{save_file_common}
use FileName.{image_file_name}

abbrev is_some : Option (Unit {0}) → Bool
is_some none = false
is_some (some _) = true

-- What is done with the file that was received.
cut_image : Bytes → Action (Unit {0})
unfolding ◌>>=◌ init_list get_abs_path notify_with set_clipboard_cut_files
cut_image name = do
  init_list 1
  path ← get_abs_path name
  notify_with resp_ok name
  set_clipboard_cut_files (path ∷ [])

save_image_as : ℕ → Bytes → Action (Unit {0})
unfolding ◌>>=◌ attempt save_file_common notify_with or_notify send_ack close_socket_await asks
    fail_if cut_image pure
save_image_as version name = do
  status ← attempt (save_file_common version name)
  let saved = is_some status
  (if saved then pure tt else notify resp_local_error)
  (if leb 4 version && saved
      then (do or_notify resp_communication_failure send_ack; close_socket)
      else close_socket_no_wait)
  cut ← asks (λ env h. is_set env.config.cut_received_files)
  (if not saved || not cut
      then (do notify_with resp_ok name; fail_if (not saved))
      else cut_image name)

unfoldable pub save_image_common : ℕ → Action (Unit {0})
unfolding ◌>>=◌ asks diverge save_image_as
save_image_common version = do
  now ← asks (λ env h. env.millis h)
  elim (image_file_name now) [ none ↦ diverge | some name ↦ save_image_as version name ]

unfoldable pub get_screenshot_common : ℕ → ℕ → Action (Unit {0})
unfolding ◌>>=◌ or_reject reject_if send_size read_byte save_image_common
get_screenshot_common version display = do
  or_reject resp_communication_failure (send_size (pos display))
  status ← or_reject resp_communication_failure read_byte
  reject_if (not (status == status_ok)) resp_no_data
  save_image_common version
