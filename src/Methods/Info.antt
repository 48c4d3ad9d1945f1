-- ===== src/Methods/Info.antt =====
-- `_get_info_common`, `info_v1` and `info_v4` of proto/methods.c.
use clip_share_desktop.Prelude.{
  ℕ, Bool, not, ◌||◌, Option, none, some, Bytes, length, take, get_elem?, ltb, ◌==◌, str_eq,
  leb_zero, exceeds, to_ℕ, codes,
}
use clip_share_desktop.Action.{
  Action, pure, asks, ◌>>=◌, ◌>>◌, notify_with, attempt, or_reject, reject, reject_if, read_size,
  close_socket, close_socket_no_wait, close_socket_await,
}
use clip_share_desktop.Text.{c_str}
use clip_share_desktop.Proto.Status.{resp_ok, resp_data_error, resp_communication_failure}
use clip_share_desktop.Methods.Frame.{send_ack}
use clip_share_desktop.Methods.TextData.{read_buffer}

abbrev pub info_name : Bytes
info_name = codes "clip_share"

unfoldable pub get_info_common : Action Bytes
unfolding ◌>>=◌ asks pure reject_if or_reject read_size read_buffer
get_info_common = do
  size ← or_reject resp_communication_failure read_size
  limit ← asks (λ env h. env.config.max_text_length)
  reject_if (leb_zero size || exceeds size limit) resp_data_error
  info ← or_reject resp_communication_failure (read_buffer (to_ℕ size))
  valid ← asks (λ env h. env.u8_valid info)
  reject_if (not valid) resp_data_error
  pure info

check_info_v1 : Option Bytes → Action (Unit {0})
unfolding ◌>>=◌ notify_with reject reject_if
check_info_v1 none = reject resp_data_error
check_info_v1 (some info) = do
  reject_if (not (str_eq info_name (c_str info))) resp_data_error
  notify_with resp_ok info

unfoldable pub info_v1 : Action (Unit {0})
unfolding ◌>>=◌ attempt get_info_common close_socket_await check_info_v1
info_v1 = do info ← attempt get_info_common; close_socket_no_wait; check_info_v1 info

-- The byte behind the name is the terminator of the buffer, or must be NUL or a line feed.
abbrev ends_name : Option ℕ → Bool
ends_name none = Bool.true
ends_name (some c) = c == 0 || c == b'\n'

check_info_v4 : Option Bytes → Action (Unit {0})
unfolding ◌>>=◌ notify_with reject reject_if send_ack close_socket_await
check_info_v4 none = reject resp_data_error
check_info_v4 (some info) = do
  reject_if (ltb (length info) (length info_name)) resp_data_error
  reject_if
      (not (str_eq info_name (take (length info_name) info))
        || not (ends_name (get_elem? info (length info_name))))
      resp_data_error
  notify_with resp_ok info
  send_ack
  close_socket

unfoldable pub info_v4 : Action (Unit {0})
unfolding ◌>>=◌ attempt get_info_common check_info_v4
info_v4 = do info ← attempt get_info_common; check_info_v4 info
