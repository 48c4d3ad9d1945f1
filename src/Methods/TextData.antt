-- ===== src/Methods/TextData.antt =====
-- `_send_text_common` and `_get_text_common` of proto/methods.c, and the methods made of them.
pub mod Receiving
pub mod Sending
pub mod RoundTrip
use clip_share_desktop.Prelude.{
  ℕ, ◌+◌, Bool, true, not, ◌||◌, Option, none, some, Bytes, length, ltb, leb, ◌==◌, if◌then◌else◌,
  leb_zero, exceeds, to_ℕ,
}
use clip_share_desktop.Config.{Config}
use clip_share_desktop.World.{Env, alloc, pending_text}
use clip_share_desktop.Action.{
  Action, pure, asks, ◌>>=◌, ◌>>◌, notify_with, or_reject, or_notify, reject, reject_if, fail_if,
  ask, record_event, read_sock, read_size, close_socket, close_socket_no_wait, close_socket_await,
}
use clip_share_desktop.Text.{c_str, convert_to_lf}
use clip_share_desktop.Proto.Status.{
  resp_ok, resp_no_data, resp_data_error, resp_communication_failure,
}
use clip_share_desktop.Methods.Frame.{send_data, read_ack, send_ack}

-- The end of a transfer that this side acknowledges or waits for: from version 4 on with an
-- acknowledgement.
unfoldable pub finish_sending : ℕ → Action (Unit {0})
unfolding ◌>>=◌ or_notify read_ack close_socket_await
finish_sending version =
    if leb 4 version
    then (do or_notify resp_communication_failure read_ack; close_socket_no_wait)
    else close_socket

-- `malloc(len)` and `read_sock(socket, data, len)`
unfoldable pub read_buffer : ℕ → Action Bytes
unfolding ◌>>=◌ ask fail_if read_sock
read_buffer size = do room ← ask (alloc (size + 1)); fail_if (not room); read_sock size

-- `put_clipboard_text`, whose status the callers ignore
unfoldable pub put_clipboard_text : Bytes → Action (Unit {0})
unfolding ◌>>=◌ ask record_event pure
put_clipboard_text text = do
  room ← ask (alloc (length text + 1))
  if room then record_event (pending_text text) else pure tt

send_clipboard_text : ℕ → Option Bytes → Action (Unit {0})
unfolding ◌>>=◌ asks notify_with reject reject_if or_reject send_data finish_sending
send_clipboard_text version none = reject resp_no_data
send_clipboard_text version (some text) = do
  limit ← asks (λ env h. env.config.max_text_length)
  reject_if (length text == 0 || ltb limit (length text)) resp_no_data
  let converted = convert_to_lf (c_str text)
  reject_if (length converted == 0) resp_no_data
  or_reject resp_communication_failure (send_data converted)
  finish_sending version
  notify_with resp_ok converted

unfoldable pub send_text_common : ℕ → Action (Unit {0})
unfolding send_clipboard_text
send_text_common version = do
  text ← asks (λ env h. env.clipboard_text h)
  send_clipboard_text version text

unfoldable pub get_text_common : ℕ → Action (Unit {0})
unfolding ◌>>=◌ asks pure notify_with reject_if or_reject or_notify fail_if read_size read_buffer
    send_ack close_socket_await put_clipboard_text
get_text_common version = do
  size ← or_reject resp_communication_failure read_size
  limit ← asks (λ env h. env.config.max_text_length)
  reject_if (leb_zero size || exceeds size limit) resp_data_error
  text ← or_reject resp_communication_failure (read_buffer (to_ℕ size))
  (if leb 4 version then pure tt else close_socket_no_wait)
  valid ← asks (λ env h. env.u8_valid text)
  reject_if (not valid) resp_data_error
  (if leb 4 version
      then (do or_notify resp_communication_failure send_ack; close_socket)
      else pure tt)
  notify_with resp_ok text
  let converted = convert_to_lf (c_str text)
  fail_if (length converted == 0)
  put_clipboard_text converted
