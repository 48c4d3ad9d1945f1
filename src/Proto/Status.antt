-- ===== src/Proto/Status.antt =====
-- clients/status_cb.h and the codes of proto/methods.h, proto/versions.c and proto/selector.c.
use clip_share_desktop.Prelude.{ℕ, ◌%◌, Bool, not, ◌==◌}

-- The callback's statuses are HTTP statuses of libmicrohttpd.
abbrev pub resp_ok : ℕ
resp_ok = 200

abbrev pub resp_no_data : ℕ
resp_no_data = 404

abbrev pub resp_data_error : ℕ
resp_data_error = 502

abbrev pub resp_method_not_allowed : ℕ
resp_method_not_allowed = 403

abbrev pub resp_proto_method_error : ℕ
resp_proto_method_error = 400

abbrev pub resp_proto_version_mismatch : ℕ
resp_proto_version_mismatch = 502

abbrev pub resp_server_error : ℕ
resp_server_error = 502

abbrev pub resp_communication_failure : ℕ
resp_communication_failure = 504

abbrev pub resp_connection_failure : ℕ
resp_connection_failure = 503

abbrev pub resp_invalid_address : ℕ
resp_invalid_address = 400

abbrev pub resp_local_error : ℕ
resp_local_error = 500

abbrev pub status_ok : ℕ
status_ok = 1

abbrev pub status_no_data : ℕ
status_no_data = 2

abbrev pub status_unknown_method : ℕ
status_unknown_method = 3

abbrev pub status_method_not_implemented : ℕ
status_method_not_implemented = 4

abbrev pub protocol_supported : ℕ
protocol_supported = 1

abbrev pub protocol_obsolete : ℕ
protocol_obsolete = 2

abbrev pub protocol_unknown : ℕ
protocol_unknown = 3

abbrev pub method_get_text : ℕ
method_get_text = 1

abbrev pub method_send_text : ℕ
method_send_text = 2

abbrev pub method_get_file : ℕ
method_get_file = 3

abbrev pub method_send_file : ℕ
method_send_file = 4

abbrev pub method_get_image : ℕ
method_get_image = 5

abbrev pub method_get_copied_image : ℕ
method_get_copied_image = 6

abbrev pub method_get_screenshot : ℕ
method_get_screenshot = 7

abbrev pub method_info : ℕ
method_info = 125

-- The union `MethodArgs` by its first two bytes: `display` is both of them, and `is_auto_send` the
-- one that comes first, on a little-endian machine.
pub record MethodArgs : Type 0 where
  pub display : ℕ

abbrev pub no_args : MethodArgs
no_args = record { display = 0 }

abbrev pub is_auto_send : MethodArgs → Bool
is_auto_send args = not (args.display % 256 == 0)
