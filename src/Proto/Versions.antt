-- ===== src/Proto/Versions.antt =====
-- proto/versions.c: the method request, and the methods of each version.
use clip_share_desktop.Prelude.{ℕ, Bool, ◌||◌, [], ◌∷◌, ◌==◌, if◌then◌else◌}
use clip_share_desktop.Action.{Action, pure, fail, ◌>>=◌, ◌>>◌, or_reject, reject, write_sock}
use clip_share_desktop.Proto.Status.{
  MethodArgs, is_auto_send, status_ok, status_no_data, status_unknown_method,
  status_method_not_implemented, method_get_text, method_send_text, method_get_file,
  method_send_file, method_get_image, method_get_copied_image, method_get_screenshot, method_info,
  resp_communication_failure, resp_no_data, resp_method_not_allowed, resp_server_error,
  resp_proto_method_error,
}
use clip_share_desktop.Methods.Frame.{read_byte}
use clip_share_desktop.Methods.TextData.{get_text_common, send_text_common}
use clip_share_desktop.Methods.Info.{info_v1, info_v4}
use clip_share_desktop.Methods.Image.{save_image_common, get_screenshot_common}
use clip_share_desktop.Methods.Send.{send_file_v1, send_files}
use clip_share_desktop.Methods.Receive.{get_files_dirs}

-- The switch on the server's answer to a method code.
abbrev pub method_answer : ℕ → Action (Unit {0})
method_answer status =
    if status == status_ok
    then pure tt
    else if status == status_no_data
    then reject resp_no_data
    else if status == status_method_not_implemented || status == status_unknown_method
    then reject resp_method_not_allowed
    else reject resp_server_error

unfoldable pub method_request : ℕ → Action (Unit {0})
unfolding ◌>>=◌ or_reject write_sock read_byte reject pure
method_request method = do
  or_reject resp_communication_failure (write_sock (method ∷ []))
  status ← or_reject resp_communication_failure read_byte
  method_answer status

-- The first switch of each version: the methods that it knows.
abbrev pub basic_method : ℕ → Bool
basic_method m =
    m == method_get_text
    || m == method_send_text
    || m == method_get_file
    || m == method_send_file
    || m == method_get_image
    || m == method_info

abbrev pub full_method : ℕ → Bool
full_method m = basic_method m || m == method_get_copied_image || m == method_get_screenshot

-- The methods of a version that the second switch chooses from.
pub record Handlers : Type 0 where
  pub get_text : Action (Unit {0})
  pub send_text : Action (Unit {0})
  pub get_file : Action (Unit {0})
  pub send_file : Action (Unit {0})
  pub get_image : Action (Unit {0})
  pub info : Action (Unit {0})

abbrev pub basic_switch : Handlers → ℕ → Action (Unit {0}) → Action (Unit {0})
basic_switch h m other =
    if m == method_get_text
    then h.get_text
    else if m == method_send_text
    then h.send_text
    else if m == method_get_file
    then h.get_file
    else if m == method_send_file
    then h.send_file
    else if m == method_get_image
    then h.get_image
    else if m == method_info
    then h.info
    else other

-- A method that the first switch lets through, requested and then run.
run_version : Bool → ℕ → Action (Unit {0}) → Action (Unit {0})
unfolding ◌>>=◌ fail method_request
run_version known method handler = if known then (do method_request method; handler) else fail

abbrev handlers_v1 : MethodArgs → Handlers
handlers_v1 args = record {
  get_text = get_text_common 1;
  send_text = send_text_common 1;
  get_file = get_files_dirs 1;
  send_file = send_file_v1 (is_auto_send args);
  get_image = save_image_common 1;
  info = info_v1;
}

unfoldable pub version_1 : ℕ → MethodArgs → Action (Unit {0})
unfolding run_version reject
version_1 method args =
    run_version (basic_method method) method
      (basic_switch (handlers_v1 args) method (reject resp_proto_method_error))

abbrev handlers_v2 : MethodArgs → Handlers
handlers_v2 args = record (handlers_v1 args) {
  get_file = get_files_dirs 2;
  send_file = send_files 2 (is_auto_send args);
}

unfoldable pub version_2 : ℕ → MethodArgs → Action (Unit {0})
unfolding run_version reject
version_2 method args =
    run_version (basic_method method) method
      (basic_switch (handlers_v2 args) method (reject resp_proto_method_error))

-- The two methods that versions 3 and 4 add.
abbrev full_switch : ℕ → Handlers → ℕ → MethodArgs → Action (Unit {0})
full_switch version h method args =
    if method == method_get_copied_image
    then save_image_common version
    else if method == method_get_screenshot
    then get_screenshot_common version args.display
    else basic_switch h method (reject resp_proto_method_error)

abbrev handlers_v3 : MethodArgs → Handlers
handlers_v3 args = record (handlers_v1 args) {
  get_file = get_files_dirs 3;
  send_file = send_files 3 (is_auto_send args);
}

unfoldable pub version_3 : ℕ → MethodArgs → Action (Unit {0})
unfolding run_version reject
version_3 method args =
    run_version (full_method method) method (full_switch 3 (handlers_v3 args) method args)

abbrev handlers_v4 : MethodArgs → Handlers
handlers_v4 args = record {
  get_text = get_text_common 4;
  send_text = send_text_common 4;
  get_file = get_files_dirs 4;
  send_file = send_files 4 (is_auto_send args);
  get_image = save_image_common 4;
  info = info_v4;
}

unfoldable pub version_4 : ℕ → MethodArgs → Action (Unit {0})
unfolding run_version reject
version_4 method args =
    run_version (full_method method) method (full_switch 4 (handlers_v4 args) method args)
