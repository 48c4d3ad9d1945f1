-- ===== src/Client/Web/Requests.antt =====
-- `extract_query_params` and `answer_to_connection` of clients/gui_client.c.
use clip_share_desktop.Prelude.{
  ℕ, min, ◌&&◌, Option, none, some, List, [], ◌∷◌, Bytes, length, str_eq, ltb, if◌then◌else◌, codes,
}
use clip_share_desktop.Action.{Action, pure, choose, diverge, ◌>>=◌, ◌>>◌}
use clip_share_desktop.Proto.Status.{
  MethodArgs, method_get_text, method_send_text, method_get_file, method_send_file,
  method_get_image, method_get_copied_image, method_get_screenshot,
}
use clip_share_desktop.Clipboard.Pending.{set_pending_clipboard_item}
use clip_share_desktop.Client.Host.{Host, display_of}
use clip_share_desktop.Client.Web.{Response, handle_method, handle_scan}

-- `get_query_params`; the display -1 is `none`.
pub record Query : Type 0 where
  pub server : Option Bytes
  pub display : Option ℕ

abbrev strnlen : Bytes → ℕ → ℕ
strnlen s n = min (length s) n

abbrev set_param : Query → Bytes → Bytes → Query
set_param query key value =
    if str_eq key (codes "server")
    then if ltb (strnlen value 17) 16 then record query { server = some value } else query
    else if str_eq key (codes "display") && ltb 0 (length value) && ltb (strnlen value 7) 6
    then record query { display = display_of value }
    else query

-- An argument without `=` has no value, which is NULL: `none` is the crash of `strnlen`.
unfoldable pub extract_query_params : Query → Bytes → Option Bytes → Option Query
unfolding str_eq display_of
extract_query_params query key none = if str_eq key (codes "server") then none else some query
extract_query_params query key (some value) = some (set_param query key value)

-- `MHD_get_connection_values` with `extract_query_params`.
unfoldable pub get_values : Option Query → List (Bytes × Option Bytes) → Option Query
unfolding extract_query_params
get_values query [] = query
get_values none ((key, value) ∷ args) = none
get_values (some query) ((key, value) ∷ args) =
    get_values (extract_query_params query key value) args

-- A request is answered through the callback, or with a response that is queued here.
abbrev pub handled : Action (Unit {0}) → Action (Option Response)
handled m = m >> pure none

abbrev pub queue : ℕ → Bytes → Action (Option Response)
queue status body = pure (some (status, body))

-- The chain of the paths behind the check of the parameters.
unfoldable pub call_method : Host → Bytes → Bytes → ℕ → Action (Option Response)
unfolding ◌>>=◌ pure choose handle_method str_eq
call_method host url server display =
    let run =
      λ (method : ℕ) (args : Option MethodArgs). handled (handle_method host server method args) in
    choose (str_eq url (codes "/get/text")) (run method_get_text none) (
      choose (str_eq url (codes "/get/file")) (run method_get_file none) (
        choose (str_eq url (codes "/get/image")) (run method_get_image none) (
          choose (str_eq url (codes "/get/copied-image")) (run method_get_copied_image none) (
            choose (str_eq url (codes "/get/screenshot"))
              (run method_get_screenshot (some (record { display = display })))
              (choose (str_eq url (codes "/send/text")) (run method_send_text none) (
                choose (str_eq url (codes "/send/file")) (run method_send_file none)
                  (queue 404 [])))))))

unfoldable pub check_params : Host → Bytes → Option Bytes → Option ℕ → Action (Option Response)
unfolding pure call_method
check_params host url none display = queue 400 []
check_params host url (some server) none = queue 400 []
check_params host url (some server) (some display) = call_method host url server display

unfoldable pub post : Host → Bytes → Option Query → Action (Option Response)
unfolding ◌>>=◌ pure choose diverge str_eq handle_scan check_params set_pending_clipboard_item
post host url none = diverge
post host url (some query) = do
  response ←
      choose (str_eq url (codes "/scan")) (handled (handle_scan host))
        (check_params host url query.server query.display)
  set_pending_clipboard_item
  pure response

unfoldable pub answer_to_connection :
    Host → Bytes → Bytes → List (Bytes × Option Bytes) → Action (Option Response)
unfolding pure choose str_eq get_values post
answer_to_connection host url method args =
    choose (str_eq method (codes "GET")) (queue 200 host.page_html) (
      choose (str_eq method (codes "POST"))
        (post host url (get_values (some (record { server = none; display = some 0 })) args))
        (queue 501 []))
