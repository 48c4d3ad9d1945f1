-- ===== src/Client/Web.antt =====
-- clients/gui_client.c: the answers to the requests of the web page. What libmicrohttpd queues for a
-- connection is a list of responses; the thread that sets the clipboard runs at once.
pub mod Notices
pub mod Answering
pub mod Responses
pub mod Requests
pub mod Texts
use clip_share_desktop.Prelude.{
  ℕ, ◌+◌, Bool, true, false, not, ◌||◌, Option, none, some, List, [], ◌∷◌, ◌++◌, Bytes, length,
  take, ◌==◌, if◌then◌else◌,
}
use clip_share_desktop.Config.Servers.{ipv4_aton}
use clip_share_desktop.World.{alloc, notified, Event, History, Env}
use clip_share_desktop.Action.{
  Action, asks, ask, choose, attempt, notify, notify_with, ◌>>=◌, ◌>>◌, close_socket_no_wait,
  close_socket_await,
}
use clip_share_desktop.Proto.Status.{
  MethodArgs, method_send_text, method_send_file, resp_ok, resp_no_data, resp_invalid_address,
  resp_connection_failure, resp_local_error,
}
use clip_share_desktop.Proto.Selector.{handle_proto}
use clip_share_desktop.Connect.{connect_server, is_null_sock}
use clip_share_desktop.Clipboard.Copied.{CopiedType, copied_none, copied_text, copied_file}
use clip_share_desktop.Client.Host.{Host, copied_type}

-- The status of a response, and its body.
abbrev pub Response : Type 0
Response = ℕ × Bytes

-- `status_callback_params`: the flag, and the responses that were queued for the connection.
pub record CallbackParams : Type 0 where
  pub called : Bool
  pub queued : List Response

abbrev pub callback_fn : ℕ → Bytes → CallbackParams → CallbackParams
callback_fn status msg params =
    if params.called
    then params
    else record { called = true; queued = (status, msg) ∷ params.queued }

-- The calls of the callback in a history that begins with the request.
abbrev pub call_event : Event → CallbackParams → CallbackParams
call_event (notified status msg) params = callback_fn status msg params
call_event e params = params

abbrev pub called_back : History → CallbackParams
called_back [] = record { called = false; queued = [] }
called_back (e ∷ h) = call_event e (called_back h)

-- Runs with `callback_fn` as the callback.
abbrev pub with_callback_fn : Env → Env
with_callback_fn env = record env { has_callback = true }

unfoldable pub with_callback : {A : Type 0} → Action A → Action A
with_callback m env w = m (with_callback_fn env) w

-- The check of the first switch of `handle_method`: may the method go on?
abbrev pub is_sendable : ℕ → CopiedType → Bool
is_sendable method copied_text = not (method == method_send_file)
is_sendable method copied_file = not (method == method_send_text)
is_sendable method copied_none = not (method == method_send_text || method == method_send_file)

-- With the connection.
unfoldable pub request_connected : ℕ → Option MethodArgs → Action (Unit {0})
unfolding ◌>>=◌ attempt handle_proto notify_with close_socket_await
request_connected method args = do
  attempt (handle_proto method args)
  close_socket_no_wait
  notify resp_local_error

unfoldable pub request_server : Host → ℕ → ℕ → Option MethodArgs → Action (Unit {0})
unfolding ◌>>=◌ connect_server is_null_sock choose request_connected notify_with
request_server host addr method args = do
  connect_server host.dial addr
  failed ← is_null_sock
  choose failed (notify resp_connection_failure) (request_connected method args)

unfoldable pub request_address : Host → Option ℕ → ℕ → Option MethodArgs → Action (Unit {0})
unfolding notify_with request_server
request_address host none method args = notify resp_invalid_address
request_address host (some addr) method args = request_server host addr method args

-- The body of `handle_method`.
unfoldable pub try_method : Host → Bytes → ℕ → Option MethodArgs → Action (Unit {0})
unfolding ◌>>=◌ copied_type choose notify_with request_address ipv4_aton
try_method host address method args = do
  copied ← copied_type host
  choose (is_sendable method copied)
      (request_address host (ipv4_aton host.sources address) method args) (notify resp_no_data)

unfoldable pub handle_method : Host → Bytes → ℕ → Option MethodArgs → Action (Unit {0})
unfolding try_method with_callback
handle_method host address method args = with_callback (try_method host address method args)

-- The two loops of `handle_scan`: the bytes that are needed, and the names, each with a comma; the last
-- comma is left out at the end.
abbrev pub scan_length : List Bytes → ℕ
scan_length [] = 0
scan_length (addr ∷ addrs) = length (take 64 addr) + 1 + scan_length addrs

abbrev pub scan_text : List Bytes → Bytes
scan_text [] = []
scan_text (addr ∷ []) = take 64 addr
scan_text (addr ∷ b ∷ addrs) = take 64 addr ++ b',' ∷ scan_text (b ∷ addrs)

unfoldable pub answer_scan : Option (List Bytes) → Action (Unit {0})
unfolding notify_with ask choose ◌>>=◌
answer_scan none = notify resp_ok
answer_scan (some []) = notify resp_ok
answer_scan (some (addr ∷ addrs)) = do
  works ← ask (alloc (scan_length (addr ∷ addrs)))
  choose works (notify_with resp_ok (scan_text (addr ∷ addrs))) (notify resp_ok)

-- The body of `handle_scan`.
unfoldable pub try_scan : Host → Action (Unit {0})
unfolding asks answer_scan ◌>>=◌
try_scan host = do servers ← asks (λ env h. host.scanned h); answer_scan servers

unfoldable pub handle_scan : Host → Action (Unit {0})
unfolding try_scan with_callback
handle_scan host = with_callback (try_scan host)
