-- ===== src/Tests/Clients.antt =====
-- A server in reach, asked by the web page and by the command line, and the listener.
use clip_share_desktop.Prelude.{
  ◌≡◌, ◌≢◌, refl, Bool, true, false, none, some, List, [], ◌∷◌, ◌++◌, Bytes, length, take, codes,
  str_eq, pos, arith,
}
use clip_share_desktop.Config.{is_set}
use clip_share_desktop.Config.Defaults.{
  initial_config, apply_default_conf, apply_default_conf-HasProtoRange, HasProtoRange,
}
use clip_share_desktop.Config.Servers.{Sources, ipv4_aton}
use clip_share_desktop.Net.{null_sock, plain_sock, ssl_sock, Recv, chunk, size_bytes}
use clip_share_desktop.World.{Call, exists, remove, Env, World, History, call, pending_text}
use clip_share_desktop.Action.{ok}
use clip_share_desktop.Action.Healthy.{on, Stream}
use clip_share_desktop.Text.{c_str, convert_to_lf}
use clip_share_desktop.Connect.Tls.{Answers}
use clip_share_desktop.Connect.{Dial, Subject, Network, has_ctx, connect_server}
use clip_share_desktop.Connect.Balance.{IsBalanced, losses}
use clip_share_desktop.Connect.Sockets.{
  shows_listed, used, connect_server-IsBalanced, connect_server-trusted,
}
use clip_share_desktop.Connect.Reached.{IsReachable}
use clip_share_desktop.Clipboard.Pending.{temp_file, set_pending_clipboard_item}
use clip_share_desktop.Clipboard.Pending.Given.{given}
use clip_share_desktop.Client.Host.{Host}
use clip_share_desktop.Client.Web.Notices.{notices}
use clip_share_desktop.Client.Web.Requests.{answer_to_connection}
use clip_share_desktop.Client.Web.Responses.{responses, direct, answer_to_connection-one_response}
use clip_share_desktop.Client.Web.Texts.{answer_to_connection-get_text}
use clip_share_desktop.Client.Listener.{clipboard_changed}
use clip_share_desktop.Client.Listener.Echo.{has_mark, clipboard_changed-own}
use clip_share_desktop.Tests.Setup.{machine, text, text_limit}

abbrev server : Bytes
server = codes "10.0.0.7"

abbrev names : Sources
names = record {
  file = λ name. none;
  u8_valid = λ s. true;
  inet_aton = λ s. some 117440522;
  uninit = [];
}

abbrev session : List Recv
session = chunk (1 ∷ 1 ∷ 0 ∷ 0 ∷ 0 ∷ 0 ∷ []) ∷ chunk (0 ∷ 0 ∷ 0 ∷ 3 ∷ 104 ∷ 105 ∷ 10 ∷ []) ∷ []

abbrev answers_well : Answers
answers_well = record {
  method = true;
  ctx_made = true;
  p12_read = true;
  p12_parsed = true;
  cert_used = true;
  key_matches = true;
  ca_read = true;
  ca_added = true;
}

abbrev reached : Dial
reached = record {
  made = true;
  long_timeouts = true;
  connected = true;
  short_timeouts = true;
  tls = record { ctx = none; events = [] };
  answers = answers_well;
  fd_set = true;
  handshake = true;
  peer = some (record { cn = some (codes "desk"); left = [] });
  inbound = session;
  outbound = [];
}

abbrev host : Host
host = record {
  sources = names;
  dial = λ h port addr. reached;
  targets = λ h. some (codes "TEXT");
  scanned = λ h. some (server ∷ []);
  page_html = codes "<html>";
}

abbrev idle : World
idle = on null_sock [] []

session-Stream : Stream plain_sock session (1 ∷ 1 ∷ (size_bytes (pos 3) ++ (text ++ [])))
unfolding size_bytes
session-Stream = record { delivers = tt; bytes = refl }

no_tls : is_set machine.config.secure_mode_enabled ≡ false
unfolding apply_default_conf
no_tls = refl

in_reach : IsReachable machine reached
in_reach = record {
  made = refl;
  long_timeouts = refl;
  connected = refl;
  short_timeouts = refl;
  outbound = refl;
  plain = no_tls;
}

known : ipv4_aton names server ≡ some 117440522
unfolding ipv4_aton
known = refl

in_range : HasProtoRange machine.config
in_range = apply_default_conf-HasProtoRange initial_config

stays : convert_to_lf (c_str text) ≢ []
unfolding convert_to_lf c_str
stays e = cc

answer_to_connection-get_text_example :
    let e =
      answer_to_connection host
        (codes "/get/text")
        (codes "POST")
        ((codes "server", some server) ∷ [])
        machine
        idle in
    (e.0 ≡ ok none)
    × (responses none e.1.history ≡ (200, text) ∷ [])
    × (given e.1.history ≡ some ([], convert_to_lf (c_str text)))
answer_to_connection-get_text_example =
    answer_to_connection-get_text host server 117440522 machine idle known in_reach in_range
      (λ h n. refl) text [] (omega arith) refl session-Stream (omega arith)
      (omega (arith, text_limit)) (omega (arith, text_limit)) refl stays

answer_to_connection-one_response_example :
    let h =
      (answer_to_connection host
        (codes "/get/text")
        (codes "POST")
        ((codes "server", some server) ∷ [])
        machine
        idle).1.history in
    (responses none h ≡ take 1 (direct none ++ notices h)) × (length (responses none h) ≡ 1)
answer_to_connection-one_response_example =
    answer_to_connection-one_response host (codes "/get/text") (codes "POST")
      ((codes "server", some server) ∷ []) machine idle none refl
      answer_to_connection-get_text_example.0

abbrev trusted : List Bytes
trusted = codes "desk" ∷ []

abbrev secure : Env
secure = record machine {
  config = record machine.config { secure_mode_enabled = pos 1; trusted_servers = some trusted };
}

-- No context can be made.
abbrev no_context : Network
no_context h port addr = record reached { answers = record answers_well { ctx_made = false } }

connect_server-IsBalanced_example :
    IsBalanced (losses no_context 7 secure idle) (connect_server no_context 7 secure idle).1
connect_server-IsBalanced_example = connect_server-IsBalanced no_context 7 secure idle refl

lost_twice : losses no_context 7 secure idle ≡ 2
unfolding connect_server has_ctx
lost_twice = refl

secure_socket : (connect_server host.dial 7 secure idle).1.socket ≢ null_sock
unfolding connect_server str_eq has_ctx c_str
secure_socket e = cc

connect_server-trusted_example :
    ((connect_server host.dial 7 secure idle).1.socket ≡ ssl_sock)
    × ((subject : Subject) × ((used host.dial 7 secure idle).peer ≡ some subject)
        × (shows_listed trusted subject ≡ true))
connect_server-trusted_example =
    connect_server-trusted host.dial 7 secure idle trusted refl refl secure_socket

abbrev honest_answers : History → Call → Bool
honest_answers h (exists path) = has_mark h
honest_answers h c = true

abbrev honest : Env
honest = record machine { answer = honest_answers }

abbrev copied : World
copied = on null_sock [] (pending_text text ∷ [])

clipboard_changed-own_example :
    let w1 = (set_pending_clipboard_item honest copied).1 in
    let h = call (remove temp_file) ∷ call (exists temp_file) ∷ w1.history in
    (clipboard_changed host honest w1 ≡ (ok tt, record w1 { history = h })) × (has_mark h ≡ false)
clipboard_changed-own_example = clipboard_changed-own host honest copied (λ h. refl) (λ e. cc)
