-- ===== src/Client/Listener.antt =====
-- utils/clipboard_listener.c and the loop of utils/listener_linux.c: what is copied is sent to the
-- servers that a scan finds. The threads that send are run one after the other.
pub mod Servers
pub mod Echo
use clip_share_desktop.Prelude.{
  ℕ, zero, suc, ◌*◌, Bool, true, false, ◌&&◌, ◌||◌, Option, none, some, List, [], ◌∷◌, Bytes,
  length, str_eq, ltb, ◌==◌, if◌then◌else◌,
}
use clip_share_desktop.Config.{Config, is_set}
use clip_share_desktop.Config.Servers.{ipv4_aton}
use clip_share_desktop.Scan.Filter.{swap_in_last}
use clip_share_desktop.World.{alloc, start_thread, Env, History}
use clip_share_desktop.Action.{
  Action, pure, asks, ask, choose, attempt, diverge, ◌>>=◌, ◌>>◌, close_socket_no_wait,
  close_socket_await,
}
use clip_share_desktop.Proto.Status.{MethodArgs, method_send_text, method_send_file}
use clip_share_desktop.Proto.Selector.{handle_proto}
use clip_share_desktop.Connect.{connect_server, is_null_sock}
use clip_share_desktop.Clipboard.Copied.{CopiedType, copied_none, copied_text, copied_file}
use clip_share_desktop.Clipboard.Pending.{check_and_delete_temp_file}
use clip_share_desktop.Client.Host.{Host, copied_type}
use clip_share_desktop.Client.Cli.{without_callback}

abbrev pub method_for : CopiedType → ℕ
method_for copied_file = method_send_file
method_for _ = method_send_text

-- `methodArgs.is_auto_send = 1`
abbrev pub auto_args : MethodArgs
auto_args = record { display = 1 }

unfoldable pub send_connected : ℕ → Action (Unit {0})
unfolding ◌>>=◌ attempt without_callback handle_proto close_socket_await
send_connected method = do
  attempt (without_callback (handle_proto method (some auto_args)))
  close_socket_no_wait

unfoldable pub send_to_address : Host → CopiedType → Option ℕ → Action (Unit {0})
unfolding ◌>>=◌ pure choose connect_server is_null_sock send_connected
send_to_address host type none = pure tt
send_to_address host type (some addr) = do
  connect_server host.dial addr
  failed ← is_null_sock
  choose failed (pure tt) (send_connected (method_for type))

unfoldable pub send_to_server : Host → CopiedType → Bytes → Action (Unit {0})
unfolding ipv4_aton send_to_address
send_to_server host type server = send_to_address host type (ipv4_aton host.sources server)

-- `is_server_allowed`
unfoldable pub is_server_allowed : List Bytes → Bytes → Bool
is_server_allowed [] addr = false
is_server_allowed (server ∷ servers) addr = str_eq addr server || is_server_allowed servers addr

-- The loop of `scan_servers` from `i` on. A round keeps a server or takes one away, so as many rounds
-- as there are servers are enough.
unfoldable pub keep_allowed : ℕ → List Bytes → List Bytes → List Bytes
unfolding is_server_allowed
keep_allowed zero allowed servers = servers
keep_allowed (suc fuel) allowed [] = []
keep_allowed (suc fuel) allowed (server ∷ rest) =
    let removed = keep_allowed fuel allowed (swap_in_last rest) in
    let kept = keep_allowed fuel allowed rest in
    if is_server_allowed allowed server then server ∷ kept else removed

abbrev pub restricted : Option (List Bytes) → List Bytes → List Bytes
restricted none servers = servers
restricted (some allowed) servers =
    if ltb (length servers) 1024 then keep_allowed (length servers) allowed servers else servers

abbrev pub not_too_many : List Bytes → Option (List Bytes)
not_too_many servers =
    if length servers == 0 || ltb 512 (length servers) then none else some servers

-- `scan_servers` on what the scan found.
unfoldable pub chosen : Option (List Bytes) → Option (List Bytes) → Option (List Bytes)
unfolding keep_allowed
chosen allowed none = none
chosen allowed (some servers) = not_too_many (restricted allowed servers)

unfoldable pub scan_servers : Host → Action (Option (List Bytes))
unfolding asks chosen
scan_servers host = asks (λ env h. chosen env.config.auto_send_servers (host.scanned h))

-- The loop of `send_in_threads`. The argument's memory is used without a test.
unfoldable pub send_each : Host → CopiedType → List Bytes → Action (Unit {0})
unfolding ◌>>=◌ pure ask choose diverge send_to_server
send_each host type [] = pure tt
send_each host type (server ∷ servers) = do
  works ← ask (alloc 16)
  choose works (pure tt) diverge
  started ← ask start_thread
  choose started (send_to_server host type server) (pure tt)
  send_each host type servers

-- From 16 servers on the threads are kept in memory of their own.
unfoldable pub send_in_threads : Host → CopiedType → List Bytes → Action (Unit {0})
unfolding ◌>>=◌ pure ask choose send_each
send_in_threads host type servers = do
  room ← choose (ltb (length servers) 16) (pure true) (ask (alloc (8 * length servers)))
  choose room (send_each host type servers) (pure tt)

abbrev pub is_enabled : Config → CopiedType → Bool
is_enabled config copied_text = is_set config.auto_send_text
is_enabled config copied_file = is_set config.auto_send_files
is_enabled config copied_none = false

abbrev send_if_any : Host → CopiedType → Option (List Bytes) → Action (Unit {0})
send_if_any host type none = pure tt
send_if_any host type (some servers) = send_in_threads host type servers

-- A second scan, where the first one has found nothing.
abbrev scan_again : Host → Option (List Bytes) → Action (Option (List Bytes))
scan_again host none = scan_servers host
scan_again host (some servers) = pure (some servers)

unfoldable pub send_to_servers : Host → CopiedType → Action (Unit {0})
unfolding ◌>>=◌ pure asks choose scan_servers send_in_threads
send_to_servers host type = do
  enabled ← asks (λ env h. is_enabled env.config type)
  choose enabled
      (do first ← scan_servers host; servers ← scan_again host first; send_if_any host type servers)
      (pure tt)

abbrev is_copied : CopiedType → Bool
is_copied copied_none = false
is_copied _ = true

-- One round of `clipboard_listen`: the clipboard has changed.
unfoldable pub clipboard_changed : Host → Action (Unit {0})
unfolding ◌>>=◌ pure choose check_and_delete_temp_file copied_type send_to_servers
clipboard_changed host = do
  own ← check_and_delete_temp_file
  choose own (pure tt)
      (do type ← copied_type host; choose (is_copied type) (send_to_servers host type) (pure tt))
