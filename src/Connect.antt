-- ===== src/Connect.antt =====
-- `connect_server` of utils/net_utils.c: two attempts to open a connection, with its time limits, the
-- TLS handshake and the name in the certificate.
pub mod Balance
pub mod Sockets
pub mod Reached
pub mod Tls
use clip_share_desktop.Prelude.{
  ℕ, Bool, true, false, ◌||◌, Option, none, some, List, [], ◌∷◌, Bytes, take, str_eq, if◌then◌else◌,
}
use clip_share_desktop.Text.{c_str}
use clip_share_desktop.Connect.Tls.{Tls as TlsState, Answers, init_ssl_ctx}
use clip_share_desktop.Config.{Config, is_set}
use clip_share_desktop.Net.{SockType, null_sock, plain_sock, ssl_sock, Recv, Send}
use clip_share_desktop.World.{opened, shut, Env, World, History}
use clip_share_desktop.Action.{
  Action, pure, asks, choose, ok, record_event, ◌>>=◌, ◌>>◌, log_error, diverge, close_socket_await,
  close_socket_no_wait,
}

-- The certificate of the peer: its first common name, if it has one, and what the buffer on the stack
-- of `check_peer_certs` holds before the name is written to it.
pub record Subject : Type 0 where
  pub cn : Option Bytes
  pub left : Bytes

-- What the kernel and OpenSSL answer to one attempt: `socket`, both `setsockopt` of a time limit,
-- `connect`, the same again; then the context as it is before the attempt and the answers to
-- `init_ssl_ctx`, `SSL_set_fd`, `SSL_connect`, and the certificate, if the peer has one. The scripts are
-- what the peer says later.
pub record Dial : Type 0 where
  pub made : Bool
  pub long_timeouts : Bool
  pub connected : Bool
  pub short_timeouts : Bool
  pub tls : TlsState
  pub answers : Answers
  pub fd_set : Bool
  pub handshake : Bool
  pub peer : Option Subject
  pub inbound : List Recv
  pub outbound : List Send

-- Is `ctx` set behind `init_ssl_ctx`?
unfoldable pub has_ctx : Dial → Bool
unfolding init_ssl_ctx
has_ctx dial = elim (init_ssl_ctx dial.answers dial.tls).ctx [ none ↦ false | some c ↦ true ]

-- `sock_p->type = …; sock_p->socket = …;`
unfoldable pub set_socket : SockType → Dial → Action (Unit {0})
set_socket type dial env w =
    (ok tt, record w { socket = type; inbound = dial.inbound; outbound = dial.outbound })

abbrev pub is_null : SockType → Bool
is_null null_sock = true
is_null plain_sock = false
is_null ssl_sock = false

unfoldable pub is_null_sock : Action Bool
is_null_sock env w = (ok (is_null w.socket), w)

-- `close_sock(sock)` and a message, if there is one
unfoldable pub give_up : Bool → Action (Unit {0})
unfolding ◌>>=◌ record_event log_error pure choose
give_up says = do record_event shut; choose says log_error (pure tt)

-- The loop of `check_peer_certs`.
unfoldable pub is_trusted : Bytes → List Bytes → Bool
is_trusted name [] = false
is_trusted name (server ∷ servers) = str_eq name server || is_trusted name servers

-- The C string in the buffer behind `X509_NAME_get_text_by_NID`, which writes at most 254 bytes, and
-- nothing where there is no common name.
abbrev pub name_buffer : Subject → Bytes
name_buffer subject = elim subject.cn [
  | none ↦ c_str (take 255 subject.left)
  | some name ↦ c_str (take 254 name)
]

-- `none` where the list is NULL and the loop follows it.
unfoldable pub check_peer_certs : Option Subject → Option (List Bytes) → Option Bool
unfolding is_trusted
check_peer_certs none trusted = some false
check_peer_certs (some subject) none = none
check_peer_certs (some subject) (some servers) = some (is_trusted (name_buffer subject) servers)

-- The test of `check_peer_certs` in `_connect_server`.
unfoldable pub settle : Option Bool → Action (Unit {0})
unfolding pure diverge close_socket_await
settle none = diverge
settle (some true) = pure tt
settle (some false) = close_socket_no_wait

-- From `SSL_connect` on.
unfoldable pub after_handshake : Dial → Action (Unit {0})
unfolding ◌>>=◌ asks set_socket check_peer_certs settle
after_handshake dial = do
  set_socket ssl_sock dial
  trusted ← asks (λ env h. env.config.trusted_servers)
  settle (check_peer_certs dial.peer trusted)

-- From `init_ssl_ctx` on. Where there is no context the socket stays open.
unfoldable pub connect_tls : Dial → Action (Unit {0})
unfolding log_error give_up after_handshake choose has_ctx
connect_tls dial =
    choose (has_ctx dial)
      (choose dial.fd_set (choose dial.handshake (after_handshake dial) (give_up false))
        (give_up false))
      log_error

-- From the socket type on.
unfoldable pub connect_secure : Dial → Action (Unit {0})
unfolding ◌>>=◌ asks set_socket connect_tls choose
connect_secure dial = do
  secure ← asks (λ env h. is_set env.config.secure_mode_enabled)
  choose secure (connect_tls dial) (set_socket plain_sock dial)

-- From the first `setsockopt` on.
unfoldable pub connect_open : Dial → Action (Unit {0})
unfolding give_up connect_secure choose
connect_open dial =
    choose dial.long_timeouts
      (choose dial.connected (choose dial.short_timeouts (connect_secure dial) (give_up true))
        (give_up false))
      (give_up true)

-- `_connect_server`
unfoldable pub connect_once : Dial → Action (Unit {0})
unfolding ◌>>=◌ set_socket pure record_event connect_open choose
connect_once dial = do
  set_socket null_sock dial
  choose dial.made (do record_event opened; connect_open dial) (pure tt)

-- The port that `_connect_server` asks for.
abbrev pub server_port : Config → ℕ
server_port config =
    if is_set config.secure_mode_enabled then config.tls_port else config.plaintext_port

-- The answers to an attempt at a port of an address may depend on what happened before.
abbrev pub Network : Type 0
Network = History → ℕ → ℕ → Dial

unfoldable pub connect_server : Network → ℕ → Action (Unit {0})
unfolding ◌>>=◌ asks is_null_sock connect_once pure choose
connect_server dial addr = do
  first ← asks (λ env h. dial h (server_port env.config) addr)
  connect_once first
  failed ← is_null_sock
  second ← asks (λ env h. dial h (server_port env.config) addr)
  choose failed (connect_once second) (pure tt)
