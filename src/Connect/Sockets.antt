-- ===== src/Connect/Sockets.antt =====
-- What `connect_server` leaves behind: the sockets that are open, and whom they lead to.
use clip_share_desktop.Prelude.{
  ℕ, ◌+◌, ◌≡◌, ◌≢◌, refl, Bool, true, false, Option, none, some, List, [], ◌∷◌, Bytes, take,
  str_eq_sym, arith, if◌then◌else◌,
}
use clip_share_desktop.Config.{is_set}
use clip_share_desktop.Net.{SockType, null_sock, plain_sock, ssl_sock}
use clip_share_desktop.World.{opened, Env, World}
use clip_share_desktop.Scan.Filter.Members.{listed}
use clip_share_desktop.Text.{c_str}
use clip_share_desktop.Connect.{
  Dial, Subject, Network, server_port, connect_once, connect_server, settle, connect_secure,
  check_peer_certs, is_null, is_trusted,
}
use clip_share_desktop.Connect.Balance.{
  opens, closes, IsBalanced, loss, losses, connect_once-IsBalanced,
}

-- Whatever the network and OpenSSL answer, each socket that `connect_server` has opened in its one or
-- two attempts is given back, but the one that it returns and one for each attempt that, in secure
-- mode, gets as far as the TLS context and has none behind `init_ssl_ctx`: that socket is lost.
pub connect_server-IsBalanced :
    (dial : Network) (addr : ℕ) (env : Env) (w : World)
    → opens w.history ≡ closes w.history
    → IsBalanced (losses dial addr env w) (connect_server dial addr env w).1
unfolding connect_server
connect_server-IsBalanced dial addr env w b =
    let first : Dial = dial w.history (server_port env.config) addr in
    let w1 : World = (connect_once first env w).1 in
    let b1 : IsBalanced (0 + loss env first) w1 =
      connect_once-IsBalanced first 0 env w (omega (arith, b)) in
    ground (
      arith,
      b1,
      connect_once-IsBalanced (dial w1.history (server_port env.config) addr) (loss env first) env
          w1,
    )

is_trusted-listed :
    (name : Bytes) (servers : List Bytes) → is_trusted name servers ≡ listed name servers
unfolding is_trusted
is_trusted-listed name [] = refl
is_trusted-listed name (s ∷ servers) =
    ground (arith, is_trusted-listed name servers, str_eq_sym name s)

-- Is the common name listed, to its first NUL and up to 254 bytes? Where the certificate has none, it is
-- what the buffer held.
abbrev pub shows_listed : List Bytes → Subject → Bool
shows_listed servers subject = elim subject.cn [
  | none ↦ listed (c_str (take 255 subject.left)) servers
  | some name ↦ listed (c_str (take 254 name)) servers
]

verdict-listed :
    (subject : Subject) (cn : Option Bytes) (servers : List Bytes)
    → subject.cn ≡ cn
    → check_peer_certs (some subject) (some servers) ≡ some true
    → shows_listed servers subject ≡ true
unfolding check_peer_certs
verdict-listed subject none servers k e =
    rw k (ground (arith, is_trusted-listed (c_str (take 255 subject.left)) servers))
verdict-listed subject (some n) servers k e =
    rw k (ground (arith, is_trusted-listed (c_str (take 254 n)) servers))

verdict :
    (peer : Option Subject) (servers : List Bytes)
    → check_peer_certs peer (some servers) ≡ some true
    → (s : Subject) × (peer ≡ some s) × (shows_listed servers s ≡ true)
unfolding check_peer_certs
verdict none servers e = cc
verdict (some s) servers e = (s, refl, verdict-listed s s.cn servers refl e)

-- How an attempt can leave the socket.
abbrev Leaves : Env → Option Bool → SockType → Type 0
Leaves env verdict null_sock = Unit
Leaves env verdict plain_sock = is_set env.config.secure_mode_enabled ≡ false
Leaves env verdict ssl_sock = verdict ≢ some false

settle-Leaves :
    (verdict : Option Bool) (env : Env) (w : World)
    → w.socket ≡ ssl_sock
    → Leaves env verdict (settle verdict env w).1.socket
unfolding settle
settle-Leaves none env w k = rw k (λ e. cc)
settle-Leaves (some true) env w k = rw k (λ e. cc)
settle-Leaves (some false) env w k = rw k tt

connect_secure-Leaves :
    (dial : Dial) (env : Env) (w : World)
    → w.socket ≡ null_sock
    → Leaves env
        (check_peer_certs dial.peer env.config.trusted_servers)
        (connect_secure dial env w).1.socket
unfolding connect_secure
connect_secure-Leaves dial env w k =
    let w1 : World = record w {
      socket = ssl_sock;
      inbound = dial.inbound;
      outbound = dial.outbound;
    } in
    ground
      (arith, settle-Leaves (check_peer_certs dial.peer env.config.trusted_servers) env w1 refl)

connect_once-Leaves :
    (dial : Dial) (env : Env) (w : World)
    → Leaves env
        (check_peer_certs dial.peer env.config.trusted_servers)
        (connect_once dial env w).1.socket
unfolding connect_once
connect_once-Leaves dial env w =
    let w1 : World = record w {
      socket = null_sock;
      inbound = dial.inbound;
      outbound = dial.outbound;
      history = opened ∷ w.history;
    } in
    ground (arith, connect_secure-Leaves dial env w1 refl)

-- What was answered to the last attempt that is made.
abbrev pub used : Network → ℕ → Env → World → Dial
used dial addr env w =
    let w1 = (connect_once (dial w.history (server_port env.config) addr) env w).1 in
    if is_null w1.socket
    then dial w1.history (server_port env.config) addr
    else dial w.history (server_port env.config) addr

last_attempt :
    (dial : Network) (addr : ℕ) (env : Env) (w : World)
    → Leaves env
        (check_peer_certs (used dial addr env w).peer env.config.trusted_servers)
        (connect_server dial addr env w).1.socket
unfolding connect_server
last_attempt dial addr env w =
    let w1 : World = (connect_once (dial w.history (server_port env.config) addr) env w).1 in
    ground (
      arith,
      connect_once-Leaves (dial w.history (server_port env.config) addr) env w,
      connect_once-Leaves (dial w1.history (server_port env.config) addr) env w1,
    )

tls_peer :
    (env : Env) (servers : List Bytes) (peer : Option Subject) (type : SockType)
    → env.config.trusted_servers ≡ some servers
    → is_set env.config.secure_mode_enabled ≡ true
    → Leaves env (check_peer_certs peer env.config.trusted_servers) type
    → type ≢ null_sock
    → (type ≡ ssl_sock) × ((s : Subject) × (peer ≡ some s) × (shows_listed servers s ≡ true))
unfolding check_peer_certs
tls_peer env servers name null_sock t s l o = absurd (o refl)
tls_peer env servers name plain_sock t s l o = absurd (ground arith)
tls_peer env servers none ssl_sock t s l o = absurd (ground arith)
tls_peer env servers (some n) ssl_sock t s l o = (refl, verdict (some n) servers (ground arith))

-- In secure mode with a list of trusted servers, a socket that `connect_server` returns for use is a TLS
-- socket, and the peer of the attempt that it comes from has shown a certificate whose common name, to
-- its first NUL and up to 254 bytes, is in the list; or whose subject has no common name, and then the
-- bytes that the stack held are in the list.
pub connect_server-trusted :
    (dial : Network) (addr : ℕ) (env : Env) (w : World) (servers : List Bytes)
    → is_set env.config.secure_mode_enabled ≡ true
    → env.config.trusted_servers ≡ some servers
    → (connect_server dial addr env w).1.socket ≢ null_sock
    → ((connect_server dial addr env w).1.socket ≡ ssl_sock)
      × ((subject : Subject) × ((used dial addr env w).peer ≡ some subject)
          × (shows_listed servers subject ≡ true))
connect_server-trusted dial addr env w servers s t o =
    tls_peer env servers (used dial addr env w).peer (connect_server dial addr env w).1.socket t s
      (last_attempt dial addr env w) o
