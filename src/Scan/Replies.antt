-- ===== src/Scan/Replies.antt =====
-- `scan_fn` and `udp_scan` of clients/udp_scan.c on Linux: one thread for each network, which listens
-- for the servers' replies, and a list that the threads share.
pub mod Orders
use clip_share_desktop.Prelude.{
  ℕ, zero, suc, ◌+◌, ◌*◌, ◌/◌, ◌%◌, Bool, true, false, not, ◌||◌, ◌&&◌, Option, none, some, List,
  [], ◌∷◌, ◌++◌, Bytes, take, str_eq, leb, ◌==◌, if◌then◌else◌,
}
use clip_share_desktop.Text.{c_str}
use clip_share_desktop.Methods.Info.{info_name}
use clip_share_desktop.Scan.Filter.{filter_addresses}

-- One `recvfrom`: the datagram, if there was one in time, and the sender as `inet_ntop` writes it.
pub record Reply : Type 0 where
  pub datagram : Option Bytes
  pub sender : Option Bytes

-- What fits into the buffer in front of its last byte.
abbrev pub msg_text : Option Bytes → Bytes
msg_text none = []
msg_text (some bytes) = c_str (take 15 bytes)

-- A round of the loop of `scan_fn`: the server to append, unless the round is skipped.
unfoldable pub server_of : Reply → Option Bytes
unfolding str_eq c_str
server_of r = if str_eq info_name (msg_text r.datagram) then r.sender else none

-- What the system says of a UDP socket: `socket`, the three `setsockopt`, and what `recvfrom` gives.
pub record UdpDial : Type 0 where
  pub made : Bool
  pub broadcast_set : Bool
  pub recv_timeout : Bool
  pub send_timeout : Bool
  pub replies : List Reply

-- `get_udp_socket`: is there a socket?
unfoldable pub get_udp_socket : UdpDial → Bool
get_udp_socket dial = dial.made && (dial.broadcast_set && (dial.recv_timeout && dial.send_timeout))

-- The rounds that `scan_fn` has before it.
unfoldable pub scan_fn : UdpDial → List Reply
unfolding get_udp_socket
scan_fn dial = if get_udp_socket dial then take 256 dial.replies else []

-- An entry of `getifaddrs`: has it an address of the family `AF_INET`, the address and the mask as
-- 32 bits, what `inet_ntop` writes, and whether `pthread_create` succeeds.
pub record Interface : Type 0 where
  pub is_inet : Bool
  pub addr : ℕ
  pub netmask : ℕ
  pub text : Option Bytes
  pub created : Bool

-- `addr | ~netmask` on so many bits.
unfoldable pub broadcast : ℕ → ℕ → ℕ → ℕ
broadcast zero addr netmask = 0
broadcast (suc bits) addr netmask =
    let rest = broadcast bits (addr / 2) (netmask / 2) in
    if (addr % 2 == 1) || (netmask % 2 == 0) then 1 + 2 * rest else 2 * rest

-- 127.0.0.1
abbrev pub loopback : ℕ
loopback = 2130706433

abbrev pub is_scanned : Interface → Bool
is_scanned i = i.is_inet && not (i.addr == loopback)

abbrev pub append_text : Option Bytes → List Bytes → List Bytes
append_text none addrs = addrs
append_text (some a) addrs = a ∷ addrs

-- What the loop over the interfaces leaves: the broadcast addresses of the threads, and the
-- addresses of this machine.
pub record Started : Type 0 where
  pub threads : List ℕ
  pub addrs : List Bytes

-- The loop from an interface on, with `ind` threads started before. It ends with the 16th.
unfoldable pub start_threads : ℕ → List Interface → Started
start_threads ind [] = record { threads = []; addrs = [] }
start_threads ind (i ∷ is) =
    let skipped = start_threads ind is in
    let next = start_threads (suc ind) is in
    let target = broadcast 32 i.addr i.netmask in
    if not (is_scanned i)
    then skipped
    else if not i.created
    then record { threads = skipped.threads; addrs = append_text i.text skipped.addrs }
    else if leb 16 (suc ind)
    then record { threads = target ∷ []; addrs = append_text i.text [] }
    else record { threads = target ∷ next.threads; addrs = append_text i.text next.addrs }

-- The list of servers, and the rounds that each thread has before it.
pub record Scanning : Type 0 where
  pub servers : List Bytes
  pub threads : List (List Reply)

abbrev pub append_server : Option Bytes → List Bytes → List Bytes
append_server none servers = servers
append_server (some a) servers = servers ++ (a ∷ [])

abbrev pub begin : (ℕ → UdpDial) → List ℕ → List (List Reply)
begin udp [] = []
begin udp (t ∷ ts) = scan_fn (udp t) ∷ begin udp ts

unfoldable pub start_scan : (ℕ → UdpDial) → List Interface → Scanning
unfolding scan_fn start_threads
start_scan udp is = record { servers = []; threads = begin udp (start_threads 0 is).threads }

-- One of the threads does its next round, on `reply`.
pub data Receives : List (List Reply) → Reply → List (List Reply) → Type 0 where
  here :
      (reply : Reply) (rounds : List Reply) (ts : List (List Reply))
      → Receives ((reply ∷ rounds) ∷ ts) reply (rounds ∷ ts)
  there :
      (t : List Reply) {ts ts' : List (List Reply)} {reply : Reply}
      → Receives ts reply ts'
      → Receives (t ∷ ts) reply (t ∷ ts')

-- The mutex makes a round a step: it appends at most one server.
unfoldable pub round : Scanning → Reply → List (List Reply) → Scanning
unfolding server_of
round s reply ts = record { servers = append_server (server_of reply) s.servers; threads = ts }

-- The rounds of the threads in some order, as far as they come before `udp_scan` cancels them.
pub data Rounds (s : Scanning) : Scanning → Type 0 where
  started : Rounds s s
  next :
      {t : Scanning} {reply : Reply} {ts : List (List Reply)}
      → Rounds s t
      → Receives t.threads reply ts
      → Rounds s (round t reply ts)

-- What `udp_scan` returns when it has cancelled the threads.
unfoldable pub udp_scan : List Interface → Scanning → List Bytes
unfolding filter_addresses start_threads
udp_scan is s = filter_addresses s.servers (start_threads 0 is).addrs
