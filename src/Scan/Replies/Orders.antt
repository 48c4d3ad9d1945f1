-- ===== src/Scan/Replies/Orders.antt =====
-- What a scan finds, in whatever order the threads run.
use clip_share_desktop.Prelude.{
  ℕ, zero, suc, ◌+◌, ◌*◌, ◌≤◌, codes, str_eq_sym, ◌==◌, ◌≡◌, refl, Bool, true, false, not, ◌||◌,
  ◌&&◌, Option, none, some, List, [], ◌∷◌, ◌++◌, Bytes, take, length, length-take, length-append,
  str_eq, if◌then◌else◌, arith,
}
use clip_share_desktop.List2.{new_list}
use clip_share_desktop.List2.Growth.{Has, append_each, append_each-new_list}
use clip_share_desktop.Text.{c_str}
use clip_share_desktop.Methods.Info.{info_name}
use clip_share_desktop.Scan.Filter.{is_own}
use clip_share_desktop.Scan.Filter.Members.{listed, listed-filter_addresses}
use clip_share_desktop.Scan.Replies.{
  Reply, msg_text, append_text, server_of, UdpDial, get_udp_socket, scan_fn, Interface,
  start_threads, Scanning, begin, start_scan, Receives, here, there, Rounds, started, next, round,
  append_server, udp_scan,
}

-- Does the reply name the server?
abbrev pub names : Bytes → Option Bytes → Bool
names a none = false
names a (some server) = str_eq server a

-- The right answer: its first 15 bytes, up to a NUL, are `clip_share`.
abbrev pub is_answer : Option Bytes → Bool
is_answer none = false
is_answer (some bytes) = str_eq (codes "clip_share") (c_str (take 15 bytes))

-- Is the reply the right answer, from this address?
abbrev pub answers : Bytes → Reply → Bool
answers a r = is_answer r.datagram && names a r.sender

by_datagram :
    (a : Bytes) (datagram sender : Option Bytes)
    → names a (if str_eq info_name (msg_text datagram) then sender else none)
      ≡ (is_answer datagram && names a sender)
unfolding str_eq
by_datagram a none sender = refl
by_datagram a (some bytes) sender = ground arith

answers-server_of : (a : Bytes) (r : Reply) → names a (server_of r) ≡ answers a r
unfolding server_of
answers-server_of a r = by_datagram a r.datagram r.sender

-- Is one of the replies?
abbrev pub replied : Bytes → List Reply → Bool
replied a [] = false
replied a (r ∷ rs) = answers a r || replied a rs

-- Has one of the interfaces this address? Those of other families and the loopback do not count, and
-- none behind the one for which the last of `threads` threads was created.
abbrev pub owns : Bytes → ℕ → List Interface → Bool
owns a threads [] = false
owns a zero (i ∷ is) = false
owns a (suc threads) (i ∷ is) =
    let skipped = owns a (suc threads) is in
    let next = owns a threads is in
    if i.is_inet && not (i.addr == 0x7F000001)
    then names a i.text || (if i.created then next else skipped)
    else skipped

-- Does a reply that some thread has before it?
abbrev pub awaited : Bytes → List (List Reply) → Bool
awaited a [] = false
awaited a (t ∷ ts) = replied a t || awaited a ts

awaited-Receives :
    (a : Bytes) {ts ts' : List (List Reply)} {reply : Reply}
    → Receives ts reply ts'
    → awaited a ts ≡ (answers a reply || awaited a ts')
awaited-Receives a (here reply rounds ts) = ground arith
awaited-Receives a (there t r) = ground (arith, awaited-Receives a r)

listed-append :
    (a b : Bytes) (servers : List Bytes)
    → listed a (servers ++ (b ∷ [])) ≡ (str_eq b a || listed a servers)
listed-append a b [] = refl
listed-append a b (s ∷ servers) = ground (arith, listed-append a b servers)

listed-append_server :
    (a : Bytes) (o : Option Bytes) (servers : List Bytes)
    → listed a (append_server o servers) ≡ (names a o || listed a servers)
listed-append_server a none servers = refl
listed-append_server a (some b) servers = listed-append a b servers

-- A server is in the list, or a reply of it is still to come: no round changes that.
listed-Rounds :
    (a : Bytes) {s t : Scanning}
    → Rounds s t
    → (listed a t.servers || awaited a t.threads) ≡ (listed a s.servers || awaited a s.threads)
unfolding round
listed-Rounds a started = refl
listed-Rounds a (next {t} {reply} {ts} rs r) = ground (
  arith,
  listed-Rounds a rs,
  awaited-Receives a r,
  answers-server_of a reply,
  listed-append_server a (server_of reply) t.servers,
)

-- The rounds that the threads have before them.
abbrev pub rounds_left : List (List Reply) → ℕ
rounds_left [] = 0
rounds_left (t ∷ ts) = length t + rounds_left ts

rounds_left-Receives :
    {ts ts' : List (List Reply)} {reply : Reply}
    → Receives ts reply ts'
    → rounds_left ts ≡ suc (rounds_left ts')
rounds_left-Receives (here reply rounds ts) = omega arith
rounds_left-Receives (there t r) = omega (arith, rounds_left-Receives r)

length-append_server :
    (o : Option Bytes) (servers : List Bytes)
    → length (append_server o servers) ≤ suc (length servers)
length-append_server none servers = omega arith
length-append_server (some b) servers = omega (arith, length-append servers (b ∷ []))

length-Rounds :
    {s t : Scanning}
    → Rounds s t
    → length t.servers + rounds_left t.threads ≤ length s.servers + rounds_left s.threads
unfolding round
length-Rounds started = omega arith
length-Rounds (next {t} {reply} {ts} rs r) = omega (
  arith,
  length-Rounds rs,
  rounds_left-Receives r,
  length-append_server (server_of reply) t.servers,
)

length-start_threads :
    (ind : ℕ) (is : List Interface)
    → suc ind ≤ 16
    → length (start_threads ind is).threads + ind ≤ 16
unfolding start_threads
length-start_threads ind [] h = omega arith
length-start_threads ind (i ∷ is) h =
    ground (arith, length-start_threads ind is h, length-start_threads (suc ind) is)

length-rounds :
    (b : Bool) (replies : List Reply) → length (if b then take 256 replies else []) ≤ 256
length-rounds true replies = omega (arith, length-take 256 replies)
length-rounds false replies = omega arith

length-scan_fn : (dial : UdpDial) → length (scan_fn dial) ≤ 256
unfolding scan_fn
length-scan_fn dial = length-rounds (get_udp_socket dial) dial.replies

length-begin : (udp : ℕ → UdpDial) (ts : List ℕ) → rounds_left (begin udp ts) ≤ length ts * 256
length-begin udp [] = omega arith
length-begin udp (t ∷ ts) = omega (arith, length-scan_fn (udp t), length-begin udp ts)

listed-append_text :
    (a : Bytes) (o : Option Bytes) (addrs : List Bytes)
    → listed a (append_text o addrs) ≡ (names a o || listed a addrs)
listed-append_text a none addrs = refl
listed-append_text a (some b) addrs = refl

owns-zero : (a : Bytes) (is : List Interface) → owns a zero is ≡ false
owns-zero a [] = refl
owns-zero a (i ∷ is) = refl

-- The addresses that are collected are those of this machine.
listed-start_threads :
    (a : Bytes) (ind left : ℕ) (is : List Interface)
    → ind + suc left ≡ 16
    → listed a (start_threads ind is).addrs ≡ owns a (suc left) is
unfolding start_threads
listed-start_threads a ind left [] e = refl
listed-start_threads a ind zero (i ∷ is) e = ground (
  arith,
  listed-start_threads a ind zero is e,
  listed-append_text a i.text (start_threads ind is).addrs,
  listed-append_text a i.text [],
  owns-zero a is,
)
listed-start_threads a ind (suc left) (i ∷ is) e = ground (
  arith,
  listed-start_threads a ind (suc left) is e,
  listed-start_threads a (suc ind) left is (omega arith),
  listed-append_text a i.text (start_threads ind is).addrs,
  listed-append_text a i.text (start_threads (suc ind) is).addrs,
)

is_own-listed : (a : Bytes) (addrs : List Bytes) → is_own addrs a ≡ listed a addrs
is_own-listed a [] = refl
is_own-listed a (b ∷ addrs) = ground (arith, is_own-listed a addrs, str_eq_sym a b)

-- In whatever order the threads receive their replies, and whenever the scan ends, it returns only
-- servers that are not this machine and of which a thread has the right answer among its rounds, and
-- each of these is in the result, or an answer of it is still to come. This machine's addresses are
-- those of its interfaces, up to the one with the sixteenth thread.
pub udp_scan-listed :
    (udp : ℕ → UdpDial) (is : List Interface) {s : Scanning} (a : Bytes)
    → Rounds (start_scan udp is) s
    → let other = not (owns a 16 is) in
      (listed a (udp_scan is s) || (awaited a s.threads && other))
      ≡ (awaited a (start_scan udp is).threads && other)
unfolding udp_scan start_scan
udp_scan-listed udp is {s} a rs = ground (
  arith,
  listed-Rounds a rs,
  listed-filter_addresses s.servers (start_threads 0 is).addrs a,
  is_own-listed a (start_threads 0 is).addrs,
  listed-start_threads a 0 15 is refl,
)

length-reached :
    (udp : ℕ → UdpDial) (is : List Interface) {s : Scanning}
    → Rounds (start_scan udp is) s
    → length s.servers ≤ 4096
unfolding start_scan
length-reached udp is {s} rs = omega (
  arith,
  length-Rounds rs,
  length-begin udp (start_threads 0 is).threads,
  length-start_threads 0 is (omega arith),
)

-- However the replies come in, the threads append at most 4096 servers, and the list that begins with
-- two places has just these, in the order of the calls, if memory is not short.
pub append_each-reached :
    (udp : ℕ → UdpDial) (is : List Interface) {s : Scanning}
    → Rounds (start_scan udp is) s
    → (length s.servers ≤ 4096) × Has s.servers (append_each (some (new_list 2)) s.servers)
append_each-reached udp is {s} rs = (
  length-reached udp is rs,
  append_each-new_list 2 s.servers (omega arith) (omega arith)
      (omega (arith, length-reached udp is rs)),
)
