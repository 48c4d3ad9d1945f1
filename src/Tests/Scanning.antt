-- ===== src/Tests/Scanning.antt =====
-- A scan with two networks, whose threads receive replies in turn.
use clip_share_desktop.Prelude.{
  ℕ, ◌≡◌, ◌≤◌, refl, true, not, ◌||◌, ◌&&◌, none, some, List, [], ◌∷◌, Bytes, codes, length, str_eq,
}
use clip_share_desktop.List2.{new_list}
use clip_share_desktop.List2.Growth.{Has, append_each}
use clip_share_desktop.Text.{c_str}
use clip_share_desktop.Scan.Filter.Members.{listed}
use clip_share_desktop.Scan.Replies.{
  Reply, UdpDial, Interface, Scanning, start_threads, start_scan, scan_fn, Rounds, started, next,
  here, there, round, udp_scan, broadcast, server_of,
}
use clip_share_desktop.Scan.Replies.Orders.{owns, awaited, udp_scan-listed, append_each-reached}

abbrev reply : Bytes → Reply
reply sender = record { datagram = some (codes "clip_share"); sender = some sender }

abbrev noise : Reply
noise = record { datagram = none; sender = none }

abbrev network : ℕ → UdpDial
network target = record {
  made = true;
  broadcast_set = true;
  recv_timeout = true;
  send_timeout = true;
  replies = noise ∷ reply (codes "10.0.0.7") ∷ [];
}

-- 10.0.0.1 and 10.0.1.1 in networks of 24 bits, behind the loopback address.
abbrev interfaces : List Interface
interfaces =
    record {
      is_inet = true;
      addr = 2130706433;
      netmask = 4278190080;
      text = some (codes "127.0.0.1");
      created = true;
    }
    ∷ record {
      is_inet = true;
      addr = 167772161;
      netmask = 4294967040;
      text = some (codes "10.0.0.1");
      created = true;
    }
    ∷ record {
      is_inet = true;
      addr = 167772417;
      netmask = 4294967040;
      text = some (codes "10.0.1.1");
      created = true;
    }
    ∷ []

two_targets : (start_threads 0 interfaces).threads ≡ 167772415 ∷ 167772671 ∷ []
unfolding start_threads broadcast
two_targets = refl

-- The second thread's first round, and both rounds of the first.
abbrev later : Scanning
later =
    round
      (round
        (round (start_scan network interfaces) noise
          ((noise ∷ reply (codes "10.0.0.7") ∷ []) ∷ (reply (codes "10.0.0.7") ∷ []) ∷ []))
        noise ((reply (codes "10.0.0.7") ∷ []) ∷ (reply (codes "10.0.0.7") ∷ []) ∷ []))
      (reply (codes "10.0.0.7")) ([] ∷ (reply (codes "10.0.0.7") ∷ []) ∷ [])

later-Rounds : Rounds (start_scan network interfaces) later
unfolding start_scan start_threads scan_fn round
later-Rounds = next (next (next started (there _ (here _ _ _))) (here _ _ _)) (here _ _ _)

found_one : later.servers ≡ codes "10.0.0.7" ∷ []
unfolding round server_of start_scan str_eq c_str
found_one = refl

udp_scan-listed_example :
    (listed (codes "10.0.0.7") (udp_scan interfaces later)
      || (awaited (codes "10.0.0.7") later.threads && not (owns (codes "10.0.0.7") 16 interfaces)))
    ≡ (awaited (codes "10.0.0.7") (start_scan network interfaces).threads
        && not (owns (codes "10.0.0.7") 16 interfaces))
udp_scan-listed_example = udp_scan-listed network interfaces (codes "10.0.0.7") later-Rounds

append_each-reached_example :
    (length later.servers ≤ 4096)
    × Has later.servers (append_each (some (new_list 2)) later.servers)
append_each-reached_example = append_each-reached network interfaces later-Rounds
