-- ===== src/Config/Servers.antt =====
-- `trim`, `get_server_list`, `get_server_addresses` and `load_file` of utils/config.c, where memory is
-- not short, and the addresses of utils/net_utils.c.
pub mod Trim
pub mod Shapes
pub mod Rounds
pub mod Lists
pub mod Addresses
use clip_share_desktop.Prelude.{
  ℕ, zero, suc, ◌+◌, ◌%◌, ◌^◌, Bool, true, false, not, ◌&&◌, ◌||◌, Option, none, some, List, [],
  ◌∷◌, Bytes, length, take, drop, ltb, leb, ◌==◌, if◌then◌else◌,
}
use clip_share_desktop.Config.Numbers.{Parsed, value, exits, overflows, hangs, scan, strtoull_bits}
use clip_share_desktop.Scan.Filter.{swap_in_last}
use clip_share_desktop.Text.{c_str, first_is}

-- The files by their names, the test of libunistring on a C string, `inet_aton`, and what the buffer on
-- the stack of `get_server_list` holds at first.
pub record Sources : Type 0 where
  pub file : Bytes → Option Bytes
  pub u8_valid : Bytes → Bool
  pub inet_aton : Bytes → Option ℕ
  pub uninit : Bytes

-- The characters from 1 to 32; `char` is signed, so no byte above 127 is one.
abbrev pub is_blank : ℕ → Bool
is_blank c = ltb 0 c && leb c 32

abbrev pub trim_front : Bytes → Bytes
trim_front [] = []
trim_front (c ∷ s) = let rest = trim_front s in if is_blank c then rest else c ∷ s

abbrev pub onto : ℕ → Bytes → Bytes
onto c [] = if is_blank c then [] else c ∷ []
onto c (d ∷ s) = c ∷ d ∷ s

abbrev pub trim_back : Bytes → Bytes
trim_back [] = []
trim_back (c ∷ s) = onto c (trim_back s)

abbrev pub trim : Bytes → Bytes
trim s = trim_back (trim_front s)

abbrev pub and_then : {A B : Type 0} → Parsed A → (A → Parsed B) → Parsed B
and_then (value a) f = f a
and_then exits f = exits
and_then overflows f = overflows
and_then hangs f = hangs

-- `fgets` and `%511[^\n]`: at most so many bytes up to the line feed.
abbrev pub line_of : ℕ → Bytes → Bytes
line_of zero s = []
line_of (suc n) [] = []
line_of (suc n) (c ∷ s) = let rest = line_of n s in if c == b'\n' then [] else c ∷ rest

-- One more server, unless the line is empty or a comment.
abbrev pub add_server : Bytes → List Bytes → List Bytes
add_server server servers =
    if length server == 0 || first_is b'#' server then servers else server ∷ servers

-- One round, with what the buffer holds behind `fscanf`.
abbrev pub server_round : (Bytes → Bool) → Bytes → Parsed (List Bytes) → Parsed (List Bytes)
server_round valid server more =
    if not (valid server)
    then exits
    else and_then more (λ servers. value (add_server (trim server) servers))

-- `fscanf(f, "%511[^\n]%*c", server)`: where the line is empty nothing matches, nothing is written to
-- the buffer, and nothing is consumed.
abbrev pub scan_buffer : Bytes → Bytes → Bytes
scan_buffer [] old = old
scan_buffer (c ∷ line) old = c_str (c ∷ line)

abbrev pub scan_rest : Bytes → Bytes → Bytes
scan_rest [] s = s
scan_rest (c ∷ line) s = drop (length (c ∷ line) + 1) s

-- The loop; `old` is what the buffer holds. Where a line is empty it goes round for ever with the same
-- buffer, so `fuel` is the number of bytes and more, and the loop hangs where it is used up.
unfoldable pub server_lines : ℕ → (Bytes → Bool) → Bytes → Bytes → Parsed (List Bytes)
unfolding c_str
server_lines fuel valid old [] = value []
server_lines zero valid old (c ∷ s) = hangs
server_lines (suc fuel) valid old (c ∷ s) =
    let line = line_of 511 (c ∷ s) in
    let server = scan_buffer line old in
    server_round valid server (server_lines fuel valid (trim server) (scan_rest line (c ∷ s)))

unfoldable pub get_server_list : Sources → Bytes → Parsed (List Bytes)
unfolding server_lines c_str
get_server_list src name = elim (src.file name) [
  | none ↦ exits
  | some bytes ↦
      server_lines (suc (suc (length bytes))) src.u8_valid (c_str (take 511 src.uninit)) bytes
]

unfoldable pub load_file : Sources → Bytes → Parsed Bytes
load_file src name = elim (src.file name) [
  | none ↦ exits
  | some bytes ↦ if length bytes == 0 || ltb 65536 (length bytes) then exits else value bytes
]

-- `validate_ipv4` of utils/net_utils.c. `%u` takes what `strtoul` takes, and keeps 32 bits.
abbrev scan_u : Bytes → Option (ℕ × Bytes)
scan_u s =
    let n = scan s in
    if length n.end == length s then none else some (strtoull_bits n % 2 ^ 32, n.end)

abbrev part : Bytes → (ℕ → Bytes → Bool) → Bool
part s f = elim (scan_u s) [ none ↦ false | some (a, rest) ↦ ltb a 256 && f a rest ]

abbrev dot : (Bytes → Bool) → ℕ → Bytes → Bool
dot f a [] = false
dot f a (c ∷ s) = c == b'.' && f s

unfoldable pub is_ipv4 : Bytes → Bool
is_ipv4 s = part s (dot (λ s. part s (dot (λ s. part s (dot (λ s. part s (λ a rest. true)))))))

unfoldable pub ipv4_aton : Sources → Bytes → Option ℕ
unfolding is_ipv4
ipv4_aton src s = if is_ipv4 s then src.inet_aton s else none

-- The loop of `get_server_addresses` from `i` on: a name that is no address is replaced by the last.
unfoldable pub keep_addresses : ℕ → List Bytes → List Bytes
keep_addresses zero servers = servers
keep_addresses (suc fuel) [] = []
keep_addresses (suc fuel) (s ∷ rest) =
    let removed = keep_addresses fuel (swap_in_last rest) in
    let kept = keep_addresses fuel rest in if is_ipv4 s then s ∷ kept else removed

unfoldable pub get_server_addresses : Sources → Bytes → Parsed (List Bytes)
unfolding get_server_list is_ipv4 keep_addresses
get_server_addresses src name =
    and_then (get_server_list src name) (λ servers. value (keep_addresses (length servers) servers))

abbrev pub address_of : Option ℕ → Parsed ℕ
address_of none = exits
address_of (some a) = value a
