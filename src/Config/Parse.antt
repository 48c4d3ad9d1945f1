-- ===== src/Config/Parse.antt =====
-- `parse_line` and `parse_conf` of utils/config.c.
pub mod Lines
use clip_share_desktop.Prelude.{
  ℕ, zero, suc, ◌+◌, Bool, not, ◌||◌, Option, none, some, List, [], ◌∷◌, Bytes, length, take, drop,
  leb, ◌==◌, if◌then◌else◌, str_eq, codes,
}
use clip_share_desktop.Config.{Config}
use clip_share_desktop.Config.Defaults.{initial_config}
use clip_share_desktop.Config.Numbers.{
  Parsed, value, exits, hangs, set_uint16, set_uint32, set_int64, set_is_true,
}
use clip_share_desktop.Config.Servers.{
  Sources, trim, and_then, line_of, get_server_list, load_file, ipv4_aton, get_server_addresses,
  address_of,
}
use clip_share_desktop.Text.{c_str, first_is}

-- The second half of the chain of comparisons of `parse_line`. Another key is passed over.
unfoldable pub set_limit : Sources → Bytes → Bytes → Config → Parsed Config
unfolding str_eq set_uint16 set_uint32 set_int64 set_is_true get_server_addresses
set_limit src key v c =
    if str_eq (codes "max_text_length") key
    then and_then (set_uint32 v) (λ n. value (record c { max_text_length = n }))
    else if str_eq (codes "max_file_size") key
    then and_then (set_int64 v) (λ z. value (record c { max_file_size = z }))
    else if str_eq (codes "max_file_count") key
    then and_then (set_uint32 v) (λ n. value (record c { max_file_count = n }))
    else if str_eq (codes "cut_received_files") key
    then and_then (set_is_true v) (λ z. value (record c { cut_received_files = z }))
    else if str_eq (codes "min_proto_version") key
    then and_then (set_uint16 v) (λ n. value (record c { min_proto_version = n }))
    else if str_eq (codes "max_proto_version") key
    then and_then (set_uint16 v) (λ n. value (record c { max_proto_version = n }))
    else if str_eq (codes "auto_send_text") key
    then and_then (set_is_true v) (λ z. value (record c { auto_send_text = z }))
    else if str_eq (codes "auto_send_files") key
    then and_then (set_is_true v) (λ z. value (record c { auto_send_files = z }))
    else if str_eq (codes "auto_send_max_files") key
    then and_then (set_uint32 v) (λ n. value (record c { auto_send_max_files = n }))
    else if str_eq (codes "auto_send_max_file_size") key
    then and_then (set_int64 v) (λ z. value (record c { auto_send_max_file_size = z }))
    else if str_eq (codes "auto_send_servers") key
    then and_then (get_server_addresses src v)
        (λ l. value (record c { auto_send_servers = some l }))
    else if str_eq (codes "tray_icon") key
    then and_then (set_is_true v) (λ z. value (record c { tray_icon = z }))
    else value c

-- The first half of the chain.
unfoldable pub set_key : Sources → Bytes → Bytes → Config → Parsed Config
unfolding str_eq set_uint16 set_uint32 set_int64 set_is_true load_file get_server_list
    get_server_addresses ipv4_aton
set_key src key v c =
    if str_eq (codes "app_port") key
    then and_then (set_uint16 v) (λ n. value (record c { plaintext_port = n }))
    else if str_eq (codes "app_port_secure") key
    then and_then (set_uint16 v) (λ n. value (record c { tls_port = n }))
    else if str_eq (codes "udp_port") key
    then and_then (set_uint16 v) (λ n. value (record c { udp_port = n }))
    else if str_eq (codes "web_port") key
    then and_then (set_uint16 v) (λ n. value (record c { web_port = n }))
    else if str_eq (codes "secure_mode_enabled") key
    then and_then (set_is_true v) (λ z. value (record c { secure_mode_enabled = z }))
    else if str_eq (codes "client_cert") key
    then and_then (load_file src v) (λ b. value (record c { client_cert = some b }))
    else if str_eq (codes "ca_cert") key
    then and_then (load_file src v) (λ b. value (record c { ca_cert = some b }))
    else if str_eq (codes "trusted_servers") key
    then and_then (get_server_list src v) (λ l. value (record c { trusted_servers = some l }))
    else if str_eq (codes "working_dir") key
    then value (record c { working_dir = some v })
    else if str_eq (codes "bind_address") key
    then and_then (address_of (ipv4_aton src v)) (λ a. value (record c { bind_addr = a }))
    else set_limit src key v c

-- What stands before and behind the first `=`.
abbrev pub split_eq : Bytes → Option (Bytes × Bytes)
split_eq [] = none
split_eq (c ∷ s) =
    if c == b'='
    then some ([], s)
    else elim (split_eq s) [ none ↦ none | some (key, v) ↦ some (c ∷ key, v) ]

abbrev pub line_max_len : ℕ
line_max_len = 2047

abbrev pub bad_length : Bytes → Bool
bad_length s = length s == 0 || leb line_max_len (length s)

abbrev pub set_trimmed : Sources → Bytes → Bytes → Config → Parsed Config
set_trimmed src key v c =
    if first_is b'#' key
    then value c
    else if bad_length key
    then exits
    else if bad_length v
    then exits
    else set_key src key v c

unfoldable pub parse_line : Sources → Bytes → Config → Parsed Config
unfolding set_key
parse_line src line c = elim (split_eq line) [
  | none ↦ value c
  | some (key, v) ↦ set_trimmed src (trim key) (trim v) c
]

-- `fgets(line, LINE_MAX_LEN, f)`: at most 2046 bytes, the line feed included.
abbrev fgets_length : Bytes → ℕ
fgets_length s = let n = length (line_of 2046 s) in if n == 2046 || n == length s then n else n + 1

-- `while (fgets(…))`: each round takes a byte.
unfoldable pub parse_lines : ℕ → Sources → Bytes → Config → Parsed Config
unfolding parse_line c_str
parse_lines fuel src [] c = value c
parse_lines zero src (b ∷ s) c = hangs
parse_lines (suc fuel) src (b ∷ s) c =
    let n = fgets_length (b ∷ s) in
    let line = c_str (take n (b ∷ s)) in
    if not (src.u8_valid line)
    then exits
    else and_then (parse_line src line c) (parse_lines fuel src (drop n (b ∷ s)))

unfoldable pub parse_conf : Sources → Option Bytes → Parsed Config
unfolding parse_lines
parse_conf src none = value initial_config
parse_conf src (some name) = elim (src.file name) [
  | none ↦ value initial_config
  | some bytes ↦ parse_lines (length bytes) src bytes initial_config
]
