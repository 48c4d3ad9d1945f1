-- ===== src/Config/Defaults.antt =====
-- The configuration that `parse_conf` of utils/config.c begins with, and `_apply_default_conf` of
-- main.c, which runs behind it.
use clip_share_desktop.Prelude.{
  ℕ, ◌+◌, ◌^◌, ◌≤◌, ◌<◌, ◌≡◌, refl, Bool, ◌||◌, Option, none, some, List, [], ◌∷◌, Bytes, ltb, ◌==◌,
  if◌then◌else◌, ℤ, pos, negsuc, leb_zero, is_neg, arith,
}
use clip_share_desktop.Config.{Config}

abbrev pub protocol_min : ℕ
protocol_min = 1

abbrev pub protocol_max : ℕ
protocol_max = 4

-- `htonl(INADDR_LOOPBACK)` as the four bytes of the address, the first one lowest.
abbrev loopback : ℕ
loopback = 127 + 2 ^ 24

abbrev pub unset : ℤ
unset = negsuc 0

abbrev pub initial_config : Config
initial_config = record {
  plaintext_port = 0;
  tls_port = 0;
  udp_port = 0;
  web_port = 0;
  secure_mode_enabled = unset;
  client_cert = none;
  ca_cert = none;
  trusted_servers = none;
  working_dir = none;
  bind_addr = loopback;
  cut_received_files = unset;
  max_text_length = 0;
  max_file_size = pos 0;
  max_file_count = 0;
  min_proto_version = 0;
  max_proto_version = 0;
  auto_send_text = unset;
  auto_send_files = unset;
  auto_send_servers = none;
  auto_send_max_files = 0;
  auto_send_max_file_size = pos 0;
  tray_icon = unset;
}

-- `if (n <= 0) n = default;` on an unsigned field, and on `max_file_size`
abbrev or_number : ℕ → ℕ → ℕ
or_number n default = if n == 0 then default else n

abbrev or_size : ℤ → ℕ → ℤ
or_size z default = if leb_zero z then pos default else z

-- `if (flag < 0) flag = default;`
abbrev or_flag : ℤ → ℕ → ℤ
or_flag z default = if is_neg z then pos default else z

abbrev without_empty : Option (List Bytes) → Option (List Bytes)
without_empty none = none
without_empty (some []) = none
without_empty (some (a ∷ as')) = some (a ∷ as')

-- The two `if`s on the lower limit, and the one on the upper limit.
abbrev lower_limit : ℕ → ℕ
lower_limit v =
    let v' = if ltb v protocol_min then protocol_min else v in
    if ltb protocol_max v' then protocol_max else v'

abbrev upper_limit : ℕ → ℕ → ℕ
upper_limit low v = if ltb v low || ltb protocol_max v then protocol_max else v

unfoldable pub apply_default_conf : Config → Config
apply_default_conf c = record {
  plaintext_port = or_number c.plaintext_port 4337;
  tls_port = or_number c.tls_port 4338;
  udp_port = or_number c.udp_port 4337;
  web_port = or_number c.web_port 8888;
  secure_mode_enabled = or_flag c.secure_mode_enabled 0;
  client_cert = c.client_cert;
  ca_cert = c.ca_cert;
  trusted_servers = c.trusted_servers;
  working_dir = c.working_dir;
  bind_addr = c.bind_addr;
  cut_received_files = or_flag c.cut_received_files 0;
  max_text_length = or_number c.max_text_length 4194304;
  max_file_size = or_size c.max_file_size 68719476736;
  max_file_count = or_number c.max_file_count 4294967294;
  min_proto_version = lower_limit c.min_proto_version;
  max_proto_version = upper_limit (lower_limit c.min_proto_version) c.max_proto_version;
  auto_send_text = or_flag c.auto_send_text 0;
  auto_send_files = or_flag c.auto_send_files 0;
  auto_send_servers = without_empty c.auto_send_servers;
  auto_send_max_files = or_number c.auto_send_max_files 32;
  auto_send_max_file_size = or_size c.auto_send_max_file_size 67108864;
  tray_icon = or_flag c.tray_icon 1;
}

-- What the rest of the program takes for granted of a configuration.
pub record HasProtoRange (c : Config) : Type 0 where
  pub low : protocol_min ≤ c.min_proto_version
  pub ordered : c.min_proto_version ≤ c.max_proto_version
  pub high : c.max_proto_version ≤ protocol_max

-- Whatever the file says of the versions, the range is a range, of versions that there are handlers for.
pub apply_default_conf-HasProtoRange : (c : Config) → HasProtoRange (apply_default_conf c)
unfolding apply_default_conf
apply_default_conf-HasProtoRange c = record {
  low = ground arith;
  ordered = ground arith;
  high = ground arith;
}

-- The fields that are used without a test.
pub record IsReady (c : Config) : Type 0 where
  pub plaintext : 0 < c.plaintext_port
  pub tls : 0 < c.tls_port
  pub udp : 0 < c.udp_port
  pub web : 0 < c.web_port
  pub text : 0 < c.max_text_length
  pub count : 0 < c.max_file_count
  pub size : leb_zero c.max_file_size ≡ Bool.false
  pub auto_size : leb_zero c.auto_send_max_file_size ≡ Bool.false
  pub secure : is_neg c.secure_mode_enabled ≡ Bool.false
  pub cut : is_neg c.cut_received_files ≡ Bool.false
  pub tray : is_neg c.tray_icon ≡ Bool.false
  pub versions : HasProtoRange c

-- Whatever the file says, the ports and the limits are set, the flags are not negative, and the versions
-- are a range of those that there are handlers for.
pub apply_default_conf-IsReady : (c : Config) → IsReady (apply_default_conf c)
unfolding apply_default_conf
apply_default_conf-IsReady c = record {
  plaintext = ground arith;
  tls = ground arith;
  udp = ground arith;
  web = ground arith;
  text = ground arith;
  count = ground arith;
  size = ground arith;
  auto_size = ground arith;
  secure = ground arith;
  cut = ground arith;
  tray = ground arith;
  versions = apply_default_conf-HasProtoRange c;
}

or_number_idem : (n d : ℕ) → or_number (or_number n d) d ≡ or_number n d
or_number_idem n d = ground arith

or_size_idem : (z : ℤ) (d : ℕ) → or_size (or_size z d) d ≡ or_size z d
or_size_idem z d = ground arith

or_flag_idem : (z : ℤ) (d : ℕ) → or_flag (or_flag z d) d ≡ or_flag z d
or_flag_idem (pos n) d = refl
or_flag_idem (negsuc n) d = refl

without_empty_idem : (l : Option (List Bytes)) → without_empty (without_empty l) ≡ without_empty l
without_empty_idem none = refl
without_empty_idem (some []) = refl
without_empty_idem (some (a ∷ as')) = refl

lower_limit_idem : (v : ℕ) → lower_limit (lower_limit v) ≡ lower_limit v
lower_limit_idem v = ground arith

upper_limit_idem :
    (low v : ℕ)
    → upper_limit (lower_limit (lower_limit low)) (upper_limit (lower_limit low) v)
      ≡ upper_limit (lower_limit low) v
upper_limit_idem low v = ground arith

-- What is set and in range is left as it is: a second run changes nothing.
pub apply_default_conf_idempotent :
    (c : Config) → apply_default_conf (apply_default_conf c) ≡ apply_default_conf c
unfolding apply_default_conf
apply_default_conf_idempotent c = λ i. record {
  plaintext_port = or_number_idem c.plaintext_port 4337 i;
  tls_port = or_number_idem c.tls_port 4338 i;
  udp_port = or_number_idem c.udp_port 4337 i;
  web_port = or_number_idem c.web_port 8888 i;
  secure_mode_enabled = or_flag_idem c.secure_mode_enabled 0 i;
  client_cert = c.client_cert;
  ca_cert = c.ca_cert;
  trusted_servers = c.trusted_servers;
  working_dir = c.working_dir;
  bind_addr = c.bind_addr;
  cut_received_files = or_flag_idem c.cut_received_files 0 i;
  max_text_length = or_number_idem c.max_text_length 4194304 i;
  max_file_size = or_size_idem c.max_file_size 68719476736 i;
  max_file_count = or_number_idem c.max_file_count 4294967294 i;
  min_proto_version = lower_limit_idem c.min_proto_version i;
  max_proto_version = upper_limit_idem c.min_proto_version c.max_proto_version i;
  auto_send_text = or_flag_idem c.auto_send_text 0 i;
  auto_send_files = or_flag_idem c.auto_send_files 0 i;
  auto_send_servers = without_empty_idem c.auto_send_servers i;
  auto_send_max_files = or_number_idem c.auto_send_max_files 32 i;
  auto_send_max_file_size = or_size_idem c.auto_send_max_file_size 67108864 i;
  tray_icon = or_flag_idem c.tray_icon 1 i;
}
