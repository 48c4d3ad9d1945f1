-- ===== src/Config.antt =====
-- utils/config.h: the `config` structure. `-1` in an `int8_t` field and `0` in a number mean that the
-- configuration file did not set it.
pub mod Defaults
pub mod Numbers
pub mod Servers
pub mod Parse
use clip_share_desktop.Prelude.{ℕ, zero, Option, Bool, true, false, List, Bytes, ℤ, pos, negsuc}

-- `if (flag)` on an `int8_t`
abbrev pub is_set : ℤ → Bool
is_set (pos zero) = false
is_set _ = true

-- The certificates are kept as the buffers that `load_file` read.
pub record Config : Type 0 where
  pub plaintext_port : ℕ
  pub tls_port : ℕ
  pub udp_port : ℕ
  pub web_port : ℕ
  pub secure_mode_enabled : ℤ
  pub client_cert : Option Bytes
  pub ca_cert : Option Bytes
  pub trusted_servers : Option (List Bytes)
  pub working_dir : Option Bytes
  pub bind_addr : ℕ
  pub cut_received_files : ℤ
  pub max_text_length : ℕ
  pub max_file_size : ℤ
  pub max_file_count : ℕ
  pub min_proto_version : ℕ
  pub max_proto_version : ℕ
  pub auto_send_text : ℤ
  pub auto_send_files : ℤ
  pub auto_send_servers : Option (List Bytes)
  pub auto_send_max_files : ℕ
  pub auto_send_max_file_size : ℤ
  pub tray_icon : ℤ
