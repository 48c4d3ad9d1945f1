-- ===== src/Start/Conf.antt =====
-- `get_conf_file` and `get_user_home` of main.c on Linux: where the configuration file is looked for.
pub mod Search
use clip_share_desktop.Prelude.{
  ℕ, ◌+◌, ◌-◌, min, Bool, true, false, Option, none, some, List, [], ◌∷◌, ◌++◌, Bytes, length, take,
  leb, codes, if◌then◌else◌,
}
use clip_share_desktop.World.{alloc}
use clip_share_desktop.Action.{Action, pure, ask, choose, file_exists, log_error, ◌>>=◌, ◌>>◌}

abbrev pub config_file : Bytes
config_file = codes "clipshare-desktop.conf"

-- `getenv` of XDG_CONFIG_HOME and HOME, and the directory that `getpwuid_r` gives.
pub record Surroundings : Type 0 where
  pub xdg_config_home : Option Bytes
  pub home : Option Bytes
  pub pw_dir : Option Bytes

abbrev pub non_empty : Option Bytes → Option Bytes
non_empty none = none
non_empty (some []) = none
non_empty (some (c ∷ s)) = some (c ∷ s)

abbrev pub or_dir : Option Bytes → Option Bytes → Option Bytes
or_dir none dir = dir
or_dir (some home) dir = some home

-- `strndup(home, 513)`
abbrev pub copy_home : Option Bytes → Action (Option Bytes)
copy_home none = pure none
copy_home (some home) = do
  got ← ask (alloc (min 513 (length home) + 1))
  choose got (pure (some (take 513 home))) (pure none)

unfoldable pub get_user_home : Surroundings → Action (Option Bytes)
unfolding ◌>>=◌ pure ask choose
get_user_home sur = copy_home (or_dir (non_empty sur.home) sur.pw_dir)

abbrev pub if_found : Bool → Bytes → Option Bytes
if_found true path = some path
if_found false path = none

-- A path in a new buffer, which `snprintf` cuts at `conf_len - 1` bytes, if there is such a file.
unfoldable pub try_path : ℕ → Bytes → Action (Option Bytes)
unfolding ◌>>=◌ pure ask choose file_exists
try_path conf_len path = do
  got ← ask (alloc (conf_len + 1))
  choose got
      (do
        found ← file_exists (take (conf_len - 1) path)
        pure (if_found found (take (conf_len - 1) path)))
      (pure none)

abbrev pub in_dir : Bytes → Bytes
in_dir dir = dir ++ (codes "/" ++ config_file)

abbrev pub try_xdg : Option Bytes → Action (Option Bytes)
try_xdg none = pure none
try_xdg (some dir) = try_path (min (length dir) 512 + length config_file + 3) (in_dir dir)

-- `if (found) return path;`
abbrev pub or_else : Option Bytes → Action (Option Bytes) → Action (Option Bytes)
or_else none m = m
or_else (some path) m = pure (some path)

-- From `realloc_or_free` on: this path is returned whether there is such a file or not.
unfoldable pub last_path : Bytes → Action (Option Bytes)
unfolding ◌>>=◌ pure ask choose log_error
last_path home = do
  got ← ask (alloc (length home + length config_file + 4))
  choose got (pure (some (in_dir home))) (do log_error; pure none)

unfoldable pub search_home : Bytes → Action (Option Bytes)
unfolding ◌>>=◌ pure choose try_path last_path
search_home home = choose (leb 512 (length home)) (pure none) (do
  found ←
      try_path (length home + length config_file + 11) (home ++ (codes "/.config/" ++ config_file))
  or_else found (last_path home))

abbrev pub if_home : Option Bytes → Action (Option Bytes)
if_home none = pure none
if_home (some home) = search_home home

unfoldable pub search_elsewhere : Surroundings → Action (Option Bytes)
unfolding ◌>>=◌ pure try_path get_user_home search_home
search_elsewhere sur = do
  found ← try_xdg (non_empty sur.xdg_config_home)
  or_else found (do home ← get_user_home sur; if_home home)

unfoldable pub get_conf_file : Surroundings → Action (Option Bytes)
unfolding ◌>>=◌ pure ask choose file_exists search_elsewhere
get_conf_file sur = do
  here ← file_exists config_file
  choose here (do got ← ask (alloc (length config_file + 1)); pure (if_found got config_file))
      (search_elsewhere sur)
