-- ===== src/Start/Options.antt =====
-- `_parse_args` and `_set_error_log_file` of main.c.
use clip_share_desktop.Prelude.{
  ℕ, ◌-◌, Bool, true, false, ◌||◌, Option, none, some, List, [], ◌∷◌, ◌++◌, Bytes, length, leb,
  ◌==◌, if◌then◌else◌, codes,
}

-- What `getopt` returns, with `optind` after it.
pub record Opt : Type 0 where
  pub letter : ℕ
  pub optind : ℕ

pub record Options : Type 0 where
  pub cmd_offset : ℕ
  pub stop : Bool
  pub daemonize : Bool

-- The values that `main` begins with.
abbrev pub no_options : Options
no_options = record { cmd_offset = 0; stop = false; daemonize = true }

-- Does the program go on, or does it exit, with success?
pub data Choice : Type 0 where
  go_on : Options → Choice
  exits : Bool → Choice

-- The switch. The value of `-c` is the argument before `optind`.
abbrev pub read_option : Opt → Options → Choice
read_option opt o =
    if opt.letter == b'h' || opt.letter == b'v'
    then exits true
    else if opt.letter == b's'
    then go_on (record o { stop = true })
    else if opt.letter == b'd'
    then go_on (record o { daemonize = true })
    else if opt.letter == b'D'
    then go_on (record o { daemonize = false })
    else if opt.letter == b'c'
    then go_on (record o { cmd_offset = opt.optind - 1 })
    else exits false

unfoldable pub read_options : List Opt → Options → Choice
read_options [] o = go_on o
read_options (opt ∷ opts) o = elim (read_option opt o) [
  | go_on o' ↦ read_options opts o'
  | exits success ↦ exits success
]

abbrev pub error_log_name : Bytes
error_log_name = codes "client_err.log"

abbrev pub ends_with_sep : Bytes → Bool
ends_with_sep [] = false
ends_with_sep (c ∷ []) = c == b'/'
ends_with_sep (c ∷ d ∷ s) = ends_with_sep (d ∷ s)

-- The path of the log file, from the working directory; `none` is `exit(EXIT_FAILURE)`.
unfoldable pub error_log_path : Option Bytes → Option Bytes
error_log_path none = none
error_log_path (some dir) =
    if length dir == 0 || leb 2048 (length dir)
    then none
    else if ends_with_sep dir
    then some (dir ++ error_log_name)
    else some (dir ++ codes "/" ++ error_log_name)
