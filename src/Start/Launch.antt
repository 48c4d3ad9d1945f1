-- ===== src/Start/Launch.antt =====
-- `main` of main.c on Linux, with `_change_working_dir`, and the processes that it splits into.
pub mod Secured
use clip_share_desktop.Prelude.{
  ℕ, Bool, true, false, not, ◌||◌, ◌&&◌, Option, none, some, List, [], ◌∷◌, Bytes, ltb, str_eq,
  if◌then◌else◌,
}
use clip_share_desktop.Config.{Config, is_set}
use clip_share_desktop.Config.Defaults.{apply_default_conf}
use clip_share_desktop.Config.Numbers.{Parsed, value, exits, overflows, hangs}
use clip_share_desktop.Config.Servers.{Sources}
use clip_share_desktop.Config.Parse.{parse_conf}
use clip_share_desktop.Action.{Action, pure, choose, ◌>>=◌}
use clip_share_desktop.Start.Conf.{Surroundings, get_conf_file}
use clip_share_desktop.Start.Kill.{Entry, kill_other_processes}
use clip_share_desktop.Start.Options.{
  Opt, Options, no_options, Choice, go_on, read_options, error_log_path,
}

-- What the system answers to `_change_working_dir`: is there a directory, `getcwd` before and after
-- `chdir`, and did `chdir` succeed?
pub record Dirs : Type 0 where
  pub is_dir : Bool
  pub before : Option Bytes
  pub changed : Bool
  pub after : Option Bytes

pub data Fork : Type 0 where
  forked fork_failed : Fork

-- `log_dir` and `cwd` are what `getcwd` gives at the start and behind the change.
pub record Machine : Type 0 where
  pub sources : Sources
  pub surroundings : Surroundings
  pub log_dir : Option Bytes
  pub dirs : Dirs
  pub cwd : Option Bytes
  pub prog_name : Bytes
  pub pid : ℕ
  pub uninit : Bytes
  pub proc : Option (List Entry)
  pub daemon : Fork
  pub listener_fork : Fork
  pub icon_fork : Fork

-- What a process of the program is there for.
pub data Job : Type 0 where
  listener status_icon web : Job

-- `exited` has the processes that got a signal before, and is it a success? `commands` is `cli_client`
-- on the arguments from the offset on; `serves` has the jobs that run. `crashed` is a NULL that is
-- followed, an overflow or a loop without end.
pub data Run : Type 0 where
  exited : List ℕ → Bool → Run
  commands : Config → ℕ → Run
  serves : Config → List ℕ → List Job → Run
  crashed : Run

abbrev pub is_given {ℓ} : {A : Type ℓ} → Option A → Bool
is_given none = false
is_given (some a) = true

-- The test for TLS.
abbrev pub can_run : Config → Bool
can_run c =
    not (is_set c.secure_mode_enabled)
    || (is_given c.client_cert && (is_given c.ca_cert && is_given c.trusted_servers))

abbrev pub same_dir : Option Bytes → Option Bytes → Config → Option Config
same_dir none new c = none
same_dir (some old) none c = none
same_dir (some old) (some new) c =
    some (if str_eq old new then record c { working_dir = none } else c)

-- `none` is `error_exit`.
unfoldable pub change_working_dir : Dirs → Config → Option Config
unfolding str_eq
change_working_dir dirs c =
    if not (dirs.is_dir && dirs.changed) then none else same_dir dirs.before dirs.after c

-- `if (configuration.working_dir) _change_working_dir();`
abbrev pub if_working_dir : Option Bytes → Dirs → Config → Option Config
if_working_dir none dirs c = some c
if_working_dir (some path) dirs c = change_working_dir dirs c

-- `if (test && fork() == 0)`: a process for the job, beside those behind it.
abbrev pub with_job : Bool → Fork → Job → List Job → List Job
with_job true forked job jobs = job ∷ jobs
with_job true fork_failed job jobs = jobs
with_job false fork job jobs = jobs

abbrev pub jobs_of : Machine → Config → List Job
jobs_of m c =
    with_job (is_set c.auto_send_text || is_set c.auto_send_files) m.listener_fork listener
      (with_job (is_set c.tray_icon) m.icon_fork status_icon (web ∷ []))

-- With `daemonize` the parent exits with success, and its child goes on.
abbrev pub daemonized : Bool → Fork → Run → List ℕ → Run
daemonized true fork_failed run killed = exited killed false
daemonized true forked run killed = run
daemonized false fork run killed = run

unfoldable pub kill_others : Machine → List ℕ
unfolding kill_other_processes
kill_others m = kill_other_processes m.uninit m.pid m.prog_name m.proc

unfoldable pub serve : Machine → Bool → Config → Run
unfolding kill_others
serve m daemonize c =
    daemonized daemonize m.daemon (serves c (kill_others m) (jobs_of m c)) (kill_others m)

-- Without a working directory `strnlen` follows NULL.
abbrev pub in_cwd : Machine → Options → Option Bytes → Config → Run
in_cwd m o none c = crashed
in_cwd m o (some dir) c =
    if ltb 0 o.cmd_offset then commands c o.cmd_offset else serve m o.daemonize c

abbrev pub in_working_dir : Machine → Options → Option Config → Run
in_working_dir m o none = exited [] false
in_working_dir m o (some c) = in_cwd m o m.cwd c

-- From `_apply_default_conf` on.
unfoldable pub configured : Machine → Options → Config → Run
unfolding change_working_dir serve
configured m o c =
    if can_run c
    then in_working_dir m o (if_working_dir c.working_dir m.dirs c)
    else exited [] false

abbrev pub parsed : Machine → Options → Parsed Config → Run
parsed m o (value c) = configured m o (apply_default_conf c)
parsed m o exits = exited [] false
parsed m o overflows = crashed
parsed m o hangs = crashed

abbrev pub with_path : Machine → Options → Option Bytes → Run
with_path m o none = exited [] false
with_path m o (some path) = parsed m o (parse_conf m.sources (some path))

unfoldable pub with_options : Machine → Options → Action Run
unfolding ◌>>=◌ pure choose kill_others configured apply_default_conf parse_conf get_conf_file
with_options m o =
    choose o.stop (pure (exited (kill_others m) true))
      (do path ← get_conf_file m.surroundings; pure (with_path m o path))

abbrev pub if_go_on : Machine → Choice → Action Run
if_go_on m (go_on o) = with_options m o
if_go_on m (Choice.exits success) = pure (exited [] success)

abbrev pub if_logging : Machine → List Opt → Option Bytes → Action Run
if_logging m opts none = pure (exited [] false)
if_logging m opts (some path) = if_go_on m (read_options opts no_options)

unfoldable pub main : Machine → List Opt → Action Run
unfolding pure error_log_path read_options with_options
main m opts = if_logging m opts (error_log_path m.log_dir)
