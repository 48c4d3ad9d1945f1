-- ===== src/Tests/Starting.antt =====
-- The start of the program, the search for its configuration file, and the processes it stops.
use clip_share_desktop.Prelude.{
  ◌≡◌, refl, Bool, true, false, none, some, List, [], ◌∷◌, Bytes, All, map, codes, arith, str_eq,
  inr,
}
use clip_share_desktop.Net.{null_sock}
use clip_share_desktop.World.{Call, exists, Env, History}
use clip_share_desktop.Action.{ok}
use clip_share_desktop.Action.Healthy.{on}
use clip_share_desktop.Start.Conf.{config_file, Surroundings, in_dir, get_conf_file}
use clip_share_desktop.Start.Conf.Search.{
  IsQuiet, first_found, in_config, get_conf_file-first_found,
}
use clip_share_desktop.Start.Kill.{kill_other_processes}
use clip_share_desktop.Start.Kill.Rounds.{IsPlainName}
use clip_share_desktop.Start.Kill.Named.{
  Process, running, no_dir, no_number, IsProcess, proc_entry, wanted, kill_other_processes-wanted,
}
use clip_share_desktop.Start.Launch.{forked, Machine}
use clip_share_desktop.Tests.Setup.{machine}

abbrev clients : List Process
clients =
    no_number (codes "sel") b'f' [] true none
    ∷ no_dir (codes "13") (some (codes "clip_share"))
    ∷ running 1 (2 ∷ []) (some (codes "clip_share"))
    ∷ running 1 (4 ∷ []) (some (codes "sh"))
    ∷ running 7 (7 ∷ []) (some (codes "clip_share"))
    ∷ []

only_the_other : wanted 77 (codes "clip_share") clients ≡ 12 ∷ []
unfolding str_eq
only_the_other = refl

client-IsPlainName : IsPlainName (some (codes "clip_share"))
client-IsPlainName =
    (refl, (refl, (refl, (refl, (refl, (refl, (refl, (refl, (refl, (refl, (refl, tt)))))))))))

clients-IsProcess : All IsProcess clients
clients-IsProcess = (
  (inr (omega arith), tt),
  (
    client-IsPlainName,
    (
      (omega arith, omega arith, omega arith, client-IsPlainName),
      (
        (omega arith, omega arith, omega arith, (refl, (refl, (refl, tt)))),
        ((omega arith, omega arith, omega arith, client-IsPlainName), tt),
      ),
    ),
  ),
)

kill_other_processes-wanted_example :
    kill_other_processes [] 77 (codes "clip_share") (some (map proc_entry clients))
    ≡ wanted 77 (codes "clip_share") clients
kill_other_processes-wanted_example =
    kill_other_processes-wanted [] 77 (codes "clip_share") clients clients-IsProcess

abbrev surroundings : Surroundings
surroundings = record {
  xdg_config_home = some (codes "/x");
  home = some (codes "/home/u");
  pw_dir = none;
}

-- There is a file in `.config` only.
abbrev in_home : Bytes → Bool
in_home path = str_eq path (in_config (codes "/home/u"))

abbrev home_answers : History → Call → Bool
home_answers h (exists path) = in_home path
home_answers h c = true

abbrev quiet_machine : Env
quiet_machine = record machine { answer = home_answers }

machine-IsQuiet : IsQuiet in_home quiet_machine
machine-IsQuiet = record { files = λ h path. refl; memory = λ h size. refl }

get_conf_file-first_found_example :
    (get_conf_file surroundings quiet_machine (on null_sock [] [])).0
    ≡ ok (
        some (
          first_found in_home
            (config_file ∷ in_dir (codes "/x") ∷ [])
            (first_found in_home (in_config (codes "/home/u") ∷ []) (in_dir (codes "/home/u")))))
get_conf_file-first_found_example =
    get_conf_file-first_found machine-IsQuiet surroundings (codes "/home/u") (on null_sock [] [])
      refl (omega arith) (omega arith)

-- A program that was not configured, and becomes a daemon with its status icon.
abbrev desktop : Machine
desktop = record {
  sources = record {
    file = λ name. none;
    u8_valid = λ s. true;
    inet_aton = λ s. none;
    uninit = [];
  };
  surroundings = surroundings;
  log_dir = some (codes "/home/u");
  dirs = record { is_dir = false; before = none; changed = false; after = none };
  cwd = some (codes "/home/u");
  prog_name = codes "clip_share";
  pid = 77;
  uninit = [];
  proc = some (map proc_entry clients);
  daemon = forked;
  listener_fork = forked;
  icon_fork = forked;
}
