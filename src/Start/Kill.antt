-- ===== src/Start/Kill.antt =====
-- `kill_other_processes` of utils/kill_others.c on Linux.
pub mod Rounds
pub mod Named
use clip_share_desktop.Prelude.{
  ℕ, zero, suc, ◌+◌, ◌%◌, ◌^◌, Bool, true, false, not, ◌&&◌, ◌||◌, Option, none, some, List, [],
  ◌∷◌, Bytes, length, take, str_eq, codes, leb, ◌==◌, if◌then◌else◌,
}
use clip_share_desktop.Config.Numbers.{is_space, is_digit, skip_spaces, scan, strtoull_bits}
use clip_share_desktop.Config.Servers.{line_of}
use clip_share_desktop.Client.Cli.{strncmp_eq}

-- An entry of /proc: its name, is its type `DT_DIR`, and the line that `fgets` reads from its status
-- file, if it can be opened and read.
pub record Entry : Type 0 where
  pub d_name : Bytes
  pub is_dir : Bool
  pub status : Option Bytes

abbrev pub all_digits : Bytes → Bool
all_digits [] = true
all_digits (c ∷ s) = is_digit c && all_digits s

-- The tests in front of `fopen`.
unfoldable pub is_process : Entry → Bool
unfolding str_eq
is_process e =
    not (str_eq e.d_name (codes ".") || str_eq e.d_name (codes ".."))
    && (e.is_dir && (all_digits e.d_name && not (leb 269 (length e.d_name + 13))))

abbrev pub skip_word : Bytes → Bytes
skip_word [] = []
skip_word (c ∷ s) = let rest = skip_word s in if is_space c then c ∷ s else rest

-- A directive that matches nothing leaves `cur_task_name` as it was.
abbrev pub or_old : Bytes → Bytes → Bytes
or_old old [] = old
or_old old (c ∷ s) = c ∷ s

-- `sscanf(buf, "%*s %15[^\n]", cur_task_name)`. Without a word there is nothing behind it either.
unfoldable pub task_name : Bytes → Bytes → Bytes
task_name old line = or_old old (line_of 15 (skip_spaces (skip_word (skip_spaces line))))

abbrev pub pid_of : Entry → ℕ
pid_of e = strtoull_bits (scan e.d_name) % 2 ^ 32

abbrev pub name_from : Bool → Option Bytes → Bytes → Option Bytes
name_from false status old = none
name_from true none old = none
name_from true (some line) old = some (task_name old line)

-- Is the process one to kill?
abbrev pub is_other : ℕ → Bytes → Bytes → Entry → Bool
is_other this_pid prog_name name e = strncmp_eq 15 prog_name name && not (pid_of e == this_pid)

abbrev pub add_if : Bool → ℕ → List ℕ → List ℕ
add_if test pid pids = if test then pid ∷ pids else pids

-- The loop over /proc: the processes that get a SIGTERM. `old` is what the buffer for the name holds.
unfoldable pub kill_loop : ℕ → Bytes → Bytes → List Entry → List ℕ
unfolding is_process task_name strncmp_eq
kill_loop this_pid prog_name old [] = []
kill_loop this_pid prog_name old (e ∷ es) = elim (name_from (is_process e) e.status old) [
  | none ↦ kill_loop this_pid prog_name old es
  | some name ↦
      add_if (is_other this_pid prog_name name e) (pid_of e) (kill_loop this_pid prog_name name es)
]

-- `uninit` is what the buffer holds before anything is written to it; without /proc nothing is killed.
unfoldable pub kill_other_processes : Bytes → ℕ → Bytes → Option (List Entry) → List ℕ
unfolding kill_loop
kill_other_processes uninit this_pid prog_name none = []
kill_other_processes uninit this_pid prog_name (some es) = kill_loop this_pid prog_name uninit es
