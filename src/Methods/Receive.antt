-- ===== src/Methods/Receive.antt =====
-- `_check_and_rename` and `_get_files_dirs` of proto/methods.c.
pub mod Moving
pub mod Ending
pub mod Safety
use clip_share_desktop.Prelude.{
  ℕ, zero, suc, ◌+◌, Bool, true, false, not, ◌||◌, Option, none, some, List, [], ◌∷◌, ◌++◌, Bytes,
  length, ltb, leb, if◌then◌else◌, str_eq, leb_zero, exceeds, to_ℕ, codes,
}
use clip_share_desktop.Config.{is_set}
use clip_share_desktop.World.{rename, remove_dir}
use clip_share_desktop.Action.{
  Action, pure, fail, diverge, asks, ◌>>=◌, ◌>>◌, notify, notify_with, attempt, or_reject,
  or_notify, reject_if, fail_if, ask, file_exists, log_error, read_size, close_socket,
  close_socket_no_wait, close_socket_await,
}
use clip_share_desktop.Text.{path_sep, print_number}
use clip_share_desktop.Proto.Status.{
  resp_ok, resp_no_data, resp_communication_failure, resp_local_error,
}
use clip_share_desktop.Files.Mkdirs.{mkdirs}
use clip_share_desktop.Clipboard.CutFiles.{init_list, get_abs_path, set_clipboard_cut_files}
use clip_share_desktop.Methods.Frame.{send_ack}
use clip_share_desktop.Methods.Save.{max_file_name_length, save_file}

abbrev pub config_file : Bytes
config_file = codes "clipshare-desktop.conf"

-- `./N_name`
abbrev pub numbered : ℕ → Bytes → Bytes
numbered n filename = print_number 10 10 n (b'_' ∷ filename)

abbrev pub is_some {ℓ} : {A : Type ℓ} → Option A → Bool
is_some none = false
is_some (some _) = true

-- The name to begin with: the program's own configuration file is not overwritten.
abbrev pub first_name : Option Bytes → Bytes → Bytes
first_name working_dir filename =
    if is_some working_dir || not (str_eq filename config_file)
    then filename
    else codes "1_" ++ filename

-- `while (file_exists(new_path))`: `tries` more numbers may be tried, the next of them being `n`. The
-- names stand for paths behind `./`.
unfoldable pub free_name : ℕ → ℕ → Bytes → Bytes → Action Bytes
unfolding ◌>>=◌ file_exists fail fail_if pure
free_name zero n filename name = do
  there ← file_exists (b'.' ∷ path_sep ∷ name)
  if there then fail else pure name
free_name (suc tries) n filename name = do
  there ← file_exists (b'.' ∷ path_sep ∷ name)
  let more = free_name tries (n + 1) filename (numbered n filename)
  if there
      then (do fail_if (leb (length filename + 20) (length (numbered n filename) + 2)); more)
      else pure name

unfoldable pub check_and_rename : Bytes → Bytes → Action Bytes
unfolding ◌>>=◌ log_error fail fail_if asks free_name ask get_abs_path pure
check_and_rename filename dirname = do
  (if ltb max_file_name_length (length filename) then (do log_error; fail) else pure tt)
  let old_path = dirname ++ path_sep ∷ filename
  fail_if (leb (length filename + 20) (length old_path))
  working_dir ← asks (λ env h. env.config.working_dir)
  name ← free_name 999999 1 filename (first_name working_dir filename)
  renamed ← ask (rename old_path (b'.' ∷ path_sep ∷ name))
  fail_if (not renamed)
  get_abs_path name

-- The loop over the files of the directory: the paths that were made, and whether all went well.
unfoldable pub rename_all : List Bytes → Bytes → Action (List Bytes × Bool)
unfolding ◌>>=◌ attempt check_and_rename pure
rename_all [] dirname = pure ([], true)
rename_all (filename ∷ files) dirname = do
  path ← attempt (check_and_rename filename dirname)
  (paths, all_well) ← rename_all files dirname
  pure (elim path [ none ↦ (paths, false) | some p ↦ (p ∷ paths, all_well) ])

-- `do … while (file_exists(dirname))`: `./` and the digits of the time, then of random numbers.
unfoldable pub fresh_dir : ℕ → Action Bytes
unfolding ◌>>=◌ asks file_exists diverge pure
fresh_dir zero = diverge
fresh_dir (suc tries) = do
  id ← asks (λ env h. env.fresh_id h)
  let dirname = b'.' ∷ path_sep ∷ print_number 8 16 id []
  there ← file_exists dirname
  let more = fresh_dir tries
  if there then more else pure dirname

-- `for (file_num = 0; file_num < cnt; file_num++)`
unfoldable pub save_files : ℕ → ℕ → Bytes → Action (Unit {0})
unfolding ◌>>=◌ save_file pure
save_files zero version dirname = pure tt
save_files (suc cnt) version dirname = do save_file version dirname; save_files cnt version dirname

-- `remove_directory(dirname)`, which is tried only if all files were moved out.
unfoldable pub remove_if : Bool → Bytes → Action Bool
unfolding ask pure
remove_if true dirname = ask (remove_dir dirname)
remove_if false dirname = pure false

-- What follows the last file.
unfoldable pub take_over : ℕ → Bytes → Option (List Bytes) → Action (Unit {0})
unfolding ◌>>=◌ fail init_list rename_all remove_if notify_with or_notify send_ack
    close_socket_await asks fail_if set_clipboard_cut_files pure
take_over version dirname none = fail
take_over version dirname (some files) = do
  init_list (length files)
  (dest_files, all_well) ← rename_all files dirname
  status ← remove_if all_well dirname
  (if status then pure tt else notify resp_local_error)
  (if leb 4 version
      then (if status
          then (do or_notify resp_communication_failure send_ack; close_socket)
          else close_socket_no_wait)
      else close_socket_no_wait)
  notify resp_ok
  cut ← asks (λ env h. is_set env.config.cut_received_files)
  fail_if (not status)
  if cut then set_clipboard_cut_files dest_files else pure tt

unfoldable pub get_files_dirs : ℕ → Action (Unit {0})
unfolding ◌>>=◌ or_reject read_size asks reject_if fresh_dir mkdirs save_files close_socket_await
    take_over pure
get_files_dirs version = do
  cnt ← or_reject resp_communication_failure read_size
  limit ← asks (λ env h. env.config.max_file_count)
  reject_if (leb_zero cnt || exceeds cnt limit) resp_no_data
  patience ← asks (λ env h. env.patience)
  dirname ← fresh_dir patience
  mkdirs dirname
  save_files (to_ℕ cnt) version dirname
  (if leb 4 version then pure tt else close_socket_no_wait)
  files ← asks (λ env h. env.entries h dirname)
  take_over version dirname files
