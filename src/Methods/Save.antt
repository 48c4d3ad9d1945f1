-- ===== src/Methods/Save.antt =====
-- `_save_file_common`, `_validate_and_save` and `save_file` of proto/methods.c.
pub mod Allowed
pub mod Reports
pub mod Directories
pub mod Safety
pub mod Made
pub mod Several
pub mod Contents
pub mod Delivered
pub mod File
use clip_share_desktop.Prelude.{
  ℕ, zero, suc, ◌+◌, ◌-◌, min, Bool, true, false, not, ◌&&◌, ◌||◌, Option, none, some, Bytes,
  length, ltb, leb, ◌==◌, if◌then◌else◌, ℤ, pos, negsuc, leb_zero, is_neg, exceeds, to_ℕ,
}
use clip_share_desktop.World.{Env, create, write_file, remove}
use clip_share_desktop.Action.{
  Action, pure, fail, diverge, asks, ◌>>=◌, ◌>>◌, attempt, or_reject, reject, reject_if, fail_if,
  ask, file_exists, log_error, read_sock, read_size,
}
use clip_share_desktop.Proto.Status.{resp_data_error, resp_communication_failure}
use clip_share_desktop.Files.Mkdirs.{mkdirs, make_directories}
use clip_share_desktop.Files.Name.{valid_characters, received_path}

abbrev pub file_buf_sz : ℕ
file_buf_sz = 65536

abbrev pub max_file_name_length : ℕ
max_file_name_length = 2048

-- One block of a file that is received: on a failure the file is removed.
unfoldable pub receive_block : Bytes → ℕ → Action (Unit {0})
unfolding ◌>>=◌ attempt ask reject fail pure read_sock
receive_block path len = do
  block ← attempt (read_sock len)
  elim block [
    | none ↦ (do ask (remove path); reject resp_communication_failure)
    | some data' ↦ (do
      wrote ← ask (write_file path data')
      if wrote then pure tt else (do ask (remove path); fail))
  ]

-- `while (file_size)`. A round receives at least one byte, so `left` rounds are enough.
unfoldable pub receive_contents : ℕ → Bytes → ℕ → Action (Unit {0})
unfolding ◌>>=◌ receive_block pure diverge
receive_contents fuel path zero = pure tt
receive_contents zero path (suc left) = diverge
receive_contents (suc fuel) path (suc left) =
    let len = min (suc left) file_buf_sz in
    let more = receive_contents fuel path (suc left - len) in do receive_block path len; more

-- `file_size > limit` on two `int64_t`
abbrev pub above : ℤ → ℤ → Bool
above (pos n) (pos m) = ltb m n
above (pos n) (negsuc m) = true
above (negsuc n) (pos m) = false
above (negsuc n) (negsuc m) = ltb n m

abbrev pub is_minus_one : ℤ → Bool
is_minus_one (pos n) = false
is_minus_one (negsuc n) = n == 0

unfoldable pub save_contents : ℤ → Bytes → Action (Unit {0})
unfolding ◌>>=◌ reject_if ask log_error fail receive_contents pure
save_contents size path = do
  reject_if (is_neg size) resp_data_error
  opened ← ask (create path)
  (if opened then pure tt else (do log_error; fail))
  receive_contents (to_ℕ size) path (to_ℕ size)

unfoldable pub save_file_common : ℕ → Bytes → Action (Unit {0})
unfolding ◌>>=◌ or_reject asks reject_if read_size save_contents mkdirs
save_file_common version path = do
  size ← or_reject resp_communication_failure read_size
  limit ← asks (λ env h. env.config.max_file_size)
  reject_if (above size limit) resp_data_error
  if is_minus_one size && leb 3 version then mkdirs path else save_contents size path

unfoldable pub save_at : ℕ → Option Bytes → Action (Unit {0})
unfolding ◌>>=◌ fail fail_if make_directories file_exists save_file_common pure
save_at version none = fail
save_at version (some path) = do
  (if ltb 1 version then make_directories path else pure tt)
  there ← file_exists path
  fail_if there
  save_file_common version path

unfoldable pub validate_and_save : ℕ → Bytes → Bytes → Action (Unit {0})
unfolding ◌>>=◌ asks reject_if save_at
validate_and_save version dirname buf = do
  valid ← asks (λ env h. env.u8_valid buf)
  reject_if (not valid || not (valid_characters buf)) resp_data_error
  save_at version (received_path version dirname buf)

unfoldable pub save_file : ℕ → Bytes → Action (Unit {0})
unfolding ◌>>=◌ or_reject reject_if read_size read_sock validate_and_save
save_file version dirname = do
  size ← or_reject resp_communication_failure read_size
  reject_if (leb_zero size || exceeds size max_file_name_length) resp_data_error
  buf ← or_reject resp_communication_failure (read_sock (to_ℕ size))
  validate_and_save version dirname buf
