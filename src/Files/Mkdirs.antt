-- ===== src/Files/Mkdirs.antt =====
-- `_mkdir_check` and `mkdirs` of utils/utils.c, and `_make_directories` of proto/methods.c.
use clip_share_desktop.Prelude.{
  Bool, true, false, not, none, some, [], ◌∷◌, ◌++◌, Bytes, length, ltb, ◌==◌, if◌then◌else◌,
}
use clip_share_desktop.World.{is_dir, make_dir}
use clip_share_desktop.Action.{Action, fail, ◌>>=◌, ◌>>◌, ask, fail_if, file_exists, log_error}
use clip_share_desktop.Text.{path_sep, first_is, before_last_sep}

unfoldable pub mkdir_check : Bytes → Action (Unit {0})
unfolding ◌>>=◌ ask fail_if file_exists
mkdir_check path = do
  there ← file_exists path
  worked ← (if there then ask (is_dir path) else ask (make_dir path))
  fail_if (not worked)

-- The loop of `mkdirs` over the path: each separator and the end cut off a prefix to create.
unfoldable pub make_prefixes : Bytes → Bytes → Action (Unit {0})
unfolding ◌>>=◌ mkdir_check
make_prefixes pre [] = mkdir_check pre
make_prefixes pre (c ∷ rest) =
    let more = make_prefixes (pre ++ c ∷ []) rest in
    if c == path_sep then (do mkdir_check pre; more) else more

unfoldable pub make_missing : Bool → Bytes → Action (Unit {0})
unfolding ◌>>=◌ ask fail_if log_error fail make_prefixes
make_missing true path = do dir ← ask (is_dir path); fail_if (not dir)
make_missing false path =
    if ltb 2048 (length path) then (do log_error; fail) else make_prefixes [] path

unfoldable pub mkdirs : Bytes → Action (Unit {0})
unfolding ◌>>=◌ fail_if file_exists make_missing
mkdirs path = do
  fail_if (not (first_is b'.' path))
  there ← file_exists path
  make_missing there path

unfoldable pub make_directories : Bytes → Action (Unit {0})
unfolding mkdirs fail
make_directories path = elim (before_last_sep path) [ none ↦ fail | some dir ↦ mkdirs dir ]
