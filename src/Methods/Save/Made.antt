-- ===== src/Methods/Save/Made.antt =====
-- Directories are made on the way to a received path, where the system makes them.
use clip_share_desktop.Prelude.{
  ℕ, ◌≤◌, ◌≡◌, refl, ap, ◌∙◌, Bool, true, false, not, some, List, [], ◌∷◌, ◌++◌, Bytes, length, ltb,
  ◌==◌, if◌then◌else◌, arith,
}
use clip_share_desktop.Net.{SockType, Recv}
use clip_share_desktop.World.{Env, World, History, call, exists, is_dir, make_dir}
use clip_share_desktop.World.Trace.{written}
use clip_share_desktop.Action.{
  Action, Result, ok, continue, ask, fail_if, file_exists, ◌>>=◌, ◌>>◌, pure,
}
use clip_share_desktop.Action.Healthy.{on}
use clip_share_desktop.Text.{path_sep, before_last_sep}
use clip_share_desktop.Files.Mkdirs.{
  mkdir_check, make_prefixes, make_missing, mkdirs, make_directories,
}

-- What is there is a directory where one is wanted, and others can be made.
pub record DirsWork (env : Env) : Type 0 where
  pub there : (h : History) (path : Bytes) → env.answer h (is_dir path) ≡ true
  pub new : (h : History) (path : Bytes) → env.answer h (make_dir path) ≡ true

-- A run that succeeds, reads nothing and writes to no file.
pub record Made (kind : SockType) (s : List Recv) (h : History) (r : Result (Unit {0}) × World)
    : Type 0 where
  pub history : History
  pub runs : r ≡ (ok tt, on kind s history)
  pub unwritten : (path : Bytes) → written path history ≡ written path h

module _ (env : Env) (works : DirsWork env) (kind : SockType) (s : List Recv) where
  Made-then :
      (h : History) (r : Result (Unit {0}) × World) (m : Action (Unit {0}))
      → Made kind s h r
      → ((h' : History) → Made kind s h' (m env (on kind s h')))
      → Made kind s h (continue r.0 (λ u. m) env r.1)
  Made-then h r m a k =
      let b : Made kind s a.history (m env (on kind s a.history)) = k a.history in
      record {
        history = b.history;
        runs = ap (λ r. continue r.0 (λ u. m) env r.1) a.runs ∙ b.runs;
        unwritten = λ path. b.unwritten path ∙ a.unwritten path;
      }

  if-Made :
      (h : History) (test : Bool) (m n : Action (Unit {0}))
      → Made kind s h (m env (on kind s h))
      → Made kind s h (n env (on kind s h))
      → Made kind s h ((if test then m else n) env (on kind s h))
  if-Made h true m n a b = a
  if-Made h false m n a b = b

  checked :
      (there : Bool) (path : Bytes) (h : History)
      → Made kind s h (
          (do
            worked ← (if there then ask (is_dir path) else ask (make_dir path))
            fail_if (not worked))
            env
            (on kind s h))
  unfolding ◌>>=◌ ask fail_if pure
  checked true path h = record {
    history = call (is_dir path) ∷ h;
    runs = rw (works.there h path) refl;
    unwritten = λ p. refl;
  }
  checked false path h = record {
    history = call (make_dir path) ∷ h;
    runs = rw (works.new h path) refl;
    unwritten = λ p. refl;
  }

  mkdir_check-Made :
      (path : Bytes) (h : History) → Made kind s h (mkdir_check path env (on kind s h))
  unfolding mkdir_check
  mkdir_check-Made [] h = checked false [] h
  mkdir_check-Made (c ∷ path) h =
      let a =
        checked (env.answer h (exists (c ∷ path))) (c ∷ path) (call (exists (c ∷ path)) ∷ h) in
      record { history = a.history; runs = a.runs; unwritten = λ p. a.unwritten p }

  make_prefixes-Made :
      (pre rest : Bytes) (h : History) → Made kind s h (make_prefixes pre rest env (on kind s h))
  unfolding make_prefixes ◌>>=◌
  make_prefixes-Made pre [] h = mkdir_check-Made pre h
  make_prefixes-Made pre (c ∷ rest) h =
      if-Made h (c == path_sep) (do mkdir_check pre; make_prefixes (pre ++ (c ∷ [])) rest)
        (make_prefixes (pre ++ (c ∷ [])) rest)
        (Made-then h (mkdir_check pre env (on kind s h)) (make_prefixes (pre ++ (c ∷ [])) rest)
          (mkdir_check-Made pre h) (λ h'. make_prefixes-Made (pre ++ (c ∷ [])) rest h'))
        (make_prefixes-Made (pre ++ (c ∷ [])) rest h)

  make_missing-Made :
      (there : Bool) (path : Bytes) (h : History)
      → length path ≤ 2048
      → Made kind s h (make_missing there path env (on kind s h))
  unfolding make_missing ◌>>=◌ ask fail_if pure
  make_missing-Made true path h l = record {
    history = call (is_dir path) ∷ h;
    runs = rw (works.there h path) refl;
    unwritten = λ p. refl;
  }
  make_missing-Made false path h l =
      let short : ltb 2048 (length path) ≡ false = ground arith in
      rw short (make_prefixes-Made [] path h)

  pub mkdirs-Made :
      (c : ℕ) (path : Bytes) (h : History)
      → (c == b'.') ≡ true
      → length (c ∷ path) ≤ 2048
      → Made kind s h (mkdirs (c ∷ path) env (on kind s h))
  unfolding mkdirs ◌>>=◌ fail_if pure file_exists ask
  mkdirs-Made c path h e l =
      let a =
        make_missing-Made (env.answer h (exists (c ∷ path))) (c ∷ path)
          (call (exists (c ∷ path)) ∷ h) l in
      record { history = a.history; runs = rw e a.runs; unwritten = λ p. a.unwritten p }

  -- The directory of a path below the working directory.
  pub make_directories-Made :
      (path : Bytes) (c : ℕ) (dir : Bytes) (h : History)
      → before_last_sep path ≡ some (c ∷ dir)
      → (c == b'.') ≡ true
      → length (c ∷ dir) ≤ 2048
      → Made kind s h (make_directories path env (on kind s h))
  unfolding make_directories
  make_directories-Made path c dir h b e l = rw (make_directories, b) (mkdirs-Made c dir h e l)
