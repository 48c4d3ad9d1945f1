-- ===== src/Methods/Receive/Safety.antt =====
-- What `_get_files_dirs` does to the file system.
use clip_share_desktop.Prelude.{
  ℕ, zero, suc, ◌≡◌, refl, sym, Bool, ◌||◌, [], ◌∷◌, Bytes, leb_zero, exceeds, to_ℕ, ℤ,
}
use mathlib.Core.Path.{subst}
use clip_share_desktop.World.{History, Env, World}
use clip_share_desktop.Action.{
  Action, Result, ok, err, stuck, pure, diverge, asks, continue, or_reject, reject_if, file_exists,
  read_size, ◌>>=◌,
}
use clip_share_desktop.Text.{path_sep, print_number}
use clip_share_desktop.Proto.Status.{resp_no_data, resp_communication_failure}
use clip_share_desktop.Methods.Receive.{fresh_dir, get_files_dirs}
use clip_share_desktop.Methods.Save.Allowed.{
  Since, nothing, Since-trans, Ends, Any, Nothing, Keeps, pure-Keeps, if-Keeps, ask_less, >>=-Keeps,
}
use clip_share_desktop.Methods.Save.Reports.{read_size-Keeps, or_reject-Keeps, reject_if-Keeps}
use clip_share_desktop.Methods.Save.Directories.{look-Keeps}
use clip_share_desktop.Methods.Receive.Moving.{asking-Keeps}
use clip_share_desktop.Methods.Receive.Ending.{in_dir-Keeps}

-- The name of a fresh directory.
abbrev pub dir_name : ℕ → Bytes
dir_name id = b'.' ∷ path_sep ∷ print_number 8 16 id []

abbrev IsNamed : Bytes → History → Type 0
IsNamed d h = (id : ℕ) × (d ≡ dir_name id)

fresh_dir-Keeps :
    (env : Env) (dir : Bytes) (tries : ℕ) → Keeps env dir Bytes Any (fresh_dir tries) IsNamed
unfolding fresh_dir diverge
fresh_dir-Keeps env dir zero = record { since = λ w p. nothing; ends = λ w p. tt }
fresh_dir-Keeps env dir (suc tries) =
    >>=-Keeps env dir ℕ Bytes Any Nothing IsNamed (asks (λ env h. env.fresh_id h)) _
      (asking-Keeps env dir ℕ (λ env h. env.fresh_id h))
      (λ id.
        >>=-Keeps env dir Bool Bytes Any Nothing IsNamed (file_exists (dir_name id)) _
          (look-Keeps env dir Any (dir_name id))
          (λ there.
            if-Keeps env dir Bytes Any IsNamed there (fresh_dir tries) (pure (dir_name id))
              (fresh_dir-Keeps env dir tries)
              (ask_less env dir Bytes Any (IsNamed (dir_name id)) (pure (dir_name id)) IsNamed
                (λ h p. (id, refl)) (pure-Keeps env dir Bytes IsNamed (dir_name id)))))

module _ (env : Env) where
  -- All that was done since keeps to one such directory.
  abbrev InFresh : History → Result (Unit {0}) × World → Type 0
  InFresh h r = (id : ℕ) × Since env (dir_name id) h r.1.history

  record Receives (m : Action (Unit {0})) : Type 0 where
    inside : (w : World) → InFresh w.history (m env w)

  continue-InFresh :
      (A : Type 0) (h : History) (r : Result A) (w : World) (f : A → Action (Unit {0}))
      → ((dir : Bytes) → Since env dir h w.history)
      → ((a : A) → Receives (f a))
      → InFresh h (continue r f env w)
  continue-InFresh A h (ok a) w f s k =
      let (id, t) = (k a).inside w in (id, Since-trans env (dir_name id) (s (dir_name id)) t)
  continue-InFresh A h err w f s k = (0, s (dir_name 0))
  continue-InFresh A h stuck w f s k = (0, s (dir_name 0))

  before-Receives :
      (A : Type 0) (m : Action A) (f : A → Action (Unit {0}))
      → ((dir : Bytes) → Keeps env dir A Any m Nothing)
      → ((a : A) → Receives (f a))
      → Receives (m >>= f)
  unfolding ◌>>=◌
  before-Receives A m f s k = record {
    inside =
        λ w. continue-InFresh A w.history (m env w).0 (m env w).1 f (λ dir. (s dir).since w tt) k;
  }

  named-InFresh :
      (h : History) (r : Result Bytes) (w : World) (f : Bytes → Action (Unit {0}))
      → ((dir : Bytes) → Since env dir h w.history)
      → Ends IsNamed r w.history
      → ((dir : Bytes) → Keeps env dir (Unit {0}) Any (f dir) Nothing)
      → InFresh h (continue r f env w)
  named-InFresh h (ok d) w f s (id, e) k = (
    id,
    Since-trans env (dir_name id) (s (dir_name id)) (
        subst (λ d. Since env (dir_name id) w.history (f d env w).1.history) (sym e)
          ((k (dir_name id)).since w tt)),
  )
  named-InFresh h err w f s e k = (0, s (dir_name 0))
  named-InFresh h stuck w f s e k = (0, s (dir_name 0))

  fresh-Receives :
      (tries : ℕ) (f : Bytes → Action (Unit {0}))
      → ((dir : Bytes) → Keeps env dir (Unit {0}) Any (f dir) Nothing)
      → Receives (fresh_dir tries >>= f)
  unfolding ◌>>=◌
  fresh-Receives tries f k = record {
    inside = λ w.
        named-InFresh w.history (fresh_dir tries env w).0 (fresh_dir tries env w).1 f
          (λ dir. (fresh_dir-Keeps env dir tries).since w tt)
          ((fresh_dir-Keeps env [] tries).ends w tt) k;
  }

  get_files_dirs-Receives : (version : ℕ) → Receives (get_files_dirs version)
  unfolding get_files_dirs
  get_files_dirs-Receives version =
      before-Receives ℤ (or_reject resp_communication_failure read_size) _
        (λ dir.
          or_reject-Keeps env dir ℤ Any Nothing resp_communication_failure read_size
            (read_size-Keeps env dir Any))
        (λ cnt.
          before-Receives ℕ (asks (λ env h. env.config.max_file_count)) _
            (λ dir. asking-Keeps env dir ℕ (λ env h. env.config.max_file_count))
            (λ limit.
              before-Receives (Unit {0})
                (reject_if (leb_zero cnt || exceeds cnt limit) resp_no_data) _
                (λ dir.
                  reject_if-Keeps env dir Any (leb_zero cnt || exceeds cnt limit) resp_no_data)
                (λ u.
                  before-Receives ℕ (asks (λ env h. env.patience)) _
                    (λ dir. asking-Keeps env dir ℕ (λ env h. env.patience))
                    (λ patience.
                      fresh-Receives patience _ (λ dir. in_dir-Keeps env dir (to_ℕ cnt) version)))))

-- Whatever the server sends and the system answers, receiving files keeps to one directory `./` with a
-- hexadecimal name. It makes directories only on the way to paths below it; it creates files only below
-- it, with no `..` on the way and where no file was found just before; it writes to and removes only
-- the file that it has created last; and it moves out files of the directory only to paths where no
-- file was found just before. It removes no other directory, and besides this it only looks for paths,
-- allocates, reports, sends, closes the socket and sets the cut files.
pub get_files_dirs-Since :
    (env : Env) (version : ℕ) (w : World)
    → (id : ℕ) × Since env (dir_name id) w.history (get_files_dirs version env w).1.history
get_files_dirs-Since env version w = (get_files_dirs-Receives env version).inside w
