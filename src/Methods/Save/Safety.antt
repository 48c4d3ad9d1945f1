-- ===== src/Methods/Save/Safety.antt =====
-- Where `save_file` writes: only new files below the directory.
use clip_share_desktop.Prelude.{
  ℕ, zero, suc, ◌-◌, ◌≡◌, refl, sym, ap, Bool, true, false, not, ◌||◌, ◌&&◌, Option, none, some, [],
  ◌∷◌, Bytes, length, min, if◌then◌else◌, ℤ, append-nil, ltb, leb, to_ℕ, is_neg, leb_zero, exceeds,
  length-append, arith,
}
use mathlib.Core.Path.{subst}
use clip_share_desktop.World.{exists, create, write_file, remove, History, Env}
use clip_share_desktop.Action.{
  Action, pure, fail, diverge, asks, ask, or_reject, reject, reject_if, fail_if, attempt,
  file_exists, log_error, read_sock, read_size, ◌>>=◌, ◌>>◌,
}
use clip_share_desktop.Text.{path_sep}
use clip_share_desktop.Proto.Status.{resp_data_error, resp_communication_failure}
use clip_share_desktop.Files.Mkdirs.{mkdirs, make_directories}
use clip_share_desktop.Files.Name.{received_path, valid_characters}
use clip_share_desktop.Files.Name.Confined.{received_path-confined}
use clip_share_desktop.Methods.Save.{
  file_buf_sz, max_file_name_length, above, is_minus_one, receive_block, receive_contents,
  save_contents, save_file_common, save_at, validate_and_save, save_file,
}
use clip_share_desktop.Methods.Save.Allowed.{
  IsBelow, IsOnWay, IsAbsent, IsCreated, nothing, Any, Nothing, Keeps, pure-Keeps, fail-Keeps,
  asks-Keeps, if-Keeps, weaken, >>=-Keeps, ask-Keeps, fail_if-Keeps, log_error-Keeps,
}
use clip_share_desktop.Methods.Save.Reports.{
  read_sock-Keeps, read_size-Keeps, attempt-Keeps, reject-Keeps, or_reject-Keeps, reject_if-Keeps,
}
use clip_share_desktop.Methods.Save.Directories.{done-Keeps, mkdirs-Keeps, make_directories-Keeps}

IsBelow-IsOnWay : (dir path : Bytes) → IsBelow dir path → IsOnWay dir path
IsBelow-IsOnWay dir path below = ([], subst (IsBelow dir) (sym (append-nil path)) below)

module _ (env : Env) (dir : Bytes) where
  pub unfound-Keeps :
      (p : Bytes)
      → IsBelow dir p
      → Keeps env dir Bool Any (file_exists p) (λ b h. b ≡ false → IsAbsent env p h)
  unfolding file_exists
  unfound-Keeps [] (rest, e, d) =
      absurd (omega (arith, ap length e, length-append dir (path_sep ∷ rest)))
  unfound-Keeps (c ∷ p) below =
      ask-Keeps env dir Any (λ b h. b ≡ false → IsAbsent env (c ∷ p) h) (exists (c ∷ p)) (λ h a. tt)
        (λ h a e. (refl, e))

module _ (env : Env) (dir path : Bytes) where
  drop-Keeps :
      (Q : Unit {0} → History → Type 0) (m : Action (Unit {0}))
      → Keeps env dir (Unit {0}) Any m Q
      → Keeps env dir (Unit {0}) (IsCreated path) (do ask (remove path); m) Q
  drop-Keeps Q m k =
      >>=-Keeps env dir Bool (Unit {0}) (IsCreated path) Nothing Q (ask (remove path)) _
        (ask-Keeps env dir (IsCreated path) Nothing (remove path) (λ h p. p) (λ h p. tt)) (λ b. k)

  wrote-Keeps :
      (wrote : Bool)
      → Keeps env dir
          (Unit {0})
          (IsCreated path)
          (if wrote then pure tt else (do ask (remove path); fail))
          (λ u. IsCreated path)
  wrote-Keeps true = pure-Keeps env dir (Unit {0}) (λ u. IsCreated path) tt
  wrote-Keeps false =
      drop-Keeps (λ u. IsCreated path) fail
        (fail-Keeps env dir (Unit {0}) Any (λ u. IsCreated path))

  block-Keeps :
      (block : Option Bytes)
      → Keeps env dir
          (Unit {0})
          (IsCreated path)
          (elim block [
            | none ↦ (do ask (remove path); reject resp_communication_failure)
            | some data' ↦ (do
              wrote ← ask (write_file path data')
              if wrote then pure tt else (do ask (remove path); fail))
          ])
          (λ u. IsCreated path)
  block-Keeps none =
      drop-Keeps (λ u. IsCreated path) (reject resp_communication_failure)
        (reject-Keeps env dir (Unit {0}) Any (λ u. IsCreated path) resp_communication_failure)
  block-Keeps (some data') =
      >>=-Keeps env dir Bool (Unit {0}) (IsCreated path) (λ b. IsCreated path) (λ u. IsCreated path)
        (ask (write_file path data')) _
        (ask-Keeps env dir (IsCreated path) (λ b. IsCreated path) (write_file path data') (λ h p. p)
          (λ h p. (refl, p)))
        wrote-Keeps

  receive_block-Keeps :
      (len : ℕ)
      → Keeps env dir (Unit {0}) (IsCreated path) (receive_block path len) (λ u. IsCreated path)
  unfolding receive_block
  receive_block-Keeps len =
      >>=-Keeps env dir (Option Bytes) (Unit {0}) (IsCreated path) (λ o. IsCreated path)
        (λ u. IsCreated path) (attempt (read_sock len)) _
        (attempt-Keeps env dir (IsCreated path) len) block-Keeps

  receive_contents-Keeps :
      (fuel size : ℕ)
      → Keeps env dir (Unit {0}) (IsCreated path) (receive_contents fuel path size) Nothing
  unfolding receive_contents diverge
  receive_contents-Keeps fuel zero = done-Keeps env dir (IsCreated path)
  receive_contents-Keeps zero (suc left) = record { since = λ w p. nothing; ends = λ w p. tt }
  receive_contents-Keeps (suc fuel) (suc left) =
      let len = min (suc left) file_buf_sz in
      >>=-Keeps env dir (Unit {0}) (Unit {0}) (IsCreated path) (λ u. IsCreated path) Nothing
        (receive_block path len) _ (receive_block-Keeps len)
        (λ u. receive_contents-Keeps fuel (suc left - len))

  -- The file is created where nothing was.
  opened-Keeps :
      (opened : Bool)
      → Keeps env dir
          (Unit {0})
          (IsCreated path)
          (if opened then pure tt else (do log_error; fail))
          (λ u. IsCreated path)
  opened-Keeps true = pure-Keeps env dir (Unit {0}) (λ u. IsCreated path) tt
  opened-Keeps false =
      >>=-Keeps env dir (Unit {0}) (Unit {0}) (IsCreated path) Nothing (λ u. IsCreated path)
        log_error _ (log_error-Keeps env dir (IsCreated path))
        (λ u. fail-Keeps env dir (Unit {0}) Any (λ u. IsCreated path))

  save_contents-Keeps :
      (size : ℤ)
      → IsBelow dir path
      → Keeps env dir (Unit {0}) (IsAbsent env path) (save_contents size path) Nothing
  unfolding save_contents
  save_contents-Keeps size below =
      >>=-Keeps env dir (Unit {0}) (Unit {0}) (IsAbsent env path) (λ u. IsAbsent env path) Nothing
        (reject_if (is_neg size) resp_data_error) _
        (reject_if-Keeps env dir (IsAbsent env path) (is_neg size) resp_data_error)
        (λ u.
          >>=-Keeps env dir Bool (Unit {0}) (IsAbsent env path) (λ b. IsCreated path) Nothing
            (ask (create path)) _
            (ask-Keeps env dir (IsAbsent env path) (λ b. IsCreated path) (create path)
              (λ h p. (below, p)) (λ h p. refl))
            (λ opened.
              >>=-Keeps env dir (Unit {0}) (Unit {0}) (IsCreated path) (λ u. IsCreated path) Nothing
                (if opened then pure tt else (do log_error; fail)) _ (opened-Keeps opened)
                (λ u. receive_contents-Keeps (to_ℕ size) (to_ℕ size))))

  save_file_common-Keeps :
      (version : ℕ)
      → IsBelow dir path
      → Keeps env dir (Unit {0}) (IsAbsent env path) (save_file_common version path) Nothing
  unfolding save_file_common
  save_file_common-Keeps version below =
      >>=-Keeps env dir ℤ (Unit {0}) (IsAbsent env path) (λ z. IsAbsent env path) Nothing
        (or_reject resp_communication_failure read_size) _
        (or_reject-Keeps env dir ℤ (IsAbsent env path) (λ z. IsAbsent env path)
          resp_communication_failure read_size (read_size-Keeps env dir (IsAbsent env path)))
        (λ size.
          >>=-Keeps env dir ℤ (Unit {0}) (IsAbsent env path) (λ z. IsAbsent env path) Nothing
            (asks (λ env h. env.config.max_file_size)) _
            (asks-Keeps env dir ℤ (IsAbsent env path) (λ env h. env.config.max_file_size))
            (λ limit.
              >>=-Keeps env dir (Unit {0}) (Unit {0}) (IsAbsent env path) (λ u. IsAbsent env path)
                Nothing (reject_if (above size limit) resp_data_error) _
                (reject_if-Keeps env dir (IsAbsent env path) (above size limit) resp_data_error)
                (λ u.
                  if-Keeps env dir (Unit {0}) (IsAbsent env path) Nothing
                    (is_minus_one size && leb 3 version) (mkdirs path) (save_contents size path)
                    (weaken env dir (Unit {0}) (IsAbsent env path) Any (mkdirs path) (λ h p. tt)
                      (mkdirs-Keeps env dir path (IsBelow-IsOnWay dir path below)))
                    (save_contents-Keeps size below))))

  placed-Keeps :
      (version : ℕ)
      → IsBelow dir path
      → Keeps env dir (Unit {0}) Any (save_at version (some path)) Nothing
  unfolding save_at
  placed-Keeps version below =
      >>=-Keeps env dir (Unit {0}) (Unit {0}) Any Nothing Nothing
        (if ltb 1 version then make_directories path else pure tt) _
        (if-Keeps env dir (Unit {0}) Any Nothing (ltb 1 version) (make_directories path) (pure tt)
          (make_directories-Keeps env dir path (IsBelow-IsOnWay dir path below))
          (done-Keeps env dir Any))
        (λ u.
          >>=-Keeps env dir Bool (Unit {0}) Any (λ b h. b ≡ false → IsAbsent env path h) Nothing
            (file_exists path) _ (unfound-Keeps env dir path below)
            (λ there.
              >>=-Keeps env dir (Unit {0}) (Unit {0}) (λ h. there ≡ false → IsAbsent env path h)
                (λ u h. false ≡ false → IsAbsent env path h) Nothing (fail_if there) _
                (fail_if-Keeps env dir (λ b h. b ≡ false → IsAbsent env path h) there)
                (λ u.
                  weaken env dir (Unit {0}) (λ h. false ≡ false → IsAbsent env path h)
                    (IsAbsent env path) (save_file_common version path) (λ h f. f refl)
                    (save_file_common-Keeps version below))))

module _ (env : Env) (dir : Bytes) where
  save_at-Keeps :
      (version : ℕ) (o : Option Bytes)
      → ((path : Bytes) → o ≡ some path → IsBelow dir path)
      → Keeps env dir (Unit {0}) Any (save_at version o) Nothing
  unfolding save_at
  save_at-Keeps version none below = fail-Keeps env dir (Unit {0}) Any Nothing
  save_at-Keeps version (some path) below = placed-Keeps env dir path version (below path refl)

  received-IsBelow :
      (version : ℕ) (buf path : Bytes)
      → received_path version dir buf ≡ some path
      → IsBelow dir path
  received-IsBelow version buf path e =
      let ((rest, p, o, d), len, base) = received_path-confined version dir buf path e in
      (rest, p, d)

  validate_and_save-Keeps :
      (version : ℕ) (buf : Bytes)
      → Keeps env dir (Unit {0}) Any (validate_and_save version dir buf) Nothing
  unfolding validate_and_save
  validate_and_save-Keeps version buf =
      >>=-Keeps env dir Bool (Unit {0}) Any Nothing Nothing (asks (λ env h. env.u8_valid buf)) _
        (asks-Keeps env dir Bool Any (λ env h. env.u8_valid buf))
        (λ valid.
          >>=-Keeps env dir (Unit {0}) (Unit {0}) Any Nothing Nothing
            (reject_if (not valid || not (valid_characters buf)) resp_data_error) _
            (reject_if-Keeps env dir Any (not valid || not (valid_characters buf)) resp_data_error)
            (λ u.
              save_at-Keeps version (received_path version dir buf) (received-IsBelow version buf)))

  pub save_file-Keeps : (version : ℕ) → Keeps env dir (Unit {0}) Any (save_file version dir) Nothing
  unfolding save_file
  save_file-Keeps version =
      >>=-Keeps env dir ℤ (Unit {0}) Any Nothing Nothing
        (or_reject resp_communication_failure read_size) _
        (or_reject-Keeps env dir ℤ Any Nothing resp_communication_failure read_size
          (read_size-Keeps env dir Any))
        (λ size.
          >>=-Keeps env dir (Unit {0}) (Unit {0}) Any Nothing Nothing
            (reject_if (leb_zero size || exceeds size max_file_name_length) resp_data_error) _
            (reject_if-Keeps env dir Any (leb_zero size || exceeds size max_file_name_length)
              resp_data_error)
            (λ u.
              >>=-Keeps env dir Bytes (Unit {0}) Any Nothing Nothing
                (or_reject resp_communication_failure (read_sock (to_ℕ size))) _
                (or_reject-Keeps env dir Bytes Any Nothing resp_communication_failure
                  (read_sock (to_ℕ size)) (read_sock-Keeps env dir Any (to_ℕ size)))
                (validate_and_save-Keeps version)))
