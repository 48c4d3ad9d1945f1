-- ===== src/Methods/Receive/Moving.antt =====
-- Moving the received files out of their directory, and cutting them into the clipboard, keep to what
-- receiving files may do.
use clip_share_desktop.Prelude.{
  ℕ, zero, suc, ◌+◌, ◌≡◌, refl, Bool, true, false, not, ◌||◌, Option, none, some, List, [], ◌∷◌,
  ◌++◌, Bytes, length, ltb, leb, if◌then◌else◌, ◌==◌,
}
use clip_share_desktop.World.{exists, rename, remove_dir, alloc, pending_files, History, Env, World}
use clip_share_desktop.Action.{
  Action, Result, ok, err, stuck, pure, fail, asks, ask, attempt, fail_if, unchecked, record_event,
  file_exists, log_error, ◌>>=◌, ◌>>◌,
}
use clip_share_desktop.Text.{path_sep}
use clip_share_desktop.Clipboard.CutFiles.{
  init_list, get_abs_path, encode_paths, set_clipboard_cut_files,
}
use clip_share_desktop.Clipboard.Url.{url_encode}
use clip_share_desktop.Methods.Save.{max_file_name_length, save_file}
use clip_share_desktop.Methods.Receive.{
  numbered, first_name, free_name, check_and_rename, rename_all, save_files, remove_if,
}
use clip_share_desktop.Methods.Save.Allowed.{
  IsAbsent, Since, nothing, and_then, Any, Nothing, After, After-Keeps, Keeps, pure-Keeps,
  fail-Keeps, asks-Keeps, if-Keeps, ask_less, >>=-Keeps, ask-Keeps, fail_if-Keeps, log_error-Keeps,
}
use clip_share_desktop.Methods.Save.Directories.{done-Keeps}
use clip_share_desktop.Methods.Save.Safety.{save_file-Keeps}

module _ (env : Env) (dir : Bytes) where
  -- The rule for steps of which nothing is kept.
  pub then-Keeps :
      (A B : Type 0) (m : Action A) (f : A → Action B)
      → Keeps env dir A Any m Nothing
      → ((a : A) → Keeps env dir B Any (f a) Nothing)
      → Keeps env dir B Any (m >>= f) Nothing
  then-Keeps A B m f = >>=-Keeps env dir A B Any Nothing Nothing m f

  alloc-Keeps : (n : ℕ) → Keeps env dir Bool Any (ask (alloc n)) Nothing
  alloc-Keeps n = ask-Keeps env dir Any Nothing (alloc n) (λ h p. tt) (λ h p. tt)

  pub failing-Keeps : (bad : Bool) → Keeps env dir (Unit {0}) Any (fail_if bad) Nothing
  failing-Keeps bad = fail_if-Keeps env dir (λ b. Any) bad

  pub asking-Keeps : (A : Type 0) (f : Env → History → A) → Keeps env dir A Any (asks f) Nothing
  asking-Keeps A f = asks-Keeps env dir A Any f

  pub given-Keeps : (A : Type 0) (a : A) → Keeps env dir A Any (pure a) Nothing
  given-Keeps A a = pure-Keeps env dir A Nothing a

  pub save_files-Keeps :
      (cnt version : ℕ) → Keeps env dir (Unit {0}) Any (save_files cnt version dir) Nothing
  unfolding save_files
  save_files-Keeps zero version = done-Keeps env dir Any
  save_files-Keeps (suc cnt) version =
      then-Keeps (Unit {0}) (Unit {0}) (save_file version dir) _ (save_file-Keeps env dir version)
        (λ u. save_files-Keeps cnt version)

  pub init_list-Keeps : (len : ℕ) → Keeps env dir (Unit {0}) Any (init_list len) Nothing
  unfolding init_list
  init_list-Keeps len = search (then-Keeps, alloc-Keeps, failing-Keeps) depth 10

  get_abs_path-Keeps : (rel : Bytes) → Keeps env dir Bytes Any (get_abs_path rel) Nothing
  unfolding get_abs_path
  get_abs_path-Keeps rel =
      search (then-Keeps, asking-Keeps, alloc-Keeps, failing-Keeps, given-Keeps) depth 12

  encode_paths-Keeps :
      (paths : List Bytes) → Keeps env dir (List Bytes) Any (encode_paths paths) Nothing
  unfolding encode_paths
  encode_paths-Keeps [] = given-Keeps (List Bytes) []
  encode_paths-Keeps (p ∷ paths) =
      then-Keeps Bool (List Bytes) (ask (alloc (length (url_encode p) + 1))) _
        (alloc-Keeps (length (url_encode p) + 1))
        (λ room.
          then-Keeps (List Bytes) (List Bytes) (encode_paths paths) _ (encode_paths-Keeps paths)
            (λ urls.
              given-Keeps (List Bytes)
                (if not room || length (url_encode p) == 0 then urls else url_encode p ∷ urls)))

  unchecked_result :
      (h : History) (r : Result (Unit {0})) (w : World)
      → Since env dir h w.history
      → After env dir h {A = Unit {0}} Nothing
          (elim r [ ok a ↦ (ok a, w) | err ↦ (stuck, w) | stuck ↦ (stuck, w) ])
  unchecked_result h (ok a) w s = (s, tt)
  unchecked_result h err w s = (s, tt)
  unchecked_result h stuck w s = (s, tt)

  unchecked-Keeps :
      (m : Action (Unit {0}))
      → Keeps env dir (Unit {0}) Any m Nothing
      → Keeps env dir (Unit {0}) Any (unchecked m) Nothing
  unfolding unchecked
  unchecked-Keeps m k =
      After-Keeps env dir (Unit {0}) Any (unchecked m) Nothing
        (λ w p. unchecked_result w.history (m env w).0 (m env w).1 (k.since w p))

  pending-Keeps :
      (s : Bytes) → Keeps env dir (Unit {0}) Any (record_event (pending_files s)) Nothing
  unfolding record_event
  pending-Keeps s = record { since = λ w p. and_then nothing tt; ends = λ w p. tt }

  pub cut_files-Keeps :
      (paths : List Bytes) → Keeps env dir (Unit {0}) Any (set_clipboard_cut_files paths) Nothing
  unfolding set_clipboard_cut_files
  cut_files-Keeps paths =
      then-Keeps (Unit {0}) (Unit {0}) (unchecked (init_list (length paths))) _
        (unchecked-Keeps (init_list (length paths)) (init_list-Keeps (length paths)))
        (λ u.
          then-Keeps (List Bytes) (Unit {0}) (encode_paths paths) _ (encode_paths-Keeps paths)
            (λ urls. search (then-Keeps, failing-Keeps, alloc-Keeps, pending-Keeps) depth 10))

  if_free :
      (name : Bytes) (there : Bool) (more : Action Bytes)
      → Keeps env dir Bytes Any more (λ new h. IsAbsent env (b'.' ∷ path_sep ∷ new) h)
      → Keeps env dir Bytes
          (λ h. there ≡ false → IsAbsent env (b'.' ∷ path_sep ∷ name) h)
          (if there then more else pure name)
          (λ new h. IsAbsent env (b'.' ∷ path_sep ∷ new) h)
  if_free name true more k =
      ask_less env dir Bytes _ Any more (λ new h. IsAbsent env (b'.' ∷ path_sep ∷ new) h)
        (λ h p. tt) k
  if_free name false more k =
      ask_less env dir Bytes _ (λ h. IsAbsent env (b'.' ∷ path_sep ∷ name) h) (pure name)
        (λ new h. IsAbsent env (b'.' ∷ path_sep ∷ new) h) (λ h p. p refl)
        (pure-Keeps env dir Bytes (λ new h. IsAbsent env (b'.' ∷ path_sep ∷ new) h) name)

  found-Keeps :
      (name : Bytes) (more : Action Bytes)
      → Keeps env dir Bytes Any more (λ new h. IsAbsent env (b'.' ∷ path_sep ∷ new) h)
      → Keeps env dir Bytes Any
          (do there ← file_exists (b'.' ∷ path_sep ∷ name); if there then more else pure name)
          (λ new h. IsAbsent env (b'.' ∷ path_sep ∷ new) h)
  unfolding file_exists
  found-Keeps name more k =
      >>=-Keeps env dir Bool Bytes Any
        (λ there h. there ≡ false → IsAbsent env (b'.' ∷ path_sep ∷ name) h)
        (λ new h. IsAbsent env (b'.' ∷ path_sep ∷ new) h) (file_exists (b'.' ∷ path_sep ∷ name)) _
        (ask-Keeps env dir Any (λ there h. there ≡ false → IsAbsent env (b'.' ∷ path_sep ∷ name) h)
          (exists (b'.' ∷ path_sep ∷ name)) (λ h p. tt) (λ h p e. (refl, e)))
        (λ there. if_free name there more k)

  -- `free_name` looks for the path that it gives last, and does not find it.
  free_name-Keeps :
      (tries n : ℕ) (filename name : Bytes)
      → Keeps env dir Bytes Any
          (free_name tries n filename name)
          (λ new h. IsAbsent env (b'.' ∷ path_sep ∷ new) h)
  unfolding free_name
  free_name-Keeps zero n filename name =
      found-Keeps name fail
        (fail-Keeps env dir Bytes Any (λ new h. IsAbsent env (b'.' ∷ path_sep ∷ new) h))
  free_name-Keeps (suc tries) n filename name =
      let long : Bool = leb (length filename + 20) (length (numbered n filename) + 2) in
      found-Keeps name (do fail_if long; free_name tries (n + 1) filename (numbered n filename))
        (>>=-Keeps env dir (Unit {0}) Bytes Any Nothing
          (λ new h. IsAbsent env (b'.' ∷ path_sep ∷ new) h) (fail_if long) _ (failing-Keeps long)
          (λ u. free_name-Keeps tries (n + 1) filename (numbered n filename)))

  attempt_result :
      (A : Type 0) (h : History) (r : Result A) (w : World)
      → Since env dir h w.history
      → After env dir h {A = Option A} Nothing
          (elim r [ ok a ↦ (ok (some a), w) | err ↦ (ok none, w) | stuck ↦ (stuck, w) ])
  attempt_result A h (ok a) w s = (s, tt)
  attempt_result A h err w s = (s, tt)
  attempt_result A h stuck w s = (s, tt)

  attempted-Keeps :
      (A : Type 0) (m : Action A)
      → Keeps env dir A Any m Nothing
      → Keeps env dir (Option A) Any (attempt m) Nothing
  unfolding attempt
  attempted-Keeps A m k =
      After-Keeps env dir (Option A) Any (attempt m) Nothing
        (λ w p. attempt_result A w.history (m env w).0 (m env w).1 (k.since w p))

  failed_log-Keeps : Keeps env dir (Unit {0}) Any (do log_error; fail) Nothing
  failed_log-Keeps =
      then-Keeps (Unit {0}) (Unit {0}) log_error (λ u. fail) (log_error-Keeps env dir Any)
        (λ u. fail-Keeps env dir (Unit {0}) Any Nothing)

  -- From the search for a name on.
  renamed-Keeps :
      (tries : ℕ) (filename name : Bytes)
      → Keeps env dir Bytes Any
          (do
            new ← free_name tries 1 filename name
            renamed ← ask (rename (dir ++ path_sep ∷ filename) (b'.' ∷ path_sep ∷ new))
            fail_if (not renamed)
            get_abs_path new)
          Nothing
  renamed-Keeps tries filename name =
      >>=-Keeps env dir Bytes Bytes Any (λ new h. IsAbsent env (b'.' ∷ path_sep ∷ new) h) Nothing
        (free_name tries 1 filename name) _ (free_name-Keeps tries 1 filename name)
        (λ new.
          >>=-Keeps env dir Bool Bytes (λ h. IsAbsent env (b'.' ∷ path_sep ∷ new) h) Nothing Nothing
            (ask (rename (dir ++ path_sep ∷ filename) (b'.' ∷ path_sep ∷ new))) _
            (ask-Keeps env dir (λ h. IsAbsent env (b'.' ∷ path_sep ∷ new) h) Nothing
              (rename (dir ++ path_sep ∷ filename) (b'.' ∷ path_sep ∷ new))
              (λ h p. ((filename, refl), p)) (λ h p. tt))
            (λ renamed.
              then-Keeps (Unit {0}) Bytes (fail_if (not renamed)) _ (failing-Keeps (not renamed))
                (λ u. get_abs_path-Keeps new)))

  check_and_rename-Keeps :
      (filename : Bytes) → Keeps env dir Bytes Any (check_and_rename filename dir) Nothing
  unfolding check_and_rename
  check_and_rename-Keeps filename =
      then-Keeps (Unit {0}) Bytes
        (if ltb max_file_name_length (length filename) then (do log_error; fail) else pure tt) _
        (if-Keeps env dir (Unit {0}) Any Nothing (ltb max_file_name_length (length filename))
          (do log_error; fail) (pure tt) failed_log-Keeps (given-Keeps (Unit {0}) tt))
        (λ u.
          then-Keeps (Unit {0}) Bytes
            (fail_if (leb (length filename + 20) (length (dir ++ path_sep ∷ filename)))) _
            (failing-Keeps (leb (length filename + 20) (length (dir ++ path_sep ∷ filename))))
            (λ u.
              then-Keeps (Option Bytes) Bytes (asks (λ env h. env.config.working_dir)) _
                (asking-Keeps (Option Bytes) (λ env h. env.config.working_dir))
                (λ working_dir. renamed-Keeps 999999 filename (first_name working_dir filename))))

  pub rename_all-Keeps :
      (files : List Bytes) → Keeps env dir (List Bytes × Bool) Any (rename_all files dir) Nothing
  unfolding rename_all
  rename_all-Keeps [] = given-Keeps (List Bytes × Bool) ([], true)
  rename_all-Keeps (filename ∷ files) =
      then-Keeps (Option Bytes) (List Bytes × Bool) (attempt (check_and_rename filename dir)) _
        (attempted-Keeps Bytes (check_and_rename filename dir) (check_and_rename-Keeps filename))
        (λ path.
          then-Keeps (List Bytes × Bool) (List Bytes × Bool) (rename_all files dir) _
            (rename_all-Keeps files)
            (λ r.
              given-Keeps (List Bytes × Bool)
                (elim path [ none ↦ (r.0, false) | some p ↦ (p ∷ r.0, r.1) ])))

  pub remove_if-Keeps : (all_well : Bool) → Keeps env dir Bool Any (remove_if all_well dir) Nothing
  unfolding remove_if
  remove_if-Keeps true = ask-Keeps env dir Any Nothing (remove_dir dir) (λ h p. refl) (λ h p. tt)
  remove_if-Keeps false = given-Keeps Bool false
