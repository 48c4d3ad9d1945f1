-- ===== src/Methods/Save/Directories.antt =====
-- Looking for paths and making directories keep to what receiving files may do.
use clip_share_desktop.Prelude.{
  ℕ, ◌≡◌, refl, sym, ap, ◌∙◌, Bool, true, false, not, Option, none, some, [], ◌∷◌, ◌++◌, Bytes,
  length, if◌then◌else◌, append_assoc, append-nil, ltb, ◌==◌, Bool-cases, inl, inr, arith,
}
use mathlib.Core.Path.{subst}
use clip_share_desktop.World.{exists, is_dir, make_dir, History, Env}
use clip_share_desktop.Action.{pure, fail, ask, fail_if, file_exists, log_error, ◌>>◌}
use clip_share_desktop.Text.{path_sep, first_is, before_last_sep}
use clip_share_desktop.Files.Mkdirs.{
  mkdir_check, make_prefixes, make_missing, mkdirs, make_directories,
}
use clip_share_desktop.Methods.Save.Allowed.{
  IsBelow, IsOnWay, Any, Nothing, Keeps, pure-Keeps, fail-Keeps, if-Keeps, weaken, >>=-Keeps,
  ask-Keeps, fail_if-Keeps, log_error-Keeps,
}

cut_prefix :
    (c : ℕ) (s : Bytes) (o : Option Bytes) (d : Bytes)
    → (elim o [ some dir ↦ some (c ∷ dir) | none ↦ if c == path_sep then some [] else none ])
      ≡ some d
    → ((d' : Bytes) → o ≡ some d' → (rest : Bytes) × (d' ++ rest ≡ s))
    → (rest : Bytes) × (d ++ rest ≡ c ∷ s)
cut_prefix c s (some d') d e h =
    let (rest, p) = h d' refl in
    let q : c ∷ d' ≡ d = cc in (rest, ap (λ x. x ++ rest) (sym q) ∙ ap (λ x. c ∷ x) p)
cut_prefix c s none d e h = elim (Bool-cases (c == path_sep)) [
  | inl t ↦ let q : [] ≡ d = ground (arith, e, t) in (c ∷ s, ap (λ x. x ++ (c ∷ s)) (sym q))
  | inr t ↦ absurd (ground (arith, e, t))
]

before_last_sep-prefix :
    (path d : Bytes) → before_last_sep path ≡ some d → (rest : Bytes) × (d ++ rest ≡ path)
unfolding before_last_sep
before_last_sep-prefix [] d e = absurd (cc)
before_last_sep-prefix (c ∷ s) d e =
    cut_prefix c s (before_last_sep s) d e (before_last_sep-prefix s)

module _ (env : Env) (dir : Bytes) where
  -- Looking changes nothing.
  pub look-Keeps :
      (P : History → Type 0) (path : Bytes) → Keeps env dir Bool P (file_exists path) Nothing
  unfolding file_exists
  look-Keeps P [] =
      weaken env dir Bool P Any (pure false) (λ h p. tt) (pure-Keeps env dir Bool Nothing false)
  look-Keeps P (c ∷ path) = ask-Keeps env dir P Nothing (exists (c ∷ path)) (λ h p. tt) (λ h p. tt)

  pub done-Keeps : (P : History → Type 0) → Keeps env dir (Unit {0}) P (pure tt) Nothing
  done-Keeps P =
      weaken env dir (Unit {0}) P Any (pure tt) (λ h p. tt)
        (pure-Keeps env dir (Unit {0}) Nothing tt)

  mkdir_check-Keeps :
      (path : Bytes) → IsOnWay dir path → Keeps env dir (Unit {0}) Any (mkdir_check path) Nothing
  unfolding mkdir_check
  mkdir_check-Keeps path way =
      >>=-Keeps env dir Bool (Unit {0}) Any Nothing Nothing (file_exists path) _
        (look-Keeps Any path)
        (λ there.
          >>=-Keeps env dir Bool (Unit {0}) Any Nothing Nothing
            (if there then ask (is_dir path) else ask (make_dir path)) _
            (if-Keeps env dir Bool Any Nothing there (ask (is_dir path)) (ask (make_dir path))
              (ask-Keeps env dir Any Nothing (is_dir path) (λ h p. tt) (λ h p. tt))
              (ask-Keeps env dir Any Nothing (make_dir path) (λ h p. way) (λ h p. tt)))
            (λ worked. fail_if-Keeps env dir (λ b. Any) (not worked)))

  make_prefixes-Keeps :
      (pre rest : Bytes)
      → IsOnWay dir (pre ++ rest)
      → Keeps env dir (Unit {0}) Any (make_prefixes pre rest) Nothing
  unfolding make_prefixes
  make_prefixes-Keeps pre [] way = mkdir_check-Keeps pre (subst (IsOnWay dir) (append-nil pre) way)
  make_prefixes-Keeps pre (c ∷ rest) (r, way) =
      let more : Keeps env dir (Unit {0}) Any (make_prefixes (pre ++ (c ∷ [])) rest) Nothing =
        make_prefixes-Keeps (pre ++ (c ∷ [])) rest
          (r, subst (IsBelow dir) (ap (λ x. x ++ r) (sym (append_assoc pre (c ∷ []) rest))) way) in
      if-Keeps env dir (Unit {0}) Any Nothing (c == path_sep)
        (do mkdir_check pre; make_prefixes (pre ++ (c ∷ [])) rest)
        (make_prefixes (pre ++ (c ∷ [])) rest)
        (>>=-Keeps env dir (Unit {0}) (Unit {0}) Any Nothing Nothing (mkdir_check pre) _
          (mkdir_check-Keeps pre
            ((c ∷ rest) ++ r, subst (IsBelow dir) (append_assoc pre (c ∷ rest) r) way))
          (λ u. more))
        more

  make_missing-Keeps :
      (there : Bool) (path : Bytes)
      → IsOnWay dir path
      → Keeps env dir (Unit {0}) Any (make_missing there path) Nothing
  unfolding make_missing
  make_missing-Keeps true path way =
      >>=-Keeps env dir Bool (Unit {0}) Any Nothing Nothing (ask (is_dir path)) _
        (ask-Keeps env dir Any Nothing (is_dir path) (λ h p. tt) (λ h p. tt))
        (λ d. fail_if-Keeps env dir (λ b. Any) (not d))
  make_missing-Keeps false path way =
      if-Keeps env dir (Unit {0}) Any Nothing (ltb 2048 (length path)) (do log_error; fail)
        (make_prefixes [] path)
        (>>=-Keeps env dir (Unit {0}) (Unit {0}) Any Nothing Nothing log_error _
          (log_error-Keeps env dir Any) (λ u. fail-Keeps env dir (Unit {0}) Any Nothing))
        (make_prefixes-Keeps [] path way)

  pub mkdirs-Keeps :
      (path : Bytes) → IsOnWay dir path → Keeps env dir (Unit {0}) Any (mkdirs path) Nothing
  unfolding mkdirs
  mkdirs-Keeps path way =
      >>=-Keeps env dir (Unit {0}) (Unit {0}) Any Nothing Nothing
        (fail_if (not (first_is b'.' path))) _
        (fail_if-Keeps env dir (λ b. Any) (not (first_is b'.' path)))
        (λ u.
          >>=-Keeps env dir Bool (Unit {0}) Any Nothing Nothing (file_exists path) _
            (look-Keeps Any path) (λ there. make_missing-Keeps there path way))

  made-Keeps :
      (o : Option Bytes)
      → ((d : Bytes) → o ≡ some d → IsOnWay dir d)
      → Keeps env dir (Unit {0}) Any (elim o [ none ↦ fail | some d ↦ mkdirs d ]) Nothing
  made-Keeps none way = fail-Keeps env dir (Unit {0}) Any Nothing
  made-Keeps (some d) way = mkdirs-Keeps d (way d refl)

  -- The directories on the way to a path.
  pub make_directories-Keeps :
      (path : Bytes)
      → IsOnWay dir path
      → Keeps env dir (Unit {0}) Any (make_directories path) Nothing
  unfolding make_directories
  make_directories-Keeps path (r, way) = made-Keeps (before_last_sep path) (λ d e.
      let (rest, p) = before_last_sep-prefix path d e in
      (rest ++ r, subst (IsBelow dir) (ap (λ x. x ++ r) (sym p) ∙ append_assoc d rest r) way))
