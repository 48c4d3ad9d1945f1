-- ===== src/Start/Conf/Search.antt =====
-- Which configuration file is taken.
use clip_share_desktop.Prelude.{
  ℕ, zero, suc, ◌+◌, ◌-◌, ◌≤◌, ◌<◌, min, ◌≡◌, refl, ap, Bool, true, false, Option, none, some, List,
  [], ◌∷◌, ◌++◌, Bytes, length, length-append, take, drop, leb, codes, if◌then◌else◌, arith,
}
use clip_share_desktop.World.{exists, alloc, History, Env, World}
use clip_share_desktop.Action.{Action, ok, pure, ask, choose, log_error, ◌>>=◌, ◌>>◌, file_exists}
use clip_share_desktop.Start.Conf.{
  config_file, Surroundings, non_empty, or_dir, get_user_home, try_path, in_dir, try_xdg, or_else,
  if_found, last_path, search_home, if_home, search_elsewhere, get_conf_file,
}

-- There is memory, and a file is there or not while the program looks.
pub record IsQuiet (found : Bytes → Bool) (env : Env) : Type 0 where
  pub files : (h : History) (path : Bytes) → env.answer h (exists path) ≡ found path
  pub memory : (h : History) (size : ℕ) → env.answer h (alloc size) ≡ true

-- The first of the paths at which there is a file, and otherwise the last resort.
abbrev pub first_found : (Bytes → Bool) → List Bytes → Bytes → Bytes
first_found found [] last = last
first_found found (p ∷ ps) last = if found p then p else first_found found ps last

abbrev pub dir_paths : Option Bytes → List Bytes
dir_paths none = []
dir_paths (some dir) = in_dir dir ∷ []

abbrev pub in_config : Bytes → Bytes
in_config home = home ++ (codes "/.config/" ++ config_file)

length-in_config : (home : Bytes) → length (in_config home) ≡ length home + 31
length-in_config home = length-append home (codes "/.config/" ++ config_file)

abbrev pub IsShort : Option Bytes → Type 0
IsShort none = Unit
IsShort (some dir) = length dir ≤ 512

take-all : (n : ℕ) (s : Bytes) → length s ≤ n → take n s ≡ s
take-all zero [] h = refl
take-all zero (c ∷ s) h = absurd (omega arith)
take-all (suc n) [] h = refl
take-all (suc n) (c ∷ s) h = ap (λ l. c ∷ l) (take-all n s (omega arith))

module _ {found : Bytes → Bool} {env : Env} (quiet : IsQuiet found env) where
  -- The call returns the value, in every world.
  abbrev Returns : {A : Type 0} → Action A → A → Type 0
  Returns m a = (w : World) → (w' : World) × (m env w ≡ (ok a, w'))

  Returns-bind :
      {A B : Type 0} (m : Action A) (f : A → Action B) (a : A) (b : B)
      → Returns m a
      → Returns (f a) b
      → Returns (m >>= f) b
  unfolding ◌>>=◌
  Returns-bind m f a b h k w = let (w1, e) = h w in let (w2, e') = k w1 in (w2, rw e e')

  Returns-pure : {A : Type 0} (a : A) → Returns (pure a) a
  unfolding pure
  Returns-pure a w = (w, refl)

  Returns-memory : (size : ℕ) → Returns (ask (alloc size)) true
  unfolding ask
  Returns-memory size w =
      let w' : World = (ask (alloc size) env w).1 in
      (w', ap (λ b. (ok b, w')) (quiet.memory w.history size))

  Returns-file : (c : ℕ) (path : Bytes) → Returns (file_exists (c ∷ path)) (found (c ∷ path))
  unfolding ask file_exists
  Returns-file c path w =
      let w' : World = (file_exists (c ∷ path) env w).1 in
      (w', ap (λ b. (ok b, w')) (quiet.files w.history (c ∷ path)))

  Returns-choose :
      {A : Type 0} (test : Bool) (m n : Action A) (a b : A)
      → Returns m a
      → Returns n b
      → Returns (choose test m n) (if test then a else b)
  unfolding choose
  Returns-choose true m n a b h k = h
  Returns-choose false m n a b h k = k

  with_memory :
      {A : Type 0} (size : ℕ) (m n : Action A) (a : A)
      → Returns m a
      → Returns (ask (alloc size) >>= λ got. choose got m n) a
  unfolding choose
  with_memory size m n a h =
      Returns-bind (ask (alloc size)) (λ got. choose got m n) true a (Returns-memory size) h

  try_file :
      (c : ℕ) (path : Bytes)
      → Returns
          (file_exists (c ∷ path) >>= λ b. pure (if_found b (c ∷ path)))
          (if_found (found (c ∷ path)) (c ∷ path))
  try_file c path =
      Returns-bind (file_exists (c ∷ path)) (λ b. pure (if_found b (c ∷ path))) (found (c ∷ path))
        (if_found (found (c ∷ path)) (c ∷ path)) (Returns-file c path)
        (Returns-pure (if_found (found (c ∷ path)) (c ∷ path)))

  try_path_lem :
      (conf_len c : ℕ) (path : Bytes)
      → length (c ∷ path) < conf_len
      → Returns (try_path conf_len (c ∷ path)) (if_found (found (c ∷ path)) (c ∷ path))
  unfolding try_path
  try_path_lem conf_len c path h =
      rw (try_path, take-all (conf_len - 1) (c ∷ path) (omega arith))
        (with_memory (conf_len + 1) (file_exists (c ∷ path) >>= λ b. pure (if_found b (c ∷ path)))
          (pure none) (if_found (found (c ∷ path)) (c ∷ path)) (try_file c path))

  last_path_lem : (home : Bytes) → Returns (last_path home) (some (in_dir home))
  unfolding last_path
  last_path_lem home =
      with_memory (length home + length config_file + 4) (pure (some (in_dir home)))
        (do log_error; pure none) (some (in_dir home)) (Returns-pure (some (in_dir home)))

  -- A place that is tried before the others.
  or_first : Option Bytes → Bytes → Bytes
  or_first none last = last
  or_first (some path) last = path

  Returns-or_else :
      (o : Option Bytes) (m : Action (Option Bytes)) (last : Bytes)
      → Returns m (some last)
      → Returns (or_else o m) (some (or_first o last))
  unfolding or_first
  Returns-or_else none m last h = h
  Returns-or_else (some p) m last h = Returns-pure (some p)

  or_first-if_found :
      (b : Bool) (p last : Bytes) → or_first (if_found b p) last ≡ (if b then p else last)
  unfolding or_first
  or_first-if_found true p last = refl
  or_first-if_found false p last = refl

  Returns-try :
      (m n : Action (Option Bytes)) (p last : Bytes)
      → Returns m (if_found (found p) p)
      → Returns n (some last)
      → Returns (m >>= λ o. or_else o n) (some (if found p then p else last))
  Returns-try m n p last h k =
      Returns-bind m (λ o. or_else o n) (if_found (found p) p) (some (if found p then p else last))
        h
        (rw (← or_first-if_found (found p) p last)
          (Returns-or_else (if_found (found p) p) n last k))

  Returns-try_path :
      (conf_len : ℕ) (path : Bytes)
      → 0 < length path
      → length path < conf_len
      → Returns (try_path conf_len path) (if_found (found path) path)
  Returns-try_path conf_len [] p h = absurd (omega arith)
  Returns-try_path conf_len (c ∷ path) p h = try_path_lem conf_len c path h

  length-in_dir : (dir : Bytes) → length (in_dir dir) ≡ length dir + 23
  length-in_dir dir = length-append dir (codes "/" ++ config_file)

  search_home_lem :
      (home : Bytes)
      → length home < 512
      → Returns (search_home home) (some (first_found found (in_config home ∷ []) (in_dir home)))
  unfolding search_home
  search_home_lem home h =
      let few : leb 512 (length home) ≡ false = ground arith in
      rw (search_home, few)
        (Returns-choose false (pure none)
          (try_path (length home + length config_file + 11) (in_config home) >>= λ o.
            or_else o (last_path home))
          none (some (first_found found (in_config home ∷ []) (in_dir home))) (Returns-pure none)
          (Returns-try (try_path (length home + length config_file + 11) (in_config home))
            (last_path home) (in_config home) (in_dir home)
            (Returns-try_path (length home + length config_file + 11) (in_config home)
              (omega (arith, length-in_config home)) (omega (arith, length-in_config home)))
            (last_path_lem home)))

  get_user_home_lem :
      (sur : Surroundings) (home : Bytes)
      → or_dir (non_empty sur.home) sur.pw_dir ≡ some home
      → length home < 512
      → Returns (get_user_home sur) (some home)
  unfolding get_user_home
  get_user_home_lem sur home e h =
      rw (get_user_home, e, take-all 513 home (omega arith))
        (with_memory (min 513 (length home) + 1) (pure (some home)) (pure none) (some home)
          (Returns-pure (some home)))

  try_xdg_lem :
      (x : Option Bytes) (m : Action (Option Bytes)) (last : Bytes)
      → IsShort x
      → Returns m (some last)
      → Returns (try_xdg x >>= λ o. or_else o m) (some (first_found found (dir_paths x) last))
  try_xdg_lem none m last s h =
      Returns-bind (pure none) (λ o. or_else o m) none (some last) (Returns-pure none) h
  try_xdg_lem (some dir) m last s h =
      Returns-try (try_xdg (some dir)) m (in_dir dir) last
        (Returns-try_path (min (length dir) 512 + length config_file + 3) (in_dir dir)
          (omega (arith, length-in_dir dir)) (omega (arith, length-in_dir dir)))
        h

  here_or :
      (b : Bool) (m : Action (Option Bytes)) (last : Bytes)
      → Returns m (some last)
      → Returns
          (choose b
            (ask (alloc (length config_file + 1)) >>= λ got. pure (if_found got config_file))
            m)
          (some (if b then config_file else last))
  unfolding choose
  here_or true m last h =
      Returns-bind (ask (alloc (length config_file + 1))) (λ got. pure (if_found got config_file))
        true (some config_file) (Returns-memory (length config_file + 1))
        (Returns-pure (some config_file))
  here_or false m last h = h

  get_conf_file-Returns :
      (sur : Surroundings) (home : Bytes)
      → or_dir (non_empty sur.home) sur.pw_dir ≡ some home
      → length home < 512
      → IsShort (non_empty sur.xdg_config_home)
      → let places = dir_paths (non_empty sur.xdg_config_home) in
        Returns (get_conf_file sur) (
          some (
            first_found found
              (config_file ∷ places)
              (first_found found (in_config home ∷ []) (in_dir home))))
  unfolding get_conf_file search_elsewhere
  get_conf_file-Returns sur home e h s =
      let at_home : Bytes = first_found found (in_config home ∷ []) (in_dir home) in
      let places : List Bytes = dir_paths (non_empty sur.xdg_config_home) in
      Returns-bind (file_exists config_file)
        (λ here.
          choose here
            (ask (alloc (length config_file + 1)) >>= λ got. pure (if_found got config_file))
            (search_elsewhere sur))
        (found config_file) (some (first_found found (config_file ∷ places) at_home))
        (Returns-file 99 (drop 1 config_file))
        (here_or (found config_file) (search_elsewhere sur) (first_found found places at_home) (
          try_xdg_lem (non_empty sur.xdg_config_home) (get_user_home sur >>= if_home) at_home s (
            Returns-bind (get_user_home sur) if_home (some home) (some at_home)
              (get_user_home_lem sur home e h) (search_home_lem home h))))

  -- Where files do not come and go meanwhile and memory is not short, the configuration file is the
  -- first that there is in the working directory, in the directory of XDG_CONFIG_HOME and in
  -- `.config` of the home directory, and otherwise the path in the home directory itself.
  pub get_conf_file-first_found :
      (sur : Surroundings) (home : Bytes) (w : World)
      → or_dir (non_empty sur.home) sur.pw_dir ≡ some home
      → length home < 512
      → IsShort (non_empty sur.xdg_config_home)
      → let places = dir_paths (non_empty sur.xdg_config_home) in
        let at_home = first_found found (in_config home ∷ []) (in_dir home) in
        (get_conf_file sur env w).0 ≡ ok (some (first_found found (config_file ∷ places) at_home))
  get_conf_file-first_found sur home w e h s =
      ap (λ r. r.0) (get_conf_file-Returns sur home e h s w).1
