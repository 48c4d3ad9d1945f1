-- ===== src/Methods/Save/Allowed.antt =====
-- What receiving files may do to the outside, as a relation between two histories, and the rules for
-- actions that keep to it.
use clip_share_desktop.Prelude.{◌≡◌, Bool, true, false, ◌∷◌, ◌++◌, Bytes, if◌then◌else◌}
use clip_share_desktop.World.{
  Call, Event, exists, is_dir, make_dir, create, write_file, remove, rename, remove_dir, alloc,
  call, sent, closed, pending_files, notified, logged, History, Env, World,
}
use clip_share_desktop.Action.{
  Action, Result, ok, err, stuck, pure, fail, asks, ask, continue, fail_if, log_error, record_event,
  ◌>>=◌,
}
use clip_share_desktop.Text.{path_sep}
use clip_share_desktop.Files.Name.Confined.{Descends, components}

-- A path below the directory, with no `..` on the way.
abbrev pub IsBelow : Bytes → Bytes → Type 0
IsBelow dir path = (rest : Bytes) × (path ≡ dir ++ path_sep ∷ rest) × Descends (components rest)

-- A directory on the way to such a path.
abbrev pub IsOnWay : Bytes → Bytes → Type 0
IsOnWay dir pre = (rest : Bytes) × IsBelow dir (pre ++ rest)

-- A file of the directory itself.
abbrev pub IsIn : Bytes → Bytes → Type 0
IsIn dir path = (name : Bytes) × (path ≡ dir ++ path_sep ∷ name)

-- The last thing that was done is that the path was looked for, and not found.
abbrev pub IsAbsent : Env → Bytes → History → Type 0
IsAbsent env path (call (exists p) ∷ h) = (p ≡ path) × (env.answer h (exists p) ≡ false)
IsAbsent env path h = ⊥

-- The last things that were done are that the file was created, and writes to it.
abbrev pub IsCreated : Bytes → History → Type 0
IsCreated path (call (create p) ∷ h) = p ≡ path
IsCreated path (call (write_file p bs) ∷ h) = (p ≡ path) × IsCreated path h
IsCreated path h = ⊥

-- What may be done behind a history.
abbrev pub MayDo : Env → Bytes → Event → History → Type 0
MayDo env dir (call (exists p)) h = Unit
MayDo env dir (call (is_dir p)) h = Unit
MayDo env dir (call (make_dir p)) h = IsOnWay dir p
MayDo env dir (call (create p)) h = IsBelow dir p × IsAbsent env p h
MayDo env dir (call (write_file p bs)) h = IsCreated p h
MayDo env dir (call (remove p)) h = IsCreated p h
MayDo env dir (call (rename old new)) h = IsIn dir old × IsAbsent env new h
MayDo env dir (call (remove_dir d)) h = d ≡ dir
MayDo env dir (call (alloc n)) h = Unit
MayDo env dir (sent bs) h = Unit
MayDo env dir (closed await) h = Unit
MayDo env dir (pending_files files) h = Unit
MayDo env dir (notified status msg) h = Unit
MayDo env dir logged h = Unit
MayDo env dir e h = ⊥

pub data Since (env : Env) (dir : Bytes) (h : History) : History → Type 0 where
  nothing : Since env dir h h
  and_then :
      {e : Event} {h' : History}
      → Since env dir h h'
      → MayDo env dir e h'
      → Since env dir h (e ∷ h')

-- `ok`, with what then holds.
abbrev pub Ends : {A : Type 0} → (A → History → Type 0) → Result A → History → Type 0
Ends Q (ok a) h = Q a h
Ends Q err h = Unit
Ends Q stuck h = Unit

abbrev pub Any : History → Type 0
Any h = Unit

abbrev pub Nothing : {A : Type 0} → A → History → Type 0
Nothing a h = Unit

module _ (env : Env) (dir : Bytes) where
  pub Since-trans :
      {h h1 h2 : History} → Since env dir h h1 → Since env dir h1 h2 → Since env dir h h2
  Since-trans s nothing = s
  Since-trans s (and_then t d) = and_then (Since-trans s t) d

  -- From a history with `P` the action does only what it may, and `Q` holds behind it if it succeeds.
  pub record Keeps (A : Type 0) (P : History → Type 0) (m : Action A) (Q : A → History → Type 0)
      : Type 0 where
    pub since : (w : World) → P w.history → Since env dir w.history (m env w).1.history
    pub ends : (w : World) → P w.history → Ends Q (m env w).0 (m env w).1.history

-- Both at once, of a result.
abbrev pub After :
    Env → Bytes → History → {A : Type 0} → (A → History → Type 0) → Result A × World → Type 0
After env dir h Q r = Since env dir h r.1.history × Ends Q r.0 r.1.history

module _ (env : Env) (dir : Bytes) (A : Type 0) where
  pub After-Keeps :
      (P : History → Type 0) (m : Action A) (Q : A → History → Type 0)
      → ((w : World) → P w.history → After env dir w.history Q (m env w))
      → Keeps env dir A P m Q
  After-Keeps P m Q f = record { since = λ w p. (f w p).0; ends = λ w p. (f w p).1 }

  pub pure-Keeps : (Q : A → History → Type 0) (a : A) → Keeps env dir A (Q a) (pure a) Q
  unfolding pure
  pure-Keeps Q a = record { since = λ w p. nothing; ends = λ w p. p }

  pub fail-Keeps : (P : History → Type 0) (Q : A → History → Type 0) → Keeps env dir A P fail Q
  unfolding fail
  fail-Keeps P Q = record { since = λ w p. nothing; ends = λ w p. tt }

  pub asks-Keeps :
      (P : History → Type 0) (f : Env → History → A) → Keeps env dir A P (asks f) (λ a. P)
  unfolding asks
  asks-Keeps P f = record { since = λ w p. nothing; ends = λ w p. p }

  pub if-Keeps :
      (P : History → Type 0) (Q : A → History → Type 0) (test : Bool) (m n : Action A)
      → Keeps env dir A P m Q
      → Keeps env dir A P n Q
      → Keeps env dir A P (if test then m else n) Q
  if-Keeps P Q true m n hm hn = hm
  if-Keeps P Q false m n hm hn = hn

  -- Less may be asked.
  pub ask_less :
      (P P' : History → Type 0) (m : Action A) (Q : A → History → Type 0)
      → ((h : History) → P h → P' h)
      → Keeps env dir A P' m Q
      → Keeps env dir A P m Q
  ask_less P P' m Q f k = record {
    since = λ w p. k.since w (f w.history p);
    ends = λ w p. k.ends w (f w.history p);
  }

  pub weaken :
      (P P' : History → Type 0) (m : Action A)
      → ((h : History) → P h → P' h)
      → Keeps env dir A P' m Nothing
      → Keeps env dir A P m Nothing
  weaken P P' m = ask_less P P' m Nothing

module _ (env : Env) (dir : Bytes) (A B : Type 0) where
  continue-Since :
      (h : History) (r : Result A) (w : World) (f : A → Action B) (P : A → History → Type 0)
      (Q : B → History → Type 0)
      → Since env dir h w.history
      → Ends P r w.history
      → ((a : A) → Keeps env dir B (P a) (f a) Q)
      → Since env dir h (continue r f env w).1.history
  continue-Since h (ok a) w f P Q s e k = Since-trans env dir s ((k a).since w e)
  continue-Since h err w f P Q s e k = s
  continue-Since h stuck w f P Q s e k = s

  continue-Ends :
      (r : Result A) (w : World) (f : A → Action B) (P : A → History → Type 0)
      (Q : B → History → Type 0)
      → Ends P r w.history
      → ((a : A) → Keeps env dir B (P a) (f a) Q)
      → Ends Q (continue r f env w).0 (continue r f env w).1.history
  continue-Ends (ok a) w f P Q e k = (k a).ends w e
  continue-Ends err w f P Q e k = tt
  continue-Ends stuck w f P Q e k = tt

  pub >>=-Keeps :
      (P : History → Type 0) (R : A → History → Type 0) (Q : B → History → Type 0) (m : Action A)
      (f : A → Action B)
      → Keeps env dir A P m R
      → ((a : A) → Keeps env dir B (R a) (f a) Q)
      → Keeps env dir B P (m >>= f) Q
  unfolding ◌>>=◌
  >>=-Keeps P R Q m f hm hf = record {
    since = λ w p.
        continue-Since w.history (m env w).0 (m env w).1 f R Q (hm.since w p) (hm.ends w p) hf;
    ends = λ w p. continue-Ends (m env w).0 (m env w).1 f R Q (hm.ends w p) hf;
  }

module _ (env : Env) (dir : Bytes) where
  pub ask-Keeps :
      (P : History → Type 0) (Q : Bool → History → Type 0) (c : Call)
      → ((h : History) → P h → MayDo env dir (call c) h)
      → ((h : History) → P h → Q (env.answer h c) (call c ∷ h))
      → Keeps env dir Bool P (ask c) Q
  unfolding ask
  ask-Keeps P Q c may q = record {
    since = λ w p. and_then nothing (may w.history p);
    ends = λ w p. q w.history p;
  }

  pub fail_if-Keeps :
      (P : Bool → History → Type 0) (bad : Bool)
      → Keeps env dir (Unit {0}) (P bad) (fail_if bad) (λ u. P false)
  unfolding fail_if pure fail
  fail_if-Keeps P true = record { since = λ w p. nothing; ends = λ w p. tt }
  fail_if-Keeps P false = record { since = λ w p. nothing; ends = λ w p. p }

  pub log_error-Keeps : (P : History → Type 0) → Keeps env dir (Unit {0}) P log_error Nothing
  unfolding log_error record_event
  log_error-Keeps P = record { since = λ w p. and_then nothing tt; ends = λ w p. tt }
