-- ===== src/Action/Steps.antt =====
-- What `m >>= f` does where `m` succeeds, and the history behind a call of the callback.
use clip_share_desktop.Prelude.{ℕ, ◌≡◌, if◌then◌else◌, List, ◌∷◌}
use clip_share_desktop.World.{Env, World, History, notified}
use clip_share_desktop.Action.{Action, ok, ◌>>=◌}

module _ {A : Type 0} (env : Env) (w : World) where
  module _ {B : Type 0} (m : Action A) (f : A → Action B) where
    pub >>=-ok : {a : A} {w' : World} → m env w ≡ (ok a, w') → (m >>= f) env w ≡ f a env w'
    unfolding ◌>>=◌
    >>=-ok e = rw e

-- The history after a call of the callback, if there is one.
abbrev pub noted : Env → ℕ → List ℕ → History → History
noted env status msg h = if env.has_callback then notified status msg ∷ h else h
