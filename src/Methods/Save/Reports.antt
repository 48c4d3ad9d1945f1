-- ===== src/Methods/Save/Reports.antt =====
-- Reading from the socket and reporting to the callback keep to what receiving files may do.
use clip_share_desktop.Prelude.{
  ℕ, Bool, true, false, Option, none, some, [], ◌∷◌, Bytes, ℤ, if◌then◌else◌,
}
use clip_share_desktop.World.{notified, History, Env, World}
use clip_share_desktop.Net.{size_of_bytes}
use clip_share_desktop.Action.{
  Action, Result, ok, err, stuck, attempt, or_reject, reject, reject_if, notify_with, read_sock,
  read_size,
}
use clip_share_desktop.Methods.Save.Allowed.{
  nothing, and_then, Ends, After, After-Keeps, Nothing, Since-trans, Keeps, pure-Keeps, fail-Keeps,
  >>=-Keeps,
}

-- A result whose world has the same history.
kept : {A : Type 0} (P : History → Type 0) (r : Result A) (h : History) → P h → Ends (λ a. P) r h
kept P (ok a) h p = p
kept P err h p = tt
kept P stuck h p = tt

module _ (env : Env) (dir : Bytes) (P : History → Type 0) where
  pub read_sock-Keeps : (n : ℕ) → Keeps env dir Bytes P (read_sock n) (λ bs. P)
  unfolding read_sock
  read_sock-Keeps n = record {
    since = λ w p. nothing;
    ends = λ w p. kept P (read_sock n env w).0 w.history p;
  }

  pub read_size-Keeps : Keeps env dir ℤ P read_size (λ z. P)
  unfolding read_size
  read_size-Keeps =
      >>=-Keeps env dir Bytes ℤ P (λ bs. P) (λ z. P) (read_sock 8) _ (read_sock-Keeps 8)
        (λ buf. pure-Keeps env dir ℤ (λ z. P) (size_of_bytes buf))

  tried :
      {A : Type 0} (r : Result A) (w : World)
      → P w.history
      → After env dir w.history {A = Option A}
          (λ o. P)
          (elim r [ ok a ↦ (ok (some a), w) | err ↦ (ok none, w) | stuck ↦ (stuck, w) ])
  tried (ok a) w p = (nothing, p)
  tried err w p = (nothing, p)
  tried stuck w p = (nothing, tt)

  pub attempt-Keeps : (n : ℕ) → Keeps env dir (Option Bytes) P (attempt (read_sock n)) (λ o. P)
  unfolding attempt read_sock
  attempt-Keeps n =
      After-Keeps env dir (Option Bytes) P (attempt (read_sock n)) (λ o. P)
        (λ w p. tried (read_sock n env w).0 (read_sock n env w).1 p)

  noted :
      (test : Bool) (status : ℕ) (msg : Bytes) (w : World)
      → After env dir w.history {A = Unit {0}} Nothing (
          if test
          then (ok tt, record w { history = notified status msg ∷ w.history })
          else (ok tt, w))
  noted true status msg w = (and_then nothing tt, tt)
  noted false status msg w = (nothing, tt)

  pub notify_with-Keeps :
      (status : ℕ) (msg : Bytes) → Keeps env dir (Unit {0}) P (notify_with status msg) Nothing
  unfolding notify_with
  notify_with-Keeps status msg =
      After-Keeps env dir (Unit {0}) P (notify_with status msg) Nothing
        (λ w p. noted env.has_callback status msg w)

module _ (env : Env) (dir : Bytes) (A : Type 0) where
  pub reject-Keeps :
      (P : History → Type 0) (Q : A → History → Type 0) (status : ℕ)
      → Keeps env dir A P (reject status) Q
  unfolding reject
  reject-Keeps P Q status =
      >>=-Keeps env dir (Unit {0}) A P Nothing Q (notify_with status []) _
        (notify_with-Keeps env dir P status []) (λ u. fail-Keeps env dir A _ Q)

  settled :
      (P : History → Type 0) (Q : A → History → Type 0) (h : History) (status : ℕ) (r : Result A)
      (w : World)
      → After env dir h Q (r, w)
      → After env dir h Q
          (elim r [ ok a ↦ (ok a, w) | err ↦ reject status env w | stuck ↦ (stuck, w) ])
  settled P Q h status (ok a) w s = s
  settled P Q h status err w s =
      let k : Keeps env dir A (λ h. Unit) (reject status) Q = reject-Keeps (λ h. Unit) Q status in
      (Since-trans env dir s.0 (k.since w tt), k.ends w tt)
  settled P Q h status stuck w s = s

  pub or_reject-Keeps :
      (P : History → Type 0) (Q : A → History → Type 0) (status : ℕ) (m : Action A)
      → Keeps env dir A P m Q
      → Keeps env dir A P (or_reject status m) Q
  unfolding or_reject
  or_reject-Keeps P Q status m k =
      After-Keeps env dir A P (or_reject status m) Q
        (λ w p. settled P Q w.history status (m env w).0 (m env w).1 (k.since w p, k.ends w p))

module _ (env : Env) (dir : Bytes) where
  pub reject_if-Keeps :
      (P : History → Type 0) (bad : Bool) (status : ℕ)
      → Keeps env dir (Unit {0}) P (reject_if bad status) (λ u. P)
  unfolding reject_if
  reject_if-Keeps P true status = reject-Keeps env dir (Unit {0}) P (λ u. P) status
  reject_if-Keeps P false status = pure-Keeps env dir (Unit {0}) (λ u. P) tt
