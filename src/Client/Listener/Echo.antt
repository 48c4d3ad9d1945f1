-- ===== src/Client/Listener/Echo.antt =====
-- The mark by which the listener knows the client's own changes of the clipboard.
use clip_share_desktop.Prelude.{
  ◌≡◌, ◌≢◌, refl, Bool, true, false, [], ◌∷◌, Bytes, str_eq, arith, if◌then◌else◌,
}
use clip_share_desktop.World.{exists, touch, remove, call, Env, World, History}
use clip_share_desktop.Action.{ok}
use clip_share_desktop.Clipboard.Copied.{files_atom}
use clip_share_desktop.Clipboard.Pending.{
  Pending, nothing, text, files, pending, temp_file, put_pending, set_item,
  set_pending_clipboard_item,
}
use clip_share_desktop.Client.Host.{Host}
use clip_share_desktop.Client.Listener.{clipboard_changed}

-- Is the temporary file there, after what was done to it?
abbrev pub has_mark : History → Bool
has_mark [] = false
has_mark (call (touch path) ∷ h) = if str_eq path temp_file then true else has_mark h
has_mark (call (remove path) ∷ h) = if str_eq path temp_file then false else has_mark h
has_mark (e ∷ h) = has_mark h

-- A file system that answers for the temporary file as it was left.
abbrev pub IsHonest : Env → Type 0
IsHonest env = (h : History) → env.answer h (exists temp_file) ≡ has_mark h

put_pending-marks :
    (atom s : Bytes) (env : Env) (w : World) → has_mark (put_pending atom s env w).1.history ≡ true
unfolding put_pending str_eq
put_pending-marks atom s env w = ground arith

set_item-marks :
    (item : Pending) (env : Env) (w : World)
    → item ≢ nothing
    → has_mark (set_item item env w).1.history ≡ true
unfolding set_item
set_item-marks nothing env w n = absurd (n refl)
set_item-marks (text s) env w n = put_pending-marks [] s env w
set_item-marks (files s) env w n = put_pending-marks files_atom s env w

set_pending-marks :
    (env : Env) (w : World)
    → pending w.history ≢ nothing
    → has_mark (set_pending_clipboard_item env w).1.history ≡ true
unfolding set_pending_clipboard_item
set_pending-marks env w n = set_item-marks (pending w.history) env w n

marked :
    (host : Host) (env : Env) (w : World)
    → IsHonest env
    → has_mark w.history ≡ true
    → clipboard_changed host env w ≡ (
      ok tt,
      record w { history = call (remove temp_file) ∷ call (exists temp_file) ∷ w.history },
    )
unfolding clipboard_changed
marked host env w honest m = ground (arith, honest w.history)

-- When the client has set the clipboard to what was pending, a text or files, the listener answers the
-- next change with nothing but the removal of the mark: nothing is sent, the socket is as before,
-- and the change after that is not taken for the client's own.
pub clipboard_changed-own :
    (host : Host) (env : Env) (w : World)
    → IsHonest env
    → pending w.history ≢ nothing
    → let w1 = (set_pending_clipboard_item env w).1 in
      let h = call (remove temp_file) ∷ call (exists temp_file) ∷ w1.history in
      (clipboard_changed host env w1 ≡ (ok tt, record w1 { history = h })) × (has_mark h ≡ false)
unfolding str_eq
clipboard_changed-own host env w honest n =
    (marked host env (set_pending_clipboard_item env w).1 honest (set_pending-marks env w n), refl)
