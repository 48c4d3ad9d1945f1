-- ===== src/Methods/Receive/Ending.antt =====
-- The end of `_get_files_dirs`, from the directory's name on, keeps to what receiving files may do.
use clip_share_desktop.Prelude.{
  ℕ, refl, Bool, true, false, not, Option, none, some, List, [], ◌∷◌, Bytes, length, leb,
  if◌then◌else◌,
}
use clip_share_desktop.Config.{is_set}
use clip_share_desktop.Net.{SockType, null_sock, plain_sock, ssl_sock}
use clip_share_desktop.World.{History, Env, World}
use clip_share_desktop.Action.{
  Result, ok, err, stuck, pure, asks, or_notify, fail_if, notify, write_sock, close_if_open,
  close_socket, close_socket_no_wait, close_socket_await, ◌>>=◌, ◌>>◌,
}
use clip_share_desktop.Text.{path_sep}
use clip_share_desktop.Proto.Status.{resp_ok, resp_communication_failure, resp_local_error}
use clip_share_desktop.Files.Mkdirs.{mkdirs}
use clip_share_desktop.Clipboard.CutFiles.{init_list, set_clipboard_cut_files}
use clip_share_desktop.Methods.Frame.{send_ack}
use clip_share_desktop.Methods.Receive.{rename_all, save_files, remove_if, take_over}
use clip_share_desktop.Methods.Save.Allowed.{
  Since, nothing, and_then, Since-trans, Any, Nothing, After, After-Keeps, Keeps, fail-Keeps,
  if-Keeps,
}
use clip_share_desktop.Methods.Save.Reports.{notify_with-Keeps}
use clip_share_desktop.Methods.Save.Directories.{mkdirs-Keeps}
use clip_share_desktop.Methods.Receive.Moving.{
  then-Keeps, asking-Keeps, given-Keeps, failing-Keeps, save_files-Keeps, init_list-Keeps,
  cut_files-Keeps, rename_all-Keeps, remove_if-Keeps,
}

module _ (env : Env) (dir : Bytes) where
  note-Keeps : (status : ℕ) → Keeps env dir (Unit {0}) Any (notify status) Nothing
  note-Keeps status = notify_with-Keeps env dir Any status []

  closed-After :
      (kind : SockType) (await : Bool) (w : World)
      → Since env dir w.history (close_if_open kind await w).history
  closed-After null_sock await w = nothing
  closed-After plain_sock await w = and_then nothing tt
  closed-After ssl_sock await w = and_then nothing tt

  close-Keeps : (await : Bool) → Keeps env dir (Unit {0}) Any (close_socket_await await) Nothing
  unfolding close_socket_await
  close-Keeps await = record { since = λ w p. closed-After w.socket await w; ends = λ w p. tt }

  ack_result :
      (status : ℕ) (h : History) (r : Result (Unit {0})) (w : World)
      → Since env dir h w.history
      → After env dir h {A = Unit {0}} Nothing
          (elim r [ ok a ↦ (ok tt, w) | err ↦ notify status env w | stuck ↦ (stuck, w) ])
  ack_result status h (ok a) w s = (s, tt)
  ack_result status h err w s =
      let k : Keeps env dir (Unit {0}) Any (notify status) Nothing = note-Keeps status in
      (Since-trans env dir s (k.since w tt), k.ends w tt)
  ack_result status h stuck w s = (s, tt)

  ack-Keeps : (status : ℕ) → Keeps env dir (Unit {0}) Any (or_notify status send_ack) Nothing
  unfolding or_notify send_ack write_sock
  ack-Keeps status = After-Keeps env dir (Unit {0}) Any (or_notify status send_ack) Nothing (λ w p.
      ack_result status w.history (send_ack env w).0 (send_ack env w).1 (and_then nothing tt))

  closing-Keeps :
      (version : ℕ) (status : Bool)
      → Keeps env dir
          (Unit {0})
          Any
          (if leb 4 version
            then (if status
                then (do or_notify resp_communication_failure send_ack; close_socket)
                else close_socket_no_wait)
            else close_socket_no_wait)
          Nothing
  closing-Keeps version status =
      if-Keeps env dir (Unit {0}) Any Nothing (leb 4 version) _ close_socket_no_wait
        (if-Keeps env dir (Unit {0}) Any Nothing status _ close_socket_no_wait
          (then-Keeps env dir (Unit {0}) (Unit {0}) (or_notify resp_communication_failure send_ack)
            (λ u. close_socket) (ack-Keeps resp_communication_failure) (λ u. close-Keeps true))
          (close-Keeps false))
        (close-Keeps false)

  cutting-Keeps :
      (status cut : Bool) (dest_files : List Bytes)
      → Keeps env dir
          (Unit {0})
          Any
          (do fail_if (not status); if cut then set_clipboard_cut_files dest_files else pure tt)
          Nothing
  cutting-Keeps status cut dest_files =
      then-Keeps env dir (Unit {0}) (Unit {0}) (fail_if (not status)) _
        (failing-Keeps env dir (not status))
        (λ u.
          if-Keeps env dir (Unit {0}) Any Nothing cut (set_clipboard_cut_files dest_files) (pure tt)
            (cut_files-Keeps env dir dest_files) (given-Keeps env dir (Unit {0}) tt))

  ended-Keeps :
      (version : ℕ) (dest_files : List Bytes) (status : Bool)
      → Keeps env dir
          (Unit {0})
          Any
          (do
            (if status then pure tt else notify resp_local_error)
            (if leb 4 version
                then (if status
                    then (do or_notify resp_communication_failure send_ack; close_socket)
                    else close_socket_no_wait)
                else close_socket_no_wait)
            notify resp_ok
            cut ← asks (λ env h. is_set env.config.cut_received_files)
            fail_if (not status)
            if cut then set_clipboard_cut_files dest_files else pure tt)
          Nothing
  ended-Keeps version dest_files status =
      then-Keeps env dir (Unit {0}) (Unit {0}) (if status then pure tt else notify resp_local_error)
        _
        (if-Keeps env dir (Unit {0}) Any Nothing status (pure tt) (notify resp_local_error)
          (given-Keeps env dir (Unit {0}) tt) (note-Keeps resp_local_error))
        (λ u. then-Keeps env dir (Unit {0}) (Unit {0}) _ _ (closing-Keeps version status) (λ u.
          then-Keeps env dir (Unit {0}) (Unit {0}) (notify resp_ok) _ (note-Keeps resp_ok) (λ u.
            then-Keeps env dir Bool (Unit {0})
              (asks (λ env h. is_set env.config.cut_received_files)) _
              (asking-Keeps env dir Bool (λ env h. is_set env.config.cut_received_files))
              (λ cut. cutting-Keeps status cut dest_files))))

  take_over-Keeps :
      (version : ℕ) (files : Option (List Bytes))
      → Keeps env dir (Unit {0}) Any (take_over version dir files) Nothing
  unfolding take_over
  take_over-Keeps version none = fail-Keeps env dir (Unit {0}) Any Nothing
  take_over-Keeps version (some files) =
      then-Keeps env dir (Unit {0}) (Unit {0}) (init_list (length files)) _
        (init_list-Keeps env dir (length files))
        (λ u.
          then-Keeps env dir (List Bytes × Bool) (Unit {0}) (rename_all files dir) _
            (rename_all-Keeps env dir files)
            (λ r.
              then-Keeps env dir Bool (Unit {0}) (remove_if r.1 dir) _ (remove_if-Keeps env dir r.1)
                (λ status. ended-Keeps version r.0 status)))

  -- From the directory's name on.
  pub in_dir-Keeps :
      (cnt version : ℕ)
      → Keeps env dir
          (Unit {0})
          Any
          (do
            mkdirs dir
            save_files cnt version dir
            (if leb 4 version then pure tt else close_socket_no_wait)
            files ← asks (λ env h. env.entries h dir)
            take_over version dir files)
          Nothing
  in_dir-Keeps cnt version =
      then-Keeps env dir (Unit {0}) (Unit {0}) (mkdirs dir) _
        (mkdirs-Keeps env dir dir (path_sep ∷ [], ([], refl, tt)))
        (λ u.
          then-Keeps env dir (Unit {0}) (Unit {0}) (save_files cnt version dir) _
            (save_files-Keeps env dir cnt version)
            (λ u.
              then-Keeps env dir (Unit {0}) (Unit {0})
                (if leb 4 version then pure tt else close_socket_no_wait) _
                (if-Keeps env dir (Unit {0}) Any Nothing (leb 4 version) (pure tt)
                  close_socket_no_wait (given-Keeps env dir (Unit {0}) tt) (close-Keeps false))
                (λ u.
                  then-Keeps env dir (Option (List Bytes)) (Unit {0})
                    (asks (λ env h. env.entries h dir)) _
                    (asking-Keeps env dir (Option (List Bytes)) (λ env h. env.entries h dir))
                    (take_over-Keeps version))))
