-- ===== src/Tests/Folders.antt =====
-- Several files and directories: a folder with a file and an empty directory.
use clip_share_desktop.Prelude.{ℕ, ◌≡◌, refl, some, false, List, [], ◌∷◌, ◌++◌, arith, codes, pos}
use clip_share_desktop.Net.{plain_sock, ssl_sock, Recv, chunk, size_bytes}
use clip_share_desktop.World.Trace.{wire}
use clip_share_desktop.Action.{ok}
use clip_share_desktop.Action.Healthy.{on}
use clip_share_desktop.Methods.Save.Allowed.{Since}
use clip_share_desktop.Methods.Receive.{get_files_dirs}
use clip_share_desktop.Methods.Receive.Safety.{dir_name, get_files_dirs-Since}
use clip_share_desktop.Methods.Send.{send_list}
use clip_share_desktop.Methods.Send.Several.{
  Item, a_file, a_dir, item_paths, all_bytes, Ready, send_list-sent,
}
use clip_share_desktop.World.{Env, World}
use clip_share_desktop.Methods.Send.File.{file_bytes}
use clip_share_desktop.Methods.RoundTrip.Several.{Copy}
use clip_share_desktop.Tests.Setup.{machine, content}
use clip_share_desktop.Tests.Transfers.{within_or, named}
use clip_share_desktop.Tests.Texts.{ack, acknowledged}

-- One file is announced and arrives.
abbrev announced : List Recv
announced = chunk (0 ∷ 0 ∷ 0 ∷ 0 ∷ 0 ∷ 0 ∷ 0 ∷ 1 ∷ []) ∷ named

get_files_dirs-Since_example :
    (id : ℕ) × Since machine
      (dir_name id)
      []
      (get_files_dirs 2 machine (on plain_sock announced [])).1.history
get_files_dirs-Since_example = get_files_dirs-Since machine 2 (on plain_sock announced [])

abbrev folder : List Item
folder = a_file (codes "/d/f") content ∷ a_dir (codes "/d/e/") (codes "e") ∷ []

f_Ready : Ready machine false (codes "/d/f") content
f_Ready = record {
  file = λ h n. refl;
  opens = λ h. refl;
  size = λ h. refl;
  allowed = within_or;
  patience = omega arith;
}

send_list-sent_example :
    ((send_list 4 (item_paths folder) 3 false machine (on ssl_sock ack [])).0 ≡ ok tt)
    × (wire (send_list 4 (item_paths folder) 3 false machine (on ssl_sock ack [])).1.history
        ≡ size_bytes (pos 2) ++ all_bytes 3 folder)
send_list-sent_example =
    send_list-sent machine 4 false 3 folder ssl_sock ack [] (omega arith) (omega arith)
      (((omega arith, omega arith), refl, f_Ready), (((omega arith, omega arith), refl), tt))
      (omega arith) (omega arith) refl (λ e. cc) acknowledged

-- Two files, one of them in a folder, that another client puts into `./7`.
abbrev copies : List Copy
copies =
    record { source = codes "/d/x/f"; path = codes "./7/x/f"; content = content }
    ∷ record { source = codes "/d/g"; path = codes "./7/g"; content = content }
    ∷ []

abbrev receiver : Env
receiver = record machine { entries = λ h path. some (codes "x" ∷ codes "g" ∷ []) }

-- What the sender puts on the wire, in two segments.
abbrev carried : List Recv
carried =
    chunk (size_bytes (pos 2) ++ file_bytes (codes "x/f") content)
    ∷ chunk (file_bytes (codes "g") content)
    ∷ []
