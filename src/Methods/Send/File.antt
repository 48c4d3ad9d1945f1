-- ===== src/Methods/Send/File.antt =====
-- `_transfer_regular_file`: a whole file on the wire.
use clip_share_desktop.Prelude.{
  ◌≤◌, ◌≡◌, refl, ◌∙◌, Bool, true, false, ◌||◌, ◌&&◌, List, ◌∷◌, ◌++◌, Bytes, length, pos, arith,
  append_assoc,
}
use clip_share_desktop.Net.{SockType, Recv, size_bytes}
use clip_share_desktop.Net.Write.{write_bytes-idle}
use clip_share_desktop.World.{Env, History, call, open_read, sent}
use clip_share_desktop.Action.Healthy.{on}
use clip_share_desktop.Methods.Save.{above}
use clip_share_desktop.Methods.Send.{transfer_regular_file, send_contents}
use clip_share_desktop.Methods.Send.Contents.{IsFile, SentAll, send_contents-SentAll}

-- A file as it is on the wire: its name behind the length of it, then its bytes behind their number.
abbrev pub file_bytes : Bytes → Bytes → Bytes
file_bytes name content =
    size_bytes (pos (length name)) ++ (name ++ (size_bytes (pos (length content)) ++ content))

abbrev opened : Bytes → Bytes → Bytes → History → History
opened path name content h =
    sent (size_bytes (pos (length content)))
    ∷ sent name
    ∷ sent (size_bytes (pos (length name)))
    ∷ call (open_read path)
    ∷ h

module _ (env : Env) (path name content : Bytes) (auto : Bool) (kind : SockType) (s : List Recv)
    (h : History) where
  header :
      env.answer h (open_read path) ≡ true
      → env.file_size (call (open_read path) ∷ h) path ≡ pos (length content)
      → (above (pos (length content)) env.config.max_file_size
          || auto && above (pos (length content)) env.config.auto_send_max_file_size)
        ≡ false
      → transfer_regular_file path name auto env (on kind s h)
        ≡ send_contents env.patience path
            (length content)
            env
            (on kind s (opened path name content h))
  unfolding transfer_regular_file
  header a z l = ground (
    arith,
    write_bytes-idle kind (size_bytes (pos (length name))),
    write_bytes-idle kind name,
    write_bytes-idle kind (size_bytes (pos (length content))),
  )

  -- A file that can be opened, is within the limits and keeps its size is sent whole: its name and its
  -- content, each behind its length, and nothing else, within as many rounds as it has bytes.
  pub transfer_regular_file-SentAll :
      IsFile env path content
      → env.answer h (open_read path) ≡ true
      → env.file_size (call (open_read path) ∷ h) path ≡ pos (length content)
      → (above (pos (length content)) env.config.max_file_size
          || auto && above (pos (length content)) env.config.auto_send_max_file_size)
        ≡ false
      → length content ≤ env.patience
      → SentAll kind s h
          (file_bytes name content)
          (transfer_regular_file path name auto env (on kind s h))
  transfer_regular_file-SentAll file a z l p =
      let r : SentAll kind s (opened path name content h) content _ =
        send_contents-SentAll env path content file kind s env.patience (opened path name content h)
          refl p in
      record { history = r.history; runs = header a z l ∙ r.runs; all = r.all ∙ simp append_assoc }
