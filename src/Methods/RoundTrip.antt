-- ===== src/Methods/RoundTrip.antt =====
-- A file that one client's `_transfer_regular_file` puts on the wire and another's `save_file` takes
-- from it.
pub mod Arriving
pub mod Several
use clip_share_desktop.Prelude.{
  ℕ, ◌≤◌, ◌<◌, ◌^◌, ◌≡◌, sym, ap, ◌∙◌, true, false, pos, some, List, [], ◌∷◌, ◌++◌, Bytes, length,
  ◌||◌, append-nil,
}
use mathlib.Core.Path.{subst}
use clip_share_desktop.Net.{SockType, Recv, size_bytes}
use clip_share_desktop.World.{Env, call, create, exists, open_read}
use clip_share_desktop.World.Trace.{wire, written}
use clip_share_desktop.Action.{ok}
use clip_share_desktop.Action.Healthy.{on, Stream}
use clip_share_desktop.Files.Name.{valid_characters, received_path}
use clip_share_desktop.Methods.Save.{above, save_file}
use clip_share_desktop.Methods.Save.Delivered.{WriteWorks, Wrote}
use clip_share_desktop.Methods.Save.File.{save_file-Wrote}
use clip_share_desktop.Methods.Send.{transfer_regular_file}
use clip_share_desktop.Methods.Send.Contents.{IsFile, SentAll}
use clip_share_desktop.Methods.Send.File.{file_bytes, transfer_regular_file-SentAll}

-- The file at the sender.
pub record Offered (here : Env) (path content : Bytes) : Type 0 where
  pub file : IsFile here path content
  pub opens : here.answer [] (open_read path) ≡ true
  pub size : here.file_size (call (open_read path) ∷ []) path ≡ pos (length content)
  pub allowed : above (pos (length content)) here.config.max_file_size ≡ false
  pub patience : length content ≤ here.patience

-- The place for it at the receiver.
pub record Accepted (there : Env) (dirname name path content : Bytes) : Type 0 where
  pub some_name : 0 < length name
  pub short : length name ≤ 2048
  pub valid : there.u8_valid name ≡ true
  pub characters : valid_characters name ≡ true
  pub placed : received_path 1 dirname name ≡ some path
  pub absent : there.answer [] (exists path) ≡ false
  pub creates : there.answer (call (exists path) ∷ []) (create path) ≡ true
  pub writes : WriteWorks there
  pub allowed : above (pos (length content)) there.config.max_file_size ≡ false

-- A file that the one client can open and that is within its limit is sent, and its bytes arrive at
-- the other one in segments of any kind. If the name is valid there and leads to a path where no file
-- is yet, one can be created and the disk takes it, and the file is within that client's limit, then
-- `save_file` of version 1 succeeds and has written the same bytes to the path.
pub file_round_trip :
    (here there : Env) (kind kind' : SockType) (source dirname name content : Bytes) (c : ℕ)
    (p : Bytes) (acks s : List Recv)
    → Offered here source content
    → Accepted there dirname name (c ∷ p) content
    → length content < 2 ^ 63
    → Stream kind' s
        (wire (transfer_regular_file source name false here (on kind acks [])).1.history)
    → ((save_file 1 dirname there (on kind' s [])).0 ≡ ok tt)
      × (written (c ∷ p) (save_file 1 dirname there (on kind' s [])).1.history ≡ content)
file_round_trip here there kind kind' source dirname name content c p acks s o a l st =
    let t : SentAll kind acks [] (file_bytes name content)
        (transfer_regular_file source name false here (on kind acks [])) =
      transfer_regular_file-SentAll here source name content false kind acks [] o.file o.opens
        o.size (ap (λ b. b || false) o.allowed) o.patience in
    let arrives : Stream kind' s (
        size_bytes (pos (length name))
        ++ (name ++ (size_bytes (pos (length content)) ++ (content ++ [])))) =
      subst (Stream kind' s)
        (ap (λ r. wire r.1.history) t.runs
          ∙ t.all
          ∙ ap
              (λ x.
                size_bytes (pos (length name))
                ++ (name ++ (size_bytes (pos (length content)) ++ x)))
              (sym (append-nil content)))
        st in
    let w : Wrote (c ∷ p) kind' [] content [] (save_file 1 dirname there (on kind' s [])) =
      save_file-Wrote there kind' dirname name c p content [] s [] a.writes arrives a.some_name
        a.short a.valid a.characters a.placed a.absent a.creates l a.allowed in
    (ap (λ r. r.0) w.runs, ap (λ r. written (c ∷ p) r.1.history) w.runs ∙ w.file)
