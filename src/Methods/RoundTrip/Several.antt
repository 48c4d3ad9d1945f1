-- ===== src/Methods/RoundTrip/Several.antt =====
-- Several files from one client's `_send_files_common` to another's `_get_files_dirs`, from version 2 on.
use clip_share_desktop.Prelude.{ℕ, List, [], ◌∷◌, Bytes}
use clip_share_desktop.World.{World}
use clip_share_desktop.Methods.Save.Several.{Arrival}
use clip_share_desktop.Methods.Send.{sent_name}
use clip_share_desktop.Methods.Send.Several.{Item, a_file}

-- A file with its path at the sender, its path at the receiver, and its bytes.
pub record Copy : Type 0 where
  pub source : Bytes
  pub path : Bytes
  pub content : Bytes

abbrev pub items : List Copy → List Item
items [] = []
items (c ∷ copies) = a_file c.source c.content ∷ items copies

abbrev pub arrivals : ℕ → List Copy → List Arrival
arrivals path_len [] = []
arrivals path_len (c ∷ copies) =
    record { name = sent_name 2 c.source path_len; path = c.path; content = c.content }
    ∷ arrivals path_len copies
