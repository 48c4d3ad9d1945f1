-- ===== src/World/Trace.antt =====
-- What a history amounts to: for the peer, for the files and for the clipboard.
use clip_share_desktop.Prelude.{
  ℕ, ◌+◌, Option, none, some, [], ◌∷◌, ◌++◌, Bytes, length, ◌≡◌, str_eq, str_eq_refl, if◌then◌else◌,
  arith,
}
use clip_share_desktop.World.{History, call, open_read, write_file, fread, sent, pending_text}

-- What left by the socket, from the first byte to the last.
abbrev pub wire : History → Bytes
wire [] = []
wire (sent bs ∷ h) = wire h ++ bs
wire (e ∷ h) = wire h

-- The text that was last put into the clipboard.
abbrev pub pasted : History → Option Bytes
pasted [] = none
pasted (pending_text text ∷ h) = some text
pasted (e ∷ h) = pasted h

-- What was written to a file, from the first byte to the last.
abbrev pub written : Bytes → History → Bytes
written path [] = []
written path (call (write_file p bs) ∷ h) =
    if str_eq p path then written path h ++ bs else written path h
written path (e ∷ h) = written path h

pub written-write_file :
    (path bs : Bytes) (h : History)
    → written path (call (write_file path bs) ∷ h) ≡ written path h ++ bs
written-write_file path bs h = ground (arith, str_eq_refl path)

-- How far the file that was opened last has been read.
abbrev pub position : History → ℕ
position [] = 0
position (fread bs ∷ h) = position h + length bs
position (call (open_read path) ∷ h) = 0
position (e ∷ h) = position h
