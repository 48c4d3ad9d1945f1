-- ===== src/Client/Host.antt =====
-- What the clients share.
use clip_share_desktop.Prelude.{
  ℕ, ◌≡◌, sym, ap, ◌∙◌, false, ◌&&◌, Option, none, some, Bytes, List, [], ◌∷◌, append-nil, ltb,
  arith, if◌then◌else◌,
}
use clip_share_desktop.Config.Numbers.{Scanned, scan, strtoull_bits, ends}
use clip_share_desktop.Config.Numbers.Ranges.{numeral, IsDigits, number_of, scan-numeral, ones}
use clip_share_desktop.World.{History}
use clip_share_desktop.Action.{Action, asks}
use clip_share_desktop.Config.Servers.{Sources}
use clip_share_desktop.Connect.{Network}
use clip_share_desktop.Clipboard.Copied.{CopiedType, get_copied_type}

-- What the clients need besides the environment of `handle_proto`: `inet_aton`, the network, the targets
-- that xclip returns, the scan, and the page that the build makes a string of.
pub record Host : Type 0 where
  pub sources : Sources
  pub dial : Network
  pub targets : History → Option Bytes
  pub scanned : History → Option (List Bytes)
  pub page_html : Bytes

unfoldable pub copied_type : Host → Action CopiedType
unfolding asks get_copied_type
copied_type host = asks (λ env h. get_copied_type (host.targets h))

-- `strtoull` of a display: a number below 2 ^ 16, behind which the string ends.
abbrev pub display_number : Scanned → Option ℕ
display_number n =
    if ends n.end && ltb (strtoull_bits n) 65536 then some (strtoull_bits n) else none

unfoldable pub display_of : Bytes → Option ℕ
display_of value = display_number (scan value)

number_below :
    (n : ℕ)
    → display_number (record { minus = false; size = n; end = [] })
      ≡ (if ltb n 65536 then some n else none)
number_below n = ground arith

pub display_of-numeral :
    (d : ℕ) (ds : List ℕ)
    → IsDigits (d ∷ ds)
    → display_of (numeral (d ∷ ds))
      ≡ (if ltb (number_of 0 (d ∷ ds)) 65536 then some (number_of 0 (d ∷ ds)) else none)
unfolding display_of
display_of-numeral d ds h =
    ap (λ s. display_number (scan s)) (sym (append-nil (numeral (d ∷ ds))))
    ∙ ap display_number (scan-numeral d ds ones h)
    ∙ number_below (number_of 0 (d ∷ ds))
