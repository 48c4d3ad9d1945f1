-- ===== src/Methods/TextData/RoundTrip.antt =====
-- A text that one client's `_send_text_common` puts on the wire and another's `_get_text_common`
-- takes from it.
use clip_share_desktop.Prelude.{
  ℕ, ◌^◌, ◌≤◌, ◌<◌, ◌≡◌, ◌≢◌, refl, sym, ap, ◌∙◌, true, List, [], ◌∷◌, ◌++◌, Bytes, length, pos,
  arith, append-nil, some,
}
use mathlib.Core.Path.{subst}
use clip_share_desktop.Net.{SockType, null_sock, Recv, size_bytes}
use clip_share_desktop.World.{Env}
use clip_share_desktop.World.Trace.{wire, pasted}
use clip_share_desktop.Action.Healthy.{on, Stream, AllocWorks}
use clip_share_desktop.Text.{c_str, convert_to_lf}
use clip_share_desktop.Text.Eol.{
  NoCr, NoNul, c_str-NoNul, convert_to_lf-NoCr, convert_to_lf-to_crlf, to_crlf,
}
use clip_share_desktop.Methods.TextData.{send_text_common, get_text_common}
use clip_share_desktop.Methods.TextData.Sending.{Acknowledges, send_text-delivered, delivered}
use clip_share_desktop.Methods.TextData.Receiving.{get_text-delivered}

wire-delivered :
    (env : Env) (version : ℕ) (text : Bytes)
    → wire (delivered env version text []) ≡ size_bytes (pos (length text)) ++ text
wire-delivered env version text = ground arith

NoNul-to_crlf : (s : Bytes) → NoNul s → NoNul (to_crlf s)
NoNul-to_crlf [] n = tt
NoNul-to_crlf (c ∷ s) n = ground (arith, NoNul-to_crlf s n.1)

to_crlf-nonempty : (s : Bytes) → s ≢ [] → to_crlf s ≢ []
to_crlf-nonempty [] e h = e refl
to_crlf-nonempty (c ∷ s) e h = ground arith

positive : (s : Bytes) → s ≢ [] → 0 < length s
positive [] e = absurd (e refl)
positive (c ∷ s) e = omega arith

-- `here` and `there` are two clients of one version, over a connection in which `there` acknowledges
-- and in which the bytes that left arrive, in segments of any kind.
module _ (here there : Env) (version : ℕ) (kind kind' : SockType) (text : Bytes)
    (acks s : List Recv) (n : NoNul text) (c : NoCr text) (e : text ≢ []) where
  as_sent : convert_to_lf (c_str (to_crlf text)) ≡ text
  as_sent =
      ap convert_to_lf (c_str-NoNul (to_crlf text) (NoNul-to_crlf text n))
      ∙ convert_to_lf-to_crlf text c

  as_pasted : convert_to_lf (c_str text) ≡ text
  as_pasted = ap convert_to_lf (c_str-NoNul text n) ∙ convert_to_lf-NoCr text c

  on_the_wire :
      kind ≢ null_sock
      → Acknowledges version kind acks
      → here.clipboard_text [] ≡ some (to_crlf text)
      → length (to_crlf text) ≤ here.config.max_text_length
      → wire (send_text_common version here (on kind acks [])).1.history
        ≡ size_bytes (pos (length text)) ++ text
  on_the_wire o ack copied l =
      ap wire
        (send_text-delivered here version kind (to_crlf text) acks [] o ack copied
          (to_crlf-nonempty text e) l (λ z. e (sym as_sent ∙ z))).1
      ∙ wire-delivered here version (convert_to_lf (c_str (to_crlf text)))
      ∙ ap (λ t. size_bytes (pos (length t)) ++ t) as_sent

  -- A text with CRLF line ends that is copied here is pasted there with LF line ends, if it is not
  -- empty, valid, within both limits (the limit there below 2 ^ 32), and has neither a NUL nor another
  -- CR, and memory is not short there.
  pub text_round_trip :
      kind ≢ null_sock
      → kind' ≢ null_sock
      → Acknowledges version kind acks
      → here.clipboard_text [] ≡ some (to_crlf text)
      → length (to_crlf text) ≤ here.config.max_text_length
      → length text ≤ there.config.max_text_length
      → there.config.max_text_length < 2 ^ 32
      → there.u8_valid text ≡ true
      → AllocWorks there
      → Stream kind' s (wire (send_text_common version here (on kind acks [])).1.history)
      → pasted (get_text_common version there (on kind' s [])).1.history ≡ some text
  text_round_trip o o' ack copied l l' lim u works st =
      let arrives : Stream kind' s (size_bytes (pos (length text)) ++ (text ++ [])) =
        subst (Stream kind' s)
          (on_the_wire o ack copied l
            ∙ ap (λ t. size_bytes (pos (length text)) ++ t) (sym (append-nil text)))
          st in
      ap pasted
        (get_text-delivered there works version kind' o' text [] s [] arrives (positive text e) l'
          lim u (λ z. e (sym as_pasted ∙ z))).1
      ∙ ap some as_pasted
