-- ===== src/Tests/Texts.antt =====
-- Texts and URLs.
use clip_share_desktop.Prelude.{
  ◌<◌, ◌≡◌, ◌≢◌, refl, List, [], ◌∷◌, ◌++◌, Bytes, length, arith, codes, pos, some, none, sym, ap,
  ◌∙◌,
}
use clip_share_desktop.Net.{plain_sock, ssl_sock, Recv, chunk, read_bytes, size_bytes}
use clip_share_desktop.World.{Env}
use clip_share_desktop.World.Trace.{wire, pasted}
use clip_share_desktop.Action.{ok}
use clip_share_desktop.Action.Healthy.{on, Stream}
use clip_share_desktop.Text.{c_str, convert_to_lf}
use clip_share_desktop.Clipboard.Url.{decoded, file_scheme, url_encode, url_decode}
use clip_share_desktop.Clipboard.Url.RoundTrip.{url_decode-url_encode}
use clip_share_desktop.Methods.TextData.{send_text_common, get_text_common}
use clip_share_desktop.Methods.TextData.Sending.{delivered, Acknowledges, send_text-delivered}
use clip_share_desktop.Methods.TextData.Receiving.{received, get_text-delivered}
use clip_share_desktop.Methods.TextData.RoundTrip.{text_round_trip}
use clip_share_desktop.Tests.Setup.{machine, text, text_limit}

url_decode-url_encode_example :
    url_decode (file_scheme ++ (url_encode (codes "/a b") ++ 0 ∷ 7 ∷ [])) ≡ decoded (codes "/a b")
url_decode-url_encode_example =
    url_decode-url_encode (codes "/a b") (7 ∷ []) (λ e. cc)
      (
        ((λ e. cc), omega arith),
        (((λ e. cc), omega arith), (((λ e. cc), omega arith), (((λ e. cc), omega arith), tt))),
      )

abbrev arriving : List Recv
arriving =
    chunk (0 ∷ 0 ∷ 0 ∷ []) ∷ chunk (0 ∷ 0 ∷ 0 ∷ 0 ∷ 3 ∷ 104 ∷ []) ∷ chunk (105 ∷ 10 ∷ []) ∷ []

arriving-Stream : Stream plain_sock arriving (size_bytes (pos 3) ++ (text ++ []))
unfolding size_bytes
arriving-Stream = record { delivers = tt; bytes = refl }

stays : convert_to_lf (c_str text) ≡ text
unfolding convert_to_lf c_str
stays = refl

stays_nonempty : convert_to_lf (c_str text) ≢ []
stays_nonempty e = cc (stays, e)

get_text-delivered_example :
    ((get_text_common 4 machine (on plain_sock arriving [])).0 ≡ ok tt)
    × ((get_text_common 4 machine (on plain_sock arriving [])).1.history
        ≡ received machine 4 text (convert_to_lf (c_str text)) [])
get_text-delivered_example =
    get_text-delivered machine (λ h n. refl) 4 plain_sock (λ e. cc) text [] arriving []
      arriving-Stream (omega arith) (omega (arith, text_limit)) (omega (arith, text_limit)) refl
      stays_nonempty

abbrev pub ack : List Recv
ack = chunk (1 ∷ []) ∷ []

pub acknowledged : Acknowledges 4 ssl_sock ack
unfolding read_bytes
acknowledged = λ h. refl

from_crlf : convert_to_lf (c_str (codes "hi\r\n")) ≢ []
unfolding convert_to_lf c_str
from_crlf e = cc

send_text-delivered_example :
    ((send_text_common 4 machine (on ssl_sock ack [])).0 ≡ ok tt)
    × ((send_text_common 4 machine (on ssl_sock ack [])).1.history
        ≡ delivered machine 4 (convert_to_lf (c_str (codes "hi\r\n"))) [])
send_text-delivered_example =
    send_text-delivered machine 4 ssl_sock (codes "hi\r\n") ack [] (λ e. cc) acknowledged refl
      (λ e. cc) (omega (arith, text_limit)) from_crlf

abbrev quiet : Env
quiet = record machine { clipboard_text = λ h. none }

no_text : (t : Bytes) → quiet.clipboard_text [] ≡ some t → quiet.config.max_text_length < length t
no_text t e = absurd (cc)

abbrev on_the_way : List Recv
on_the_way = chunk (0 ∷ 0 ∷ 0 ∷ 0 ∷ 0 ∷ 0 ∷ []) ∷ chunk (0 ∷ 3 ∷ 104 ∷ 105 ∷ 10 ∷ []) ∷ []

sent_history :
    (send_text_common 4 machine (on ssl_sock ack [])).1.history
    ≡ delivered machine 4 (convert_to_lf (c_str (codes "hi\r\n"))) []
sent_history =
    (send_text-delivered machine 4 ssl_sock (codes "hi\r\n") ack [] (λ e. cc) acknowledged refl
      (λ e. cc) (omega (arith, text_limit)) from_crlf).1

sent_bytes :
    wire (delivered machine 4 (convert_to_lf (c_str (codes "hi\r\n"))) [])
    ≡ 0 ∷ 0 ∷ 0 ∷ 0 ∷ 0 ∷ 0 ∷ 0 ∷ 3 ∷ 104 ∷ 105 ∷ 10 ∷ []
unfolding convert_to_lf c_str size_bytes
sent_bytes = refl

as_it_was_sent :
    Stream plain_sock on_the_way (wire (send_text_common 4 machine (on ssl_sock ack [])).1.history)
as_it_was_sent = record { delivers = tt; bytes = sym (ap wire sent_history ∙ sent_bytes) }

text_round_trip_example :
    pasted (get_text_common 4 machine (on plain_sock on_the_way [])).1.history ≡ some text
text_round_trip_example =
    text_round_trip machine machine 4 ssl_sock plain_sock text ack on_the_way
      ((λ e. cc), ((λ e. cc), ((λ e. cc), tt))) ((λ e. cc), ((λ e. cc), ((λ e. cc), tt))) (λ e. cc)
      (λ e. cc) (λ e. cc) acknowledged refl (omega (arith, text_limit)) (omega (arith, text_limit))
      (omega (arith, text_limit)) refl (λ h n. refl) as_it_was_sent
