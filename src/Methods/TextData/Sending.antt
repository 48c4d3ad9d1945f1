-- ===== src/Methods/TextData/Sending.antt =====
-- `_send_text_common` to a peer that takes what it is sent.
use clip_share_desktop.Prelude.{
  ℕ, ◌≤◌, ◌<◌, ◌≡◌, ◌≢◌, some, List, [], ◌∷◌, Bytes, length, ltb, pos, arith, Option-cases, inl,
  inr,
}
use clip_share_desktop.Net.{SockType, null_sock, Recv, size_bytes, read_bytes, done}
use clip_share_desktop.Net.Write.{write_bytes-idle}
use clip_share_desktop.World.{Env, World, History, closed, sent}
use clip_share_desktop.Action.{ok, err}
use clip_share_desktop.Action.Steps.{noted}
use clip_share_desktop.Action.Healthy.{on}
use clip_share_desktop.Text.{c_str, convert_to_lf}
use clip_share_desktop.Proto.Status.{resp_ok, resp_no_data}
use clip_share_desktop.Methods.TextData.{send_text_common}

-- The history of a successful run.
abbrev pub delivered : Env → ℕ → Bytes → History → History
delivered env version text h =
    noted env resp_ok text
      (closed (ltb version 4) ∷ sent text ∷ sent (size_bytes (pos (length text))) ∷ h)

-- What a peer must do at the end: from version 4 on it acknowledges with the byte 1.
abbrev pub Acknowledges : ℕ → SockType → List Recv → Type 0
Acknowledges version kind s =
    4 ≤ version → read_bytes kind 1 s ≡ (done (1 ∷ []), (read_bytes kind 1 s).1)

-- A copied text within the limit is sent with LF line ends, up to a NUL, behind its length; it is
-- reported, and the socket is closed, up to version 3 after a wait for the peer, and from version 4 on
-- after the peer's acknowledgement.
pub send_text-delivered :
    (env : Env) (version : ℕ) (kind : SockType) (text : Bytes) (s : List Recv) (h : History)
    → kind ≢ null_sock
    → Acknowledges version kind s
    → env.clipboard_text h ≡ some text
    → text ≢ []
    → length text ≤ env.config.max_text_length
    → convert_to_lf (c_str text) ≢ []
    → ((send_text_common version env (on kind s h)).0 ≡ ok tt)
      × ((send_text_common version env (on kind s h)).1.history
          ≡ delivered env version (convert_to_lf (c_str text)) h)
unfolding send_text_common
send_text-delivered env version kind text s h o ack e n lim c = ground (
  arith,
  write_bytes-idle kind (size_bytes (pos (length (convert_to_lf (c_str text))))),
  write_bytes-idle kind (convert_to_lf (c_str text)),
)

-- Without a text in the clipboard, or with one over the limit, nothing is sent and the callback is
-- told that there is no data.
pub send_text-no_data :
    (env : Env) (version : ℕ) (w : World)
    → ((text : Bytes)
        → env.clipboard_text w.history ≡ some text
        → env.config.max_text_length < length text)
    → send_text_common version env w
      ≡ (err, record w { history = noted env resp_no_data [] w.history })
unfolding send_text_common
send_text-no_data env version w big = elim (Option-cases (env.clipboard_text w.history)) [
  | inl e ↦ ground arith
  | inr (text, e) ↦ ground (arith, big text)
]
