-- ===== src/Methods/TextData/Receiving.antt =====
-- `_get_text_common` of proto/methods.c on a connection that delivers a text.
use clip_share_desktop.Prelude.{
  ℕ, ◌+◌, ◌^◌, ◌≤◌, ◌<◌, ◌≡◌, ◌≢◌, refl, true, false, List, [], ◌∷◌, ◌++◌, Bytes, length, leb,
  if◌then◌else◌, pos, arith,
}
use clip_share_desktop.Net.{SockType, null_sock, Recv, size_bytes}
use clip_share_desktop.Net.Write.{write_bytes-idle}
use clip_share_desktop.World.{Env, History, alloc, call, closed, sent, pending_text}
use clip_share_desktop.Action.{ok}
use clip_share_desktop.Action.Steps.{noted}
use clip_share_desktop.Action.Healthy.{on, Stream, AllocWorks, Sized, sized}
use clip_share_desktop.Text.{c_str, convert_to_lf}
use clip_share_desktop.Proto.Status.{resp_ok}
use clip_share_desktop.Methods.TextData.{get_text_common}

-- The history of a successful run: the buffer, the end of the connection (from version 4 on behind an
-- acknowledgement), the callback, the clipboard.
abbrev pub received : Env → ℕ → Bytes → Bytes → History → History
received env version text converted h =
    pending_text converted
    ∷ call (alloc (length converted + 1))
    ∷ noted env resp_ok text (
        if leb 4 version
        then closed true ∷ sent (1 ∷ []) ∷ call (alloc (length text + 1)) ∷ h
        else closed false ∷ call (alloc (length text + 1)) ∷ h)

before_clipboard : Env → ℕ → Bytes → History → History
before_clipboard env version text h = noted env resp_ok text (
    if leb 4 version
    then closed true ∷ sent (1 ∷ []) ∷ call (alloc (length text + 1)) ∷ h
    else closed false ∷ call (alloc (length text + 1)) ∷ h)

module _ (env : Env) (works : AllocWorks env) (version : ℕ) (kind : SockType)
    (open' : kind ≢ null_sock) where
  get_text_run :
      (n : ℕ) (text : Bytes) (s : List Recv) (h : History)
      → Sized kind s (pos n) text
      → n ≡ length text
      → 0 < n
      → n ≤ env.config.max_text_length
      → env.u8_valid text ≡ true
      → convert_to_lf (c_str text) ≢ []
      → ((get_text_common version env (on kind s h)).0 ≡ ok tt)
        × ((get_text_common version env (on kind s h)).1.history
            ≡ received env version text (convert_to_lf (c_str text)) h)
  unfolding get_text_common before_clipboard
  get_text_run n text s h r len p q u c = ground (
    arith,
    works h (n + 1),
    works (before_clipboard env version text h) (length (convert_to_lf (c_str text)) + 1),
    write_bytes-idle kind (1 ∷ []),
  )

  -- On a connection that delivers the size and a valid text within the limit, cut into segments in
  -- any way, `_get_text_common` succeeds: it reports the text, closes the socket (from version 4 on
  -- it acknowledges first), and puts the text with LF line ends, up to a NUL, into the clipboard.
  pub get_text-delivered :
      (text more : Bytes) (s : List Recv) (h : History)
      → Stream kind s (size_bytes (pos (length text)) ++ (text ++ more))
      → 0 < length text
      → length text ≤ env.config.max_text_length
      → env.config.max_text_length < 2 ^ 32
      → env.u8_valid text ≡ true
      → convert_to_lf (c_str text) ≢ []
      → ((get_text_common version env (on kind s h)).0 ≡ ok tt)
        × ((get_text_common version env (on kind s h)).1.history
            ≡ received env version text (convert_to_lf (c_str text)) h)
  get_text-delivered text more s h st p q lim u c =
      get_text_run (length text) text s h
        (sized kind s (pos (length text)) text more (omega arith) st) refl p q u c
