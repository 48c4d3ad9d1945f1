-- ===== src/Client/Web/Texts.antt =====
-- A text from a server's clipboard to this machine's, by a request of the web page.
use clip_share_desktop.Prelude.{
  ℕ, ◌^◌, ◌≤◌, ◌<◌, ◌≡◌, ◌≢◌, refl, sym, ap, subst, ◌∙◌, true, false, Option, none, some, [], ◌∷◌,
  ◌++◌, Bytes, length, codes, pos, arith,
}
use clip_share_desktop.Config.Defaults.{HasProtoRange}
use clip_share_desktop.Config.Servers.{ipv4_aton}
use clip_share_desktop.Net.{plain_sock, size_bytes}
use clip_share_desktop.World.{Env, World, History, opened, sent}
use clip_share_desktop.Action.{Action, ok, pure, ◌>>=◌, ◌>>◌}
use clip_share_desktop.Action.Healthy.{on, Stream, AllocWorks}
use clip_share_desktop.Text.{c_str, convert_to_lf}
use clip_share_desktop.Proto.Status.{MethodArgs, method_get_text}
use clip_share_desktop.Proto.Selector.{handle_proto}
use clip_share_desktop.Proto.Selector.Session.{text_version, handle_proto-get_text}
use clip_share_desktop.Methods.TextData.Receiving.{received}
use clip_share_desktop.Connect.{server_port}
use clip_share_desktop.Connect.Reached.{IsReachable, connect_server-reached}
use clip_share_desktop.Clipboard.Pending.{pending, text, set_pending_clipboard_item}
use clip_share_desktop.Clipboard.Pending.Given.{given}
use clip_share_desktop.Client.Host.{Host}
use clip_share_desktop.Client.Web.{called_back, with_callback_fn, request_connected, handle_method}
use clip_share_desktop.Client.Web.Requests.{answer_to_connection, handled}
use clip_share_desktop.Client.Web.Responses.{responses}

-- The request is answered with a text, and a text is to be set.
record Got (h : History) (answer pasted : Bytes) : Type 0 where
  queued : called_back h ≡ record { called = true; queued = (200, answer) ∷ [] }
  waiting : pending h ≡ text pasted

received-Got :
    (env : Env) (version : ℕ) (s converted : Bytes) (h : History)
    → called_back h ≡ record { called = false; queued = [] }
    → Got (received (with_callback_fn env) version s converted h) s converted
received-Got env version s converted h q = record { queued = ground (arith); waiting = refl }

request_connected-Got :
    (method : ℕ) (args : Option MethodArgs) (env : Env) (w : World) (answer pasted : Bytes)
    → (handle_proto method args (with_callback_fn env) w).0 ≡ ok tt
    → Got (handle_proto method args (with_callback_fn env) w).1.history answer pasted
    → ((request_connected method args (with_callback_fn env) w).0 ≡ ok tt)
      × Got (request_connected method args (with_callback_fn env) w).1.history answer pasted
unfolding request_connected
request_connected-Got method args env w answer pasted r g = (
  ground (arith),
  record { queued = ground (arith, g.queued); waiting = ground (arith, g.waiting) },
)

-- The way of the request to the method.
routed :
    (host : Host) (server : Bytes) (env : Env) (w : World)
    → length server < 16
    → answer_to_connection host
        (codes "/get/text")
        (codes "POST")
        ((codes "server", some server) ∷ [])
        env
        w
      ≡ (handled (handle_method host server method_get_text none) >>= λ r.
            set_pending_clipboard_item >> pure r)
          env w
unfolding answer_to_connection
routed host server env w l = ground (arith)

-- The method is allowed whatever is copied, and the server is reached.
reached :
    (host : Host) (server : Bytes) (addr : ℕ) (env : Env) (w : World)
    → ipv4_aton host.sources server ≡ some addr
    → IsReachable (with_callback_fn env) (host.dial w.history (server_port env.config) addr)
    → handle_method host server method_get_text none env w
      ≡ request_connected method_get_text none (with_callback_fn env) (
          on plain_sock
            (host.dial w.history (server_port env.config) addr).inbound
            (opened ∷ w.history))
unfolding handle_method
reached host server addr env w a r =
    ground (arith, connect_server-reached host.dial addr (with_callback_fn env) w r)

-- Behind the method the clipboard is set.
pasted_last :
    (m : Action (Unit {0})) (env : Env) (w : World) (answer pasted : Bytes)
    → (m env w).0 ≡ ok tt
    → Got (m env w).1.history answer pasted
    → let e = (handled m >>= λ r. set_pending_clipboard_item >> pure r) env w in
      (e.0 ≡ ok none)
      × (responses none e.1.history ≡ (200, answer) ∷ [])
      × (given e.1.history ≡ some ([], pasted))
unfolding set_pending_clipboard_item ◌>>=◌ pure
pasted_last m env w answer pasted r g = (
  ground (arith, r, g.waiting),
  ground (arith, r, g.waiting, g.queued),
  ground (arith, r, g.waiting),
)

module _ (host : Host) (server : Bytes) (addr : ℕ) (env : Env) (w : World)
    (known : ipv4_aton host.sources server ≡ some addr)
    (up : IsReachable (with_callback_fn env) (host.dial w.history (server_port env.config) addr))
    (range : HasProtoRange env.config) (works : AllocWorks env) where
  got :
      (s more : Bytes)
      → called_back w.history ≡ record { called = false; queued = [] }
      → Stream plain_sock
          (host.dial w.history (server_port env.config) addr).inbound
          (1 ∷ 1 ∷ (size_bytes (pos (length s)) ++ (s ++ more)))
      → 0 < length s
      → length s ≤ env.config.max_text_length
      → env.config.max_text_length < 2 ^ 32
      → env.u8_valid s ≡ true
      → convert_to_lf (c_str s) ≢ []
      → ((handle_method host server method_get_text none env w).0 ≡ ok tt)
        × Got
            (handle_method host server method_get_text none env w).1.history
            s
            (convert_to_lf (c_str s))
  got s more q st p l lim u c =
      let conv = convert_to_lf (c_str s) in
      let v = env.config.max_proto_version in
      let h : History = sent (method_get_text ∷ []) ∷ sent (v ∷ []) ∷ opened ∷ w.history in
      let w1 =
        on plain_sock (host.dial w.history (server_port env.config) addr).inbound
          (opened ∷ w.history) in
      let (r, e) =
        handle_proto-get_text (with_callback_fn env) range works plain_sock (λ e. cc) none s more
          (host.dial w.history (server_port env.config) addr).inbound (opened ∷ w.history) st p l
          lim u c in
      let g = received-Got env (text_version v) s conv h q in
      let (a, b) =
        request_connected-Got method_get_text none env w1 s conv r
          (subst (λ h. Got h s conv) (sym e) g) in
      let run = reached host server addr env w known up in
      (ap (λ x. x.0) run ∙ a, subst (λ x. Got x.1.history s conv) (sym run) b)

  -- A request of the web page for the text of a server by its address, which is valid and leads to a
  -- server without TLS that accepts the version and the method and delivers a valid text within the
  -- limit, in segments of any kind, comes to its end: it is answered with status 200 and this text,
  -- and xclip is given the text with LF line ends.
  pub answer_to_connection-get_text :
      (s more : Bytes)
      → length server < 16
      → called_back w.history ≡ record { called = false; queued = [] }
      → Stream plain_sock
          (host.dial w.history (server_port env.config) addr).inbound
          (1 ∷ 1 ∷ (size_bytes (pos (length s)) ++ (s ++ more)))
      → 0 < length s
      → length s ≤ env.config.max_text_length
      → env.config.max_text_length < 2 ^ 32
      → env.u8_valid s ≡ true
      → convert_to_lf (c_str s) ≢ []
      → let e =
          answer_to_connection host
            (codes "/get/text")
            (codes "POST")
            ((codes "server", some server) ∷ [])
            env
            w in
        (e.0 ≡ ok none)
        × (responses none e.1.history ≡ (200, s) ∷ [])
        × (given e.1.history ≡ some ([], convert_to_lf (c_str s)))
  answer_to_connection-get_text s more k q st p l lim u c =
      let (r, g) = got s more q st p l lim u c in
      subst
        (λ e.
          (e.0 ≡ ok none)
          × (responses none e.1.history ≡ (200, s) ∷ [])
          × (given e.1.history ≡ some ([], convert_to_lf (c_str s))))
        (sym (routed host server env w k))
        (pasted_last (handle_method host server method_get_text none) env w s
          (convert_to_lf (c_str s)) r g)
