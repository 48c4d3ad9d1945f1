-- ===== src/Client/Cli/Texts.antt =====
-- A text from a server's clipboard to this machine's, by the command line.
use clip_share_desktop.Prelude.{
  ℕ, ◌^◌, ◌≤◌, ◌<◌, ◌≡◌, ◌≢◌, refl, sym, ap, subst, ◌∙◌, true, Option, none, some, List, [], ◌∷◌,
  ◌++◌, Bytes, length, codes, pos, arith,
}
use clip_share_desktop.Config.Defaults.{HasProtoRange}
use clip_share_desktop.Config.Servers.{ipv4_aton}
use clip_share_desktop.Net.{plain_sock, size_bytes}
use clip_share_desktop.World.{Env, World, opened}
use clip_share_desktop.Action.{Action, ok, pure, ◌>>=◌}
use clip_share_desktop.Action.Healthy.{on, Stream, AllocWorks}
use clip_share_desktop.Text.{c_str, convert_to_lf}
use clip_share_desktop.Proto.Status.{MethodArgs, method_get_text}
use clip_share_desktop.Proto.Selector.{handle_proto}
use clip_share_desktop.Proto.Selector.Session.{handle_proto-get_text}
use clip_share_desktop.Connect.{server_port}
use clip_share_desktop.Connect.Reached.{IsReachable, connect_server-reached}
use clip_share_desktop.Clipboard.Pending.{pending, text, set_pending_clipboard_item}
use clip_share_desktop.Client.Host.{Host}
use clip_share_desktop.Client.Cli.{
  Ended, returned, cli_client, run_connected, without_callback_fn, run_parsed, parse_args, report,
  finish,
}
use clip_share_desktop.Clipboard.Pending.Given.{given}

run_connected-pending :
    (method : ℕ) (args : Option MethodArgs) (env : Env) (w : World) (pasted : Bytes)
    → (handle_proto method args (without_callback_fn env) w).0 ≡ ok tt
    → pending (handle_proto method args (without_callback_fn env) w).1.history ≡ text pasted
    → ((run_connected method args env w).0 ≡ ok true)
      × (pending (run_connected method args env w).1.history ≡ text pasted)
unfolding run_connected
run_connected-pending method args env w pasted r g = (ground arith, ground (arith, g))

-- The command that asks for the text.
get_text_command :
    (host : Host) (server : Bytes) (addr : ℕ) (env : Env) (w : World)
    → ipv4_aton host.sources server ≡ some addr
    → IsReachable env (host.dial w.history (server_port env.config) addr)
    → run_parsed host (parse_args host.sources (codes "g" ∷ server ∷ [])) env w
      ≡ (run_connected method_get_text none >>= λ done.
            pure (returned (report (codes "Get text") (done, []))))
          env
          (on plain_sock
            (host.dial w.history (server_port env.config) addr).inbound
            (opened ∷ w.history))
unfolding run_parsed parse_args ◌>>=◌ pure
get_text_command host server addr env w a r =
    ground (arith, connect_server-reached host.dial addr env w r)

-- The end of the command line client, behind the method.
pasted_last :
    (m : Action Ended) (env : Env) (w : World) (lines : List Bytes) (pasted : Bytes)
    → (m env w).0 ≡ ok (returned lines)
    → pending (m env w).1.history ≡ text pasted
    → (((m >>= finish) env w).0 ≡ ok (returned lines))
      × (given ((m >>= finish) env w).1.history ≡ some ([], pasted))
unfolding ◌>>=◌ set_pending_clipboard_item pure
pasted_last m env w lines pasted r g = (ground (arith, r, g), ground (arith, r, g))

done_lines :
    (env : Env) (w : World) (pasted : Bytes)
    → (run_connected method_get_text none env w).0 ≡ ok true
    → pending (run_connected method_get_text none env w).1.history ≡ text pasted
    → let e =
        (run_connected method_get_text none >>= λ done.
        pure (returned (report (codes "Get text") (done, []))))
          env w in
      (e.0 ≡ ok (returned (codes "Get text done" ∷ []))) × (pending e.1.history ≡ text pasted)
unfolding ◌>>=◌ pure
done_lines env w pasted r g = (ground (arith, r), ground (arith, r, g))

client :
    (host : Host) (argv : List Bytes) (env : Env) (w : World)
    → cli_client host argv env w ≡ (run_parsed host (parse_args host.sources argv) >>= finish) env w
unfolding cli_client
client host argv env w = refl

module _ (host : Host) (server : Bytes) (addr : ℕ) (env : Env) (w : World)
    (known : ipv4_aton host.sources server ≡ some addr)
    (up : IsReachable env (host.dial w.history (server_port env.config) addr))
    (range : HasProtoRange env.config) (works : AllocWorks env) where
  -- The command `g` with the address of a server, which is valid and leads to a server without TLS that
  -- accepts the version and the method and delivers a valid text within the limit, in segments of any
  -- kind, comes to its end: it says that it is done, and xclip is given the text with LF line ends.
  pub cli_client-get_text :
      (s more : Bytes)
      → Stream plain_sock
          (host.dial w.history (server_port env.config) addr).inbound
          (1 ∷ 1 ∷ (size_bytes (pos (length s)) ++ (s ++ more)))
      → 0 < length s
      → length s ≤ env.config.max_text_length
      → env.config.max_text_length < 2 ^ 32
      → env.u8_valid s ≡ true
      → convert_to_lf (c_str s) ≢ []
      → let e = cli_client host (codes "g" ∷ server ∷ []) env w in
        (e.0 ≡ ok (returned (codes "Get text done" ∷ [])))
        × (given e.1.history ≡ some ([], convert_to_lf (c_str s)))
  cli_client-get_text s more st p l lim u c =
      let conv = convert_to_lf (c_str s) in
      let w1 =
        on plain_sock (host.dial w.history (server_port env.config) addr).inbound
          (opened ∷ w.history) in
      let (r, e) =
        handle_proto-get_text (without_callback_fn env) range works plain_sock (λ e. cc) none s more
          (host.dial w.history (server_port env.config) addr).inbound (opened ∷ w.history) st p l
          lim u c in
      let (a, b) = run_connected-pending method_get_text none env w1 conv r (ap pending e) in
      let run = get_text_command host server addr env w known up in
      let (x, y) = done_lines env w1 conv a b in
      let argv : List Bytes = codes "g" ∷ server ∷ [] in
      subst
        (λ e.
          (e.0 ≡ ok (returned (codes "Get text done" ∷ [])))
          × (given e.1.history ≡ some ([], conv)))
        (sym (client host argv env w))
        (pasted_last (run_parsed host (parse_args host.sources argv)) env w
          (codes "Get text done" ∷ []) conv (ap (λ e. e.0) run ∙ x)
          (ap (λ e. pending e.1.history) run ∙ y))
