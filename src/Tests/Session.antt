-- ===== src/Tests/Session.antt =====
-- A session with a server that accepts the newest version and sends a text.
use clip_share_desktop.Prelude.{
  ◌≡◌, ◌≢◌, refl, List, [], ◌∷◌, ◌++◌, ◌==◌, if◌then◌else◌, pos, arith, none,
}
use clip_share_desktop.Config.Defaults.{
  initial_config, apply_default_conf-HasProtoRange, HasProtoRange,
}
use clip_share_desktop.Net.{plain_sock, ssl_sock, Recv, chunk, size_bytes}
use clip_share_desktop.World.{sent}
use clip_share_desktop.Action.{ok, err}
use clip_share_desktop.Action.Steps.{noted}
use clip_share_desktop.Action.Healthy.{on, Stream}
use clip_share_desktop.Text.{c_str, convert_to_lf}
use clip_share_desktop.Proto.Status.{method_get_text}
use clip_share_desktop.Proto.Versions.{method_request}
use clip_share_desktop.Proto.Selector.{handle_proto}
use clip_share_desktop.Proto.Selector.Session.{
  refusal, method_request-answers, text_version, handle_proto-get_text,
}
use clip_share_desktop.Methods.TextData.Receiving.{received}
use clip_share_desktop.Tests.Setup.{machine, text, text_limit}

abbrev no_data : List Recv
no_data = chunk (2 ∷ []) ∷ []

method_request-answers_example :
    ((method_request 5 machine (on plain_sock no_data [])).0 ≡ (if 2 == 1 then ok tt else err))
    × ((method_request 5 machine (on plain_sock no_data [])).1.history ≡ (
        if 2 == 1 then sent (5 ∷ []) ∷ [] else noted machine (refusal 2) [] (sent (5 ∷ []) ∷ [])))
method_request-answers_example =
    method_request-answers machine plain_sock [] 5 2 [] no_data
      (record { delivers = tt; bytes = refl })

abbrev session : List Recv
session = chunk (1 ∷ 1 ∷ 0 ∷ 0 ∷ 0 ∷ 0 ∷ []) ∷ chunk (0 ∷ 0 ∷ 0 ∷ 3 ∷ 104 ∷ 105 ∷ 10 ∷ []) ∷ []

session-Stream : Stream ssl_sock session (1 ∷ 1 ∷ (size_bytes (pos 3) ++ (text ++ [])))
unfolding size_bytes
session-Stream = record { delivers = tt; bytes = refl }

in_range : HasProtoRange machine.config
in_range = apply_default_conf-HasProtoRange initial_config

stays : convert_to_lf (c_str text) ≢ []
unfolding convert_to_lf c_str
stays e = cc

handle_proto-get_text_example :
    ((handle_proto method_get_text none machine (on ssl_sock session [])).0 ≡ ok tt)
    × ((handle_proto method_get_text none machine (on ssl_sock session [])).1.history
        ≡ received machine
            (text_version machine.config.max_proto_version)
            text
            (convert_to_lf (c_str text))
            (sent (method_get_text ∷ []) ∷ sent (machine.config.max_proto_version ∷ []) ∷ []))
handle_proto-get_text_example =
    handle_proto-get_text machine in_range (λ h n. refl) ssl_sock (λ e. cc) none text [] session []
      session-Stream (omega arith) (omega (arith, text_limit)) (omega (arith, text_limit)) refl
      stays
