-- ===== src/Proto/Selector.antt =====
-- proto/selector.c: the negotiation of the protocol version.
pub mod Agreement
pub mod Session
use clip_share_desktop.Prelude.{
  ℕ, ◌%◌, Bool, not, ◌||◌, Option, none, some, [], ◌∷◌, ltb, ◌==◌, if◌then◌else◌,
}
use clip_share_desktop.World.{Env}
use clip_share_desktop.Action.{
  Action, pure, fail, asks, ◌>>=◌, ◌>>◌, attempt, or_reject, reject, log_error, write_sock,
}
use clip_share_desktop.Proto.Status.{
  MethodArgs, no_args, protocol_supported, protocol_obsolete, protocol_unknown,
  resp_communication_failure, resp_proto_version_mismatch, resp_server_error,
}
use clip_share_desktop.Proto.Versions.{version_1, version_2, version_3, version_4}
use clip_share_desktop.Methods.Frame.{read_byte}

abbrev or_no_args : Option MethodArgs → MethodArgs
or_no_args none = no_args
or_no_args (some args) = args

pub proto_handler : ℕ → ℕ → Option MethodArgs → Action (Unit {0})
unfolding ◌>>=◌ log_error reject version_1 version_2 version_3 version_4
proto_handler version method args =
    let args' = or_no_args args in
    if version == 1
    then version_1 method args'
    else if version == 2
    then version_2 method args'
    else if version == 3
    then version_3 method args'
    else if version == 4
    then version_4 method args'
    else (do log_error; reject resp_proto_version_mismatch)

-- The server offers a version: it is taken if it is in the range, and answered with 0 otherwise. The
-- result is the version that was agreed on.
pub negotiate_unknown_proto : ℕ → ℕ → Action ℕ
unfolding ◌>>=◌ or_reject read_byte attempt write_sock log_error reject pure
negotiate_unknown_proto min_version max_version = do
  version ← or_reject resp_communication_failure read_byte
  (if ltb version min_version || ltb max_version version
      then (do attempt (write_sock (0 ∷ [])); log_error; reject resp_proto_version_mismatch)
      else (do or_reject resp_communication_failure (write_sock (version ∷ [])); pure version))

-- The switch of `handle_proto` on the server's answer to the version.
pub version_answer : ℕ → ℕ → ℕ → ℕ → Action ℕ
unfolding ◌>>=◌ log_error reject negotiate_unknown_proto pure
version_answer status version min_version max_version =
    if status == protocol_supported
    then pure version
    else if status == protocol_obsolete
    then (do log_error; reject resp_proto_version_mismatch)
    else if status == protocol_unknown
    then negotiate_unknown_proto min_version max_version
    else (do log_error; reject resp_server_error)

-- `handle_proto` up to the call of `proto_handler`.
pub negotiate : Action ℕ
unfolding ◌>>=◌ asks or_reject read_byte write_sock version_answer
negotiate = do
  config ← asks (λ env h. env.config)
  let version = config.max_proto_version % 256
  or_reject resp_communication_failure (write_sock (version ∷ []))
  status ← or_reject resp_communication_failure read_byte
  version_answer status version config.min_proto_version config.max_proto_version

unfoldable pub handle_proto : ℕ → Option MethodArgs → Action (Unit {0})
unfolding ◌>>=◌ negotiate proto_handler
handle_proto method args = do version ← negotiate; proto_handler version method args
