-- ===== src/Proto/Selector/Session.antt =====
-- A whole session of `handle_proto`: the version, the method request and the method.
use clip_share_desktop.Prelude.{
  ℕ, zero, suc, ◌≤◌, ◌<◌, ◌^◌, ◌≡◌, ◌≢◌, refl, ap, ◌∙◌, true, Option, List, [], ◌∷◌, ◌++◌, Bytes,
  length, ◌==◌, ◌||◌, if◌then◌else◌, pos, arith,
}
use clip_share_desktop.Config.Defaults.{HasProtoRange}
use clip_share_desktop.Net.{SockType, null_sock, Recv, read_bytes, done, size_bytes}
use clip_share_desktop.Net.Write.{write_bytes-idle}
use clip_share_desktop.World.{Env, World, History, sent}
use clip_share_desktop.Action.{ok, err, ◌>>=◌, ◌>>◌}
use clip_share_desktop.Action.Steps.{noted, >>=-ok}
use clip_share_desktop.Action.Healthy.{on, Stream, AllocWorks, read_fst}
use clip_share_desktop.Text.{c_str, convert_to_lf}
use clip_share_desktop.Proto.Status.{
  MethodArgs, method_get_text, resp_no_data, resp_method_not_allowed, resp_server_error,
}
use clip_share_desktop.Proto.Versions.{method_request}
use clip_share_desktop.Proto.Selector.{proto_handler, negotiate, handle_proto}
use clip_share_desktop.Proto.Selector.Agreement.{supported, negotiate-one}
use clip_share_desktop.Methods.TextData.{get_text_common}
use clip_share_desktop.Methods.TextData.Receiving.{received, get_text-delivered}

-- What the callback is told of a refusal.
abbrev pub refusal : ℕ → ℕ
refusal b =
    if b == 2
    then resp_no_data
    else if b == 3 || b == 4
    then resp_method_not_allowed
    else resp_server_error

module _ (env : Env) (kind : SockType) (h : History) (m : ℕ) where
  requested :
      (b : ℕ) (s s1 : List Recv)
      → read_bytes kind 1 s ≡ (done (b ∷ []), s1)
      → method_request m env (on kind s h) ≡ (
        (if b == 1 then ok tt else err),
        on kind s1
            (if b == 1 then sent (m ∷ []) ∷ h else noted env (refusal b) [] (sent (m ∷ []) ∷ h)),
      )
  unfolding method_request
  requested b s s1 r = ground (arith, write_bytes-idle kind (m ∷ []))

  -- For every answer of the server to a method code, `method_request` has sent the code and succeeds
  -- on 1, and otherwise fails with the status that the answer stands for.
  pub method_request-answers :
      (b : ℕ) (more : Bytes) (s : List Recv)
      → Stream kind s (b ∷ more)
      → ((method_request m env (on kind s h)).0 ≡ (if b == 1 then ok tt else err))
        × ((method_request m env (on kind s h)).1.history
            ≡ (if b == 1 then sent (m ∷ []) ∷ h else noted env (refusal b) [] (sent (m ∷ []) ∷ h)))
  method_request-answers b more s st =
      let (r, st') = read_fst kind 1 (b ∷ []) more s refl st in
      let e = requested b s (read_bytes kind 1 s).1 r in (ap (λ p. p.0) e, ap (λ p. p.1.history) e)

-- The version of `get_text_v1` or `get_text_v4` that a protocol version runs.
abbrev pub text_version : ℕ → ℕ
text_version v = if v == 4 then 4 else 1

runs_get_text :
    (v : ℕ) (args : Option MethodArgs)
    → 1 ≤ v
    → v ≤ 4
    → proto_handler v method_get_text args
      ≡ (method_request method_get_text >> get_text_common (text_version v))
unfolding proto_handler
runs_get_text zero args a b = absurd (omega arith)
runs_get_text (suc zero) args a b = refl
runs_get_text (suc (suc zero)) args a b = refl
runs_get_text (suc (suc (suc zero))) args a b = refl
runs_get_text (suc (suc (suc (suc zero)))) args a b = refl
runs_get_text (suc (suc (suc (suc (suc v))))) args a b = absurd (omega arith)

handled :
    (env : Env) (w : World) (args : Option MethodArgs)
    → handle_proto method_get_text args env w
      ≡ (negotiate >>= λ v. proto_handler v method_get_text args) env w
unfolding handle_proto
handled env w args = refl

module _ (env : Env) (range : HasProtoRange env.config) (works : AllocWorks env) (kind : SockType)
    (open' : kind ≢ null_sock) where
  agreed_on :
      (s s1 : List Recv) (h : History) (args : Option MethodArgs)
      → read_bytes kind 1 s ≡ (done (1 ∷ []), s1)
      → handle_proto method_get_text args env (on kind s h)
        ≡ proto_handler env.config.max_proto_version method_get_text args env
            (on kind s1 (sent (env.config.max_proto_version ∷ []) ∷ h))
  agreed_on s s1 h args r =
      handled env (on kind s h) args
      ∙ >>=-ok env (on kind s h) negotiate (λ v. proto_handler v method_get_text args)
          (negotiate-one env range kind h supported 1 s s1 refl tt r)

  got_text :
      (s1 s2 : List Recv) (h : History) (args : Option MethodArgs)
      → read_bytes kind 1 s1 ≡ (done (1 ∷ []), s2)
      → proto_handler env.config.max_proto_version method_get_text args env (on kind s1 h)
        ≡ get_text_common
            (text_version env.config.max_proto_version)
            env
            (on kind s2 (sent (method_get_text ∷ []) ∷ h))
  got_text s1 s2 h args r =
      ap (λ m. m env (on kind s1 h))
        (runs_get_text env.config.max_proto_version args (omega (arith, range.low, range.ordered))
          range.high)
      ∙ >>=-ok env (on kind s1 h) (method_request method_get_text)
          (λ u. get_text_common (text_version env.config.max_proto_version))
          (requested env kind h method_get_text 1 s1 s2 r)

  -- A whole session in which the server accepts the version and the method and delivers a valid text
  -- within the limit, in segments of any kind: the client has sent its newest version and the method
  -- code, and goes on as `_get_text_common` does, up to the text in the clipboard.
  pub handle_proto-get_text :
      (args : Option MethodArgs) (text more : Bytes) (s : List Recv) (h : History)
      → Stream kind s (1 ∷ 1 ∷ (size_bytes (pos (length text)) ++ (text ++ more)))
      → 0 < length text
      → length text ≤ env.config.max_text_length
      → env.config.max_text_length < 2 ^ 32
      → env.u8_valid text ≡ true
      → convert_to_lf (c_str text) ≢ []
      → ((handle_proto method_get_text args env (on kind s h)).0 ≡ ok tt)
        × ((handle_proto method_get_text args env (on kind s h)).1.history
            ≡ received env
                (text_version env.config.max_proto_version)
                text
                (convert_to_lf (c_str text))
                (sent (method_get_text ∷ []) ∷ sent (env.config.max_proto_version ∷ []) ∷ h))
  handle_proto-get_text args text more s h st p l lim u c =
      let rest = size_bytes (pos (length text)) ++ (text ++ more) in
      let s1 = (read_bytes kind 1 s).1 in
      let s2 = (read_bytes kind 1 s1).1 in
      let h2 : History =
        sent (method_get_text ∷ []) ∷ sent (env.config.max_proto_version ∷ []) ∷ h in
      let (r, st1) = read_fst kind 1 (1 ∷ []) (1 ∷ rest) s refl st in
      let (r', st2) = read_fst kind 1 (1 ∷ []) rest s1 refl st1 in
      let e =
        agreed_on s s1 h args r
        ∙ got_text s1 s2 (sent (env.config.max_proto_version ∷ []) ∷ h) args r' in
      let d =
        get_text-delivered env works (text_version env.config.max_proto_version) kind open' text
          more s2 h2 st2 p l lim u c in
      (ap (λ x. x.0) e ∙ d.0, ap (λ x. x.1.history) e ∙ d.1)
