-- ===== src/Proto/Selector/Agreement.antt =====
-- The version that `handle_proto` goes on with, and what is said to get there.
use clip_share_desktop.Prelude.{
  ℕ, ◌%◌, ◌≡◌, ◌≢◌, refl, ap, ◌∙◌, Bool, ◌&&◌, Option, none, some, List, [], ◌∷◌, ◌++◌, Bytes, leb,
  if◌then◌else◌, arith,
}
use clip_share_desktop.Config.{Config}
use clip_share_desktop.Config.Defaults.{HasProtoRange}
use clip_share_desktop.Net.{SockType, Recv, read_bytes, done}
use clip_share_desktop.Net.Write.{write_bytes-idle}
use clip_share_desktop.World.{Env, History, sent, logged}
use clip_share_desktop.Action.{Result, ok, err}
use clip_share_desktop.Action.Steps.{noted}
use clip_share_desktop.Action.Healthy.{on, Stream, read_fst}
use clip_share_desktop.Proto.Status.{resp_proto_version_mismatch, resp_server_error}
use clip_share_desktop.Proto.Selector.{negotiate, negotiate_unknown_proto}

-- The answers of a server, as it sends them.
pub data Reply : Type 0 where
  supported obsolete : Reply
  offers : ℕ → Reply
  invalid : ℕ → Reply

abbrev pub reply_bytes : Reply → Bytes
reply_bytes supported = 1 ∷ []
reply_bytes obsolete = 2 ∷ []
reply_bytes (offers v) = 3 ∷ v ∷ []
reply_bytes (invalid b) = b ∷ []

abbrev pub IsReply : Reply → Type 0
IsReply (invalid b) = (b ≢ 1) × (b ≢ 2) × (b ≢ 3)
IsReply _ = Unit

abbrev in_range : Config → ℕ → Bool
in_range c v = leb c.min_proto_version v && leb v c.max_proto_version

-- The version that client and server agree on.
abbrev pub agreed : Config → Reply → Option ℕ
agreed c supported = some c.max_proto_version
agreed c (offers v) = if in_range c v then some v else none
agreed c _ = none

abbrev answered : Env → ℕ → History → History
answered env v h =
    if in_range env.config v
    then sent (v ∷ []) ∷ h
    else noted env resp_proto_version_mismatch [] (logged ∷ sent (0 ∷ []) ∷ h)

-- What the client says: its newest version, then the answer to an offer, and at a failure an entry in
-- the log and the callback's status.
abbrev pub said : Env → Reply → History → History
said env supported h = sent (env.config.max_proto_version ∷ []) ∷ h
said env obsolete h =
    noted env resp_proto_version_mismatch [] (logged ∷ sent (env.config.max_proto_version ∷ []) ∷ h)
said env (offers v) h = answered env v (sent (env.config.max_proto_version ∷ []) ∷ h)
said env (invalid b) h =
    noted env resp_server_error [] (logged ∷ sent (env.config.max_proto_version ∷ []) ∷ h)

abbrev pub result_of : Option ℕ → Result ℕ
result_of none = err
result_of (some v) = ok v

module _ (env : Env) (kind : SockType) (h : History) where
  offer_reached :
      (s s1 : List Recv)
      → env.config.max_proto_version % 256 ≡ env.config.max_proto_version
      → read_bytes kind 1 s ≡ (done (3 ∷ []), s1)
      → negotiate env (on kind s h)
        ≡ negotiate_unknown_proto env.config.min_proto_version env.config.max_proto_version env
            (on kind s1 (sent (env.config.max_proto_version ∷ []) ∷ h))
  unfolding negotiate
  offer_reached s s1 m r1 =
      ground (arith, write_bytes-idle kind (env.config.max_proto_version ∷ []))

  offer_answered :
      (v : ℕ) (s1 s2 : List Recv)
      → read_bytes kind 1 s1 ≡ (done (v ∷ []), s2)
      → negotiate_unknown_proto env.config.min_proto_version env.config.max_proto_version env
          (on kind s1 h)
        ≡ (result_of (agreed env.config (offers v)), on kind s2 (answered env v h))
  unfolding negotiate_unknown_proto
  offer_answered v s1 s2 r =
      ground (arith, write_bytes-idle kind (0 ∷ []), write_bytes-idle kind (v ∷ []))

module _ (env : Env) (range : HasProtoRange env.config) (kind : SockType) (h : History) where
  newest : env.config.max_proto_version % 256 ≡ env.config.max_proto_version
  newest = omega (arith, range.high)

  pub negotiate-one :
      (r : Reply) (b : ℕ) (s s1 : List Recv)
      → reply_bytes r ≡ b ∷ []
      → IsReply r
      → read_bytes kind 1 s ≡ (done (b ∷ []), s1)
      → negotiate env (on kind s h) ≡ (result_of (agreed env.config r), on kind s1 (said env r h))
  unfolding negotiate
  negotiate-one r b s s1 e i rd =
      ground (arith, newest, write_bytes-idle kind (env.config.max_proto_version ∷ []))

  negotiate-offered :
      (v : ℕ) (s s1 s2 : List Recv)
      → read_bytes kind 1 s ≡ (done (3 ∷ []), s1)
      → read_bytes kind 1 s1 ≡ (done (v ∷ []), s2)
      → negotiate env (on kind s h)
        ≡ (result_of (agreed env.config (offers v)), on kind s2 (said env (offers v) h))
  negotiate-offered v s s1 s2 r1 r2 =
      offer_reached env kind h s s1 newest r1
      ∙ offer_answered env kind (sent (env.config.max_proto_version ∷ []) ∷ h) v s1 s2 r2

  -- Whatever a server replies, in segments of any kind, `handle_proto` goes on with the agreed version
  -- or gives up, and has sent its newest version and, where the server offers one, the answer to it.
  -- The configured versions are a range of those that there are handlers for.
  pub negotiate-agrees :
      (r : Reply) (more : Bytes) (s : List Recv)
      → IsReply r
      → Stream kind s (reply_bytes r ++ more)
      → ((negotiate env (on kind s h)).0 ≡ result_of (agreed env.config r))
        × ((negotiate env (on kind s h)).1.history ≡ said env r h)
  negotiate-agrees supported more s i st =
      let (rd, st1) = read_fst kind 1 (1 ∷ []) more s refl st in
      let e = negotiate-one supported 1 s (read_bytes kind 1 s).1 refl i rd in
      (ap (λ p. p.0) e, ap (λ p. p.1.history) e)
  negotiate-agrees obsolete more s i st =
      let (rd, st1) = read_fst kind 1 (2 ∷ []) more s refl st in
      let e = negotiate-one obsolete 2 s (read_bytes kind 1 s).1 refl i rd in
      (ap (λ p. p.0) e, ap (λ p. p.1.history) e)
  negotiate-agrees (invalid b) more s i st =
      let (rd, st1) = read_fst kind 1 (b ∷ []) more s refl st in
      let e = negotiate-one (invalid b) b s (read_bytes kind 1 s).1 refl i rd in
      (ap (λ p. p.0) e, ap (λ p. p.1.history) e)
  negotiate-agrees (offers v) more s i st =
      let (rd, st1) = read_fst kind 1 (3 ∷ []) (v ∷ more) s refl st in
      let (rd', st2) = read_fst kind 1 (v ∷ []) more (read_bytes kind 1 s).1 refl st1 in
      let e =
        negotiate-offered v s (read_bytes kind 1 s).1 (read_bytes kind 1 (read_bytes kind 1 s).1).1
          rd rd' in
      (ap (λ p. p.0) e, ap (λ p. p.1.history) e)
