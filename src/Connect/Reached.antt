-- ===== src/Connect/Reached.antt =====
-- `connect_server` where the first attempt succeeds and TLS is not in use.
use clip_share_desktop.Prelude.{ℕ, ◌≡◌, true, false, [], ◌∷◌, arith}
use clip_share_desktop.Config.{is_set}
use clip_share_desktop.Net.{plain_sock}
use clip_share_desktop.World.{Env, World, opened}
use clip_share_desktop.Action.{ok}
use clip_share_desktop.Action.Healthy.{on}
use clip_share_desktop.Connect.{Dial, Network, server_port, connect_server}

-- A server without TLS that takes the first attempt.
pub record IsReachable (env : Env) (dial : Dial) : Type 0 where
  pub made : dial.made ≡ true
  pub long_timeouts : dial.long_timeouts ≡ true
  pub connected : dial.connected ≡ true
  pub short_timeouts : dial.short_timeouts ≡ true
  pub outbound : dial.outbound ≡ []
  pub plain : is_set env.config.secure_mode_enabled ≡ false

pub connect_server-reached :
    (dial : Network) (addr : ℕ) (env : Env) (w : World)
    → IsReachable env (dial w.history (server_port env.config) addr)
    → connect_server dial addr env w ≡ (
      ok tt,
      on plain_sock (dial w.history (server_port env.config) addr).inbound (opened ∷ w.history),
    )
unfolding connect_server
connect_server-reached dial addr env w r =
    ground (arith, r.made, r.long_timeouts, r.connected, r.short_timeouts, r.outbound, r.plain)
