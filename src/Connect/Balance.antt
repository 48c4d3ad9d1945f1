-- ===== src/Connect/Balance.antt =====
-- The sockets that an attempt of `connect_server` leaves open.
use clip_share_desktop.Prelude.{
  ℕ, suc, ◌+◌, ◌≡◌, refl, Bool, true, false, Option, none, some, [], ◌∷◌, not, ◌&&◌, arith,
  if◌then◌else◌,
}
use clip_share_desktop.Config.{is_set}
use clip_share_desktop.Net.{SockType, null_sock, ssl_sock}
use clip_share_desktop.World.{opened, shut, closed, Env, World, History}
use clip_share_desktop.Connect.{
  Dial, has_ctx, Network, server_port, connect_once, settle, connect_secure, check_peer_certs,
  is_null,
}

-- Sockets that were opened, and sockets that were given back.
abbrev pub opens : History → ℕ
opens [] = 0
opens (opened ∷ h) = suc (opens h)
opens (e ∷ h) = opens h

abbrev pub closes : History → ℕ
closes [] = 0
closes (shut ∷ h) = suc (closes h)
closes (closed await ∷ h) = suc (closes h)
closes (e ∷ h) = closes h

abbrev pub in_use : SockType → ℕ
in_use type = if is_null type then 0 else 1

-- Does an attempt lose its socket? That is where it gets to the TLS context, and there is none.
abbrev pub is_loss : Env → Dial → Bool
is_loss env dial =
    (dial.made && (dial.long_timeouts && (dial.connected && dial.short_timeouts)))
    && (is_set env.config.secure_mode_enabled && not (has_ctx dial))

abbrev pub loss : Env → Dial → ℕ
loss env dial = if is_loss env dial then 1 else 0

-- Every socket was given back but the one in use, and `n` that were lost.
abbrev pub IsBalanced : ℕ → World → Type 0
IsBalanced n w = opens w.history ≡ closes w.history + (in_use w.socket + n)

settle-IsBalanced :
    (verdict : Option Bool) (n : ℕ) (env : Env) (w : World)
    → w.socket ≡ ssl_sock
    → opens w.history ≡ suc (closes w.history + n)
    → IsBalanced n (settle verdict env w).1
unfolding settle
settle-IsBalanced none n env w k b = ground arith
settle-IsBalanced (some true) n env w k b = ground arith
settle-IsBalanced (some false) n env w k b = ground arith

abbrev late_loss : Env → Dial → ℕ
late_loss env dial = if is_set env.config.secure_mode_enabled && not (has_ctx dial) then 1 else 0

connect_secure-IsBalanced :
    (dial : Dial) (n : ℕ) (env : Env) (w : World)
    → w.socket ≡ null_sock
    → opens w.history ≡ suc (closes w.history + n)
    → IsBalanced (n + late_loss env dial) (connect_secure dial env w).1
unfolding connect_secure
connect_secure-IsBalanced dial n env w k b =
    let w1 : World = record w {
      socket = ssl_sock;
      inbound = dial.inbound;
      outbound = dial.outbound;
    } in
    ground (
      arith,
      settle-IsBalanced (check_peer_certs dial.peer env.config.trusted_servers) n env w1 refl b,
    )

pub connect_once-IsBalanced :
    (dial : Dial) (n : ℕ) (env : Env) (w : World)
    → opens w.history ≡ closes w.history + n
    → IsBalanced (n + loss env dial) (connect_once dial env w).1
unfolding connect_once
connect_once-IsBalanced dial n env w b =
    let w1 : World = record w {
      socket = null_sock;
      inbound = dial.inbound;
      outbound = dial.outbound;
      history = opened ∷ w.history;
    } in
    ground (arith, connect_secure-IsBalanced dial n env w1 refl (omega (arith, b)))

-- The sockets that are lost in the one or two attempts.
abbrev pub losses : Network → ℕ → Env → World → ℕ
losses dial addr env w =
    let w1 = (connect_once (dial w.history (server_port env.config) addr) env w).1 in
    let second = dial w1.history (server_port env.config) addr in
    loss env (dial w.history (server_port env.config) addr)
    + (if is_null w1.socket then loss env second else 0)
