-- ===== src/Action.antt =====
-- The C functions that return `EXIT_SUCCESS` or `EXIT_FAILURE` as actions: `err` is the failure, and
-- the world comes back beside it, since what was sent or written before stays so.
-- Also the socket, the callback and the calls to the outside, which are such actions.
pub mod Steps
pub mod Healthy
use clip_share_desktop.Prelude.{
  ℕ, Bool, true, false, Option, none, some, List, [], ◌∷◌, Bytes, ◌==◌, if◌then◌else◌, ℤ,
}
use clip_share_desktop.Config.{Config}
use clip_share_desktop.Net.{
  SockType, null_sock, plain_sock, ssl_sock, Recv, Outcome, done, failure, out_of_fuel, read_once,
  read_bytes, write_bytes, size_bytes, size_of_bytes,
}
use clip_share_desktop.World.{
  Call, exists, Event, call, sent, closed, notified, logged, History, Env, World,
}

-- `stuck` is a call that does not return: it loops for ever, or has overrun a buffer.
pub data Result (A : Type 0) : Type 0 where
  ok : A → Result A
  err : Result A
  stuck : Result A

abbrev pub Action : Type 0 → Type 0
Action A = Env → World → Result A × World

module _ {A : Type 0} where
  unfoldable pub pure : A → Action A
  pure a env w = (ok a, w)

  -- `return EXIT_FAILURE`
  unfoldable pub fail : Action A
  fail env w = (err, w)

  -- a value that the environment gives
  unfoldable pub asks : (Env → History → A) → Action A
  asks f env w = (ok (f env w.history), w)

unfoldable pub record_event : Event → Action (Unit {0})
record_event e env w = (ok tt, record w { history = e ∷ w.history })

module _ {A B : Type 0} where
  abbrev pub continue : Result A → (A → Action B) → Action B
  continue (ok a) f env w = f a env w
  continue err f env w = (err, w)
  continue stuck f env w = (stuck, w)

  infixl 10 ◌>>=◌ ◌>>◌
  unfoldable pub ◌>>=◌ : Action A → (A → Action B) → Action B
  unfolding pure fail asks record_event
  ◌>>=◌ m f env w = let (r, w') = m env w in continue r f env w'

  abbrev pub ◌>>◌ : Action A → Action B → Action B
  m >> n = m >>= λ _. n

-- `if (callback) callback->function(status, msg, len, params)`
unfoldable pub notify_with : ℕ → Bytes → Action (Unit {0})
notify_with status msg env w =
    if env.has_callback
    then (ok tt, record w { history = notified status msg ∷ w.history })
    else (ok tt, w)

abbrev pub notify : ℕ → Action (Unit {0})
notify status = notify_with status []

module _ {A : Type 0} where
  -- `{ if (callback) …; return EXIT_FAILURE; }`
  unfoldable pub reject : ℕ → Action A
  unfolding ◌>>=◌ notify_with
  reject status = notify status >> fail

  -- `if (m() != EXIT_SUCCESS) { if (callback) …; return EXIT_FAILURE; }`
  unfoldable pub or_reject : ℕ → Action A → Action A
  unfolding reject
  or_reject status m env w =
      let (r, w') = m env w in
      elim r [ ok a ↦ (ok a, w') | err ↦ reject status env w' | stuck ↦ (stuck, w') ]

  -- `if (m() != EXIT_SUCCESS && callback) …;` with no return; then the function goes on
  unfoldable pub or_notify : ℕ → Action A → Action (Unit {0})
  unfolding notify_with
  or_notify status m env w =
      let (r, w') = m env w in
      elim r [ ok a ↦ (ok tt, w') | err ↦ notify status env w' | stuck ↦ (stuck, w') ]

  -- `if (test) { m() } else { n() }`
  unfoldable pub choose : Bool → Action A → Action A → Action A
  choose test m n env w = if test then m env w else n env w

  -- what `m()` returned, to be looked at later
  unfoldable pub attempt : Action A → Action (Option A)
  attempt m env w =
      let (r, w') = m env w in
      elim r [ ok a ↦ (ok (some a), w') | err ↦ (ok none, w') | stuck ↦ (stuck, w') ]

  -- the loop for ever, or the overrun buffer
  unfoldable pub diverge : Action A
  diverge env w = (stuck, w)

  -- a result that is used without a test: its failure is a NULL dereference
  unfoldable pub unchecked : Action A → Action A
  unchecked m env w =
      let (r, w') = m env w in
      elim r [ ok a ↦ (ok a, w') | err ↦ (stuck, w') | stuck ↦ (stuck, w') ]

-- `if (bad) { … return EXIT_FAILURE; }`
unfoldable pub reject_if : Bool → ℕ → Action (Unit {0})
unfolding pure reject
reject_if bad status = if bad then reject status else pure tt

unfoldable pub fail_if : Bool → Action (Unit {0})
unfolding pure fail
fail_if bad = if bad then fail else pure tt

-- A call to the outside: its answer, and the event.
unfoldable pub ask : Call → Action Bool
ask c env w = (ok (env.answer w.history c), record w { history = call c ∷ w.history })

-- `error(msg)`
unfoldable pub log_error : Action (Unit {0})
unfolding record_event
log_error = record_event logged

-- `file_exists`
unfoldable pub file_exists : Bytes → Action Bool
unfolding ask pure
file_exists [] = pure false
file_exists (c ∷ path) = ask (exists (c ∷ path))

abbrev of_outcome : Outcome → Result Bytes
of_outcome (done bs) = ok bs
of_outcome failure = err
of_outcome out_of_fuel = stuck

abbrev to_unit : Result Bytes → Result (Unit {0})
to_unit (ok bs) = ok tt
to_unit err = err
to_unit stuck = stuck

unfoldable pub read_sock : ℕ → Action Bytes
read_sock size env w =
    let (o, rest) = read_bytes w.socket size w.inbound in
    (of_outcome o, record w { inbound = rest })

unfoldable pub write_sock : Bytes → Action (Unit {0})
write_sock bs env w =
    let r = write_bytes w.socket bs w.outbound in
    (
      to_unit (of_outcome r.outcome),
      record w { outbound = r.rest; history = sent r.sent ∷ w.history },
    )

unfoldable pub send_size : ℤ → Action (Unit {0})
unfolding write_sock size_bytes
send_size z = write_sock (size_bytes z)

unfoldable pub read_size : Action ℤ
unfolding read_sock ◌>>=◌ pure
read_size = do buf ← read_sock 8; pure (size_of_bytes buf)

-- `_close_socket`: with `await` it first reads one more byte, whatever comes of it.
abbrev wait_byte : Bool → SockType → List Recv → List Recv
wait_byte true kind s = (read_once kind 1 s).1
wait_byte false kind s = s

abbrev close_open : Bool → World → World
close_open await w = record w {
  socket = null_sock;
  inbound = wait_byte await w.socket w.inbound;
  history = closed await ∷ w.history;
}

abbrev pub close_if_open : SockType → Bool → World → World
close_if_open null_sock await w = w
close_if_open plain_sock await w = close_open await w
close_if_open ssl_sock await w = close_open await w

unfoldable pub close_socket_await : Bool → Action (Unit {0})
close_socket_await await env w = (ok tt, close_if_open w.socket await w)

abbrev pub close_socket : Action (Unit {0})
close_socket = close_socket_await true

abbrev pub close_socket_no_wait : Action (Unit {0})
close_socket_no_wait = close_socket_await false
