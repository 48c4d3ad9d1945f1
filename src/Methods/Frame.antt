-- ===== src/Methods/Frame.antt =====
-- `_send_data`, `_read_ack` and `_send_ack` of proto/methods.c.
use clip_share_desktop.Prelude.{ℕ, [], ◌∷◌, not, Bytes, length, ◌==◌, pos}
use clip_share_desktop.Action.{Action, pure, ◌>>=◌, ◌>>◌, fail_if, read_sock, write_sock, send_size}

-- Its callers pass the length of the buffer, so the test on a negative length has no case here.
unfoldable pub send_data : Bytes → Action (Unit {0})
unfolding ◌>>=◌ send_size write_sock
send_data bs = do send_size (pos (length bs)); write_sock bs

abbrev first_byte : Bytes → ℕ
first_byte [] = 0
first_byte (b ∷ bs) = b

unfoldable pub read_ack : Action (Unit {0})
unfolding ◌>>=◌ read_sock fail_if
read_ack = do status ← read_sock 1; fail_if (not (first_byte status == 1))

unfoldable pub send_ack : Action (Unit {0})
unfolding write_sock
send_ack = write_sock (1 ∷ [])

-- A single byte that is read, as in `read_sock(socket, (char *)&status, 1)`.
unfoldable pub read_byte : Action ℕ
unfolding ◌>>=◌ read_sock pure
read_byte = do buf ← read_sock 1; pure (first_byte buf)
