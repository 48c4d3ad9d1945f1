-- ===== src/Net.antt =====
-- utils/net_utils.c: the loops of `read_sock` and `write_sock`, and the 8-byte sizes.
-- What the peer and the operating system do is a script: one `Recv` for each answer that `recv` or
-- `SSL_read` can give, one `Send` for each answer of `send` or `SSL_write`.
pub mod Read
pub mod Write
pub mod Size
use clip_share_desktop.Prelude.{
  ℕ, zero, suc, ◌+◌, ◌-◌, ◌*◌, ◌/◌, ◌%◌, ◌^◌, min, Bool, true, false, ◌||◌, Option, none, some,
  List, [], ◌∷◌, ◌++◌, length, take, drop, Bytes, ltb, if◌then◌else◌, ℤ, pos, negsuc, to_int64,
}

-- The masks of `socket_t.type` that TCP sockets use.
pub data SockType : Type 0 where
  null_sock plain_sock ssl_sock : SockType

-- The codes of `errno` and of `SSL_get_error` that the code tells apart; `again` is any other one.
pub data Fault : Type 0 where
  ebadf econnrefused econnreset econnaborted eshutdown epipe eisconn edestaddrreq : Fault
  ehostdown ehostunreach enetreset enetdown enetunreach efault einval enomem enotconn : Fault
  eopnotsupp enotsock : Fault
  zero_return syscall ssl : Fault
  again : Fault

pub data Recv : Type 0 where
  chunk : Bytes → Recv
  recv_fault : Fault → Recv

pub data Send : Type 0 where
  room : ℕ → Send
  send_fault : Fault → Send

-- Faults that `recv` and `send` share.
fatal_errno : Fault → Bool
fatal_errno epipe = false
fatal_errno eisconn = false
fatal_errno edestaddrreq = false
fatal_errno zero_return = false
fatal_errno syscall = false
fatal_errno ssl = false
fatal_errno again = false
fatal_errno _ = true

fatal_ssl : Fault → Bool
fatal_ssl zero_return = true
fatal_ssl syscall = true
fatal_ssl ssl = true
fatal_ssl _ = false

-- The test of `_read_plain` or `_read_SSL` that sets `*fatal_p`, on a failed call.
unfoldable pub read_fatal : SockType → Fault → Bool
unfolding fatal_errno fatal_ssl
read_fatal ssl_sock e = fatal_ssl e
read_fatal _ e = fatal_errno e

-- The test of `_write_plain` or `_write_SSL`: `send` may fail in three more ways.
pub write_fatal : SockType → Fault → Bool
unfolding fatal_errno fatal_ssl
write_fatal ssl_sock e = fatal_ssl e
write_fatal _ epipe = true
write_fatal _ eisconn = true
write_fatal _ edestaddrreq = true
write_fatal _ e = fatal_errno e

-- `sz_read > 0` with the bytes, or a failed call with `fatal`.
pub data Once : Type 0 where
  got : Bytes → Once
  failed : Bool → Once

-- What stays in the script after a call took a part of a chunk.
abbrev pub put_back : Bytes → List Recv → List Recv
put_back [] s = s
put_back (b ∷ bs) s = chunk (b ∷ bs) ∷ s

-- One call with a request of `n` bytes. The end of the script is the end of the connection, for
-- which `recv` returns 0 and TLS says `SSL_ERROR_ZERO_RETURN`.
unfoldable pub read_once : SockType → ℕ → List Recv → Once × List Recv
unfolding read_fatal
read_once kind n [] = (failed true, [])
read_once kind n (chunk [] ∷ s) = (failed true, s)
read_once kind n (chunk (b ∷ bs) ∷ s) = (got (take n (b ∷ bs)), put_back (drop n (b ∷ bs)) s)
read_once kind n (recv_fault e ∷ s) = (failed (read_fatal kind e), s)

-- `out_of_fuel` is no outcome of the program, but the end of the rounds that a loop is given.
pub data Outcome : Type 0 where
  done : Bytes → Outcome
  failure : Outcome
  out_of_fuel : Outcome

abbrev pub max_request : ℕ
max_request = 0x7FFFFFFF

abbrev pub prepend : Bytes → Outcome → Outcome
prepend bs (done more) = done (bs ++ more)
prepend bs failure = failure
prepend bs out_of_fuel = out_of_fuel

abbrev pub prepend_at : Bytes → Outcome × List Recv → Outcome × List Recv
prepend_at bs (o, s) = (prepend bs o, s)

-- The loop of `read_sock`, with `left` for `size - total_sz_read`. A successful call sets `cnt` to
-- 0, and every round adds 1.
pub read_loop : ℕ → SockType → ℕ → ℕ → List Recv → Outcome × List Recv
read_loop fuel kind cnt zero s = (done [], s)
read_loop zero kind cnt (suc left) s = (out_of_fuel, s)
read_loop (suc fuel) kind cnt (suc left) s =
    let once = read_once kind (min (suc left) max_request) s in
    elim once.0 [
      | got bs ↦ prepend_at bs (read_loop fuel kind 1 (suc left - length bs) once.1)
      | failed fatal ↦ elim (ltb 10 cnt || fatal) [
        | true ↦ (failure, once.1)
        | false ↦ read_loop fuel kind (cnt + 1) (suc left) once.1
      ]
    ]

-- Each round takes a byte that is wanted, or an element of the script, or ends the loop.
unfoldable pub read_bytes : SockType → ℕ → List Recv → Outcome × List Recv
unfolding read_loop read_once
read_bytes kind size s = read_loop (suc (size + length s)) kind 0 size s

-- One call of `send` or `SSL_write`: the number of bytes taken, or a failed call with `fatal`. An
-- empty script is a peer that takes whatever is offered.
pub data Taken : Type 0 where
  took : ℕ → Taken
  unsent : Bool → Taken

pub write_once : SockType → ℕ → List Send → Taken × List Send
unfolding write_fatal
write_once kind n [] = (took n, [])
write_once kind n (room zero ∷ s) = (unsent false, s)
write_once kind n (room (suc k) ∷ s) = (took (min n (suc k)), s)
write_once kind n (send_fault e ∷ s) = (unsent (write_fatal kind e), s)

-- What went out, whether all of it did, and the rest of the script.
pub record Written : Type 0 where
  pub outcome : Outcome
  pub sent : Bytes
  pub rest : List Send

-- The loop of `write_sock` over the bytes that are still to be written.
pub write_loop : ℕ → SockType → ℕ → Bytes → List Send → Written
write_loop fuel kind cnt [] s = record { outcome = done []; sent = []; rest = s }
write_loop zero kind cnt (b ∷ bs) s = record { outcome = out_of_fuel; sent = []; rest = s }
write_loop (suc fuel) kind cnt (b ∷ bs) s =
    let once = write_once kind (min (length (b ∷ bs)) max_request) s in
    elim once.0 [
      | took n ↦
          let more = write_loop fuel kind 1 (drop n (b ∷ bs)) once.1 in
          record { outcome = more.outcome; sent = take n (b ∷ bs) ++ more.sent; rest = more.rest }
      | unsent fatal ↦ elim (ltb 10 cnt || fatal) [
        | true ↦ record { outcome = failure; sent = []; rest = once.1 }
        | false ↦ write_loop fuel kind (cnt + 1) (b ∷ bs) once.1
      ]
    ]

unfoldable pub write_bytes : SockType → Bytes → List Send → Written
unfolding write_loop write_once
write_bytes kind bs s = write_loop (suc (length bs + length s)) kind 0 bs s

-- `sz & 0xff` and the arithmetic `sz >>= 8` on an `int64_t`.
abbrev pub low_byte : ℤ → ℕ
low_byte (pos n) = n % 256
low_byte (negsuc n) = 255 - n % 256

abbrev pub shift_right : ℤ → ℤ
shift_right (pos n) = pos (n / 256)
shift_right (negsuc n) = negsuc (n / 256)

-- The loop of `send_size`, which fills the buffer from its end.
abbrev pub fill_size : ℕ → ℤ → Bytes → Bytes
fill_size zero sz buf = buf
fill_size (suc i) sz buf = fill_size i (shift_right sz) (low_byte sz ∷ buf)

unfoldable pub size_bytes : ℤ → Bytes
size_bytes sz = fill_size 8 sz []

-- `size = (size << 8) | b` on the bit pattern of the `int64_t`.
pub join_size : ℕ → Bytes → ℕ
join_size acc [] = acc
join_size acc (b ∷ bs) = join_size ((acc * 256 + b) % 2 ^ 64) bs

unfoldable pub size_of_bytes : Bytes → ℤ
unfolding join_size
size_of_bytes bs = to_int64 (join_size 0 bs)
