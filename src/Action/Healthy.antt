-- ===== src/Action/Healthy.antt =====
-- Sockets to a peer that takes whatever is offered and delivers what it has to.
use clip_share_desktop.Prelude.{ℕ, ◌≡◌, refl, sym, true, List, [], ◌++◌, Bytes, length, ℤ, IsInt64}
use clip_share_desktop.Net.{SockType, Recv, done, read_bytes, size_bytes, size_of_bytes}
use clip_share_desktop.Net.Read.{bytes_of, Delivers, Reads, read_bytes-Reads}
use clip_share_desktop.Net.Size.{length-size_bytes, size_of_bytes-size_bytes}
use clip_share_desktop.World.{Env, World, History, alloc}

-- The world with such a peer.
abbrev pub on : SockType → List Recv → History → World
on kind s h = record { socket = kind; inbound = s; outbound = []; history = h }

-- The script delivers just these bytes.
pub record Stream (kind : SockType) (s : List Recv) (bs : Bytes) : Type 0 where
  pub delivers : Delivers kind 0 s
  pub bytes : bytes_of s ≡ bs

-- Memory is never short.
abbrev pub AllocWorks : Env → Type 0
AllocWorks env = (h : History) (n : ℕ) → env.answer h (alloc n) ≡ true

-- A script from which `read_size` gets `z`, and the next read of so many bytes gets `bs`.
pub record Sized (kind : SockType) (s : List Recv) (z : ℤ) (bs : Bytes) : Type 0 where
  pub size : read_bytes kind 8 s ≡ (done (size_bytes z), (read_bytes kind 8 s).1)
  pub value : size_of_bytes (size_bytes z) ≡ z
  pub body :
      read_bytes kind (length bs) (read_bytes kind 8 s).1
      ≡ (done bs, (read_bytes kind (length bs) (read_bytes kind 8 s).1).1)

pub read_fst :
    (kind : SockType) (n : ℕ) (bs back : Bytes) (s : List Recv)
    → n ≡ length bs
    → Stream kind s (bs ++ back)
    → (read_bytes kind n s ≡ (done bs, (read_bytes kind n s).1))
      × Stream kind (read_bytes kind n s).1 back
read_fst kind n bs back s e st =
    let r : Reads kind bs back (read_bytes kind n s) =
      rw e (read_bytes-Reads kind bs back s st.delivers st.bytes) in
    (λ i. (r.outcome i, (read_bytes kind n s).1), record { delivers = r.delivers; bytes = r.bytes })

pub sized :
    (kind : SockType) (s : List Recv) (z : ℤ) (bs back : Bytes)
    → IsInt64 z
    → Stream kind s (size_bytes z ++ (bs ++ back))
    → Sized kind s z bs
sized kind s z bs back fits st =
    let (size, st1) =
      read_fst kind 8 (size_bytes z) (bs ++ back) s (sym (length-size_bytes z)) st in
    record {
      size = size;
      value = size_of_bytes-size_bytes z fits;
      body = (read_fst kind (length bs) bs back (read_bytes kind 8 s).1 refl st1).0;
    }
