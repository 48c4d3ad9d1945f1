-- ===== src/Net/Read.antt =====
-- The loop of `read_sock` of utils/net_utils.c on scripts of segments and faults.
use clip_share_desktop.Prelude.{
  ℕ, zero, suc, ◌+◌, ◌-◌, ◌≤◌, ◌<◌, min, ◌≡◌, refl, sym, ap, ◌∙◌, Bool, true, false, ◌||◌, List, [],
  ◌∷◌, ◌++◌, map, length-map, ltb, Bytes, length, take, drop, length-take, length-drop,
  length-append, take-append-drop, append_assoc, arith, Bool-cases, inl, inr,
}
use mathlib.Core.Path.{subst}
use clip_share_desktop.Net.{
  SockType, Fault, Recv, chunk, recv_fault, read_fatal, put_back, read_once, Outcome, done, failure,
  out_of_fuel, max_request, prepend, prepend_at, read_loop, read_bytes,
}

-- The bytes that a script holds.
abbrev pub bytes_of : List Recv → Bytes
bytes_of [] = []
bytes_of (chunk bs ∷ s) = bs ++ bytes_of s
bytes_of (recv_fault e ∷ s) = bytes_of s

-- The connection stays alive while the script lasts: no segment is empty, every fault is one that
-- the code retries, and no more than `10 - cnt` of them come in a row (10 behind a segment, which
-- leaves `cnt` at 1).
abbrev pub Delivers : SockType → ℕ → List Recv → Type 0
Delivers kind cnt [] = Unit
Delivers kind cnt (chunk [] ∷ s) = ⊥
Delivers kind cnt (chunk (b ∷ bs) ∷ s) = Delivers kind 1 s
Delivers kind cnt (recv_fault e ∷ s) =
    (cnt ≤ 10) × (read_fatal kind e ≡ false) × Delivers kind (cnt + 1) s

Delivers-mono :
    (kind : SockType) (m n : ℕ) (s : List Recv) → m ≤ n → Delivers kind n s → Delivers kind m s
Delivers-mono kind m n [] h d = tt
Delivers-mono kind m n (chunk [] ∷ s) h d = d
Delivers-mono kind m n (chunk (b ∷ bs) ∷ s) h d = d
Delivers-mono kind m n (recv_fault e ∷ s) h (le, ok, d) =
    (omega arith, ok, Delivers-mono kind (m + 1) (n + 1) s (omega arith) d)

Delivers-put_back :
    (kind : SockType) (cnt : ℕ) (bs : Bytes) (s : List Recv)
    → Delivers kind 1 s
    → cnt ≤ 1
    → Delivers kind cnt (put_back bs s)
Delivers-put_back kind cnt [] s d h = Delivers-mono kind cnt 1 s h d
Delivers-put_back kind cnt (b ∷ bs) s d h = d

bytes_of-put_back : (bs : Bytes) (s : List Recv) → bytes_of (put_back bs s) ≡ bs ++ bytes_of s
bytes_of-put_back [] s = refl
bytes_of-put_back (b ∷ bs) s = refl

length-put_back : (bs : Bytes) (s : List Recv) → length (put_back bs s) ≤ length s + 1
length-put_back [] s = omega arith
length-put_back (b ∷ bs) s = omega arith

-- Two ways to cut a list: the shorter front is a prefix of the longer one.
append_cut {ℓ} :
    {A : Type ℓ} (xs ys front back : List A)
    → xs ++ ys ≡ front ++ back
    → length xs ≤ length front
    → (xs ++ drop (length xs) front ≡ front) × (drop (length xs) front ++ back ≡ ys)
append_cut [] ys front back e h = (refl, sym e)
append_cut (x ∷ xs) ys [] back e h = absurd (omega arith)
append_cut (x ∷ xs) ys (f ∷ front) back e h =
    let (p, q) = append_cut xs ys front back (cc) (omega arith) in (cc, q)

-- What the loop leaves behind when it is given the bytes `front ++ back`.
pub record Reads (kind : SockType) (front back : Bytes) (r : Outcome × List Recv) : Type 0 where
  pub outcome : r.0 ≡ done front
  pub bytes : bytes_of r.1 ≡ back
  pub delivers : Delivers kind 0 r.1

Reads-prepend :
    (kind : SockType) (bs front back : Bytes) (r : Outcome × List Recv)
    → Reads kind front back r
    → Reads kind (bs ++ front) back (prepend_at bs r)
Reads-prepend kind bs front back r h = record {
  outcome = ap (prepend bs) h.outcome;
  bytes = h.bytes;
  delivers = h.delivers;
}

-- One segment: `n` bytes of it are asked for, and what it holds beyond them stays.
module _ (kind : SockType) (n : ℕ) (c : Bytes) (s : List Recv) (front back : Bytes)
    (fits : n ≤ length front) (e : c ++ bytes_of s ≡ front ++ back) where
  left_over : Bytes
  left_over = drop (length (take n c)) front

  segment_cut : (take n c ++ left_over ≡ front) × (left_over ++ back ≡ drop n c ++ bytes_of s)
  unfolding left_over
  segment_cut =
      append_cut (take n c) (drop n c ++ bytes_of s) front back
        (sym (append_assoc (take n c) (drop n c) (bytes_of s))
          ∙ ap (λ l. l ++ bytes_of s) (take-append-drop n c)
          ∙ e)
        (omega (arith, length-take n c))

  length-left_over : length left_over ≡ length front - length (take n c)
  unfolding left_over
  length-left_over = length-drop (length (take n c)) front

  read_segment :
      (r : ℕ → Outcome × List Recv)
      → Reads kind left_over back (r (length left_over))
      → Reads kind front back (prepend_at (take n c) (r (length front - length (take n c))))
  read_segment r h =
      subst
        (λ (l : Bytes).
          Reads kind l back (prepend_at (take n c) (r (length front - length (take n c)))))
        segment_cut.0
        (rw (← length-left_over)
          (Reads-prepend kind (take n c) left_over back (r (length left_over)) h))

  bytes_of-left_over : bytes_of (put_back (drop n c) s) ≡ left_over ++ back
  bytes_of-left_over = bytes_of-put_back (drop n c) s ∙ sym segment_cut.1

or_true : (b : Bool) → (b || true) ≡ true
or_true b = ground arith

too_many : (cnt : ℕ) (fatal : Bool) → cnt ≡ 11 → (ltb 10 cnt || fatal) ≡ true
too_many cnt fatal h = ground arith

retried : (cnt : ℕ) (fatal : Bool) → cnt ≤ 10 → fatal ≡ false → (ltb 10 cnt || fatal) ≡ false
retried cnt fatal le ok = ground arith

read_loop-Reads :
    (fuel : ℕ) (kind : SockType) (cnt : ℕ) (front back : Bytes) (s : List Recv)
    → length front + length s < fuel
    → Delivers kind cnt s
    → bytes_of s ≡ front ++ back
    → Reads kind front back (read_loop fuel kind cnt (length front) s)
unfolding read_loop read_once
read_loop-Reads zero kind cnt front back s h d e = absurd (omega arith)
read_loop-Reads (suc fuel) kind cnt [] back s h d e = record {
  outcome = refl;
  bytes = e;
  delivers = Delivers-mono kind 0 cnt s (omega arith) d;
}
read_loop-Reads (suc fuel) kind cnt (f ∷ front) back [] h d e = cc
read_loop-Reads (suc fuel) kind cnt (f ∷ front) back (chunk [] ∷ s) h d e = absurd d
read_loop-Reads (suc fuel) kind cnt (f ∷ front) back (chunk (b ∷ bs) ∷ s) h d e =
    let n : ℕ = min (suc (length front)) max_request in
    let t : Bytes = take n (b ∷ bs) in
    let rest : List Recv = put_back (drop n (b ∷ bs)) s in
    let fits : n ≤ suc (length front) = omega arith in
    read_segment kind n (b ∷ bs) s (f ∷ front) back fits e (λ k. read_loop fuel kind 1 k rest)
      (read_loop-Reads fuel kind 1 (left_over kind n (b ∷ bs) s (f ∷ front) back fits e) back rest
        (omega (
          arith,
          length-left_over kind n (b ∷ bs) s (f ∷ front) back fits e,
          length-take n (b ∷ bs),
          length-put_back (drop n (b ∷ bs)) s,
        ))
        (Delivers-put_back kind 1 (drop n (b ∷ bs)) s d (omega arith))
        (bytes_of-left_over kind n (b ∷ bs) s (f ∷ front) back fits e))
read_loop-Reads (suc fuel) kind cnt (f ∷ front) back (recv_fault x ∷ s) h (le, ok, d) e =
    rw (read_loop, retried cnt (read_fatal kind x) le ok)
      (read_loop-Reads fuel kind (cnt + 1) (f ∷ front) back s (omega arith) d e)

-- However the bytes are cut into segments, and with retried faults between them, `read_sock` returns
-- the first `size` bytes, and the following reads see the rest of the stream.
pub read_bytes-Reads :
    (kind : SockType) (front back : Bytes) (s : List Recv)
    → Delivers kind 0 s
    → bytes_of s ≡ front ++ back
    → Reads kind front back (read_bytes kind (length front) s)
unfolding read_bytes
read_bytes-Reads kind front back s d e =
    read_loop-Reads (suc (length front + length s)) kind 0 front back s (omega arith) d e

-- Success means exactly `n` bytes.
abbrev pub Exactly : ℕ → Outcome → Type 0
Exactly n (done bs) = length bs ≡ n
Exactly n failure = Unit
Exactly n out_of_fuel = ⊥

Exactly-prepend :
    (n : ℕ) (bs : Bytes) (o : Outcome)
    → length bs ≤ n
    → Exactly (n - length bs) o
    → Exactly n (prepend bs o)
Exactly-prepend n bs (done more) h e = omega (arith, length-append bs more)
Exactly-prepend n bs failure h e = tt
Exactly-prepend n bs out_of_fuel h e = e

read_loop-Exactly :
    (fuel : ℕ) (kind : SockType) (cnt size : ℕ) (s : List Recv)
    → size + length s < fuel
    → Exactly size (read_loop fuel kind cnt size s).0
unfolding read_loop read_once
read_loop-Exactly zero kind cnt size s h = absurd (omega arith)
read_loop-Exactly (suc fuel) kind cnt zero s h = refl
read_loop-Exactly (suc fuel) kind cnt (suc size) [] h = rw (read_loop, or_true (ltb 10 cnt)) tt
read_loop-Exactly (suc fuel) kind cnt (suc size) (chunk [] ∷ s) h =
    rw (read_loop, or_true (ltb 10 cnt)) tt
read_loop-Exactly (suc fuel) kind cnt (suc size) (chunk (b ∷ bs) ∷ s) h =
    let n : ℕ = min (suc size) max_request in
    let t : Bytes = take n (b ∷ bs) in
    let rest : List Recv = put_back (drop n (b ∷ bs)) s in
    Exactly-prepend (suc size) t (read_loop fuel kind 1 (suc size - length t) rest).0
      (omega (arith, length-take n (b ∷ bs)))
      (read_loop-Exactly fuel kind 1 (suc size - length t) rest
        (omega (arith, length-take n (b ∷ bs), length-put_back (drop n (b ∷ bs)) s)))
read_loop-Exactly (suc fuel) kind cnt (suc size) (recv_fault x ∷ s) h =
    elim (Bool-cases (ltb 10 cnt || read_fatal kind x)) [
      | inl stop ↦ rw (read_loop, stop) tt
      | inr go ↦
          rw (read_loop, go) (read_loop-Exactly fuel kind (cnt + 1) (suc size) s (omega arith))
    ]

-- On every script `read_sock` ends, and where it succeeds it has exactly `size` bytes.
pub read_bytes-Exactly :
    (kind : SockType) (size : ℕ) (s : List Recv) → Exactly size (read_bytes kind size s).0
unfolding read_bytes
read_bytes-Exactly kind size s =
    read_loop-Exactly (suc (size + length s)) kind 0 size s (omega arith)

-- Faults that the code retries while `cnt` allows it.
abbrev pub AllRetried : SockType → List Fault → Type 0
AllRetried kind [] = Unit
AllRetried kind (e ∷ es) = (read_fatal kind e ≡ false) × AllRetried kind es

read_loop-gives_up :
    (fuel : ℕ) (kind : SockType) (cnt size : ℕ) (es : List Fault) (s : List Recv)
    → length es + cnt ≡ 12
    → cnt ≤ 11
    → length es ≤ fuel
    → AllRetried kind es
    → read_loop fuel kind cnt (suc size) (map recv_fault es ++ s) ≡ (failure, s)
unfolding read_loop read_once
read_loop-gives_up fuel kind cnt size [] s n c h a = absurd (omega arith)
read_loop-gives_up zero kind cnt size (e ∷ es) s n c h a = absurd (omega arith)
read_loop-gives_up (suc fuel) kind cnt size (e ∷ []) s n c h a =
    rw (read_loop, too_many cnt (read_fatal kind e) (omega arith))
read_loop-gives_up (suc fuel) kind cnt size (e ∷ e' ∷ es) s n c h a =
    rw (read_loop, retried cnt (read_fatal kind e) (omega arith) a.0)
      (read_loop-gives_up fuel kind (cnt + 1) size (e' ∷ es) s (omega arith) (omega arith)
        (omega arith) a.1)

-- Twelve faults in a row make a read fail, however harmless each of them is, and nothing behind them
-- is consumed.
pub read_bytes-gives_up :
    (kind : SockType) (size : ℕ) (es : List Fault) (s : List Recv)
    → length es ≡ 12
    → AllRetried kind es
    → read_bytes kind (suc size) (map recv_fault es ++ s) ≡ (failure, s)
unfolding read_bytes
read_bytes-gives_up kind size es s n a =
    read_loop-gives_up (suc (suc size + length (map recv_fault es ++ s))) kind 0 size es s
      (omega arith) (omega arith)
      (omega (arith, length-append (map recv_fault es) s, length-map es recv_fault)) a
