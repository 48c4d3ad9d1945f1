-- ===== src/Text/Crlf/InPlace.antt =====
-- The loop of `_convert_to_crlf` never overwrites what it has still to read.
use clip_share_desktop.Prelude.{
  ℕ, suc, ◌+◌, ◌-◌, ◌≡◌, refl, sym, ap, ◌∙◌, Bool, true, false, ◌&&◌, Option, none, some, [], ◌∷◌,
  ◌++◌, append_assoc, Bytes, length, length-append, ◌==◌, if◌then◌else◌, arith,
}
use clip_share_desktop.Text.Crlf.{
  load, store, onto, not_cr, increase, before, move_char, crlf_round, crlf_loop,
}

-- LF gets a CR in front of it, unless there is one.
abbrev pub add_cr : Option ℕ → Bytes → Bytes
add_cr prev [] = []
add_cr prev (c ∷ s) =
    if c == b'\n' && not_cr prev then b'\r' ∷ c ∷ add_cr (some c) s else c ∷ add_cr (some c) s

abbrev pub last_of : Option ℕ → Bytes → Option ℕ
last_of prev [] = prev
last_of prev (c ∷ s) = last_of (some c) s

-- What becomes of one character.
abbrev pub one : Option ℕ → ℕ → Bytes
one prev c = if c == b'\n' && not_cr prev then b'\r' ∷ c ∷ [] else c ∷ []

add_cr-snoc :
    (prev : Option ℕ) (s : Bytes) (c : ℕ)
    → add_cr prev (s ++ (c ∷ [])) ≡ add_cr prev s ++ one (last_of prev s) c
add_cr-snoc prev [] c = ground arith
add_cr-snoc prev (d ∷ s) c = ground (arith, add_cr-snoc (some d) s c)

pub length-add_cr :
    (prev : Option ℕ) (s : Bytes) → length (add_cr prev s) ≡ length s + increase prev s
unfolding increase
length-add_cr prev [] = refl
length-add_cr prev (c ∷ s) = ground (arith, length-add_cr (some c) s)

load-behind : (p : Bytes) (c : ℕ) (d : Bytes) → load (length p) (p ++ (c ∷ d)) ≡ some c
unfolding load
load-behind [] c d = refl
load-behind (x ∷ p) c d = load-behind p c d

pub store-behind :
    (p : Bytes) (x c : ℕ) (d : Bytes) → store (length p) x (p ++ (c ∷ d)) ≡ some (p ++ (x ∷ d))
unfolding store
store-behind [] x c d = refl
store-behind (y ∷ p) x c d = ap (onto y) (store-behind p x c d)

-- A text from its characters in the order in which the loop meets them.
abbrev pub unrev : Bytes → Bytes
unrev [] = []
unrev (c ∷ r) = unrev r ++ (c ∷ [])

abbrev front : Bytes → Option ℕ
front [] = none
front (c ∷ r) = some c

pub length-unrev : (r : Bytes) → length (unrev r) ≡ length r
length-unrev [] = refl
length-unrev (c ∷ r) = omega (arith, length-append (unrev r) (c ∷ []), length-unrev r)

last_of-snoc : (prev : Option ℕ) (s : Bytes) (c : ℕ) → last_of prev (s ++ (c ∷ [])) ≡ some c
last_of-snoc prev [] c = refl
last_of-snoc prev (d ∷ s) c = last_of-snoc (some d) s c

last_of-unrev : (r : Bytes) → last_of none (unrev r) ≡ front r
last_of-unrev [] = refl
last_of-unrev (c ∷ r) = last_of-snoc none (unrev r) c

load-unrev : (r : Bytes) (c : ℕ) (d : Bytes) → load (length r) (unrev r ++ (c ∷ d)) ≡ some c
load-unrev r c d = rw (← length-unrev r) (load-behind (unrev r) c d)

before-unrev : (r d : Bytes) → before (length r) (unrev r ++ d) ≡ front r
before-unrev [] d = refl
before-unrev (c ∷ r) d = rw (append_assoc (unrev r) (c ∷ []) d) (load-unrev r c d)

-- The last cell of a stretch of cells.
pub split_last :
    (c : ℕ) (j : Bytes) → (k : Bytes) × (y : ℕ) × (c ∷ j ≡ k ++ (y ∷ [])) × (length k ≡ length j)
split_last c [] = ([], c, refl, refl)
split_last c (d ∷ j) = let (k, y, e, n) = split_last d j in (c ∷ k, y, ap (λ l. c ∷ l) e, ap suc n)

-- A store into the last cell of a stretch.
store-last :
    (r k : Bytes) (x y : ℕ) (d : Bytes)
    → store (length r + length k) x (unrev r ++ (k ++ (y ∷ d))) ≡ some (unrev r ++ (k ++ (x ∷ d)))
store-last r k x y d =
    rw (← length-unrev r, ← length-append (unrev r) k, ← append_assoc (unrev r) k (y ∷ d))
      (rw (← append_assoc (unrev r) k (x ∷ d)) (store-behind (unrev r ++ k) x y d))

increase-snoc :
    (prev : Option ℕ) (s : Bytes) (c : ℕ)
    → increase prev (s ++ (c ∷ []))
      ≡ increase prev s + (if c == b'\n' && not_cr (last_of prev s) then 1 else 0)
unfolding increase
increase-snoc prev [] c = ground arith
increase-snoc prev (d ∷ s) c = ground (arith, increase-snoc (some d) s c)

-- What a round leaves: `k` are the cells between what is still to read and what has been written.
record Rounded (r : Bytes) (c : ℕ) (d : Bytes) (out : Option Bytes × ℕ) : Type 0 where
  cells : Bytes
  room : length cells ≡ increase none (unrev r)
  buf : out.0 ≡ some (unrev r ++ (cells ++ (one (front r) c ++ d)))
  new : out.1 ≡ length r + length cells - 1

move_cr :
    (r : Bytes) (c y new : ℕ) (m d : Bytes)
    → (c == b'\n' && not_cr (front r)) ≡ true
    → new ≡ suc (length r + length m)
    → move_char (length r) new c (some (unrev r ++ (m ++ (y ∷ c ∷ d))))
      ≡ (some (unrev r ++ (m ++ (b'\r' ∷ c ∷ d))), length r + length m - 1)
move_cr r c y new m d e n =
    let one_less : new - 1 ≡ length r + length m = omega arith in
    let two_less : new - 2 ≡ length r + length m - 1 = omega arith in
    rw (before-unrev r (m ++ (y ∷ c ∷ d)), e, one_less, two_less)
      (ap (λ b. (b, length r + length m - 1)) (store-last r m b'\r' y (c ∷ d)))

cr-Rounded :
    (r : Bytes) (c y : ℕ) (k m d : Bytes)
    → (c == b'\n' && not_cr (front r)) ≡ true
    → k ≡ m ++ (y ∷ [])
    → length m ≡ increase none (unrev r)
    → Rounded r c d
        (move_char (length r) (length r + length k) c (some (unrev r ++ (k ++ (c ∷ d)))))
cr-Rounded r c y k m d e s n =
    let run : move_char (length r) (length r + length k) c (some (unrev r ++ (k ++ (c ∷ d))))
        ≡ (some (unrev r ++ (m ++ (b'\r' ∷ c ∷ d))), length r + length m - 1) =
      rw (s, append_assoc m (y ∷ []) (c ∷ d))
        (move_cr r c y (length r + length (m ++ (y ∷ []))) m d e
          (omega (arith, length-append m (y ∷ [])))) in
    record { cells = m; room = n; buf = rw (run, e) refl; new = rw run refl }

-- The character has been written; is there a CR to write?
move_char-Rounded :
    (r : Bytes) (c : ℕ) (k d : Bytes) (test : Bool)
    → (c == b'\n' && not_cr (front r)) ≡ test
    → length k ≡ increase none (unrev r) + (if test then 1 else 0)
    → Rounded r c d
        (move_char (length r) (length r + length k) c (some (unrev r ++ (k ++ (c ∷ d)))))
move_char-Rounded r c k d false e n = record {
  cells = k;
  room = omega arith;
  buf = rw (before-unrev r (k ++ (c ∷ d)), e) refl;
  new = rw (before-unrev r (k ++ (c ∷ d)), e) refl;
}
move_char-Rounded r c [] d true e n = absurd (omega arith)
move_char-Rounded r c (x ∷ k) d true e n =
    let (m, y, s, len) = split_last x k in
    cr-Rounded r c y (x ∷ k) m d e s (omega (arith, ap length s, length-append m (y ∷ [])))

crlf_round-Rounded :
    (r : Bytes) (c : ℕ) (j d : Bytes)
    → length j ≡ increase none (unrev (c ∷ r))
    → Rounded r c d
        (crlf_round (length r) (length r + length j) (unrev r ++ (c ∷ (j ++ d))) (some c))
crlf_round-Rounded r c j d n =
    let (k, y, s, len) = split_last c j in
    let test : Bool = c == b'\n' && not_cr (front r) in
    let stored : store (length r + length j) c (unrev r ++ (c ∷ (j ++ d)))
        ≡ some (unrev r ++ (k ++ (c ∷ d))) =
      rw (ap (λ (l : Bytes). l ++ d) s, append_assoc k (y ∷ []) d, ← len) (store-last r k c y d) in
    rw (stored, ← len)
      (move_char-Rounded r c k d test refl
        (len ∙ n ∙ increase-snoc none (unrev r) c ∙ rw (last_of-unrev r) refl))

no_cells : (k : Bytes) → length k ≡ 0 → k ≡ []
no_cells [] h = refl
no_cells (c ∷ k) h = absurd (omega arith)

add_cr-unrev :
    (r : Bytes) (c : ℕ) (d : Bytes)
    → add_cr none (unrev (c ∷ r)) ++ d ≡ add_cr none (unrev r) ++ (one (front r) c ++ d)
add_cr-unrev r c d =
    rw (add_cr-snoc none (unrev r) c, last_of-unrev r)
      (append_assoc (add_cr none (unrev r)) (one (front r) c) d)

crlf_step :
    (cur new : ℕ) (buf : Bytes) (c new' : ℕ) (buf' : Option Bytes)
    → load (suc cur) buf ≡ some c
    → (crlf_round (suc cur) new buf (some c)).0 ≡ buf'
    → (crlf_round (suc cur) new buf (some c)).1 ≡ new'
    → crlf_loop (suc cur) new (some buf) ≡ crlf_loop cur new' buf'
unfolding crlf_loop
crlf_step cur new buf c new' buf' l e n =
    ap
      (λ (o : Option ℕ).
        crlf_loop cur (crlf_round (suc cur) new buf o).1 (crlf_round (suc cur) new buf o).0)
      l
    ∙ (λ i. crlf_loop cur (n i) (e i))

-- From the last character on, the loop ends with the text converted, and in front of it nothing is left.
pub crlf_loop-add_cr :
    (r : Bytes) (c : ℕ) (j d : Bytes)
    → length j ≡ increase none (unrev (c ∷ r))
    → crlf_loop (length r) (length r + length j) (some (unrev r ++ (c ∷ (j ++ d))))
      ≡ some (add_cr none (unrev (c ∷ r)) ++ d)
unfolding crlf_loop load increase
crlf_loop-add_cr [] c j d n =
    let h : Rounded [] c d (crlf_round 0 (0 + length j) (c ∷ (j ++ d)) (some c)) =
      crlf_round-Rounded [] c j d n in
    (h.buf ∙ rw (no_cells h.cells h.room) (ap some (sym (add_cr-unrev [] c d))))
crlf_loop-add_cr (b ∷ r) c j d n =
    let h : Rounded (b ∷ r) c d (
        crlf_round (suc (length r)) (suc (length r) + length j) (unrev (b ∷ r) ++ (c ∷ (j ++ d)))
          (some c)) =
      crlf_round-Rounded (b ∷ r) c j d n in
    let one_less : suc (length r) + length h.cells - 1 ≡ length r + length h.cells = omega arith in
    let rest : Bytes = one (some b) c ++ d in
    crlf_step (length r) (suc (length r) + length j) (unrev (b ∷ r) ++ (c ∷ (j ++ d))) c
      (suc (length r) + length h.cells - 1) (some (unrev (b ∷ r) ++ (h.cells ++ rest)))
      (load-unrev (b ∷ r) c (j ++ d)) h.buf h.new
    ∙ rw (one_less, append_assoc (unrev r) (b ∷ []) (h.cells ++ rest))
        (crlf_loop-add_cr r b h.cells rest h.room ∙ ap some (sym (add_cr-unrev (b ∷ r) c d)))
