-- ===== src/Config/Servers/Rounds.antt =====
-- The rounds of `get_server_list` on lines that its format takes whole.
use clip_share_desktop.Prelude.{
  ℕ, zero, suc, ◌+◌, ◌≤◌, ◌≡◌, ◌≢◌, refl, sym, ap, ◌∙◌, Bool, true, ◌-◌, List, [], ◌∷◌, ◌++◌, Bytes,
  length, All, drop, arith, length-append,
}
use clip_share_desktop.Config.Numbers.{Parsed, value, exits, overflows, hangs}
use clip_share_desktop.Config.Servers.{
  server_round, server_lines, scan_buffer, scan_rest, line_of, add_server, and_then, trim,
}
use clip_share_desktop.Text.Eol.{NoNul, c_str-NoNul}
use clip_share_desktop.Config.Servers.Shapes.{
  Line, blanks, comment, server, text_of, IsLine, unlines, names_then, left_by, add_server-line,
}

line_of-flat :
    (n : ℕ) (l rest : Bytes)
    → length l ≤ n
    → All (λ c. c ≢ b'\n') l
    → line_of n (l ++ b'\n' ∷ rest) ≡ l
line_of-flat zero [] rest h f = refl
line_of-flat (suc n) [] rest h f = refl
line_of-flat zero (c ∷ l) rest h f = absurd (omega arith)
line_of-flat (suc n) (c ∷ l) rest h f = ground (arith, line_of-flat n l rest (omega arith) f.1)

drop-line : (l rest : Bytes) → drop (length l + 1) (l ++ b'\n' ∷ rest) ≡ rest
drop-line [] rest = refl
drop-line (c ∷ l) rest =
    ap (λ k. drop k (c ∷ (l ++ b'\n' ∷ rest))) {y = suc (length l + 1)} (omega arith)
    ∙ drop-line l rest

buffer-full : (l old : Bytes) → l ≢ [] → NoNul l → scan_buffer l old ≡ l
buffer-full [] old f n = absurd (f refl)
buffer-full (c ∷ s) old f n = c_str-NoNul (c ∷ s) n

rest-full : (l rest : Bytes) → l ≢ [] → scan_rest l (l ++ b'\n' ∷ rest) ≡ rest
rest-full [] rest f = absurd (f refl)
rest-full (c ∷ l) rest f = drop-line (c ∷ l) rest

pub round-valid :
    (valid : Bytes → Bool) (l : Bytes) (more : Parsed (List Bytes))
    → valid l ≡ true
    → server_round valid l more ≡ and_then more (λ servers. value (add_server (trim l) servers))
round-valid valid l more u = rw u refl

-- One round of the loop on a file that begins with `c`.
round_eq :
    (fuel : ℕ) (valid : Bytes → Bool) (old : Bytes) (c : ℕ) (s line : Bytes)
    → line_of 511 (c ∷ s) ≡ line
    → server_lines (suc fuel) valid old (c ∷ s)
      ≡ server_round valid
          (scan_buffer line old)
          (server_lines fuel valid (trim (scan_buffer line old)) (scan_rest line (c ∷ s)))
unfolding server_lines
round_eq fuel valid old c s line e =
    ap
      (λ k.
        server_round valid (scan_buffer k old)
          (server_lines fuel valid (trim (scan_buffer k old)) (scan_rest k (c ∷ s))))
      e

text_round :
    (fuel : ℕ) (valid : Bytes → Bool) (old l rest : Bytes)
    → l ≢ []
    → length l ≤ 511
    → All (λ c. c ≢ b'\n') l
    → NoNul l
    → valid l ≡ true
    → server_lines (suc fuel) valid old (l ++ b'\n' ∷ rest)
      ≡ and_then
          (server_lines fuel valid (trim l) rest)
          (λ servers. value (add_server (trim l) servers))
text_round fuel valid old [] rest full short flat text u = absurd (full refl)
text_round fuel valid old (c ∷ l) rest full short flat text u =
    round_eq fuel valid old c (l ++ b'\n' ∷ rest) (c ∷ l) (line_of-flat 511 (c ∷ l) rest short flat)
    ∙ ap
        (λ k.
          server_round valid k
            (server_lines fuel valid (trim k) (scan_rest (c ∷ l) (c ∷ (l ++ b'\n' ∷ rest)))))
        (buffer-full (c ∷ l) old full text)
    ∙ ap (λ r. server_round valid (c ∷ l) (server_lines fuel valid (trim (c ∷ l)) r))
        (rest-full (c ∷ l) rest full)
    ∙ round-valid valid (c ∷ l) (server_lines fuel valid (trim (c ∷ l)) rest) u

one_line :
    (fuel : ℕ) (valid : Bytes → Bool) (old : Bytes) (l : Line) (rest : Bytes)
    → IsLine valid l
    → server_lines (suc fuel) valid old (text_of l ++ b'\n' ∷ rest)
      ≡ and_then
          (server_lines fuel valid (trim (text_of l)) rest)
          (λ servers. value (names_then (l ∷ []) servers))
one_line fuel valid old l rest h =
    text_round fuel valid old (text_of l) rest h.full h.short h.flat h.text h.utf8
    ∙ and_then-value_ap (server_lines fuel valid (trim (text_of l)) rest)
        (λ servers. add_server-line l servers h.shaped)
  where
    and_then-value_ap :
        {f g : List Bytes → List Bytes} (p : Parsed (List Bytes))
        → ((s : List Bytes) → f s ≡ g s)
        → and_then p (λ s. value (f s)) ≡ and_then p (λ s. value (g s))
    and_then-value_ap (value s) e = ap value (e s)
    and_then-value_ap exits e = refl
    and_then-value_ap overflows e = refl
    and_then-value_ap hangs e = refl

names_then-cons :
    (l : Line) (ls : List Line) (s : List Bytes)
    → names_then (l ∷ []) (names_then ls s) ≡ names_then (l ∷ ls) s
names_then-cons (blanks a) ls s = refl
names_then-cons (comment a rest) ls s = refl
names_then-cons (server a name b) ls s = refl

joined :
    (p : Parsed (List Bytes)) (l : Line) (ls : List Line)
    → and_then (and_then p (λ s. value (names_then ls s))) (λ s. value (names_then (l ∷ []) s))
      ≡ and_then p (λ s. value (names_then (l ∷ ls) s))
joined (value s) l ls = ap value (names_then-cons l ls s)
joined exits l ls = refl
joined overflows l ls = refl
joined hangs l ls = refl

and_then-value : (p : Parsed (List Bytes)) → and_then p value ≡ p
and_then-value p = ground arith

-- Behind any number of lines the loop goes on with what follows them, and adds their names.
lines_then :
    (fuel : ℕ) (valid : Bytes → Bool) (old : Bytes) (ls : List Line) (rest : Bytes)
    → All (IsLine valid) ls
    → server_lines (length ls + fuel) valid old (unlines ls rest)
      ≡ and_then (server_lines fuel valid (left_by old ls) rest) (λ s. value (names_then ls s))
lines_then fuel valid old [] rest h =
    ap (λ n. server_lines n valid old rest) {y = fuel} (omega arith)
    ∙ sym (and_then-value (server_lines fuel valid old rest))
lines_then fuel valid old (l ∷ ls) rest h =
    let old1 : Bytes = trim (text_of l) in
    ap (λ n. server_lines n valid old (unlines (l ∷ ls) rest)) {y = suc (length ls + fuel)}
      (omega arith)
    ∙ one_line (length ls + fuel) valid old l (unlines ls rest) h.0
    ∙ ap (λ p. and_then p (λ s. value (names_then (l ∷ []) s)))
        (lines_then fuel valid old1 ls rest h.1)
    ∙ joined (server_lines fuel valid (left_by old1 ls) rest) l ls

length-unlines : (ls : List Line) (rest : Bytes) → length ls ≤ length (unlines ls rest)
length-unlines [] rest = omega arith
length-unlines (l ∷ ls) rest =
    omega (arith, length-unlines ls rest, length-append (text_of l) (b'\n' ∷ unlines ls rest))

pub whole_file :
    (valid : Bytes → Bool) (old : Bytes) (ls : List Line) (rest : Bytes)
    → All (IsLine valid) ls
    → server_lines (suc (suc (length (unlines ls rest)))) valid old (unlines ls rest)
      ≡ and_then
          (server_lines
            (suc (suc (length (unlines ls rest) - length ls)))
            valid
            (left_by old ls)
            rest)
          (λ s. value (names_then ls s))
whole_file valid old ls rest h =
    ap (λ n. server_lines n valid old (unlines ls rest))
      {y = length ls + suc (suc (length (unlines ls rest) - length ls))}
      (omega (arith, length-unlines ls rest))
    ∙ lines_then (suc (suc (length (unlines ls rest) - length ls))) valid old ls rest h
