-- ===== src/Config/Servers/Lists.antt =====
-- What `get_server_list` makes of a file of lines.
use clip_share_desktop.Prelude.{
  ℕ, zero, suc, ◌≡◌, refl, ap, ◌∙◌, Bool, true, false, ◌&&◌, ◌-◌, some, List, [], ◌∷◌, Bytes,
  length, take, All, arith, if◌then◌else◌,
}
use clip_share_desktop.Config.Numbers.{Parsed, value, exits, hangs}
use clip_share_desktop.Config.Servers.{
  Sources, get_server_list, server_round, server_lines, and_then, trim,
}
use clip_share_desktop.Config.Servers.Trim.{trim-trim}
use clip_share_desktop.Text.{c_str}
use clip_share_desktop.Config.Servers.Shapes.{Line, IsLine, unlines, names_then, names_of, left_by}
use clip_share_desktop.Config.Servers.Rounds.{round-valid, whole_file}

ended : (fuel : ℕ) (valid : Bytes → Bool) (old : Bytes) → server_lines fuel valid old [] ≡ value []
unfolding server_lines
ended zero valid old = refl
ended (suc fuel) valid old = refl

-- An empty line: the round is run with the buffer as it is, and the next begins at the same place.
empty_round :
    (fuel : ℕ) (valid : Bytes → Bool) (old rest : Bytes)
    → server_lines (suc fuel) valid old (b'\n' ∷ rest)
      ≡ server_round valid old (server_lines fuel valid (trim old) (b'\n' ∷ rest))
unfolding server_lines
empty_round fuel valid old rest = refl

stays :
    (fuel : ℕ) (valid : Bytes → Bool) (old rest : Bytes)
    → trim old ≡ old
    → valid old ≡ true
    → server_lines fuel valid old (b'\n' ∷ rest) ≡ hangs
unfolding server_lines
stays zero valid old rest t u = refl
stays (suc fuel) valid old rest t u =
    ap (λ p. server_round valid old p)
      (ap (λ b. server_lines fuel valid b (b'\n' ∷ rest)) t ∙ stays fuel valid old rest t u)
    ∙ round-valid valid old hangs u

-- How the loop ends at an empty line, with this buffer.
abbrev pub stuck : (Bytes → Bool) → Bytes → Parsed (List Bytes)
stuck valid old = if valid old && valid (trim old) then hangs else exits

second :
    (fuel : ℕ) (valid : Bytes → Bool) (old rest : Bytes) (b : Bool)
    → trim old ≡ old
    → valid old ≡ b
    → server_lines (suc fuel) valid old (b'\n' ∷ rest) ≡ (if b then hangs else exits)
second fuel valid old rest true t u = stays (suc fuel) valid old rest t u
second fuel valid old rest false t u = empty_round fuel valid old rest ∙ rw u refl

first :
    (fuel : ℕ) (valid : Bytes → Bool) (old rest : Bytes) (b : Bool)
    → valid old ≡ b
    → server_lines (suc (suc fuel)) valid old (b'\n' ∷ rest) ≡ stuck valid old
first fuel valid old rest false u = empty_round (suc fuel) valid old rest ∙ rw u refl
first fuel valid old rest true u =
    empty_round (suc fuel) valid old rest
    ∙ ap (λ p. server_round valid old p)
        (second fuel valid (trim old) rest (valid (trim old)) (trim-trim old) refl)
    ∙ passed (valid (trim old))
  where
    passed :
        (b : Bool)
        → server_round valid old (if b then hangs else exits)
          ≡ (if valid old && b then hangs else exits)
    passed true = rw u refl
    passed false = rw u refl

stuck-then :
    (valid : Bytes → Bool) (old : Bytes) (f : List Bytes → Parsed (List Bytes))
    → and_then (stuck valid old) f ≡ stuck valid old
stuck-then valid old f = ground arith

module _ (src : Sources) (name : Bytes) (ls : List Line) (h : All (IsLine src.u8_valid) ls) where
  from_file :
      (rest : Bytes)
      → src.file name ≡ some (unlines ls rest)
      → get_server_list src name
        ≡ and_then
            (server_lines
              (suc (suc (length (unlines ls rest) - length ls)))
              src.u8_valid
              (left_by (c_str (take 511 src.uninit)) ls)
              rest)
            (λ s. value (names_then ls s))
  unfolding get_server_list
  from_file rest e =
      rw (get_server_list, e) (whole_file src.u8_valid (c_str (take 511 src.uninit)) ls rest h)

  -- From a file of valid lines of 1 to 511 bytes without NUL, each of them blanks, a comment behind
  -- blanks, or a name between blanks, the list of servers is just the names, in order.
  pub get_server_list-lines :
      src.file name ≡ some (unlines ls []) → get_server_list src name ≡ value (names_of ls)
  get_server_list-lines e =
      from_file [] e ∙ ap (λ p. and_then p (λ s. value (names_then ls s))) (ended _ src.u8_valid _)

  -- If such lines are followed by an empty one, the loop never gets past it: nothing of the empty line
  -- is consumed or written, and the round is run again on what the buffer holds (the last line,
  -- trimmed, or in front of the first line whatever the stack held). The program exits where that, or
  -- that trimmed, is not valid UTF-8, and else goes round for ever.
  pub get_server_list-blank :
      (rest : Bytes)
      → src.file name ≡ some (unlines ls (b'\n' ∷ rest))
      → get_server_list src name ≡ stuck src.u8_valid (left_by (c_str (take 511 src.uninit)) ls)
  get_server_list-blank rest e =
      from_file (b'\n' ∷ rest) e
      ∙ ap (λ p. and_then p (λ s. value (names_then ls s)))
          (first (length (unlines ls (b'\n' ∷ rest)) - length ls) src.u8_valid
            (left_by (c_str (take 511 src.uninit)) ls) rest
            (src.u8_valid (left_by (c_str (take 511 src.uninit)) ls)) refl)
      ∙ stuck-then src.u8_valid (left_by (c_str (take 511 src.uninit)) ls)
          (λ s. value (names_then ls s))
