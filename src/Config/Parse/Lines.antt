-- ===== src/Config/Parse/Lines.antt =====
-- What `parse_line` makes of a line with blanks around the key and the value.
use clip_share_desktop.Prelude.{
  ◌<◌, ◌≡◌, ◌≢◌, refl, ap, ◌∙◌, false, [], ◌∷◌, ◌++◌, Bytes, length, All, arith, All-append, some,
}
use clip_share_desktop.Config.{Config}
use clip_share_desktop.Config.Servers.{Sources, trim, trim_back}
use clip_share_desktop.Config.Servers.Trim.{
  Blanks, begins_blank, trim_front-Blanks, trim_back-append, trim_front-append,
}
use clip_share_desktop.Config.Parse.{
  split_eq, bad_length, line_max_len, set_trimmed, set_key, parse_line,
}
use clip_share_desktop.Text.{first_is}

-- A word begins and ends with a character that is not blank, and is short enough for the buffer.
pub record IsWord (s : Bytes) : Type 0 where
  pub front : begins_blank s ≡ false
  pub back : trim_back s ≡ s
  pub full : s ≢ []
  pub short : length s < line_max_len

trim-word : (a s b : Bytes) → Blanks a → IsWord s → Blanks b → trim (a ++ (s ++ b)) ≡ s
trim-word a s b ha w hb =
    ap trim_back (trim_front-Blanks a (s ++ b) ha ∙ trim_front-append s b w.full w.front)
    ∙ trim_back-append s b hb
    ∙ w.back

split_eq-append : (k v : Bytes) → All (λ c. c ≢ b'=') k → split_eq (k ++ b'=' ∷ v) ≡ some (k, v)
split_eq-append [] v h = refl
split_eq-append (c ∷ k) v h = ground (arith, split_eq-append k v h.1)

not_bad : (s : Bytes) → IsWord s → bad_length s ≡ false
not_bad [] w = absurd (w.full refl)
not_bad (c ∷ s) w = ground (arith, w.short)

used :
    (src : Sources) (key v : Bytes) (c : Config)
    → first_is b'#' key ≡ false
    → bad_length key ≡ false
    → bad_length v ≡ false
    → set_trimmed src key v c ≡ set_key src key v c
used src key v c p q r = rw (p, q, r) refl

no_eq : (b : Bytes) → Blanks b → All (λ d. d ≢ b'=') b
no_eq [] h = tt
no_eq (c ∷ b) h = ground (arith, no_eq b h.1)

parsed :
    (src : Sources) (line k v : Bytes) (c : Config)
    → split_eq line ≡ some (k, v)
    → parse_line src line c ≡ set_trimmed src (trim k) (trim v) c
unfolding parse_line
parsed src line k v c e = rw (parse_line, e) refl

-- Blanks around the key and around the value, the line end among them, do not matter: the line sets
-- what its key and its value say. The key has no `=` and is no comment; neither of them is empty, begins
-- or ends with a blank, or has 2047 bytes or more.
pub parse_line-words :
    (src : Sources) (c : Config) (b1 key b2 b3 v b4 : Bytes)
    → Blanks b1
    → Blanks b2
    → Blanks b3
    → Blanks b4
    → IsWord key
    → IsWord v
    → All (λ d. d ≢ b'=') key
    → first_is b'#' key ≡ false
    → parse_line src ((b1 ++ (key ++ b2)) ++ b'=' ∷ (b3 ++ (v ++ b4))) c ≡ set_key src key v c
parse_line-words src c b1 key b2 b3 v b4 h1 h2 h3 h4 wk wv e n =
    let k = b1 ++ (key ++ b2) in
    let plain : All (λ d. d ≢ b'=') k =
      All-append (λ d. d ≢ b'=') b1 (key ++ b2) (no_eq b1 h1)
        (All-append (λ d. d ≢ b'=') key b2 e (no_eq b2 h2)) in
    parsed src (k ++ b'=' ∷ (b3 ++ (v ++ b4))) k (b3 ++ (v ++ b4)) c
      (split_eq-append k (b3 ++ (v ++ b4)) plain)
    ∙ ap (λ x. set_trimmed src x (trim (b3 ++ (v ++ b4))) c) (trim-word b1 key b2 h1 wk h2)
    ∙ ap (λ x. set_trimmed src key x c) (trim-word b3 v b4 h3 wv h4)
    ∙ used src key v c n (not_bad key wk) (not_bad v wv)
