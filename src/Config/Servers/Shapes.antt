-- ===== src/Config/Servers/Shapes.antt =====
-- The lines of a file of servers, and what `get_server_list` adds for each.
use clip_share_desktop.Prelude.{
  ◌≤◌, ◌≡◌, ◌≢◌, ap, ◌∙◌, Bool, true, false, List, [], ◌∷◌, ◌++◌, Bytes, length, All, arith,
}
use clip_share_desktop.Config.Servers.{add_server, trim}
use clip_share_desktop.Config.Servers.Trim.{
  AreBlank, IsVisible, trim-blank, trim-visible, trim-begins,
}
use clip_share_desktop.Text.{first_is}
use clip_share_desktop.Text.Eol.{NoNul}

-- A line of the file: blanks, a comment behind blanks, or a name between blanks.
pub data Line : Type 0 where
  blanks : Bytes → Line
  comment : Bytes → Bytes → Line
  server : Bytes → Bytes → Bytes → Line

abbrev pub text_of : Line → Bytes
text_of (blanks a) = a
text_of (comment a rest) = a ++ b'#' ∷ rest
text_of (server a name b) = a ++ (name ++ b)

-- A name begins and ends with a byte above 32, and not with `#`.
abbrev pub IsShaped : Line → Type 0
IsShaped (blanks a) = AreBlank a
IsShaped (comment a rest) = AreBlank a
IsShaped (server a name b) = AreBlank a × IsVisible name × (first_is b'#' name ≡ false) × AreBlank b

-- The format of `fscanf` takes such a line whole, and it is valid.
pub record IsLine (valid : Bytes → Bool) (l : Line) : Type 0 where
  pub shaped : IsShaped l
  pub full : text_of l ≢ []
  pub short : length (text_of l) ≤ 511
  pub flat : All (λ c. c ≢ b'\n') (text_of l)
  pub text : NoNul (text_of l)
  pub utf8 : valid (text_of l) ≡ true

abbrev pub unlines : List Line → Bytes → Bytes
unlines [] rest = rest
unlines (l ∷ ls) rest = text_of l ++ b'\n' ∷ unlines ls rest

-- The names in front of `more`.
abbrev pub names_then : List Line → List Bytes → List Bytes
names_then [] more = more
names_then (blanks a ∷ ls) more = names_then ls more
names_then (comment a rest ∷ ls) more = names_then ls more
names_then (server a name b ∷ ls) more = name ∷ names_then ls more

abbrev pub names_of : List Line → List Bytes
names_of ls = names_then ls []

-- What the buffer holds behind the lines.
abbrev pub left_by : Bytes → List Line → Bytes
left_by old [] = old
left_by old (l ∷ ls) = left_by (trim (text_of l)) ls

add_server-comment : (s : Bytes) (servers : List Bytes) → add_server (b'#' ∷ s) servers ≡ servers
add_server-comment s servers = ground arith

add_server-name :
    (name : Bytes) (servers : List Bytes)
    → IsVisible name
    → first_is b'#' name ≡ false
    → add_server name servers ≡ name ∷ servers
add_server-name [] servers h n = absurd h
add_server-name (c ∷ s) servers h n = ground (arith, n)

-- What a line adds, by its shape.
pub add_server-line :
    (l : Line) (servers : List Bytes)
    → IsShaped l
    → add_server (trim (text_of l)) servers ≡ names_then (l ∷ []) servers
add_server-line (blanks a) servers h = ap (λ s. add_server s servers) (trim-blank a h)
add_server-line (comment a rest) servers h =
    ap (λ s. add_server s servers) (trim-begins a b'#' rest h (omega arith))
    ∙ add_server-comment _ servers
add_server-line (server a name b) servers (ha, hn, n, hb) =
    ap (λ s. add_server s servers) (trim-visible a name b ha hn hb)
    ∙ add_server-name name servers hn n
