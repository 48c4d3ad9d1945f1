-- ===== src/Tests/Settings.antt =====
-- Numbers, lines and lists of the configuration file.
use clip_share_desktop.Prelude.{
  ℕ, ◌*◌, ◌≡◌, ◌≢◌, refl, true, false, ◌&&◌, none, some, List, [], ◌∷◌, ◌++◌, Bytes, All, ltb, leb,
  if◌then◌else◌, pos, arith, codes,
}
use clip_share_desktop.Config.Defaults.{initial_config}
use clip_share_desktop.Config.Numbers.{value, exits, hangs, set_uint32, set_int64}
use clip_share_desktop.Config.Numbers.Ranges.{
  numeral, size_letter, size_factor, number_of, size_limit, IsDigits, trillion, set_int64-numeral,
}
use clip_share_desktop.Config.Servers.{Sources, is_ipv4, get_server_list}
use clip_share_desktop.Config.Servers.Shapes.{Line, comment, server, IsLine, unlines, left_by}
use clip_share_desktop.Config.Servers.Lists.{stuck, get_server_list-lines, get_server_list-blank}
use clip_share_desktop.Text.{c_str}
use clip_share_desktop.Config.Parse.{parse_line, set_key}
use clip_share_desktop.Config.Parse.Lines.{IsWord, parse_line-words}

four_m : set_uint32 (codes "4M") ≡ value 4000000
unfolding set_uint32
four_m = refl

one_two : IsDigits (1 ∷ 2 ∷ [])
one_two = (omega arith, (omega arith, tt))

set_int64-numeral_example : set_int64 (numeral (1 ∷ 2 ∷ []) ++ size_letter (trillion true)) ≡ (
    if ltb 0 (number_of 0 (1 ∷ 2 ∷ []))
      && leb (number_of 0 (1 ∷ 2 ∷ [])) (size_limit (trillion true))
    then value (pos (number_of 0 (1 ∷ 2 ∷ []) * size_factor (trillion true)))
    else exits)
set_int64-numeral_example = set_int64-numeral 1 (2 ∷ []) (trillion true) one_two (omega arith)

abbrev large : List ℕ
large = 2 ∷ 2 ∷ 3 ∷ 3 ∷ 7 ∷ 2 ∷ 0 ∷ 3 ∷ 6 ∷ 8 ∷ 5 ∷ 4 ∷ 7 ∷ 7 ∷ 5 ∷ 8 ∷ 0 ∷ 8 ∷ []

large-IsDigits : IsDigits (9 ∷ large)
large-IsDigits = omega arith

abbrev sources : Bytes → Sources
sources bytes = record {
  file = λ name. some bytes;
  u8_valid = λ s. true;
  inet_aton = λ s. none;
  uninit = [];
}

abbrev two_lines : List Line
two_lines = comment [] (codes " c") ∷ server (codes " ") (codes "a") (codes "\t") ∷ []

two_lines-IsLine : All (IsLine (λ s. true)) two_lines
two_lines-IsLine = (
  record {
    shaped = tt;
    full = λ e. cc;
    short = omega arith;
    flat = ((λ e. cc), ((λ e. cc), ((λ e. cc), tt)));
    text = ((λ e. cc), ((λ e. cc), ((λ e. cc), tt)));
    utf8 = refl;
  },
  (
    record {
      shaped = (
        ((omega arith, omega arith), tt),
        (omega arith, omega arith),
        refl,
        ((omega arith, omega arith), tt),
      );
      full = λ e. cc;
      short = omega arith;
      flat = ((λ e. cc), ((λ e. cc), ((λ e. cc), tt)));
      text = ((λ e. cc), ((λ e. cc), ((λ e. cc), tt)));
      utf8 = refl;
    },
    tt,
  ),
)

get_server_list-lines_example :
    get_server_list (sources (unlines two_lines [])) (codes "f") ≡ value (codes "a" ∷ [])
get_server_list-lines_example =
    get_server_list-lines (sources (unlines two_lines [])) (codes "f") two_lines two_lines-IsLine
      refl

-- No byte of the stack is valid, and the file begins with an empty line.
abbrev never_valid : Sources
never_valid = record {
  file = λ name. some (10 ∷ []);
  u8_valid = λ s. false;
  inet_aton = λ s. none;
  uninit = 255 ∷ [];
}

get_server_list-blank_example :
    get_server_list never_valid (codes "f")
    ≡ stuck never_valid.u8_valid (left_by (c_str (255 ∷ [])) [])
get_server_list-blank_example = get_server_list-blank never_valid (codes "f") [] tt [] refl

exits_or_hangs :
    (get_server_list never_valid (codes "f") ≡ exits)
    × (get_server_list (sources (codes "a\n\n")) (codes "f") ≡ hangs)
unfolding get_server_list c_str
exits_or_hangs = (refl, refl)

abbrev key : Bytes
key = codes "udp_port"

key-IsWord : IsWord key
key-IsWord = record { front = refl; back = refl; full = λ e. cc; short = omega arith }

port-IsWord : IsWord (codes "80")
port-IsWord = record { front = refl; back = refl; full = λ e. cc; short = omega arith }

key_plain : All (λ d. d ≢ b'=') key
key_plain = (
  (λ e. cc),
  ((λ e. cc), ((λ e. cc), ((λ e. cc), ((λ e. cc), ((λ e. cc), ((λ e. cc), ((λ e. cc), tt))))))),
)

parse_line-words_example :
    parse_line
      (sources [])
      (([] ++ (key ++ codes " ")) ++ b'=' ∷ (codes " " ++ (codes "80" ++ codes "\r\n")))
      initial_config
    ≡ set_key (sources []) key (codes "80") initial_config
parse_line-words_example =
    parse_line-words (sources []) initial_config [] key (codes " ") (codes " ") (codes "80")
      (codes "\r\n") tt (refl, tt) (refl, tt) (refl, (refl, tt)) key-IsWord port-IsWord key_plain
      refl

abbrev address_lines : List Bytes
address_lines = codes "a" ∷ codes "1.2.3.4" ∷ []

read_list : get_server_list (sources (codes "a\n1.2.3.4\n")) (codes "f") ≡ value address_lines
unfolding get_server_list
read_list = refl

-- The address is one, so it is among those that were kept.
is_address : is_ipv4 (codes "1.2.3.4") ≡ true
unfolding is_ipv4
is_address = refl
