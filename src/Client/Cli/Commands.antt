-- ===== src/Client/Cli/Commands.antt =====
-- Which command lines are accepted, and as what.
use clip_share_desktop.Prelude.{
  ℕ, ◌≡◌, refl, Option, none, some, List, [], ◌∷◌, Bytes, str_eq, ltb, Option-cases, inl, inr, ◌==◌,
  if◌then◌else◌, codes, arith,
}
use clip_share_desktop.Config.Numbers.Ranges.{numeral, IsDigits, number_of}
use clip_share_desktop.Config.Servers.{Sources, ipv4_aton}
use clip_share_desktop.Proto.Status.{no_args}
use clip_share_desktop.Client.Host.{display_of-numeral}
use clip_share_desktop.Client.Cli.{
  command_of, Parsed, invalid, scan_command, method_command, with_display, with_server, parse_args,
}

-- The command words, and the codes of their commands.
abbrev pub commands : List (Bytes × ℕ)
commands =
    (codes "sc", 126)
    ∷ (codes "g", 1)
    ∷ (codes "s", 2)
    ∷ (codes "fg", 3)
    ∷ (codes "fs", 4)
    ∷ (codes "i", 5)
    ∷ (codes "ic", 6)
    ∷ (codes "is", 7)
    ∷ (codes "in", 125)
    ∷ []

abbrev pub lookup : Bytes → List (Bytes × ℕ) → ℕ
lookup name [] = 0
lookup name ((word, code) ∷ rest) = if str_eq name word then code else lookup name rest

command_of-lookup : (name : Bytes) → command_of name ≡ lookup name commands
unfolding command_of str_eq
command_of-lookup [] = refl
command_of-lookup (a ∷ []) = ground arith
command_of-lookup (a ∷ b ∷ []) = ground arith
command_of-lookup (a ∷ b ∷ c ∷ s) = ground arith

-- What the display is taken for.
abbrev pub displayed : ℕ → ℕ → Option ℕ → Parsed
displayed code addr none = method_command code addr no_args
displayed code addr (some n) =
    if code == 7
    then if ltb n 65536 then method_command code addr (record { display = n }) else invalid
    else method_command code addr no_args

-- What a command line means: the code of the command, the address if it is one, and the number of the
-- display if there is a third argument.
abbrev pub meaning : ℕ → Option ℕ → Option ℕ → Parsed
meaning code addr display =
    if code == 126
    then scan_command
    else if code == 0
    then invalid
    else elim addr [ none ↦ invalid | some a ↦ displayed code a display ]

-- The third argument as it is written: nothing, or a numeral.
abbrev pub written : Option (List ℕ) → List Bytes
written none = []
written (some ds) = numeral ds ∷ []

abbrev pub IsNumeral : Option (List ℕ) → Type 0
IsNumeral none = Unit
IsNumeral (some []) = ⊥
IsNumeral (some (d ∷ ds)) = IsDigits (d ∷ ds)

abbrev pub number : Option (List ℕ) → Option ℕ
number none = none
number (some ds) = some (number_of 0 ds)

with_display-numeral :
    (code addr : ℕ) (ds : Option (List ℕ))
    → IsNumeral ds
    → with_display code addr (written ds) ≡ displayed code addr (number ds)
unfolding with_display
with_display-numeral code addr none h = refl
with_display-numeral code addr (some []) h = absurd h
with_display-numeral code addr (some (d ∷ ds)) h = ground (arith, display_of-numeral d ds h)

with_server-lookup :
    (src : Sources) (code : ℕ) (server : Bytes) (ds : Option (List ℕ))
    → IsNumeral ds
    → with_server src code (server ∷ written ds)
      ≡ elim (ipv4_aton src server) [ none ↦ invalid | some a ↦ displayed code a (number ds) ]
unfolding with_server
with_server-lookup src code server ds h = elim (Option-cases (ipv4_aton src server)) [
  | inl e ↦ ground arith
  | inr (a, e) ↦ ground (arith, with_display-numeral code a ds h)
]

-- A command line of a name, a server and at most a numeral means what the table of the command words
-- says of the name as a whole: the scan needs nothing more; another word needs an address, and only
-- the screenshot looks at the numeral, which must be below 2 ^ 16, 0 included. Any other name is
-- invalid, and so is a command word other than that of the scan without a server.
pub parse_args-meaning :
    (src : Sources) (name server : Bytes) (ds : Option (List ℕ))
    → IsNumeral ds
    → (parse_args src (name ∷ server ∷ written ds)
        ≡ meaning (lookup name commands) (ipv4_aton src server) (number ds))
      × (parse_args src (name ∷ []) ≡ meaning (lookup name commands) none none)
unfolding parse_args
parse_args-meaning src name server ds h = (
  ground (arith, command_of-lookup name, with_server-lookup src (lookup name commands) server ds h),
  ground (arith, command_of-lookup name),
)
