-- ===== src/Text/Crlf.antt =====
-- `convert_eol` of utils/utils.c where lines end in CRLF: `_realloc_for_crlf` and the conversion in place,
-- from the end of the buffer to its front.
pub mod InPlace
pub mod Meaning
use clip_share_desktop.Prelude.{
  ℕ, zero, suc, ◌+◌, ◌-◌, Bool, true, false, not, ◌&&◌, ◌||◌, Option, none, some, List, [], ◌∷◌,
  ◌++◌, Bytes, length, leb, ◌==◌, if◌then◌else◌,
}
use clip_share_desktop.Text.{c_str, convert_to_lf}

-- `buf[i]`, and `buf[i] = c`; `none` is outside of the buffer.
unfoldable pub load : ℕ → Bytes → Option ℕ
load i [] = none
load zero (c ∷ buf) = some c
load (suc i) (c ∷ buf) = load i buf

abbrev pub onto : ℕ → Option Bytes → Option Bytes
onto c none = none
onto c (some buf) = some (c ∷ buf)

unfoldable pub store : ℕ → ℕ → Bytes → Option Bytes
store i x [] = none
store zero x (c ∷ buf) = some (x ∷ buf)
store (suc i) x (c ∷ buf) = onto c (store i x buf)

-- Is `\r` not the character before, where there is one?
abbrev pub not_cr : Option ℕ → Bool
not_cr none = true
not_cr (some c) = not (c == b'\r')

-- The count of `_realloc_for_crlf`, with the character before.
unfoldable pub increase : Option ℕ → Bytes → ℕ
increase prev [] = 0
increase prev (c ∷ s) =
    let rest = increase (some c) s in if c == b'\n' && not_cr prev then suc rest else rest

-- `str[cur_ind - 1] != '\r'`, where there is such a character
abbrev pub before : ℕ → Bytes → Option ℕ
before zero buf = none
before (suc i) buf = load i buf

-- What a round does with the character `c` at `cur`: the buffer, and the next `new_ind`.
abbrev pub move_char : ℕ → ℕ → ℕ → Option Bytes → Option Bytes × ℕ
move_char cur new c none = (none, new)
move_char cur new c (some buf) =
    if c == b'\n' && not_cr (before cur buf)
    then (store (new - 1) b'\r' buf, new - 2)
    else (some buf, new - 1)

abbrev pub crlf_round : ℕ → ℕ → Bytes → Option ℕ → Option Bytes × ℕ
crlf_round cur new buf none = (none, new)
crlf_round cur new buf (some c) = move_char cur new c (store new c buf)

-- The loop of `_convert_to_crlf` from `cur_ind` down to 0.
unfoldable pub crlf_loop : ℕ → ℕ → Option Bytes → Option Bytes
unfolding load store
crlf_loop cur new none = none
crlf_loop zero new (some buf) = (crlf_round zero new buf (load zero buf)).0
crlf_loop (suc cur) new (some buf) =
    let r = crlf_round (suc cur) new buf (load (suc cur) buf) in crlf_loop cur r.1 r.0

-- `strnlen(str, …)` in a buffer that has a NUL.
abbrev pub start : ℕ → Option Bytes → Option Bytes
start new_len none = none
start new_len (some buf) = crlf_loop (length (c_str buf) - 1) (new_len - 1) (some buf)

unfoldable pub convert_to_crlf : Bytes → ℕ → Option Bytes
unfolding store crlf_loop c_str
convert_to_crlf buf new_len = start new_len (store new_len 0 buf)

-- What `realloc` gives: the bytes behind the text and its NUL, or no memory.
abbrev pub Heap : Type 0
Heap = Option Bytes

-- What `convert_eol` leaves: the buffer with the length, -1 and no buffer, or a write outside.
pub data Converted : Type 0 where
  converted : Bytes → ℕ → Converted
  failed overrun : Converted

abbrev pub written : ℕ → Option Bytes → Converted
written len none = overrun
written len (some buf) = converted buf len

abbrev pub enlarged : Bytes → ℕ → Heap → Converted
enlarged s new_len none = failed
enlarged s new_len (some behind) = written new_len (convert_to_crlf (s ++ (0 ∷ behind)) new_len)

-- `convert_eol` on a text `s` of a buffer that is just large enough.
unfoldable pub convert_eol : Heap → Bool → Bytes → Converted
unfolding increase convert_to_crlf convert_to_lf
convert_eol heap true s = converted (convert_to_lf s ++ (0 ∷ [])) (length (convert_to_lf s))
convert_eol heap false s =
    let more = increase none s in
    if more == 0
    then converted (s ++ (0 ∷ [])) (length s)
    else if leb 0xFFFFFFFF (length s + more)
    then failed
    else enlarged s (length s + more) heap
