-- ===== src/Config/Numbers/Ranges.antt =====
-- Which numbers the parsers of utils/config.c let through, and what they make of a numeral.
use clip_share_desktop.Prelude.{
  ℕ, ◌+◌, ◌-◌, ◌*◌, ◌^◌, ◌<◌, ◌≡◌, refl, ap, ◌∙◌, Bool, true, false, ◌&&◌, ◌||◌, List, [], ◌∷◌,
  ◌++◌, map, All, Bytes, ltb, leb, if◌then◌else◌, pos, arith, to_int64, is_neg, exceeds, to_ℕ,
}
use clip_share_desktop.Config.Numbers.{
  Parsed, value, exits, overflows, is_digit, scan, read_number, strtoull_bits, set_uint16,
  set_uint32, uint16_of, uint32_of, int64_of, suffix_uint32, in_uint32, set_int64,
}

in_uint32-bound : (p : Parsed ℕ) (n : ℕ) → in_uint32 p ≡ value n → (0 < n) × (n < 4294967295)
in_uint32-bound p n h = ground arith

uint32_of-bound :
    (b : Bool) (p : Parsed ℕ) (n : ℕ)
    → (if b then exits else in_uint32 p) ≡ value n
    → (0 < n) × (n < 4294967295)
uint32_of-bound true p n h = ground arith
uint32_of-bound false p n h = in_uint32-bound p n h

-- Whatever the string is, a number that `set_uint32` sets is from 1 to 2 ^ 32 - 2.
pub set_uint32-bound : (str : Bytes) (n : ℕ) → set_uint32 str ≡ value n → (0 < n) × (n < 2 ^ 32 - 1)
unfolding set_uint32
set_uint32-bound str n h =
    let s = scan str in
    let v = to_int64 (strtoull_bits s) in
    uint32_of-bound (is_neg v || exceeds v 4294967294) (suffix_uint32 (to_ℕ v) s.end) n h

-- A numeral is a first digit and more of them; a suffix multiplies it.
abbrev pub numeral : List ℕ → Bytes
numeral ds = map (λ d. 48 + d) ds

abbrev pub IsDigits : List ℕ → Type 0
IsDigits = All (λ d. d < 10)

abbrev pub number_of : ℕ → List ℕ → ℕ
number_of acc [] = acc
number_of acc (d ∷ ds) = number_of (acc * 10 + d) ds

pub data Suffix : Type 0 where
  ones kilo mega giga : Suffix

abbrev pub letter : Suffix → Bytes
letter ones = []
letter kilo = b'k' ∷ []
letter mega = b'M' ∷ []
letter giga = b'G' ∷ []

abbrev pub factor : Suffix → ℕ
factor ones = 1
factor kilo = 1000
factor mega = 1000000
factor giga = 1000000000

read_number-numeral :
    (acc : ℕ) (ds : List ℕ) (u : Suffix)
    → IsDigits ds
    → read_number acc (numeral ds ++ letter u) ≡ (number_of acc ds, letter u)
read_number-numeral acc [] ones h = refl
read_number-numeral acc [] kilo h = refl
read_number-numeral acc [] mega h = refl
read_number-numeral acc [] giga h = refl
read_number-numeral acc (d ∷ ds) u h = ground (arith, read_number-numeral (acc * 10 + d) ds u h.1)

pub scan-numeral :
    (d : ℕ) (ds : List ℕ) (u : Suffix)
    → IsDigits (d ∷ ds)
    → scan (numeral (d ∷ ds) ++ letter u)
      ≡ record { minus = false; size = number_of 0 (d ∷ ds); end = letter u }
scan-numeral d ds u h = ground (arith, read_number-numeral 0 (d ∷ ds) u h)

uint32_of-numeral :
    (n : ℕ) (u : Suffix)
    → uint32_of (record { minus = false; size = n; end = letter u })
      ≡ (if ltb 0 n && ltb (n * factor u) (2 ^ 32 - 1) then value (n * factor u) else exits)
uint32_of-numeral n ones = ground arith
uint32_of-numeral n kilo = ground arith
uint32_of-numeral n mega = ground arith
uint32_of-numeral n giga = ground arith

-- A numeral without a suffix, or with k, M or G, is what it says, if that is from 1 to 2 ^ 32 - 2, and
-- ends the program otherwise, however many digits it has.
pub set_uint32-numeral :
    (d : ℕ) (ds : List ℕ) (u : Suffix)
    → IsDigits (d ∷ ds)
    → set_uint32 (numeral (d ∷ ds) ++ letter u) ≡ (
        if ltb 0 (number_of 0 (d ∷ ds)) && ltb (number_of 0 (d ∷ ds) * factor u) (2 ^ 32 - 1)
        then value (number_of 0 (d ∷ ds) * factor u)
        else exits)
unfolding set_uint32
set_uint32-numeral d ds u h =
    ap uint32_of (scan-numeral d ds u h) ∙ uint32_of-numeral (number_of 0 (d ∷ ds)) u

uint16_of-numeral :
    (n : ℕ)
    → uint16_of (record { minus = false; size = n; end = [] })
      ≡ (if ltb n (2 ^ 16) then value n else exits)
uint16_of-numeral n = ground arith

-- A port or a version is the number of its digits, 0 included, and ends the program from 2 ^ 16 on.
pub set_uint16-numeral :
    (d : ℕ) (ds : List ℕ)
    → IsDigits (d ∷ ds)
    → set_uint16 (numeral (d ∷ ds) ++ letter ones)
      ≡ (if ltb (number_of 0 (d ∷ ds)) (2 ^ 16) then value (number_of 0 (d ∷ ds)) else exits)
unfolding set_uint16
set_uint16-numeral d ds h =
    ap uint16_of (scan-numeral d ds ones h) ∙ uint16_of-numeral (number_of 0 (d ∷ ds))

-- The suffixes of a size, in small letters and in capitals.
pub data SizeSuffix : Type 0 where
  plain : SizeSuffix
  thousand million billion trillion : Bool → SizeSuffix

abbrev pub size_letter : SizeSuffix → Bytes
size_letter plain = []
size_letter (thousand false) = b'k' ∷ []
size_letter (thousand true) = b'K' ∷ []
size_letter (million false) = b'm' ∷ []
size_letter (million true) = b'M' ∷ []
size_letter (billion false) = b'g' ∷ []
size_letter (billion true) = b'G' ∷ []
size_letter (trillion false) = b't' ∷ []
size_letter (trillion true) = b'T' ∷ []

abbrev pub size_factor : SizeSuffix → ℕ
size_factor plain = 1
size_factor (thousand capital) = 1000
size_factor (million capital) = 1000000
size_factor (billion capital) = 1000000000
size_factor (trillion capital) = 1000000000000

-- The largest number that each suffix may follow.
abbrev pub size_limit : SizeSuffix → ℕ
size_limit plain = 2 ^ 63 - 1
size_limit (thousand capital) = 2305843009213693
size_limit (million capital) = 2305843009213
size_limit (billion capital) = 2305843009
size_limit (trillion capital) = 2305843

abbrev begins_digit : Bytes → Bool
begins_digit [] = false
begins_digit (c ∷ s) = is_digit c

read_number-stops :
    (acc : ℕ) (ds : List ℕ) (end : Bytes)
    → begins_digit end ≡ false
    → IsDigits ds
    → read_number acc (numeral ds ++ end) ≡ (number_of acc ds, end)
read_number-stops acc [] [] e h = refl
read_number-stops acc [] (c ∷ end) e h = rw e refl
read_number-stops acc (d ∷ ds) end e h =
    ground (arith, read_number-stops (acc * 10 + d) ds end e h.1)

pub scan-stops :
    (d : ℕ) (ds : List ℕ) (end : Bytes)
    → begins_digit end ≡ false
    → IsDigits (d ∷ ds)
    → scan (numeral (d ∷ ds) ++ end)
      ≡ record { minus = false; size = number_of 0 (d ∷ ds); end = end }
scan-stops d ds end e h = ground (arith, read_number-stops 0 (d ∷ ds) end e h)

no_digit : (u : SizeSuffix) → begins_digit (size_letter u) ≡ false
no_digit plain = refl
no_digit (thousand false) = refl
no_digit (thousand true) = refl
no_digit (million false) = refl
no_digit (million true) = refl
no_digit (billion false) = refl
no_digit (billion true) = refl
no_digit (trillion false) = refl
no_digit (trillion true) = refl

int64_of-size :
    (n : ℕ) (u : SizeSuffix)
    → n < 2 ^ 63
    → int64_of (record { minus = false; size = n; end = size_letter u })
      ≡ (if ltb 0 n && leb n (size_limit u) then value (pos (n * size_factor u)) else exits)
int64_of-size n plain h = ground arith
int64_of-size n (thousand false) h = ground arith
int64_of-size n (thousand true) h = ground arith
int64_of-size n (million false) h = ground arith
int64_of-size n (million true) h = ground arith
int64_of-size n (billion false) h = ground arith
int64_of-size n (billion true) h = ground arith
int64_of-size n (trillion false) h = ground arith
int64_of-size n (trillion true) h = ground arith

-- A numeral below 2 ^ 63 without a suffix, or with k, m, g or t, in small letters or capitals, is what
-- it says, if it is not 0 and up to the limit of the suffix, and ends the program otherwise. The limits
-- are a quarter of what would fit: from 2305843009213694k on, a size that is below 2 ^ 63 is refused.
pub set_int64-numeral :
    (d : ℕ) (ds : List ℕ) (u : SizeSuffix)
    → IsDigits (d ∷ ds)
    → number_of 0 (d ∷ ds) < 2 ^ 63
    → set_int64 (numeral (d ∷ ds) ++ size_letter u) ≡ (
        if ltb 0 (number_of 0 (d ∷ ds)) && leb (number_of 0 (d ∷ ds)) (size_limit u)
        then value (pos (number_of 0 (d ∷ ds) * size_factor u))
        else exits)
unfolding set_int64
set_int64-numeral d ds u h b =
    ap int64_of (scan-stops d ds (size_letter u) (no_digit u) h)
    ∙ int64_of-size (number_of 0 (d ∷ ds)) u b

-- The numeral of 2 ^ 63, which the cast makes negative, passes the limit of the suffix k, and its
-- product leaves the 64 bits.
pub set_int64-overflows :
    (d : ℕ) (ds : List ℕ)
    → IsDigits (d ∷ ds)
    → number_of 0 (d ∷ ds) ≡ 2 ^ 63
    → set_int64 (numeral (d ∷ ds) ++ letter kilo) ≡ overflows
unfolding set_int64
set_int64-overflows d ds h e =
    ap int64_of (scan-numeral d ds kilo h)
    ∙ ap (λ n. int64_of (record { minus = false; size = n; end = letter kilo })) e
