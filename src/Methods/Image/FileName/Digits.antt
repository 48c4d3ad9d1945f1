-- ===== src/Methods/Image/FileName/Digits.antt =====
-- The digits that `_set_filename` writes, and the time that they stand for.
use clip_share_desktop.Prelude.{
  ℕ, zero, suc, ◌+◌, ◌-◌, ◌*◌, ◌/◌, ◌%◌, ◌^◌, ◌<◌, ◌≤◌, ◌≡◌, refl, sym, ap, ◌∙◌, none, some, [],
  ◌∷◌, ◌++◌, Bytes, replicate, ltb, if◌then◌else◌, codes, arith, append_assoc,
}
use clip_share_desktop.Methods.Image.FileName.{base32_digit, fill_digits, image_file_name}

-- A number in base 32 with so many digits.
abbrev pub base32 : ℕ → ℕ → Bytes
base32 zero tm = []
base32 (suc n) tm = base32 n (tm / 32) ++ base32_digit (tm % 32) ∷ []

abbrev digit_value : ℕ → ℕ
digit_value c = if ltb c 58 then c - 48 else c - 87

abbrev read_digits : ℕ → Bytes → ℕ
read_digits acc [] = acc
read_digits acc (c ∷ s) = read_digits (acc * 32 + digit_value c) s

-- The number that a name of this form stands for.
abbrev pub read_base32 : Bytes → ℕ
read_base32 s = read_digits 0 s

replicate-last : (n c : ℕ) → replicate n c ++ c ∷ [] ≡ c ∷ replicate n c
replicate-last zero c = refl
replicate-last (suc n) c = ap (λ s. c ∷ s) (replicate-last n c)

base32-zero : (n : ℕ) → base32 n 0 ≡ replicate n 48
base32-zero zero = refl
base32-zero (suc n) = ap (λ s. s ++ 48 ∷ []) (base32-zero n) ∙ replicate-last n 48

power : (n : ℕ) → 32 ^ suc n ≡ 32 * 32 ^ n
power n = ground arith

positive : (n : ℕ) → 0 < 32 ^ n
positive zero = omega arith
positive (suc n) = omega (arith, power n, positive n)

below : (n tm : ℕ) → tm < 32 ^ suc n → tm / 32 < 32 ^ n
below n tm h = omega (arith, power n)

above : (n tm : ℕ) → 32 ^ suc n ≤ tm → 32 ^ n ≤ tm / 32
above n tm h = omega (arith, power n)

fill_digits-base32 :
    (slots tm : ℕ) (acc : Bytes)
    → tm < 32 ^ slots
    → fill_digits slots tm acc ≡ some (base32 slots tm ++ acc)
unfolding fill_digits
fill_digits-base32 slots zero acc h = ap (λ s. some (s ++ acc)) (sym (base32-zero slots))
fill_digits-base32 zero (suc tm) acc h = ground arith
fill_digits-base32 (suc slots) (suc tm) acc h =
    fill_digits-base32 slots (suc tm / 32) (base32_digit (suc tm % 32) ∷ acc)
      (below slots (suc tm) h)
    ∙ ap some
        (sym (append_assoc (base32 slots (suc tm / 32)) (base32_digit (suc tm % 32) ∷ []) acc))

fill_digits-none : (slots tm : ℕ) (acc : Bytes) → 32 ^ slots ≤ tm → fill_digits slots tm acc ≡ none
unfolding fill_digits
fill_digits-none zero zero acc h = ground arith
fill_digits-none (suc slots) zero acc h = absurd (omega (arith, positive (suc slots)))
fill_digits-none zero (suc tm) acc h = refl
fill_digits-none (suc slots) (suc tm) acc h =
    fill_digits-none slots (suc tm / 32) (base32_digit (suc tm % 32) ∷ acc) (above slots (suc tm) h)

read_digits-append :
    (acc : ℕ) (s t : Bytes) → read_digits acc (s ++ t) ≡ read_digits (read_digits acc s) t
read_digits-append acc [] t = refl
read_digits-append acc (c ∷ s) t = read_digits-append (acc * 32 + digit_value c) s t

digit_value-digit : (d : ℕ) → d < 32 → digit_value (base32_digit d) ≡ d
digit_value-digit d h = ground arith

-- A number is read back from its digits.
pub read_base32-base32 : (n tm : ℕ) → tm < 32 ^ n → read_base32 (base32 n tm) ≡ tm
read_base32-base32 zero tm h = omega arith
read_base32-base32 (suc n) tm h =
    read_digits-append 0 (base32 n (tm / 32)) (base32_digit (tm % 32) ∷ [])
    ∙ omega (
      arith,
      read_base32-base32 n (tm / 32) (below n tm h),
      digit_value-digit (tm % 32) (omega arith),
    )

-- The name of an image is its time in milliseconds, in nine base-32 digits, for the times below 2 ^ 45.
pub image_file_name-base32 :
    (tm : ℕ) → tm < 2 ^ 45 → image_file_name tm ≡ some (base32 9 tm ++ codes ".png")
unfolding image_file_name
image_file_name-base32 tm h = fill_digits-base32 9 tm (codes ".png") h

-- From 2 ^ 45 milliseconds on, which is the year 3084, the digits run over the front of the buffer.
pub image_file_name-none : (tm : ℕ) → 2 ^ 45 ≤ tm → image_file_name tm ≡ none
unfolding image_file_name
image_file_name-none tm h = fill_digits-none 9 tm (codes ".png") h
