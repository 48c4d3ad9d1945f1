-- ===== src/Scan/Filter/Members.antt =====
-- Which addresses `filter_addresses` leaves.
use clip_share_desktop.Prelude.{
  ℕ, zero, suc, ◌≤◌, ◌≡◌, refl, ap, ◌∙◌, Bool, true, false, not, ◌||◌, ◌&&◌, List, [], ◌∷◌, Bytes,
  length, str_eq, str_eq→eq, arith,
}
use clip_share_desktop.Scan.Filter.{
  last_first, swap_in_last, is_own, remove_own, insert, sort, remove_repeated, remove_duplicates,
  filter_addresses,
}

-- Is the address in the list?
abbrev pub listed : Bytes → List Bytes → Bool
listed a [] = false
listed a (b ∷ xs) = str_eq b a || listed a xs

listed-last_first :
    (a y : Bytes) (xs : List Bytes) → listed a (last_first y xs) ≡ (str_eq y a || listed a xs)
listed-last_first a y [] = refl
listed-last_first a y (l ∷ xs) = ground arith

pub listed-swap_in_last : (a : Bytes) (xs : List Bytes) → listed a (swap_in_last xs) ≡ listed a xs
listed-swap_in_last a [] = refl
listed-swap_in_last a (y ∷ []) = refl
listed-swap_in_last a (y ∷ z ∷ xs) =
    listed-last_first a y (swap_in_last (z ∷ xs))
    ∙ ap (λ b. str_eq y a || b) (listed-swap_in_last a (z ∷ xs))

length-last_first : (y : Bytes) (xs : List Bytes) → length (last_first y xs) ≡ suc (length xs)
length-last_first y [] = refl
length-last_first y (l ∷ xs) = refl

pub length-swap_in_last : (xs : List Bytes) → length (swap_in_last xs) ≡ length xs
length-swap_in_last [] = refl
length-swap_in_last (y ∷ []) = refl
length-swap_in_last (y ∷ z ∷ xs) =
    length-last_first y (swap_in_last (z ∷ xs)) ∙ ap suc (length-swap_in_last (z ∷ xs))

same_own : (addrs : List Bytes) (s a : Bytes) → str_eq s a ≡ true → is_own addrs s ≡ is_own addrs a
same_own addrs s a e = ap (is_own addrs) (str_eq→eq s a e)

-- The first loop removes the addresses of this machine, and no other.
listed-remove_own :
    (fuel : ℕ) (addrs : List Bytes) (a : Bytes) (servers : List Bytes)
    → length servers ≤ fuel
    → listed a (remove_own fuel addrs servers) ≡ (listed a servers && not (is_own addrs a))
unfolding remove_own
listed-remove_own zero addrs a [] h = refl
listed-remove_own zero addrs a (s ∷ rest) h = absurd (omega arith)
listed-remove_own (suc fuel) addrs a [] h = refl
listed-remove_own (suc fuel) addrs a (s ∷ rest) h = ground (
  arith,
  same_own addrs s a,
  listed-remove_own fuel addrs a (swap_in_last rest) (omega (arith, length-swap_in_last rest)),
  listed-swap_in_last a rest,
  listed-remove_own fuel addrs a rest (omega arith),
)

listed-insert :
    (a b : Bytes) (xs : List Bytes) → listed a (insert b xs) ≡ (str_eq b a || listed a xs)
listed-insert a b [] = refl
listed-insert a b (c ∷ xs) = ground (arith, listed-insert a b xs)

listed-sort : (a : Bytes) (xs : List Bytes) → listed a (sort xs) ≡ listed a xs
listed-sort a [] = refl
listed-sort a (b ∷ xs) = listed-insert a b (sort xs) ∙ ap (λ c. str_eq b a || c) (listed-sort a xs)

same_listed : (p s a : Bytes) → str_eq p s ≡ true → str_eq p a ≡ str_eq s a
same_listed p s a e = ap (λ x. str_eq x a) (str_eq→eq p s e)

listed-remove_repeated :
    (fuel : ℕ) (prev a : Bytes) (servers : List Bytes)
    → length servers ≤ fuel
    → (str_eq prev a || listed a (remove_repeated fuel prev servers))
      ≡ (str_eq prev a || listed a servers)
unfolding remove_repeated
listed-remove_repeated zero prev a [] h = refl
listed-remove_repeated zero prev a (s ∷ rest) h = absurd (omega arith)
listed-remove_repeated (suc fuel) prev a [] h = refl
listed-remove_repeated (suc fuel) prev a (s ∷ rest) h = ground (
  arith,
  same_listed prev s a,
  listed-remove_repeated fuel prev a (swap_in_last rest) (omega (arith, length-swap_in_last rest)),
  listed-swap_in_last a rest,
  listed-remove_repeated fuel s a rest (omega arith),
)

listed-remove_duplicates :
    (a : Bytes) (servers : List Bytes) → listed a (remove_duplicates servers) ≡ listed a servers
listed-remove_duplicates a [] = refl
listed-remove_duplicates a (s ∷ rest) = listed-remove_repeated (length rest) s a rest (omega arith)

-- The result lists the addresses that answered the scan, without those of this machine: none is lost,
-- and none is added, however often each of them answered.
pub listed-filter_addresses :
    (servers addrs : List Bytes) (a : Bytes)
    → listed a (filter_addresses servers addrs) ≡ (listed a servers && not (is_own addrs a))
unfolding filter_addresses
listed-filter_addresses servers addrs a =
    listed-remove_duplicates a (sort (remove_own (length servers) addrs servers))
    ∙ listed-sort a (remove_own (length servers) addrs servers)
    ∙ listed-remove_own (length servers) addrs a servers (omega arith)
