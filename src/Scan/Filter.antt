-- ===== src/Scan/Filter.antt =====
-- `filter_addresses` of clients/udp_scan.c: the arrays of addresses as lists.
pub mod Members
use clip_share_desktop.Prelude.{
  ℕ, zero, suc, Bool, true, false, ◌||◌, List, [], ◌∷◌, Bytes, length, str_eq, ltb, ◌==◌,
  if◌then◌else◌,
}

-- The last element, which is in front already, and `y` behind it.
abbrev last_first : Bytes → List Bytes → List Bytes
last_first y [] = y ∷ []
last_first y (l ∷ xs) = l ∷ y ∷ xs

-- `array[i] = array[len - 1]; len -= 1;` on the elements from `i` on, of which `x` was the first.
abbrev pub swap_in_last : List Bytes → List Bytes
swap_in_last [] = []
swap_in_last (y ∷ []) = y ∷ []
swap_in_last (y ∷ z ∷ xs) = last_first y (swap_in_last (z ∷ xs))

-- The inner loop over the addresses of this machine.
abbrev pub is_own : List Bytes → Bytes → Bool
is_own [] server = false
is_own (a ∷ addrs) server = str_eq server a || is_own addrs server

-- The first loop from `i` on. A round removes a server or leaves it behind, so as many rounds as
-- there are servers are enough.
unfoldable pub remove_own : ℕ → List Bytes → List Bytes → List Bytes
remove_own zero addrs servers = servers
remove_own (suc fuel) addrs [] = []
remove_own (suc fuel) addrs (server ∷ rest) =
    let removed = remove_own fuel addrs (swap_in_last rest) in
    let kept = remove_own fuel addrs rest in if is_own addrs server then removed else server ∷ kept

-- `addr_comp(a, b) <= 0`
abbrev pub addr_leb : Bytes → Bytes → Bool
addr_leb [] b = true
addr_leb (x ∷ a) [] = false
addr_leb (x ∷ a) (y ∷ b) = if x == y then addr_leb a b else ltb x y

-- `qsort` with `addr_comp`, under which only equal strings are equal.
abbrev insert : Bytes → List Bytes → List Bytes
insert a [] = a ∷ []
insert a (b ∷ xs) = if addr_leb a b then a ∷ b ∷ xs else b ∷ insert a xs

abbrev pub sort : List Bytes → List Bytes
sort [] = []
sort (a ∷ xs) = insert a (sort xs)

-- The second loop from `i` on, with the element before `i`.
unfoldable pub remove_repeated : ℕ → Bytes → List Bytes → List Bytes
remove_repeated zero prev servers = servers
remove_repeated (suc fuel) prev [] = []
remove_repeated (suc fuel) prev (cur ∷ rest) =
    let removed = remove_repeated fuel prev (swap_in_last rest) in
    let kept = remove_repeated fuel cur rest in if str_eq prev cur then removed else cur ∷ kept

abbrev remove_duplicates : List Bytes → List Bytes
remove_duplicates [] = []
remove_duplicates (s ∷ rest) = s ∷ remove_repeated (length rest) s rest

unfoldable pub filter_addresses : List Bytes → List Bytes → List Bytes
unfolding remove_own remove_repeated
filter_addresses servers addrs =
    let others = remove_own (length servers) addrs servers in remove_duplicates (sort others)
