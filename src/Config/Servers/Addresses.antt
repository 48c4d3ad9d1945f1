-- ===== src/Config/Servers/Addresses.antt =====
-- Which lines of a file `get_server_addresses` takes for addresses.
use clip_share_desktop.Prelude.{
  ℕ, zero, suc, ◌≤◌, ◌≡◌, refl, ap, true, ◌&&◌, List, [], ◌∷◌, Bytes, length, str_eq, str_eq→eq,
  arith,
}
use clip_share_desktop.Scan.Filter.{swap_in_last}
use clip_share_desktop.Scan.Filter.Members.{listed, listed-swap_in_last, length-swap_in_last}
use clip_share_desktop.Config.Numbers.{value}
use clip_share_desktop.Config.Servers.{
  Sources, is_ipv4, keep_addresses, get_server_list, get_server_addresses,
}

same_kind : (s a : Bytes) → str_eq s a ≡ true → is_ipv4 s ≡ is_ipv4 a
same_kind s a e = ap is_ipv4 (str_eq→eq s a e)

module _ (a : Bytes) where
  listed-keep_addresses :
      (fuel : ℕ) (servers : List Bytes)
      → length servers ≤ fuel
      → listed a (keep_addresses fuel servers) ≡ (listed a servers && is_ipv4 a)
  unfolding keep_addresses
  listed-keep_addresses zero [] h = refl
  listed-keep_addresses zero (s ∷ rest) h = absurd (omega arith)
  listed-keep_addresses (suc fuel) [] h = refl
  listed-keep_addresses (suc fuel) (s ∷ rest) h = ground (
    arith,
    same_kind s a,
    listed-keep_addresses fuel (swap_in_last rest) (omega (arith, length-swap_in_last rest)),
    listed-swap_in_last a rest,
    listed-keep_addresses fuel rest (omega arith),
  )

  -- Where `get_server_list` returns a list, `get_server_addresses` returns one that has the IPv4
  -- addresses of it and nothing else, although it moves the last element into each gap.
  pub get_server_addresses-listed :
      (src : Sources) (name : Bytes) (servers : List Bytes)
      → get_server_list src name ≡ value servers
      → (kept : List Bytes) × (get_server_addresses src name ≡ value kept)
        × (listed a kept ≡ (listed a servers && is_ipv4 a))
  unfolding get_server_addresses
  get_server_addresses-listed src name servers e = (
    keep_addresses (length servers) servers,
    rw (get_server_addresses, e) refl,
    listed-keep_addresses (length servers) servers (omega arith),
  )
