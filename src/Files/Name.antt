-- ===== src/Files/Name.antt =====
-- `_is_valid_fname`, and the path that `_validate_and_save` makes of a received name.
pub mod Confined
use clip_share_desktop.Prelude.{
  ℕ, suc, ◌+◌, Bool, true, false, not, ◌&&◌, ◌||◌, Option, none, some, [], ◌∷◌, ◌++◌, Bytes, length,
  leb, ◌==◌, if◌then◌else◌, codes,
}
use clip_share_desktop.Text.{
  c_str, path_sep, contains, has_substring, after_last_sep, first_is, drop_last_sep,
}

-- The characters behind the first one, up to the NUL at which the loop ends.
pub valid_tail : Bytes → Bool
valid_tail [] = true
valid_tail (c ∷ s) = c == 0 || (leb 32 c && valid_tail s)

-- `do … while (*fname)`: the first character is tested whatever it is.
unfoldable pub valid_characters : Bytes → Bool
unfolding valid_tail
valid_characters [] = false
valid_characters (c ∷ s) = leb 32 c && valid_tail s

-- `_get_base_name`, for version 1 only.
pub base_name : ℕ → Bytes → Bytes
base_name version name =
    if version == 1 then elim (after_last_sep name) [ none ↦ name | some base ↦ base ] else name

-- The name that is used: without one trailing separator, up to a NUL, and for version 1 the base name.
pub clean_name : ℕ → Bytes → Bytes
unfolding base_name
clean_name version buf = base_name version (c_str (drop_last_sep buf))

abbrev pub bad_path : Bytes
bad_path = codes "/../"

abbrev join_path : Bytes → Bytes → Bytes
join_path dirname name =
    if first_is path_sep name then dirname ++ name else dirname ++ path_sep ∷ name

-- `snprintf_check(new_path, name_length + 20, …)` and the test for `/../`; `none` is EXIT_FAILURE.
unfoldable pub received_path : ℕ → Bytes → Bytes → Option Bytes
unfolding clean_name
received_path version dirname buf =
    let name = clean_name version buf in
    let path = join_path dirname name in
    if version == 1 && contains path_sep name
    then none
    else if leb (length buf + 20) (length path)
    then none
    else if has_substring bad_path path
    then none
    else some path
