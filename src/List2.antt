-- ===== src/List2.antt =====
-- The growing array of utils/list_utils.c. What lies in the array beyond `len` is not read.
pub mod Growth
use clip_share_desktop.Prelude.{
  ℕ, zero, suc, ◌*◌, Bool, true, false, Option, none, some, List, [], ◌∷◌, ◌++◌, length, leb,
  if◌then◌else◌,
}

-- `list2`, of which `len` is the length of the list here.
pub record List2 {ℓ} (A : Type ℓ) : Type ℓ where
  pub array : List A
  pub capacity : ℕ

-- What `append` makes of a full capacity, and `none` where it returns.
abbrev pub new_cap : ℕ → Option ℕ
new_cap capacity =
    if leb capacity 2147483647
    then some (capacity * 2)
    else if leb 4294967295 capacity
    then none
    else some 4294967295

module _ {ℓ} {A : Type ℓ} where
  -- What `init_list` returns where it has its two blocks.
  abbrev pub new_list : ℕ → List2 A
  new_list len = record { array = []; capacity = len }

  -- `array[len] = elem; len++;`
  abbrev pub put : A → List2 A → List2 A
  put elem lst = record { array = lst.array ++ (elem ∷ []); capacity = lst.capacity }

  -- With no capacity the new array has no place for `elem`, which is written all the same, or
  -- `realloc` has freed the old one: `none`.
  abbrev grow : Bool → A → List2 A → Option ℕ → Option (List2 A)
  grow moved elem lst none = some lst
  grow moved elem lst (some zero) = none
  grow false elem lst (some (suc c)) = some lst
  grow true elem lst (some (suc c)) = some (put elem (record lst { capacity = suc c }))

  -- `moved` says that `realloc` has the memory.
  unfoldable pub append : Bool → A → List2 A → Option (List2 A)
  append moved elem lst =
      if leb lst.capacity (length lst.array)
      then grow moved elem lst (new_cap lst.capacity)
      else some (put elem lst)
