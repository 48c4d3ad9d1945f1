-- ===== src/Files/Name/Confined.antt =====
-- Where a received name may lead: the test for `/../` of `_validate_and_save`.
use clip_share_desktop.Prelude.{
  ℕ, ◌+◌, ◌<◌, ◌≡◌, ◌≢◌, ◌⊎◌, inl, inr, refl, sym, ap, ◌∙◌, Bool, true, false, ◌&&◌, none, some,
  List, [], ◌∷◌, ◌++◌, Bytes, All, length, ◌==◌, if◌then◌else◌, arith, codes, Bool-cases,
}
use mathlib.Core.Path.{subst}
use clip_share_desktop.Text.{contains, has_substring, starts_with, path_sep}
use clip_share_desktop.Files.Name.{clean_name, bad_path, received_path, join_path}

-- The components of a path: the first one, and those behind it.
abbrev first : Bytes → Bytes
first [] = []
first (c ∷ s) = if c == path_sep then [] else c ∷ first s

abbrev later : Bytes → List Bytes
later [] = []
later (c ∷ s) = if c == path_sep then first s ∷ later s else later s

abbrev pub components : Bytes → List Bytes
components s = first s ∷ later s

-- All but the last one, which is the file itself.
abbrev pub directories : List Bytes → List Bytes
directories [] = []
directories (x ∷ []) = []
directories (x ∷ y ∷ xs) = x ∷ directories (y ∷ xs)

-- No directory on the way is the parent of the one before it.
abbrev pub Descends : List Bytes → Type 0
Descends cs = All (λ c. c ≢ codes "..") (directories cs)

leads :
    (s y : Bytes) (ys : List Bytes)
    → later s ≡ y ∷ ys
    → starts_with (first s ++ path_sep ∷ []) s ≡ true
unfolding starts_with
leads [] y ys e = cc
leads (c ∷ s) y ys e = ground (arith, leads s y ys)

not_parent :
    (s y : Bytes) (ys : List Bytes)
    → starts_with (codes "../") s ≡ false
    → later s ≡ y ∷ ys
    → first s ≢ codes ".."
not_parent s y ys h e f =
    let g : starts_with (codes ".." ++ path_sep ∷ []) s ≡ true =
      subst (λ x. starts_with (x ++ path_sep ∷ []) s ≡ true) f (leads s y ys e) in
    cc

Descends-from :
    (s : Bytes) (l : List Bytes)
    → later s ≡ l
    → starts_with (codes "../") s ≡ false
    → Descends l
    → Descends (first s ∷ l)
Descends-from s [] e h d = tt
Descends-from s (y ∷ ys) e h d = (not_parent s y ys h e, d)

Descends-later : (s : Bytes) → has_substring bad_path s ≡ false → Descends (later s)
unfolding has_substring starts_with
Descends-later [] h = tt
Descends-later (c ∷ s) h = ground (arith, Descends-later s, Descends-from s (later s) refl)

has_substring-behind :
    (p a b : Bytes) → has_substring p (a ++ b) ≡ false → has_substring p b ≡ false
unfolding has_substring
has_substring-behind p [] b h = h
has_substring-behind p (c ∷ a) b h = has_substring-behind p a b (ground arith)

passed :
    (a b c : Bool) (p path : Bytes)
    → (if a then none else if b then none else if c then none else some p) ≡ some path
    → (a ≡ false) × (b ≡ false) × (c ≡ false) × (p ≡ path)
passed a b c p path h = ground arith

-- The form of every path that is used: the directory and the name behind a separator.
abbrev pub IsUnder : Bytes → Bytes → Bytes → Type 0
IsUnder dirname name path =
    (rest : Bytes) × (path ≡ dirname ++ path_sep ∷ rest)
    × ((name ≡ rest) ⊎ (name ≡ path_sep ∷ rest))
    × Descends (components rest)

IsUnder-rest :
    (dirname name path rest : Bytes)
    → path ≡ dirname ++ path_sep ∷ rest
    → (name ≡ rest) ⊎ (name ≡ path_sep ∷ rest)
    → has_substring bad_path path ≡ false
    → IsUnder dirname name path
IsUnder-rest dirname name path rest e o h =
    let h' : has_substring bad_path (dirname ++ path_sep ∷ rest) ≡ false =
      ap (has_substring bad_path) (sym e) ∙ h in
    (
      rest,
      e,
      o,
      Descends-later (path_sep ∷ rest) (has_substring-behind bad_path dirname (path_sep ∷ rest) h'),
    )

IsUnder-join :
    (dirname name : Bytes)
    → has_substring bad_path (join_path dirname name) ≡ false
    → IsUnder dirname name (join_path dirname name)
IsUnder-join dirname [] h = IsUnder-rest dirname [] (join_path dirname []) [] refl (inl refl) h
IsUnder-join dirname (c ∷ s) h = elim (Bool-cases (c == path_sep)) [
  | inl e ↦
      IsUnder-rest dirname (c ∷ s) (join_path dirname (c ∷ s)) s (ground arith) (inr (ground arith))
        h
  | inr e ↦ IsUnder-rest dirname (c ∷ s) (join_path dirname (c ∷ s)) (c ∷ s) (rw e) (inl refl) h
]

-- A path that is used is the directory and the name behind a separator, and no component of the name
-- is `..` but possibly the last one, which the test for `/../` does not see: `..` itself is taken, and
-- that it is found to exist is what stops it. It fits in the buffer of `name_length + 20` bytes, and for
-- version 1 the name has no separator.
pub received_path-confined :
    (version : ℕ) (dirname buf path : Bytes)
    → received_path version dirname buf ≡ some path
    → IsUnder dirname (clean_name version buf) path
      × (length path < length buf + 20)
      × ((version == 1 && contains path_sep (clean_name version buf)) ≡ false)
unfolding received_path
received_path-confined version dirname buf path h =
    let (a, b, c, e) =
      passed (version == 1 && contains path_sep (clean_name version buf)) _ _ _ path h in
    (
      subst (IsUnder dirname (clean_name version buf)) e
          (IsUnder-join dirname (clean_name version buf) c),
      subst (λ p. length p < length buf + 20) e (ground arith),
      a,
    )
