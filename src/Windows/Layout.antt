-- ===== src/Windows/Layout.antt =====
-- The block of memory that `set_clipboard_cut_files` gives to the clipboard.
use clip_share_desktop.Prelude.{
  ℕ, zero, suc, ◌+◌, ◌*◌, ◌≤◌, ◌<◌, ◌≡◌, ◌≢◌, refl, ap, ◌∙◌, Option, none, some, List, [], ◌∷◌,
  ◌++◌, Bytes, length, length-append, take, All, ◌==◌, if◌then◌else◌, arith,
}
use clip_share_desktop.Windows.{Windows}
use clip_share_desktop.Windows.Cut.{with_path, wide_paths, total_size, drop_names}

-- A path as other programs read it: without a NUL, not empty, and within the 2048 characters.
abbrev pub IsWide : List ℕ → Type 0
IsWide [] = ⊥
IsWide (c ∷ path) = All (λ c. c ≢ 0) (c ∷ path) × (length (c ∷ path) ≤ 2048)

-- The characters in front of a NUL, and what follows it.
abbrev pub until_nul : List ℕ → List ℕ × List ℕ
until_nul [] = ([], [])
until_nul (c ∷ s) = let r = until_nul s in if c == 0 then ([], s) else (c ∷ r.0, r.1)

-- How the format is read: strings with a NUL behind each, up to an empty one.
abbrev pub onto_name : List ℕ → List (List ℕ) → List (List ℕ)
onto_name [] names = []
onto_name (c ∷ name) names = (c ∷ name) ∷ names

pub read_names : ℕ → List ℕ → List (List ℕ)
read_names zero s = []
read_names (suc fuel) s = onto_name (until_nul s).0 (read_names fuel (until_nul s).1)

until_nul-append :
    (name rest : List ℕ) → All (λ c. c ≢ 0) name → until_nul (name ++ (0 ∷ rest)) ≡ (name, rest)
until_nul-append [] rest h = refl
until_nul-append (c ∷ name) rest h = ground (arith, until_nul-append name rest h.1)

take-all : (n : ℕ) (s : List ℕ) → length s ≤ n → take n s ≡ s
take-all zero [] h = refl
take-all zero (c ∷ s) h = absurd (omega arith)
take-all (suc n) [] h = refl
take-all (suc n) (c ∷ s) h = ap (λ l. c ∷ l) (take-all n s (omega arith))

wide-take : (path : List ℕ) → IsWide path → take 2048 path ≡ path
wide-take [] w = absurd w
wide-take (c ∷ path) w = take-all 2048 (c ∷ path) w.1

wide-until_nul : (path rest : List ℕ) → IsWide path → until_nul (path ++ (0 ∷ rest)) ≡ (path, rest)
wide-until_nul [] rest w = absurd w
wide-until_nul (c ∷ path) rest w = until_nul-append (c ∷ path) rest w.0

wide-onto_name :
    (path : List ℕ) (names : List (List ℕ)) → IsWide path → onto_name path names ≡ path ∷ names
wide-onto_name [] names w = absurd w
wide-onto_name (c ∷ path) names w = refl

read_names-drop_names :
    (fuel : ℕ) (paths : List (List ℕ))
    → All IsWide paths
    → length paths < fuel
    → read_names fuel (drop_names paths) ≡ paths
unfolding read_names drop_names
read_names-drop_names zero paths w h = absurd (omega arith)
read_names-drop_names (suc fuel) [] w h = refl
read_names-drop_names (suc fuel) (path ∷ paths) w h =
    rw (read_names, wide-take path w.0, wide-until_nul path (drop_names paths) w.0)
      (wide-onto_name path (read_names fuel (drop_names paths)) w.0
        ∙ ap (λ l. path ∷ l) (read_names-drop_names fuel paths w.1 (omega arith)))

length-drop_names :
    (paths : List (List ℕ))
    → All IsWide paths
    → length (drop_names paths) * 2 + 20 ≡ total_size paths
unfolding drop_names total_size
length-drop_names [] w = omega arith
length-drop_names (path ∷ paths) w =
    rw (wide-take path w.0)
      (omega (arith, length-append path (0 ∷ drop_names paths), length-drop_names paths w.1))

length-with_path :
    (o : Option (List ℕ)) (ps : Option (List (List ℕ))) (wide : List (List ℕ)) (n : ℕ)
    → with_path o ps ≡ some wide
    → ((rest : List (List ℕ)) → ps ≡ some rest → length rest ≡ n)
    → length wide ≡ suc n
length-with_path none ps wide n e h = absurd (cc)
length-with_path (some []) ps wide n e h = absurd (cc)
length-with_path (some (c ∷ path)) none wide n e h = absurd (cc)
length-with_path (some (c ∷ path)) (some rest) wide n e h =
    let q : (c ∷ path) ∷ rest ≡ wide = cc in rw (← q) (ap suc (h rest refl))

length-wide_paths :
    (host : Windows) (paths : List Bytes) (wide : List (List ℕ))
    → wide_paths host paths ≡ some wide
    → length wide ≡ length paths
unfolding wide_paths
length-wide_paths host [] wide e = let q : [] ≡ wide = cc in rw (← q) refl
length-wide_paths host (p ∷ paths) wide e =
    length-with_path (host.to_wide p) (wide_paths host paths) wide (length paths) e
      (λ rest r. length-wide_paths host paths rest r)

-- The paths that are cut, none of which is empty, has a NUL or is longer than 2048 characters, are those
-- that another program reads from the block, and with the 20 bytes of `DROPFILES` they fill it exactly:
-- nothing is written behind its end.
pub drop_names-read_names :
    (host : Windows) (paths : List Bytes) (wide : List (List ℕ))
    → wide_paths host paths ≡ some wide
    → All IsWide wide
    → (read_names (suc (length paths)) (drop_names wide) ≡ wide)
      × (length (drop_names wide) * 2 + 20 ≡ total_size wide)
drop_names-read_names host paths wide e w = (
  read_names-drop_names (suc (length paths)) wide w
      (omega (arith, length-wide_paths host paths wide e)),
  length-drop_names wide w,
)
