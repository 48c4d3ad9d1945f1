-- ===== src/Tests/Paths.antt =====
-- Paths, names and addresses.
use clip_share_desktop.Prelude.{
  ◌+◌, ◌<◌, ◌≡◌, refl, false, ◌&&◌, List, [], ◌∷◌, Bytes, length, codes, some, ◌==◌,
}
use clip_share_desktop.Text.{contains, path_sep, c_str, drop_last_sep, has_substring, starts_with}
use clip_share_desktop.Files.Name.{clean_name, received_path}
use clip_share_desktop.Files.Name.Confined.{IsUnder, received_path-confined}

name_path : received_path 2 (codes "./x") (codes "a/b.txt") ≡ some (codes "./x/a/b.txt")
unfolding received_path c_str drop_last_sep contains has_substring starts_with
name_path = refl

received_path-confined_example :
    IsUnder (codes "./x") (clean_name 2 (codes "a/b.txt")) (codes "./x/a/b.txt")
    × (length (codes "./x/a/b.txt") < length (codes "a/b.txt") + 20)
    × ((2 == 1 && contains path_sep (clean_name 2 (codes "a/b.txt"))) ≡ false)
received_path-confined_example =
    received_path-confined 2 (codes "./x") (codes "a/b.txt") (codes "./x/a/b.txt") name_path

abbrev answered : List Bytes
answered = codes "10.0.0.2" ∷ codes "10.0.0.1" ∷ codes "10.0.0.2" ∷ []

abbrev own : List Bytes
own = codes "10.0.0.1" ∷ []
