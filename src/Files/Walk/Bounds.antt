-- ===== src/Files/Walk/Bounds.antt =====
-- The lengths of the paths that `_recurse_dir` lists, and how deep it goes, on any file system.
use clip_share_desktop.Prelude.{
  ℕ, zero, suc, ◌+◌, ◌≤◌, ◌≡◌, refl, Bool, true, false, Bool-cases, inl, inr, Option, none, some,
  List, [], ◌∷◌, ◌++◌, Bytes, length, All, All-append, length-append, append_assoc, append-nil,
  subst, ltb, ◌==◌, ap, ◌∙◌, arith, if◌then◌else◌,
}
use clip_share_desktop.Text.{path_sep}
use clip_share_desktop.Files.Walk.{
  Kind, regular, directory, special, FileSystem, without_dots, with_sep, each_child, process_kind,
  list_entries, list_opened, recurse_dir,
}

-- A path below the root that fits into the buffers.
abbrev pub IsBelow : Bytes → Bytes → Type 0
IsBelow root path = (length path ≤ 2049) × ((rest : Bytes) × (path ≡ root ++ rest))

length-with_sep : (path : Bytes) → length (with_sep path) ≤ suc (length path)
length-with_sep [] = omega arith
length-with_sep (c ∷ []) = ground arith
length-with_sep (c ∷ d ∷ s) = omega (arith, length-with_sep (d ∷ s))

-- What `with_sep` puts behind the path.
last_sep : Bytes → Bytes
last_sep [] = path_sep ∷ []
last_sep (c ∷ []) = if c == path_sep then [] else path_sep ∷ []
last_sep (c ∷ d ∷ s) = last_sep (d ∷ s)

with_sep-last_sep : (path : Bytes) → with_sep path ≡ path ++ last_sep path
unfolding last_sep
with_sep-last_sep [] = refl
with_sep-last_sep (c ∷ []) = ground arith
with_sep-last_sep (c ∷ d ∷ s) = ap (λ p. c ∷ p) (with_sep-last_sep (d ∷ s))

-- A walk from any path of the root.
abbrev Walks : Bytes → (Bytes → List Bytes) → Type 0
Walks root run = (rest : Bytes) → All (IsBelow root) (run (root ++ rest))

each_child-IsBelow :
    (root : Bytes) (run : Bytes → List Bytes) (rest : Bytes) (names : List Bytes)
    → ((rest : Bytes) → length (root ++ rest) ≤ 2048 → All (IsBelow root) (run (root ++ rest)))
    → All (IsBelow root) (each_child run (root ++ rest) names)
unfolding each_child
each_child-IsBelow root run rest [] h = tt
each_child-IsBelow root run rest (name ∷ names) h =
    let base = root ++ rest in
    elim (Bool-cases (ltb 2048 (length name + length base))) [
      | inl e ↦ rw e tt
      | inr e ↦ rw e (
          All-append (IsBelow root) (run (base ++ name)) (each_child run base names)
            (rw (append_assoc root rest name) (
              h (rest ++ name)
                (ground (arith, length-append base name, append_assoc root rest name))))
            (each_child-IsBelow root run rest names h))
    ]

list_entries-IsBelow :
    (root : Bytes) (run : Bytes → List Bytes) (leaf : Bool) (rest : Bytes) (names : List Bytes)
    → ((rest : Bytes) → length (root ++ rest) ≤ 2048 → All (IsBelow root) (run (root ++ rest)))
    → length (root ++ rest) ≤ 2049
    → All (IsBelow root) (list_entries run leaf (root ++ rest) names)
list_entries-IsBelow root run true rest [] h l = ((l, (rest, refl)), tt)
list_entries-IsBelow root run false rest [] h l = tt
list_entries-IsBelow root run leaf rest (name ∷ names) h l =
    each_child-IsBelow root run rest (name ∷ names) h

list_opened-IsBelow :
    (root : Bytes) (run : Bytes → List Bytes) (leaf : Bool) (rest : Bytes)
    (entries : Option (List Bytes))
    → ((rest : Bytes) → length (root ++ rest) ≤ 2048 → All (IsBelow root) (run (root ++ rest)))
    → All (IsBelow root) (list_opened run leaf (root ++ rest) entries)
list_opened-IsBelow root run leaf rest none h = tt
list_opened-IsBelow root run leaf rest (some entries) h =
    let path = root ++ rest in
    let e : with_sep path ≡ root ++ (rest ++ last_sep path) =
      with_sep-last_sep path ∙ append_assoc root rest (last_sep path) in
    elim (Bool-cases (ltb 2048 (length path))) [
      | inl b ↦ rw b tt
      | inr b ↦
          rw (b, e)
            (list_entries-IsBelow root run leaf (rest ++ last_sep path) (without_dots entries) h
              (ground (arith, b, length-with_sep path, ap length e)))
    ]

process_kind-IsBelow :
    (root : Bytes) (run : Bytes → List Bytes) (rest : Bytes) (kind : Option Kind)
    → length (root ++ rest) ≤ 2048
    → All (IsBelow root) (run (root ++ rest))
    → All (IsBelow root) (process_kind run (root ++ rest) kind)
process_kind-IsBelow root run rest none l h = tt
process_kind-IsBelow root run rest (some regular) l h = ((omega (arith, l), (rest, refl)), tt)
process_kind-IsBelow root run rest (some directory) l h = h
process_kind-IsBelow root run rest (some special) l h = tt

below :
    (fs : FileSystem) (leaf : Bool) (levels : ℕ) (root rest : Bytes)
    → All (IsBelow root) (recurse_dir fs leaf levels (root ++ rest))
unfolding recurse_dir
below fs leaf zero root rest = tt
below fs leaf (suc levels) root rest =
    list_opened-IsBelow root
      (λ child. process_kind (recurse_dir fs leaf levels) child (fs.lstat child)) leaf rest
      (fs.read_dir (root ++ rest))
      (λ r l.
        process_kind-IsBelow root (recurse_dir fs leaf levels) r (fs.lstat (root ++ r)) l
          (below fs leaf levels root r))

-- Whatever the file system answers, also where links or mounts make it endless, the walk ends, and each
-- path that it lists begins with the path of the directory and has at most 2049 bytes.
pub recurse_dir-IsBelow :
    (fs : FileSystem) (leaf : Bool) (levels : ℕ) (path : Bytes)
    → All (IsBelow path) (recurse_dir fs leaf levels path)
recurse_dir-IsBelow fs leaf levels path =
    subst (λ p. All (IsBelow path) (recurse_dir fs leaf levels p)) (append-nil path)
      (below fs leaf levels path [])
