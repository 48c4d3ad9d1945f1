-- ===== src/Files/Walk/Trees.antt =====
-- `_recurse_dir` on a file system that holds a tree.
use clip_share_desktop.Prelude.{
  ℕ, zero, suc, ◌+◌, ◌≤◌, ◌≡◌, refl, ap, ◌∙◌, Bool, some, List, [], ◌∷◌, ◌++◌, Bytes, length, arith,
  if◌then◌else◌,
}
use clip_share_desktop.Files.Walk.{
  regular, directory, special, FileSystem, without_dots, with_sep, each_child, process_kind,
  list_opened, recurse_dir,
}

-- Files and directories by their names; `device` is anything that is neither.
mutual
  pub data Tree : Type 0 where
    file device : Tree
    dir : Forest → Tree

  pub data Forest : Type 0 where
    empty : Forest
    child : Bytes → Tree → Forest → Forest

unfoldable pub names : Forest → List Bytes
names empty = []
names (child name tree forest) = name ∷ names forest

-- What the walk is to list: the files, and with `leaf` the directories that have nothing in them.
unfoldable mutual
  pub paths : Bool → Bytes → Tree → List Bytes
  paths leaf path file = path ∷ []
  paths leaf path device = []
  paths leaf path (dir empty) = if leaf then with_sep path ∷ [] else []
  paths leaf path (dir (child name tree forest)) =
      paths leaf (with_sep path ++ name) tree ++ paths_of leaf (with_sep path) forest

  pub paths_of : Bool → Bytes → Forest → List Bytes
  paths_of leaf base empty = []
  paths_of leaf base (child name tree forest) =
      paths leaf (base ++ name) tree ++ paths_of leaf base forest

-- The file system has the tree at the path, no deeper than the levels allow and with no path that is
-- too long.
unfoldable mutual
  unfolding names

  pub Holds : FileSystem → ℕ → Bytes → Tree → Type 0
  Holds fs levels path file = fs.lstat path ≡ some regular
  Holds fs levels path device = fs.lstat path ≡ some special
  Holds fs zero path (dir forest) = ⊥
  Holds fs (suc levels) path (dir forest) =
      (fs.lstat path ≡ some directory)
      × (entries : List Bytes) × (fs.read_dir path ≡ some entries)
      × (without_dots entries ≡ names forest)
      × (length path ≤ 2048)
      × HoldsBelow fs levels (with_sep path) forest

  pub HoldsBelow : FileSystem → ℕ → Bytes → Forest → Type 0
  HoldsBelow fs levels base empty = Unit
  HoldsBelow fs levels base (child name tree forest) =
      (length name + length base ≤ 2048)
      × Holds fs levels (base ++ name) tree
      × HoldsBelow fs levels base forest

abbrev process : FileSystem → Bool → ℕ → Bytes → List Bytes
process fs leaf levels path = process_kind (recurse_dir fs leaf levels) path (fs.lstat path)

opened_lem :
    (leaf : Bool) (run : Bytes → List Bytes) (path : Bytes) (forest : Forest) (entries : List Bytes)
    → without_dots entries ≡ names forest
    → length path ≤ 2048
    → each_child run (with_sep path) (names forest) ≡ paths_of leaf (with_sep path) forest
    → list_opened run leaf path (some entries) ≡ paths leaf path (dir forest)
unfolding names paths
opened_lem leaf run path empty entries e l h = ground arith
opened_lem leaf run path (child name tree forest) entries e l h = ground (arith)

recurse_dir-opened :
    (fs : FileSystem) (leaf : Bool) (levels : ℕ) (path : Bytes) (forest : Forest)
    (entries : List Bytes)
    → fs.read_dir path ≡ some entries
    → without_dots entries ≡ names forest
    → length path ≤ 2048
    → each_child (process fs leaf levels) (with_sep path) (names forest)
      ≡ paths_of leaf (with_sep path) forest
    → recurse_dir fs leaf (suc levels) path ≡ paths leaf path (dir forest)
unfolding recurse_dir
recurse_dir-opened fs leaf levels path forest entries r e l h =
    ap (list_opened (process fs leaf levels) leaf path) r
    ∙ opened_lem leaf (process fs leaf levels) path forest entries e l h

no_child :
    (run : Bytes → List Bytes) (base : Bytes) (leaf : Bool)
    → each_child run base (names empty) ≡ paths_of leaf base empty
unfolding each_child names paths_of
no_child run base leaf = refl

child_lem :
    (run : Bytes → List Bytes) (leaf : Bool) (base name : Bytes) (tree : Tree) (forest : Forest)
    → length name + length base ≤ 2048
    → run (base ++ name) ≡ paths leaf (base ++ name) tree
    → each_child run base (names forest) ≡ paths_of leaf base forest
    → each_child run base (name ∷ names forest) ≡ paths_of leaf base (child name tree forest)
unfolding each_child paths_of
child_lem run leaf base name tree forest l h k = ground (arith, h, k)

mutual
  unfolding Holds HoldsBelow names paths paths_of

  process-walks :
      (fs : FileSystem) (leaf : Bool) (levels : ℕ) (path : Bytes) (tree : Tree)
      → Holds fs levels path tree
      → process fs leaf levels path ≡ paths leaf path tree
  process-walks fs leaf levels path file h = ap (process_kind (recurse_dir fs leaf levels) path) h
  process-walks fs leaf levels path device h = ap (process_kind (recurse_dir fs leaf levels) path) h
  process-walks fs leaf zero path (dir forest) h = absurd h
  process-walks fs leaf (suc levels) path (dir forest) h =
      ap (process_kind (recurse_dir fs leaf (suc levels)) path) h.0
      ∙ recurse_dir-opened fs leaf levels path forest h.1 h.2 h.3 h.4
          (each_child-walks fs leaf levels (with_sep path) forest h.5)

  each_child-walks :
      (fs : FileSystem) (leaf : Bool) (levels : ℕ) (base : Bytes) (forest : Forest)
      → HoldsBelow fs levels base forest
      → each_child (process fs leaf levels) base (names forest) ≡ paths_of leaf base forest
  each_child-walks fs leaf levels base empty h = no_child (process fs leaf levels) base leaf
  each_child-walks fs leaf levels base (child name tree forest) h =
      child_lem (process fs leaf levels) leaf base name tree forest h.0
        (process-walks fs leaf levels (base ++ name) tree h.1)
        (each_child-walks fs leaf levels base forest h.2)
