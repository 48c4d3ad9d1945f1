-- ===== src/Clipboard/Listing/Dirs.antt =====
-- `get_copied_dirs_files` on what a client has cut: regular files, directories and other files.
use clip_share_desktop.Prelude.{
  ℕ, zero, suc, ◌-◌, ◌^◌, ◌<◌, ◌≡◌, refl, ap, ◌∙◌, Bool, true, false, Option, none, some, List, [],
  ◌∷◌, ◌++◌, Bytes, All, length, drop, map, arith, if◌then◌else◌, codes,
}
use clip_share_desktop.Text.{c_str, path_sep, drop_last_sep, before_last_sep}
use clip_share_desktop.Text.Eol.{c_str-NoNul}
use clip_share_desktop.Clipboard.Url.{url_encode, url_decode, decoded, invalid}
use clip_share_desktop.Clipboard.CutFiles.{cut_lines}
use clip_share_desktop.Clipboard.Copied.{copied_file, get_copied_type, get_copied_files_as_str}
use clip_share_desktop.Clipboard.Listing.{
  Listed, listed, in_front, split_lines, file_count, offset, overwritten, paths_at, decoded_name,
  dirs_loop, go_on, take_name, dirs_round, path_length, dir_length, is_bad_length,
  get_copied_dirs_files,
}
use clip_share_desktop.Clipboard.Listing.RoundTrip.{cut_text, as_str, count_text, split_text}
use clip_share_desktop.Clipboard.Listing.Memory.{
  IsPath, memory_of, text_of, first_decoded, next_memory, length-url_encode, IsText-NoNul,
}
use clip_share_desktop.Files.Walk.{Kind, regular, directory, special, FileSystem, recurse_dir}

abbrev pub IsAbsolute : Bytes → Type 0
IsAbsolute [] = ⊥
IsAbsolute (c ∷ s) = c ≡ path_sep

-- What is listed: the files and what the directories have in them, up to the first path that is
-- neither, where the list ends.
abbrev pub listed_of : FileSystem → Bool → List Bytes → List Bytes
listed_of fs leaf [] = []
listed_of fs leaf (p ∷ ps) =
    let rest = listed_of fs leaf ps in
    elim (fs.stat p) [
      | none ↦ rest
      | some kind ↦ elim kind [
        | regular ↦ p ∷ rest
        | directory ↦ recurse_dir fs leaf 256 p ++ rest
        | special ↦ []
      ]
    ]

listed-paths_at :
    (fs : FileSystem) (leaf : Bool) (p : Bytes) (rest : List Bytes) (kind : Option Kind)
    → (elim (paths_at fs leaf p kind) [ none ↦ [] | some paths ↦ paths ++ rest ]) ≡ (elim kind [
      | none ↦ rest
      | some kind ↦ elim kind [
        | regular ↦ p ∷ rest
        | directory ↦ recurse_dir fs leaf 256 p ++ rest
        | special ↦ []
      ]
    ])
listed-paths_at fs leaf p rest none = refl
listed-paths_at fs leaf p rest (some regular) = refl
listed-paths_at fs leaf p rest (some directory) = refl
listed-paths_at fs leaf p rest (some special) = refl

-- A string that is a path is no URL.
not_url : (p memory : Bytes) → IsAbsolute p → url_decode (overwritten p memory) ≡ invalid
unfolding url_decode
not_url [] memory h = absurd h
not_url (c ∷ s) memory h = ground (arith)

dirs_loop-not_url :
    (fs : FileSystem) (leaf : Bool) (count : ℕ) (first : Bool) (memory : Bytes)
    → url_decode memory ≡ invalid
    → dirs_loop fs leaf count first memory ≡ listed []
unfolding dirs_loop
dirs_loop-not_url fs leaf zero first memory h = refl
dirs_loop-not_url fs leaf (suc count) first memory h = ground (arith, h)

take_name-plain :
    (fs : FileSystem) (leaf : Bool) (loop : Bytes → Listed) (memory s : Bytes)
    → c_str s ≡ s
    → take_name fs leaf loop memory s
      ≡ go_on loop (offset memory) (overwritten s memory) (paths_at fs leaf s (fs.stat s))
unfolding take_name
take_name-plain fs leaf loop memory s c =
    ap (λ n. go_on loop (offset memory) (overwritten s memory) (paths_at fs leaf n (fs.stat n))) c

round_name :
    (fs : FileSystem) (leaf : Bool) (loop : Bytes → Listed) (first : Bool) (memory s : Bytes)
    → is_bad_length s ≡ false
    → dirs_round fs leaf loop first memory (decoded s)
      ≡ take_name fs leaf loop memory (decoded_name first s)
unfolding dirs_round
round_name fs leaf loop first memory s b =
    ap (λ b. if b then listed [] else take_name fs leaf loop memory (decoded_name first s)) b

dirs_loop-step :
    (fs : FileSystem) (leaf : Bool) (count : ℕ) (first : Bool) (memory s : Bytes)
    → url_decode memory ≡ decoded s
    → is_bad_length s ≡ false
    → decoded_name first s ≡ s
    → c_str s ≡ s
    → dirs_loop fs leaf (suc count) first memory
      ≡ go_on
          (dirs_loop fs leaf count false)
          (offset memory)
          (overwritten s memory)
          (paths_at fs leaf s (fs.stat s))
unfolding dirs_loop
dirs_loop-step fs leaf count first memory s d b n c =
    let loop : Bytes → Listed = dirs_loop fs leaf count false in
    ap (dirs_round fs leaf loop first memory) d
    ∙ round_name fs leaf loop first memory s b
    ∙ ap (take_name fs leaf loop memory) n
    ∙ take_name-plain fs leaf loop memory s c

no_paths :
    (fs : FileSystem) (leaf : Bool)
    → dirs_loop fs leaf (length {A = Bytes} []) false (memory_of []) ≡ listed (listed_of fs leaf [])
unfolding dirs_loop
no_paths fs leaf = refl

good_length : (p : Bytes) → IsPath p → is_bad_length p ≡ false
good_length [] h = absurd (h.full refl)
good_length (c ∷ p) h = ground (arith, h.short, length-url_encode (c ∷ p))

go_on-paths :
    (fs : FileSystem) (leaf : Bool) (count : ℕ) (memory next p : Bytes) (ps : List Bytes)
    (found : Option (List Bytes))
    → dirs_loop fs leaf count false (overwritten p memory) ≡ listed []
    → drop (offset memory) (overwritten p memory) ≡ next
    → dirs_loop fs leaf count false next ≡ listed (listed_of fs leaf ps)
    → go_on (dirs_loop fs leaf count false) (offset memory) (overwritten p memory) found
      ≡ listed (elim found [ none ↦ [] | some paths ↦ paths ++ listed_of fs leaf ps ])
go_on-paths fs leaf count memory next p ps none e n h = e
go_on-paths fs leaf count memory next p ps (some paths) e n h =
    ap (λ m. in_front paths (dirs_loop fs leaf count false m)) n ∙ ap (in_front paths) h

-- The first path has no separator at its end.
abbrev pub IsPlain : Bool → Bytes → Type 0
IsPlain first p = decoded_name first p ≡ p

dirs_loop-first :
    (fs : FileSystem) (leaf first : Bool) (p : Bytes) (ps : List Bytes)
    → IsPlain first p
    → IsPath p
    → IsAbsolute p
    → dirs_loop fs leaf (length ps) false (memory_of ps) ≡ listed (listed_of fs leaf ps)
    → dirs_loop fs leaf (suc (length ps)) first (memory_of (p ∷ ps))
      ≡ listed (listed_of fs leaf (p ∷ ps))
dirs_loop-first fs leaf first p ps f h a rest =
    let memory = memory_of (p ∷ ps) in
    dirs_loop-step fs leaf (length ps) first memory p (first_decoded p ps h) (good_length p h) f
      (c_str-NoNul p (IsText-NoNul p h.text))
    ∙ go_on-paths fs leaf (length ps) memory (memory_of ps) p ps (paths_at fs leaf p (fs.stat p))
        (dirs_loop-not_url fs leaf (length ps) false (overwritten p memory) (not_url p memory a))
        (next_memory p ps h) rest
    ∙ ap listed (listed-paths_at fs leaf p (listed_of fs leaf ps) (fs.stat p))

dirs_loop-paths :
    (fs : FileSystem) (leaf first : Bool) (p : Bytes) (ps : List Bytes)
    → IsPlain first p
    → All IsPath (p ∷ ps)
    → All IsAbsolute (p ∷ ps)
    → dirs_loop fs leaf (suc (length ps)) first (memory_of (p ∷ ps))
      ≡ listed (listed_of fs leaf (p ∷ ps))
dirs_loop-paths fs leaf first p [] f h a =
    dirs_loop-first fs leaf first p [] f h.0 a.0 (no_paths fs leaf)
dirs_loop-paths fs leaf first p (q ∷ ps) f h a =
    dirs_loop-first fs leaf first p (q ∷ ps) f h.0 a.0
      (dirs_loop-paths fs leaf false q ps refl h.1 a.1)

path_length-first :
    (p : Bytes) (ps : List Bytes)
    → IsPlain true p
    → IsPath p
    → path_length (memory_of (p ∷ ps)) ≡ dir_length (before_last_sep p)
unfolding path_length
path_length-first p ps f h =
    let c = c_str-NoNul p (IsText-NoNul p h.text) in
    rw (path_length, first_decoded p ps h, good_length p h, f, c) refl

dirs_lem :
    (fs : FileSystem) (leaf : Bool) (targets files : Option Bytes) (text memory : Bytes)
    (count n : ℕ) (l : Listed)
    → get_copied_files_as_str targets files ≡ some text
    → file_count text ≡ count
    → count < 0xFFFFFFFF
    → split_lines text ++ 0 ∷ [] ≡ memory
    → dirs_loop fs leaf count true memory ≡ l
    → path_length memory ≡ n
    → get_copied_dirs_files fs leaf targets files ≡ (some l, n)
unfolding get_copied_dirs_files
dirs_lem fs leaf targets files text memory count n l a b c d e f = ground (arith, a, b, c, d, e, f)

-- From the paths that a client has cut into a clipboard that offers copied files, absolute ones, the
-- first without a separator at its end, with URLs that fit and fewer than 2 ^ 32 - 1 of them,
-- `get_copied_dirs_files` lists the regular files and what is below the directories, in order, without
-- those that are gone; at the first path that is neither, such as a pipe, it ends and leaves out all
-- that follow. `path_len` is the length of the first path up to its last separator.
pub get_copied_dirs_files-cut_lines :
    (fs : FileSystem) (leaf : Bool) (targets : Option Bytes) (p : Bytes) (ps : List Bytes)
    → get_copied_type targets ≡ copied_file
    → All IsPath (p ∷ ps)
    → All IsAbsolute (p ∷ ps)
    → drop_last_sep p ≡ p
    → length (p ∷ ps) < 2 ^ 32 - 1
    → get_copied_dirs_files fs leaf targets
        (some (codes "cut" ++ cut_lines (map url_encode (p ∷ ps))))
      ≡ (some (listed (listed_of fs leaf (p ∷ ps))), dir_length (before_last_sep p))
get_copied_dirs_files-cut_lines fs leaf targets p ps k h a f l =
    dirs_lem fs leaf targets (some (cut_text (p ∷ ps))) (text_of p ps) (memory_of (p ∷ ps))
      (length (p ∷ ps)) (dir_length (before_last_sep p)) (listed (listed_of fs leaf (p ∷ ps)))
      (as_str targets p ps k h) (count_text p ps h) l (split_text p ps h)
      (dirs_loop-paths fs leaf true p ps f h a) (path_length-first p ps f h.0)
