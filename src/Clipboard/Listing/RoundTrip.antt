-- ===== src/Clipboard/Listing/RoundTrip.antt =====
-- The paths that one client cuts and that another reads.
use clip_share_desktop.Prelude.{
  ℕ, suc, ◌≡◌, ◌≢◌, refl, ap, subst, ◌∙◌, sym, str_eq, Option, some, List, [], ◌∷◌, ◌++◌, Bytes,
  All, All-append, length, take, map, append_assoc, arith, codes,
}
use clip_share_desktop.Text.{c_str}
use clip_share_desktop.Text.Eol.{NoNul, c_str-NoNul}
use clip_share_desktop.Clipboard.Url.{url_encode, file_scheme}
use clip_share_desktop.Clipboard.CutFiles.{cut_lines}
use clip_share_desktop.Clipboard.Copied.{
  copied_file, get_copied_type, get_copied_files_as_str, without_action, split_line,
}
use clip_share_desktop.Clipboard.Listing.{split_lines, file_count}
use clip_share_desktop.Files.Walk.{FileSystem, regular}
use clip_share_desktop.Clipboard.Listing.Memory.{
  IsPath, IsFlat, memory_of, text_of, take-all, url_encode-IsFlat, split-flat, count-flat,
  split-cut_lines, count-cut_lines,
}

abbrev pub AllRegular : FileSystem → List Bytes → Type 0
AllRegular fs = All (λ p. fs.stat p ≡ some regular)

-- What stands in the clipboard behind the action.
pub split_text :
    (p : Bytes) (ps : List Bytes)
    → All IsPath (p ∷ ps)
    → split_lines (text_of p ps) ++ 0 ∷ [] ≡ memory_of (p ∷ ps)
split_text p ps h =
    let rest = cut_lines (map url_encode ps) in
    ap (λ m. file_scheme ++ m)
      (ap (λ m. m ++ 0 ∷ []) (split-flat (url_encode p) rest (url_encode-IsFlat p h.0.text))
        ∙ append_assoc (url_encode p) (split_lines rest) (0 ∷ [])
        ∙ ap (λ m. url_encode p ++ m) (split-cut_lines ps h.1))

pub count_text :
    (p : Bytes) (ps : List Bytes)
    → All IsPath (p ∷ ps)
    → file_count (text_of p ps) ≡ suc (length ps)
count_text p ps h =
    let e =
      count-flat (url_encode p) (cut_lines (map url_encode ps)) (url_encode-IsFlat p h.0.text) in
    omega (arith, e, count-cut_lines ps h.1)

flat-NoNul : (s : Bytes) → All IsFlat s → NoNul s
flat-NoNul [] h = tt
flat-NoNul (c ∷ s) h = (h.0.1, flat-NoNul s h.1)

lf_scheme_chars : NoNul (codes "\nfile://")
lf_scheme_chars = omega arith

NoNul-cut_lines : (ps : List Bytes) → All IsPath ps → NoNul (cut_lines (map url_encode ps))
NoNul-cut_lines [] h = tt
NoNul-cut_lines (p ∷ ps) h =
    let url = url_encode p in
    let e : NoNul (take 4096 url) =
      subst NoNul (sym (take-all 4096 url (omega (arith, h.0.short))))
        (flat-NoNul url (url_encode-IsFlat p h.0.text)) in
    All-append (λ c. c ≢ 0) (codes "\nfile://") (take 4096 url ++ cut_lines (map url_encode ps))
      lf_scheme_chars
      (All-append (λ c. c ≢ 0) (take 4096 url) (cut_lines (map url_encode ps)) e
        (NoNul-cut_lines ps h.1))

abbrev pub cut_text : List Bytes → Bytes
cut_text ps = codes "cut" ++ cut_lines (map url_encode ps)

NoNul-cut_text : (ps : List Bytes) → All IsPath ps → NoNul (cut_text ps)
NoNul-cut_text ps h =
    ((λ e. omega arith), ((λ e. omega arith), ((λ e. omega arith), NoNul-cut_lines ps h)))

text_shown :
    (p : Bytes) (ps : List Bytes)
    → All IsPath (p ∷ ps)
    → cut_text (p ∷ ps) ≡ codes "cut\n" ++ text_of p ps
text_shown p ps h =
    ap (λ u. codes "cut\nfile://" ++ (u ++ cut_lines (map url_encode ps)))
      (take-all 4096 (url_encode p) (omega (arith, h.0.short)))

cut_action : (s : Bytes) → without_action (split_line (codes "cut\n" ++ s)) ≡ some s
unfolding str_eq
cut_action s = refl

as_str_lem :
    (targets : Option Bytes) (c : ℕ) (names more : Bytes)
    → get_copied_type targets ≡ copied_file
    → c_str (c ∷ names) ≡ c ∷ names
    → without_action (split_line (c ∷ names)) ≡ some more
    → get_copied_files_as_str targets (some (c ∷ names)) ≡ some more
unfolding get_copied_files_as_str
as_str_lem targets c names more k e f = ground (arith, k, e, f)

pub as_str :
    (targets : Option Bytes) (p : Bytes) (ps : List Bytes)
    → get_copied_type targets ≡ copied_file
    → All IsPath (p ∷ ps)
    → get_copied_files_as_str targets (some (cut_text (p ∷ ps))) ≡ some (text_of p ps)
as_str targets p ps k h =
    let e = c_str-NoNul (cut_text (p ∷ ps)) (NoNul-cut_text (p ∷ ps) h) in
    let f : without_action (split_line (cut_text (p ∷ ps))) ≡ some (text_of p ps) =
      ap (λ s. without_action (split_line s)) (text_shown p ps h) ∙ cut_action (text_of p ps) in
    as_str_lem targets b'c' (codes "ut" ++ cut_lines (map url_encode (p ∷ ps))) (text_of p ps) k e f
