-- ===== src/Clipboard/Copied/Kinds.antt =====
-- What `get_copied_type` answers, whatever the order of the targets.
use mathlib.Core.Logic.{∥∥₁_elim}
use mathlib.Core.List.{Perm, Permᴰ}
use clip_share_desktop.Prelude.{
  ◌≡◌, ◌≢◌, refl, ap, ◌∙◌, Bool, false, ◌||◌, some, List, [], ◌∷◌, ◌++◌, Bytes, All, length, str_eq,
  ◌==◌, arith, if◌then◌else◌,
}
use clip_share_desktop.Text.{starts_with}
use clip_share_desktop.Text.Eol.{NoNul, c_str-NoNul}
use clip_share_desktop.Clipboard.Copied.{
  copied_none, copied_text, copied_file, any, strsep_lines, is_files, is_text, type_of,
  get_copied_type,
}

-- A target: a line of the text that the clipboard's owner offers.
pub record IsTarget (target : Bytes) : Type 0 where
  pub flat : All (λ c. c ≢ b'\n') target
  pub text : NoNul target

abbrev pub unlines : List Bytes → Bytes
unlines [] = []
unlines (l ∷ ls) = l ++ b'\n' ∷ unlines ls

any-Permᴰ :
    {A : Type 0} (test : A → Bool) {xs ys : List A} → Permᴰ xs ys → any test xs ≡ any test ys
any-Permᴰ test Permᴰ.nil = refl
any-Permᴰ test (Permᴰ.cons e p) = cc (any-Permᴰ test p)
any-Permᴰ test (Permᴰ.swap e f) = ground (arith)
any-Permᴰ test (Permᴰ.trans p q) = any-Permᴰ test p ∙ any-Permᴰ test q

any-Perm : {A : Type 0} (test : A → Bool) (xs ys : List A) → Perm xs ys → any test xs ≡ any test ys
any-Perm test xs ys p = ∥∥₁_elim p (hlevel) (any-Permᴰ test)

strsep-line :
    (l s : Bytes) → All (λ c. c ≢ b'\n') l → strsep_lines (l ++ b'\n' ∷ s) ≡ l ∷ strsep_lines s
unfolding strsep_lines
strsep-line [] s f = refl
strsep-line (c ∷ l) s f = ground (arith, strsep-line l s f.1)

-- The tokens of the targets, and the empty one behind the last line feed.
strsep-unlines : (ls : List Bytes) → All IsTarget ls → strsep_lines (unlines ls) ≡ ls ++ ([] ∷ [])
unfolding strsep_lines
strsep-unlines [] h = refl
strsep-unlines (l ∷ ls) h =
    strsep-line l (unlines ls) (h.0.flat) ∙ ap (λ r. l ∷ r) (strsep-unlines ls h.1)

NoNul-line : (l s : Bytes) → NoNul l → NoNul s → NoNul (l ++ b'\n' ∷ s)
NoNul-line [] s hl hs = ((λ e. omega arith), hs)
NoNul-line (c ∷ l) s hl hs = (hl.0, NoNul-line l s hl.1 hs)

NoNul-unlines : (ls : List Bytes) → All IsTarget ls → NoNul (unlines ls)
NoNul-unlines [] h = tt
NoNul-unlines (l ∷ ls) h = NoNul-line l (unlines ls) (h.0.text) (NoNul-unlines ls h.1)

any-end :
    (test : Bytes → Bool) (ls : List Bytes)
    → test [] ≡ false
    → any test (ls ++ ([] ∷ [])) ≡ any test ls
any-end test [] e = ground arith
any-end test (l ∷ ls) e = ap (λ b. test l || b) (any-end test ls e)

type_of-end : (ls : List Bytes) → type_of (ls ++ ([] ∷ [])) ≡ type_of ls
unfolding starts_with str_eq
type_of-end ls = ground (arith, any-end is_files ls refl, any-end is_text ls refl)

length-unlines : (l : Bytes) (ls : List Bytes) → (length (unlines (l ∷ ls)) == 0) ≡ false
length-unlines [] ls = ground arith
length-unlines (c ∷ l) ls = ground arith

-- The type is decided by which targets there are.
typed : (ls : List Bytes) → All IsTarget ls → get_copied_type (some (unlines ls)) ≡ type_of ls
unfolding get_copied_type
typed [] h = refl
typed (l ∷ ls) h =
    let e = c_str-NoNul (unlines (l ∷ ls)) (NoNul-unlines (l ∷ ls) h) in
    let f = strsep-unlines (l ∷ ls) h in
    ground (arith, length-unlines l ls, e, f, type_of-end (l ∷ ls))

-- The type of what is copied does not depend on the order in which the owner of the clipboard offers
-- its targets, lines without a NUL: it is files, if a target of copied files is among them, else
-- text, if a target of text is, else none.
pub get_copied_type-order :
    (xs ys : List Bytes)
    → Perm xs ys
    → All IsTarget xs
    → (get_copied_type (some (unlines xs)) ≡ (
        if any is_files ys
        then copied_file
        else if any is_text ys
        then copied_text
        else copied_none))
get_copied_type-order xs ys p h =
    rw (← any-Perm is_files xs ys p, ← any-Perm is_text xs ys p) (typed xs h)
