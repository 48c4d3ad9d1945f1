-- ===== src/Text/Crlf/Meaning.antt =====
-- What `convert_eol` makes of a text where lines end in CRLF.
use clip_share_desktop.Prelude.{
  ℕ, suc, ◌+◌, ◌-◌, ◌<◌, ◌≡◌, refl, sym, ap, ◌∙◌, true, false, Option, none, some, [], ◌∷◌, ◌++◌,
  append_assoc, Bytes, length, length-append, leb, ◌==◌, arith, Bool-cases, inl, inr,
}
use clip_share_desktop.Text.{c_str, convert_to_lf, starts_with_lf}
use clip_share_desktop.Text.Eol.{NoNul}
use clip_share_desktop.Text.Crlf.{
  store, increase, crlf_loop, convert_to_crlf, converted, written, enlarged, convert_eol,
}
use clip_share_desktop.Text.Crlf.InPlace.{
  add_cr, length-add_cr, unrev, length-unrev, split_last, crlf_loop-add_cr, store-behind,
}

add_cr-unchanged : (prev : Option ℕ) (s : Bytes) → increase prev s ≡ 0 → add_cr prev s ≡ s
unfolding increase
add_cr-unchanged prev [] e = refl
add_cr-unchanged prev (c ∷ s) e = ground (arith, add_cr-unchanged (some c) s)

increase-add_cr : (prev : Option ℕ) (s : Bytes) → increase prev (add_cr prev s) ≡ 0
unfolding increase
increase-add_cr prev [] = refl
increase-add_cr prev (c ∷ s) = ground (arith, increase-add_cr (some c) s)

starts-add_cr :
    (c : ℕ) (s : Bytes)
    → (c == b'\r') ≡ true
    → starts_with_lf (add_cr (some c) s) ≡ starts_with_lf s
starts-add_cr c [] e = refl
starts-add_cr c (d ∷ s) e = ground arith

-- The CRs that were added go again, and no others.
convert_to_lf-add_cr :
    (prev : Option ℕ) (s : Bytes) → convert_to_lf (add_cr prev s) ≡ convert_to_lf s
unfolding convert_to_lf
convert_to_lf-add_cr prev [] = refl
convert_to_lf-add_cr prev (c ∷ s) =
    ground (arith, convert_to_lf-add_cr (some c) s, starts-add_cr c s)

c_str-nul : (s d : Bytes) → NoNul s → c_str (s ++ (0 ∷ d)) ≡ s
unfolding c_str
c_str-nul [] d h = refl
c_str-nul (c ∷ s) d h = ground (arith, c_str-nul s d h.1)

unrev-snoc : (r : Bytes) (c : ℕ) → unrev (r ++ (c ∷ [])) ≡ c ∷ unrev r
unrev-snoc [] c = refl
unrev-snoc (b ∷ r) c = ap (λ l. l ++ (b ∷ [])) (unrev-snoc r c)

-- The last character and those before it.
backwards : (c : ℕ) (s : Bytes) → (b : ℕ) × (r : Bytes) × (c ∷ s ≡ unrev (b ∷ r))
backwards c [] = (c, [], refl)
backwards c (d ∷ s) =
    let (b, r, e) = backwards d s in
    (b, r ++ (c ∷ []), ap (λ l. c ∷ l) e ∙ ap (λ l. l ++ (b ∷ [])) (sym (unrev-snoc r c)))

-- The whole loop, in a buffer with room for the CRs.
loop-add_cr :
    (b : ℕ) (r t j : Bytes)
    → t ≡ unrev (b ∷ r)
    → length j ≡ increase none t
    → crlf_loop (length t - 1) (length t + length j - 1) (some (t ++ (j ++ (0 ∷ []))))
      ≡ some (add_cr none t ++ (0 ∷ []))
loop-add_cr b r t j e n =
    let one_less : length (unrev (b ∷ r)) - 1 ≡ length r = omega (arith, length-unrev (b ∷ r)) in
    let new : length (unrev (b ∷ r)) + length j - 1 ≡ length r + length j =
      omega (arith, length-unrev (b ∷ r)) in
    rw (e, one_less, new, append_assoc (unrev r) (b ∷ []) (j ++ (0 ∷ [])))
      (crlf_loop-add_cr r b j (0 ∷ []) (n ∙ ap (increase none) e))

store_end :
    (t k behind : Bytes) (x n : ℕ)
    → behind ≡ k ++ (x ∷ [])
    → n ≡ length t + suc (length k)
    → store n 0 (t ++ (0 ∷ behind)) ≡ some (t ++ (0 ∷ (k ++ (0 ∷ []))))
store_end t k behind x n s e =
    rw (s, e ∙ sym (length-append t (0 ∷ k)), ← append_assoc t (0 ∷ k) (x ∷ []))
      (store-behind (t ++ (0 ∷ k)) 0 x [] ∙ ap some (append_assoc t (0 ∷ k) (0 ∷ [])))

-- The NUL that `_convert_to_crlf` writes first, and the one that it finds.
convert_to_crlf-add_cr :
    (b : ℕ) (r t k behind : Bytes) (x n : ℕ)
    → t ≡ unrev (b ∷ r)
    → NoNul t
    → behind ≡ k ++ (x ∷ [])
    → n ≡ length t + suc (length k)
    → suc (length k) ≡ increase none t
    → convert_to_crlf (t ++ (0 ∷ behind)) n ≡ some (add_cr none t ++ (0 ∷ []))
unfolding convert_to_crlf
convert_to_crlf-add_cr b r t k behind x n e h s len more =
    rw (convert_to_crlf, store_end t k behind x n s len, c_str-nul t (k ++ (0 ∷ [])) h, len)
      (loop-add_cr b r t (0 ∷ k) e more)

-- A buffer with just the room that is missing.
enlarged-add_cr :
    (t behind : Bytes)
    → NoNul t
    → length behind ≡ increase none t
    → 0 < increase none t
    → enlarged t (length t + increase none t) (some behind)
      ≡ converted (add_cr none t ++ (0 ∷ [])) (length t + increase none t)
unfolding increase
enlarged-add_cr [] behind h n p = absurd (omega arith)
enlarged-add_cr (c ∷ t) [] h n p = absurd (omega arith)
enlarged-add_cr (c ∷ t) (y ∷ behind) h n p =
    let (b, r, e) = backwards c t in
    let (k, x, s, len) = split_last y behind in
    ap (written (length (c ∷ t) + increase none (c ∷ t))) (
      convert_to_crlf-add_cr b r (c ∷ t) k (y ∷ behind) x (length (c ∷ t) + increase none (c ∷ t)) e
        h s (omega arith) (omega arith))

eol_run :
    (s behind : Bytes)
    → NoNul s
    → length behind ≡ increase none s
    → length s + increase none s < 0xFFFFFFFF
    → convert_eol (some behind) false s
      ≡ converted (add_cr none s ++ (0 ∷ [])) (length (add_cr none s))
unfolding convert_eol
eol_run s behind h n small =
    let room : leb 0xFFFFFFFF (length s + increase none s) ≡ false = ground arith in
    elim (Bool-cases (increase none s == 0)) [
      | inl none_missing ↦
          rw (none_missing, add_cr-unchanged none s (ground (arith, none_missing))) refl
      | inr missing ↦
          rw (missing, room, length-add_cr none s)
            (enlarged-add_cr s behind h n (ground (arith, missing)))
    ]

-- A text without a NUL and with LF, CRLF or both as line ends gets CRLF only, and keeps all else: where
-- `realloc` gives just the bytes that are missing, `convert_eol` writes within the buffer, loses
-- nothing that it has still to read, and returns the new length, if that is below 2 ^ 32 - 1. The
-- conversion back to LF then gives what it gives for the text itself.
pub convert_eol-add_cr :
    (s behind : Bytes)
    → NoNul s
    → length behind ≡ increase none s
    → length s + increase none s < 0xFFFFFFFF
    → (convert_eol (some behind) false s
        ≡ converted (add_cr none s ++ (0 ∷ [])) (length (add_cr none s)))
      × (increase none (add_cr none s) ≡ 0)
      × (convert_to_lf (add_cr none s) ≡ convert_to_lf s)
unfolding convert_eol
convert_eol-add_cr s behind h n small =
    (eol_run s behind h n small, increase-add_cr none s, convert_to_lf-add_cr none s)
