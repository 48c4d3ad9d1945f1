-- ===== src/Config/Servers/Trim.antt =====
-- What `trim` of utils/config.c takes away, and what it keeps.
use clip_share_desktop.Prelude.{
  ℕ, ◌≤◌, ◌<◌, ◌≡◌, ◌≢◌, refl, ap, ◌∙◌, Bool, true, false, [], ◌∷◌, ◌++◌, Bytes, All, arith,
}
use clip_share_desktop.Config.Servers.{trim, trim_front, trim_back, onto, is_blank}

abbrev pub Blanks : Bytes → Type 0
Blanks = All (λ c. is_blank c ≡ true)

abbrev pub begins_blank : Bytes → Bool
begins_blank [] = false
begins_blank (c ∷ s) = is_blank c

pub trim_front-Blanks : (b s : Bytes) → Blanks b → trim_front (b ++ s) ≡ trim_front s
trim_front-Blanks [] s h = refl
trim_front-Blanks (c ∷ b) s h = ground (arith, trim_front-Blanks b s h.1)

pub trim_back-Blanks : (b : Bytes) → Blanks b → trim_back b ≡ []
trim_back-Blanks [] h = refl
trim_back-Blanks (c ∷ b) h = rw (trim_back-Blanks b h.1) (ground arith)

pub trim_back-append : (s b : Bytes) → Blanks b → trim_back (s ++ b) ≡ trim_back s
trim_back-append [] b h = trim_back-Blanks b h
trim_back-append (c ∷ s) b h = ap (onto c) (trim_back-append s b h)

pub trim_front-append :
    (s b : Bytes) → s ≢ [] → begins_blank s ≡ false → trim_front (s ++ b) ≡ s ++ b
trim_front-append [] b e h = absurd (e refl)
trim_front-append (c ∷ s) b e h = ground (arith, h)

trim_back-onto : (c : ℕ) (s : Bytes) → trim_back s ≡ s → trim_back (onto c s) ≡ onto c s
trim_back-onto c [] h = ground arith
trim_back-onto c (d ∷ s) h = ap (onto c) h

trim_back-trim_back : (s : Bytes) → trim_back (trim_back s) ≡ trim_back s
trim_back-trim_back [] = refl
trim_back-trim_back (c ∷ s) = trim_back-onto c (trim_back s) (trim_back-trim_back s)

begins_blank-trim_front : (s : Bytes) → begins_blank (trim_front s) ≡ false
begins_blank-trim_front [] = refl
begins_blank-trim_front (c ∷ s) = ground (arith, begins_blank-trim_front s)

begins_blank-onto : (c : ℕ) (s : Bytes) → is_blank c ≡ false → begins_blank (onto c s) ≡ false
begins_blank-onto c [] h = ground arith
begins_blank-onto c (d ∷ s) h = h

begins_blank-trim_back : (s : Bytes) → begins_blank s ≡ false → begins_blank (trim_back s) ≡ false
begins_blank-trim_back [] h = refl
begins_blank-trim_back (c ∷ s) h = begins_blank-onto c (trim_back s) h

trim_front-id : (s : Bytes) → begins_blank s ≡ false → trim_front s ≡ s
trim_front-id [] h = refl
trim_front-id (c ∷ s) h = ground (arith, h)

pub trim-trim : (s : Bytes) → trim (trim s) ≡ trim s
trim-trim s =
    ap trim_back
      (trim_front-id (trim s) (begins_blank-trim_back (trim_front s) (begins_blank-trim_front s)))
    ∙ trim_back-trim_back (trim_front s)

-- The bytes from 1 to 32, and words that begin and end with a byte above them.
abbrev pub AreBlank : Bytes → Type 0
AreBlank = All (λ c. (0 < c) × (c ≤ 32))

abbrev pub EndsVisible : Bytes → Type 0
EndsVisible [] = ⊥
EndsVisible (c ∷ []) = 32 < c
EndsVisible (c ∷ d ∷ s) = EndsVisible (d ∷ s)

abbrev pub IsVisible : Bytes → Type 0
IsVisible [] = ⊥
IsVisible (c ∷ s) = (32 < c) × EndsVisible (c ∷ s)

AreBlank-Blanks : (b : Bytes) → AreBlank b → Blanks b
AreBlank-Blanks [] h = tt
AreBlank-Blanks (c ∷ b) h = (ground (arith, h.0), AreBlank-Blanks b h.1)

trim_back-visible : (s : Bytes) → EndsVisible s → trim_back s ≡ s
trim_back-visible [] h = refl
trim_back-visible (c ∷ []) h = ground (arith, h)
trim_back-visible (c ∷ d ∷ s) h = ap (onto c) (trim_back-visible (d ∷ s) h)

pub trim-blank : (b : Bytes) → AreBlank b → trim b ≡ []
trim-blank [] h = refl
trim-blank (c ∷ b) h = ground (arith, h.0, trim-blank b h.1)

pub trim-visible :
    (a s b : Bytes) → AreBlank a → IsVisible s → AreBlank b → trim (a ++ (s ++ b)) ≡ s
trim-visible a [] b ha h hb = absurd h
trim-visible a (c ∷ s) b ha h hb =
    ap trim_back (
      trim_front-Blanks a (c ∷ s ++ b) (AreBlank-Blanks a ha)
      ∙ trim_front-append (c ∷ s) b (λ e. cc) (ground (arith, h.0)))
    ∙ trim_back-append (c ∷ s) b (AreBlank-Blanks b hb)
    ∙ trim_back-visible (c ∷ s) h.1

-- What begins with a visible byte still does.
pub trim-begins :
    (a : Bytes) (c : ℕ) (s : Bytes) → AreBlank a → 32 < c → trim (a ++ c ∷ s) ≡ c ∷ trim_back s
trim-begins a c s ha h =
    ap trim_back (
      trim_front-Blanks a (c ∷ s) (AreBlank-Blanks a ha)
      ∙ trim_front-id (c ∷ s) (ground (arith, h)))
    ∙ onto-visible (trim_back s)
  where
    onto-visible : (t : Bytes) → onto c t ≡ c ∷ t
    onto-visible [] = ground (arith, h)
    onto-visible (d ∷ t) = refl
