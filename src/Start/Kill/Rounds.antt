-- ===== src/Start/Kill/Rounds.antt =====
-- The rounds of the loop of `kill_other_processes`, where the status files hold names of the usual form.
use clip_share_desktop.Prelude.{
  ℕ, zero, suc, ◌≡◌, refl, ap, ◌∙◌, Bool, true, false, not, ◌&&◌, Option, none, some, List, [], ◌∷◌,
  ◌++◌, Bytes, All, map, take, codes, ◌==◌, arith, Bool-cases, inl, inr,
}
use clip_share_desktop.Config.Numbers.{is_space}
use clip_share_desktop.Config.Servers.{line_of}
use clip_share_desktop.Client.Cli.{strncmp_eq}
use clip_share_desktop.Start.Kill.{
  Entry, is_process, or_old, task_name, pid_of, name_from, is_other, add_if, kill_loop,
}

-- An entry of /proc with the name in its status file, if that can be read.
pub record Listed : Type 0 where
  pub d_name : Bytes
  pub is_dir : Bool
  pub name : Option Bytes

abbrev pub status_line : Option Bytes → Option Bytes
status_line none = none
status_line (some name) = some (codes "Name:\t" ++ name ++ (b'\n' ∷ []))

abbrev pub entry_of : Listed → Entry
entry_of p = record { d_name = p.d_name; is_dir = p.is_dir; status = status_line p.name }

-- The name begins with a character that is no space, and has no line end.
abbrev pub IsPlainName : Option Bytes → Type 0
IsPlainName none = Unit
IsPlainName (some []) = ⊥
IsPlainName (some (c ∷ s)) = (is_space c ≡ false) × All (λ c. (c == b'\n') ≡ false) (c ∷ s)

-- Is it a process of that name, by the fifteen characters that are kept of a name?
abbrev pub has_name : Bytes → Option Bytes → Bool
has_name prog_name none = false
has_name prog_name (some name) = strncmp_eq 15 prog_name (take 15 name)

abbrev pub is_kept : ℕ → Bytes → Listed → Bool
is_kept this_pid prog_name p =
    is_process (entry_of p) && (has_name prog_name p.name && not (pid_of (entry_of p) == this_pid))

abbrev pub kept : ℕ → Bytes → List Listed → List ℕ
kept this_pid prog_name [] = []
kept this_pid prog_name (p ∷ ps) =
    add_if (is_kept this_pid prog_name p) (pid_of (entry_of p)) (kept this_pid prog_name ps)

line_of-take :
    (n : ℕ) (s : Bytes)
    → All (λ c. (c == b'\n') ≡ false) s
    → line_of n (s ++ (b'\n' ∷ [])) ≡ take n s
line_of-take zero s h = refl
line_of-take (suc n) [] h = refl
line_of-take (suc n) (c ∷ s) h = ground (arith, line_of-take n s h.1)

task_name-plain :
    (old : Bytes) (c : ℕ) (s : Bytes)
    → IsPlainName (some (c ∷ s))
    → task_name old (codes "Name:\t" ++ (c ∷ s) ++ (b'\n' ∷ [])) ≡ take 15 (c ∷ s)
unfolding task_name
task_name-plain old c s (h, all) = rw h (ap (or_old old) (line_of-take 15 (c ∷ s) all))

-- How the loop goes on, by what is known of the entry.
kill-unnamed :
    (this_pid : ℕ) (prog_name old : Bytes) (e : Entry) (es : List Entry)
    → name_from (is_process e) e.status old ≡ none
    → kill_loop this_pid prog_name old (e ∷ es) ≡ kill_loop this_pid prog_name old es
unfolding kill_loop
kill-unnamed this_pid prog_name old e es h = rw (kill_loop, h) refl

kill-named :
    (this_pid : ℕ) (prog_name old name : Bytes) (e : Entry) (es : List Entry)
    → name_from (is_process e) e.status old ≡ some name
    → kill_loop this_pid prog_name old (e ∷ es)
      ≡ add_if
          (is_other this_pid prog_name name e)
          (pid_of e)
          (kill_loop this_pid prog_name name es)
unfolding kill_loop
kill-named this_pid prog_name old name e es h = rw (kill_loop, h) refl

-- The case of a process whose status file can be read.
kill_readable :
    (this_pid : ℕ) (prog_name old : Bytes) (p : Listed) (c : ℕ) (s : Bytes) (es : List Entry)
    (pids : List ℕ)
    → is_process (entry_of p) ≡ true
    → p.name ≡ some (c ∷ s)
    → IsPlainName (some (c ∷ s))
    → kill_loop this_pid prog_name (take 15 (c ∷ s)) es ≡ pids
    → kill_loop this_pid prog_name old (entry_of p ∷ es)
      ≡ add_if (is_kept this_pid prog_name p) (pid_of (entry_of p)) pids
kill_readable this_pid prog_name old p c s es pids is e plain more =
    kill-named this_pid prog_name old (take 15 (c ∷ s)) (entry_of p) es
      (rw (is, e) (ap some (task_name-plain old c s plain)))
    ∙ rw (more, is, e) refl

kill_entry :
    (this_pid : ℕ) (prog_name old : Bytes) (p : Listed) (name : Option Bytes) (es : List Entry)
    (pids : List ℕ)
    → p.name ≡ name
    → IsPlainName name
    → ((now : Bytes) → kill_loop this_pid prog_name now es ≡ pids)
    → kill_loop this_pid prog_name old (entry_of p ∷ es)
      ≡ add_if (is_kept this_pid prog_name p) (pid_of (entry_of p)) pids
kill_entry this_pid prog_name old p (some []) es pids e plain more = absurd plain
kill_entry this_pid prog_name old p none es pids e plain more =
    elim (Bool-cases (is_process (entry_of p))) [
      | inl is ↦
          kill-unnamed this_pid prog_name old (entry_of p) es (rw (is, e) refl)
          ∙ more old
          ∙ rw (is, e) refl
      | inr isnt ↦
          kill-unnamed this_pid prog_name old (entry_of p) es (rw isnt refl)
          ∙ more old
          ∙ rw isnt refl
    ]
kill_entry this_pid prog_name old p (some (c ∷ s)) es pids e plain more =
    elim (Bool-cases (is_process (entry_of p))) [
      | inl is ↦
          kill_readable this_pid prog_name old p c s es pids is e plain (more (take 15 (c ∷ s)))
      | inr isnt ↦
          kill-unnamed this_pid prog_name old (entry_of p) es (rw isnt refl)
          ∙ more old
          ∙ rw isnt refl
    ]

pub kill_loop-kept :
    (this_pid : ℕ) (prog_name old : Bytes) (ps : List Listed)
    → All (λ p. IsPlainName p.name) ps
    → kill_loop this_pid prog_name old (map entry_of ps) ≡ kept this_pid prog_name ps
unfolding kill_loop
kill_loop-kept this_pid prog_name old [] h = refl
kill_loop-kept this_pid prog_name old (p ∷ ps) (plain, h) =
    kill_entry this_pid prog_name old p p.name (map entry_of ps) (kept this_pid prog_name ps) refl
      plain (λ now. kill_loop-kept this_pid prog_name now ps h)
