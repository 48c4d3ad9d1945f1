-- ===== src/Start/Kill/Named.antt =====
-- Whom `kill_other_processes` kills.
use clip_share_desktop.Prelude.{
  ℕ, zero, suc, ◌+◌, ◌⊎◌, ◌≡◌, ◌<◌, ◌^◌, ◌%◌, refl, ap, sym, ◌∙◌, Bool, true, false, not, ◌&&◌,
  Option, none, some, List, [], ◌∷◌, ◌++◌, Bytes, All, map, length, length-map, take, str_eq, ◌==◌,
  arith, append-nil, if◌then◌else◌,
}
use clip_share_desktop.Config.Numbers.{scan, strtoull_bits}
use clip_share_desktop.Config.Numbers.Ranges.{numeral, IsDigits, number_of, scan-numeral, ones}
use clip_share_desktop.Client.Cli.{strncmp_eq}
use clip_share_desktop.Start.Kill.{Entry, all_digits, is_process, pid_of, kill_other_processes}
use clip_share_desktop.Start.Kill.Rounds.{
  Listed, entry_of, IsPlainName, has_name, kept, kill_loop-kept,
}

-- What /proc lists: a process, by the digits of its number and its name, if its status file can be
-- read; what is no directory; and what has another character than a digit in its name, at `front`.
pub data Process : Type 0 where
  running : ℕ → List ℕ → Option Bytes → Process
  no_dir : Bytes → Option Bytes → Process
  no_number : Bytes → ℕ → Bytes → Bool → Option Bytes → Process

-- The number has up to 255 digits and fits its type; the name begins with no space and is one line.
abbrev pub IsProcess : Process → Type 0
IsProcess (running d ds name) =
    IsDigits (d ∷ ds) × (length (d ∷ ds) < 256) × (number_of 0 (d ∷ ds) < 2 ^ 32) × IsPlainName name
IsProcess (no_dir d_name name) = IsPlainName name
IsProcess (no_number front c back is_dir name) = (c < b'0' ⊎ b'9' < c) × IsPlainName name

abbrev pub as_listed : Process → Listed
as_listed (running d ds name) = record { d_name = numeral (d ∷ ds); is_dir = true; name = name }
as_listed (no_dir d_name name) = record { d_name = d_name; is_dir = false; name = name }
as_listed (no_number front c back is_dir name) = record {
  d_name = front ++ c ∷ back;
  is_dir = is_dir;
  name = name;
}

abbrev pub proc_entry : Process → Entry
proc_entry p = entry_of (as_listed p)

-- Of a name fifteen characters are kept.
abbrev pub same_name : Bytes → Option Bytes → Bool
same_name prog_name none = false
same_name prog_name (some name) = str_eq (take 15 prog_name) (take 15 name)

-- The numbers of the processes of that name but this one.
abbrev pub wanted : ℕ → Bytes → List Process → List ℕ
wanted this_pid prog_name [] = []
wanted this_pid prog_name (running d ds name ∷ ps) =
    let pid = number_of 0 (d ∷ ds) in
    let others = wanted this_pid prog_name ps in
    if same_name prog_name name && not (pid == this_pid) then pid ∷ others else others
wanted this_pid prog_name (no_dir d_name name ∷ ps) = wanted this_pid prog_name ps
wanted this_pid prog_name (no_number front c back is_dir name ∷ ps) = wanted this_pid prog_name ps

strncmp_eq-take : (n : ℕ) (a b : Bytes) → strncmp_eq n a (take n b) ≡ str_eq (take n a) (take n b)
unfolding strncmp_eq str_eq
strncmp_eq-take zero a b = refl
strncmp_eq-take (suc n) [] [] = refl
strncmp_eq-take (suc n) [] (d ∷ b) = refl
strncmp_eq-take (suc n) (c ∷ a) [] = refl
strncmp_eq-take (suc n) (c ∷ a) (d ∷ b) = ap (λ t. (c == d) && t) (strncmp_eq-take n a b)

has_name-same :
    (prog_name : Bytes) (name : Option Bytes) → has_name prog_name name ≡ same_name prog_name name
has_name-same prog_name none = refl
has_name-same prog_name (some name) = strncmp_eq-take 15 prog_name name

all_digits-numeral : (ds : List ℕ) → IsDigits ds → all_digits (numeral ds) ≡ true
all_digits-numeral [] h = refl
all_digits-numeral (d ∷ ds) h = ground (arith, all_digits-numeral ds h.1)

all_digits-other :
    (front : Bytes) (c : ℕ) (back : Bytes)
    → (c < b'0' ⊎ b'9' < c)
    → all_digits (front ++ c ∷ back) ≡ false
all_digits-other [] c back h = ground arith
all_digits-other (d ∷ front) c back h = ground (arith, all_digits-other front c back h)

is_process-running :
    (d : ℕ) (ds : List ℕ) (name : Option Bytes)
    → IsDigits (d ∷ ds)
    → length (d ∷ ds) < 256
    → is_process (proc_entry (running d ds name)) ≡ true
unfolding is_process str_eq
is_process-running d ds name h l =
    ground (arith, all_digits-numeral ds h.1, length-map ds (λ d. 48 + d))

is_process-no_number :
    (front : Bytes) (c : ℕ) (back : Bytes) (is_dir : Bool) (name : Option Bytes)
    → (c < b'0' ⊎ b'9' < c)
    → is_process (proc_entry (no_number front c back is_dir name)) ≡ false
unfolding is_process
is_process-no_number front c back is_dir name h = ground (arith, all_digits-other front c back h)

is_process-no_dir :
    (d_name : Bytes) (name : Option Bytes) → is_process (proc_entry (no_dir d_name name)) ≡ false
unfolding is_process
is_process-no_dir d_name name = ground arith

pid_of-running :
    (d : ℕ) (ds : List ℕ) (name : Option Bytes)
    → IsDigits (d ∷ ds)
    → number_of 0 (d ∷ ds) < 2 ^ 32
    → pid_of (proc_entry (running d ds name)) ≡ number_of 0 (d ∷ ds)
pid_of-running d ds name h b =
    ap (λ s. strtoull_bits (scan s) % 2 ^ 32) (sym (append-nil (numeral (d ∷ ds))))
    ∙ ap (λ s. strtoull_bits s % 2 ^ 32) (scan-numeral d ds ones h)
    ∙ small (number_of 0 (d ∷ ds)) b
  where
    small :
        (n : ℕ)
        → n < 2 ^ 32
        → strtoull_bits (record { minus = false; size = n; end = [] }) % 2 ^ 32 ≡ n
    small n b = ground arith

kept-wanted :
    (this_pid : ℕ) (prog_name : Bytes) (ps : List Process)
    → All IsProcess ps
    → kept this_pid prog_name (map as_listed ps) ≡ wanted this_pid prog_name ps
kept-wanted this_pid prog_name [] h = refl
kept-wanted this_pid prog_name (running d ds name ∷ ps) ((dig, l, b, plain), h) =
    rw
      (
        is_process-running d ds name dig l,
        pid_of-running d ds name dig b,
        has_name-same prog_name name,
        kept-wanted this_pid prog_name ps h,
      )
      refl
kept-wanted this_pid prog_name (no_dir d_name name ∷ ps) (plain, h) =
    rw (is_process-no_dir d_name name) (kept-wanted this_pid prog_name ps h)
kept-wanted this_pid prog_name (no_number front c back is_dir name ∷ ps) ((o, plain), h) =
    rw (is_process-no_number front c back is_dir name o) (kept-wanted this_pid prog_name ps h)

plain_name : (p : Process) → IsProcess p → IsPlainName (as_listed p).name
plain_name (running d ds name) h = h.3
plain_name (no_dir d_name name) h = h
plain_name (no_number front c back is_dir name) h = h.1

plain_names :
    (ps : List Process) → All IsProcess ps → All (λ p. IsPlainName p.name) (map as_listed ps)
plain_names [] h = tt
plain_names (p ∷ ps) (q, h) = (plain_name p q, plain_names ps h)

map-proc_entry : (ps : List Process) → map entry_of (map as_listed ps) ≡ map proc_entry ps
map-proc_entry [] = refl
map-proc_entry (p ∷ ps) = ap (λ es. proc_entry p ∷ es) (map-proc_entry ps)

-- Where the numbers fit and the status files hold names of the usual form, whatever /proc lists besides
-- the processes, just the processes whose names agree with this program's in the first fifteen
-- characters get the signal, each by its own number and in the order of the list, but not this one.
pub kill_other_processes-wanted :
    (uninit : Bytes) (this_pid : ℕ) (prog_name : Bytes) (ps : List Process)
    → All IsProcess ps
    → kill_other_processes uninit this_pid prog_name (some (map proc_entry ps))
      ≡ wanted this_pid prog_name ps
unfolding kill_other_processes
kill_other_processes-wanted uninit this_pid prog_name ps h =
    ap (λ es. kill_other_processes uninit this_pid prog_name (some es)) (sym (map-proc_entry ps))
    ∙ kill_loop-kept this_pid prog_name uninit (map as_listed ps) (plain_names ps h)
    ∙ kept-wanted this_pid prog_name ps h
