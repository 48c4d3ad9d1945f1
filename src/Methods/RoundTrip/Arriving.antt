-- ===== src/Methods/RoundTrip/Arriving.antt =====
-- `_get_files_dirs` on the bytes of several files, up to the move out of its directory.
use clip_share_desktop.Prelude.{
  ℕ, zero, suc, ◌+◌, ◌/◌, ◌%◌, ◌≤◌, ◌<◌, ◌^◌, ◌≡◌, refl, sym, ap, ◌∙◌, Bool, true, false, ◌||◌, leb,
  List, [], ◌∷◌, ◌++◌, Bytes, All, length, ltb, leb_zero, exceeds, ◌==◌, if◌then◌else◌, pos, to_ℕ,
  ℤ, arith, Bool-cases, inl, inr,
}
use mathlib.Core.Path.{subst}
use clip_share_desktop.Net.{
  SockType, null_sock, plain_sock, ssl_sock, Recv, read_bytes, done, size_bytes, size_of_bytes,
}
use clip_share_desktop.Net.Size.{length-size_bytes, size_of_bytes-size_bytes}
use clip_share_desktop.World.{Env, World, History, call, exists}
use clip_share_desktop.World.Trace.{written}
use clip_share_desktop.Action.{
  Action, Result, ok, continue, pure, asks, read_size, read_sock, or_reject, reject_if, file_exists,
  ask, ◌>>=◌, ◌>>◌, close_socket_no_wait, close_socket_await, close_if_open,
}
use clip_share_desktop.Action.Healthy.{on, Stream, read_fst}
use clip_share_desktop.Text.{print_number, digit}
use clip_share_desktop.Proto.Status.{resp_no_data, resp_communication_failure}
use clip_share_desktop.Files.Mkdirs.{mkdirs}
use clip_share_desktop.Methods.Save.Delivered.{WriteWorks}
use clip_share_desktop.Methods.Save.Made.{DirsWork, Made, mkdirs-Made}
use clip_share_desktop.Methods.Save.Several.{
  Arrival, Placed, AreApart, arriving_bytes, WroteAll, save_files-WroteAll,
}
use clip_share_desktop.Methods.Receive.{fresh_dir, save_files, take_over, get_files_dirs}
use clip_share_desktop.Methods.Receive.Safety.{dir_name}

-- The run comes to the move out of the directory, with each file written.
pub record Arrived (env : Env) (version : ℕ) (dirname : Bytes) (items : List Arrival)
    (r : Result (Unit {0}) × World) : Type 0 where
  pub now : World
  pub runs : r ≡ take_over version dirname (env.entries now.history dirname) env now
  pub files : All (λ a. written a.path now.history ≡ a.content) items

-- From the last file on.
abbrev ending : ℕ → Bytes → Action (Unit {0})
ending version dirname = do
  (if leb 4 version then pure tt else close_socket_no_wait)
  files ← asks (λ env h. env.entries h dirname)
  take_over version dirname files

-- From the directory on.
abbrev saving : ℕ → ℕ → Bytes → Action (Unit {0})
saving cnt version dirname = do save_files cnt version dirname; ending version dirname

-- From the number of the files on.
abbrev receiving : ℕ → ℤ → Action (Unit {0})
receiving version cnt = do
  limit ← asks (λ env h. env.config.max_file_count)
  reject_if (leb_zero cnt || exceeds cnt limit) resp_no_data
  patience ← asks (λ env h. env.patience)
  dirname ← fresh_dir patience
  mkdirs dirname
  saving (to_ℕ cnt) version dirname

length-if :
    (test : Bool) (s t : Bytes) (n : ℕ)
    → length s ≤ n
    → length t ≤ n
    → length (if test then s else t) ≤ n
length-if true s t n a b = a
length-if false s t n a b = b

length-print_number :
    (fuel base n : ℕ) (acc : Bytes) → length (print_number fuel base n acc) ≤ fuel + length acc
unfolding print_number
length-print_number zero base n acc = omega arith
length-print_number (suc fuel) base n acc =
    length-if (n / base == 0) _ _ (suc fuel + length acc) (omega arith)
      (omega (arith, length-print_number fuel base (n / base) (digit (n % base) ∷ acc)))

short_name : (id : ℕ) → length (dir_name id) ≤ 2048
short_name id = omega (arith, length-print_number 8 16 id [])

contents_written :
    (items : List Arrival) (h h' : History)
    → ((path : Bytes) → written path h ≡ [])
    → All (λ a. written a.path h' ≡ written a.path h ++ a.content) items
    → All (λ a. written a.path h' ≡ a.content) items
contents_written [] h h' e w = tt
contents_written (a ∷ items) h h' e (w, ws) =
    (w ∙ ap (λ bs. bs ++ a.content) (e a.path), contents_written items h h' e ws)

module _ (env : Env) (version : ℕ) (kind : SockType) where
  fresh :
      (tries : ℕ) (dirname : Bytes) (s : List Recv)
      → 0 < tries
      → dir_name (env.fresh_id []) ≡ dirname
      → env.answer [] (exists dirname) ≡ false
      → fresh_dir tries env (on kind s []) ≡ (ok dirname, on kind s (call (exists dirname) ∷ []))
  unfolding fresh_dir ◌>>=◌ asks file_exists ask pure
  fresh zero dirname s p i e = absurd (omega arith)
  fresh (suc tries) dirname s p i e = rw (i, e) refl

  new_directory :
      DirsWork env
      → (dirname : Bytes) (s : List Recv) (h : History) → dir_name (env.fresh_id []) ≡ dirname
      → Made kind s h (mkdirs dirname env (on kind s h))
  new_directory dirs dirname s h i =
      subst (λ d. Made kind s h (mkdirs d env (on kind s h))) i
        (mkdirs-Made env dirs kind s b'.' _ h refl (short_name (env.fresh_id [])))

  or_reject-ok :
      (m : Action ℤ) (z : ℤ) (w w1 : World)
      → m env w ≡ (ok z, w1)
      → or_reject resp_communication_failure m env w ≡ (ok z, w1)
  unfolding or_reject
  or_reject-ok m z w w1 e = ap (λ x. or_reject resp_communication_failure (λ e v. x) env w) e

  size_read :
      (n : ℕ) (buf : Bytes) (s s1 : List Recv)
      → read_bytes kind 8 s ≡ (done buf, s1)
      → size_of_bytes buf ≡ pos n
      → read_size env (on kind s []) ≡ (ok (pos n), on kind s1 [])
  unfolding ◌>>=◌ read_size read_sock pure
  size_read n buf s s1 r v = rw (r, v) refl

  allowed :
      (n : ℕ) (w : World)
      → (n == 0 || ltb env.config.max_file_count n) ≡ false
      → receiving version (pos n) env w
        ≡ (do dirname ← fresh_dir env.patience; mkdirs dirname; saving n version dirname) env w
  unfolding ◌>>=◌ asks reject_if pure
  allowed n w t = rw t refl

  counted :
      (n : ℕ) (buf : Bytes) (s s1 : List Recv)
      → read_bytes kind 8 s ≡ (done buf, s1)
      → size_of_bytes buf ≡ pos n
      → (n == 0 || ltb env.config.max_file_count n) ≡ false
      → get_files_dirs version env (on kind s [])
        ≡ (do dirname ← fresh_dir env.patience; mkdirs dirname; saving n version dirname) env
            (on kind s1 [])
  unfolding get_files_dirs ◌>>=◌
  counted n buf s s1 r v t =
      ap (λ x. continue x.0 (receiving version) env x.1)
        (or_reject-ok read_size (pos n) (on kind s []) (on kind s1 []) (size_read n buf s s1 r v))
      ∙ allowed n (on kind s1 []) t

  closed_files :
      (kind : SockType) (items : List Arrival) (s : List Recv) (h : History)
      → All (λ a. written a.path h ≡ a.content) items
      → All (λ a. written a.path (close_if_open kind false (on kind s h)).history ≡ a.content) items
  closed_files null_sock items s h f = f
  closed_files plain_sock items s h f = f
  closed_files ssl_sock items s h f = f

  ends-Arrived :
      (dirname : Bytes) (items : List Arrival) (s : List Recv) (h : History)
      → All (λ a. written a.path h ≡ a.content) items
      → Arrived env version dirname items (ending version dirname env (on kind s h))
  unfolding ◌>>=◌ asks pure close_socket_await
  ends-Arrived dirname items s h f = elim (Bool-cases (leb 4 version)) [
    | inl new ↦ record { now = on kind s h; runs = rw new refl; files = f }
    | inr old ↦ record {
      now = close_if_open kind false (on kind s h);
      runs = rw old refl;
      files = closed_files kind items s h f;
    }
  ]

  saves-Arrived :
      WriteWorks env
      → DirsWork env
      → 2 ≤ version
      → (dirname : Bytes) (items : List Arrival) (s : List Recv) (h : History)
      → All (Placed env version dirname) items
      → AreApart items
      → ((path : Bytes) → written path h ≡ [])
      → Stream kind s (arriving_bytes items ++ [])
      → Arrived env version dirname items (saving (length items) version dirname env (on kind s h))
  unfolding ◌>>=◌
  saves-Arrived writes dirs new dirname items s h placed apart e st =
      let w : WroteAll env writes dirs kind version new dirname h items [] _ =
        save_files-WroteAll env writes dirs kind version new dirname items [] s h placed apart st in
      let a : Arrived env version dirname items
          (ending version dirname env (on kind w.rest w.history)) =
        ends-Arrived dirname items w.rest w.history
          (contents_written items h w.history e w.files) in
      record {
        now = a.now;
        runs = ap (λ r. continue r.0 (λ u. ending version dirname) env r.1) w.runs ∙ a.runs;
        files = a.files;
      }

  within :
      (n : ℕ)
      → 0 < n
      → n ≤ env.config.max_file_count
      → (n == 0 || ltb env.config.max_file_count n) ≡ false
  within n some few = ground arith

  begun :
      (n : ℕ) (dirname : Bytes) (s : List Recv) (h : History)
      → fresh_dir env.patience env (on kind s []) ≡ (ok dirname, on kind s h)
      → (do dirname ← fresh_dir env.patience; mkdirs dirname; saving n version dirname) env
          (on kind s [])
        ≡ (do mkdirs dirname; saving n version dirname) env (on kind s h)
  unfolding ◌>>=◌
  begun n dirname s h e = ap (λ r. continue r.0 (λ d. do mkdirs d; saving n version d) env r.1) e

  pub get_files_dirs-Arrived :
      WriteWorks env
      → DirsWork env
      → 2 ≤ version
      → (dirname : Bytes) (items : List Arrival) (s : List Recv) → 0 < env.patience
      → dir_name (env.fresh_id []) ≡ dirname
      → env.answer [] (exists dirname) ≡ false
      → 0 < length items
      → length items ≤ env.config.max_file_count
      → length items < 2 ^ 63
      → All (Placed env version dirname) items
      → AreApart items
      → Stream kind s (size_bytes (pos (length items)) ++ (arriving_bytes items ++ []))
      → Arrived env version dirname items (get_files_dirs version env (on kind s []))
  unfolding ◌>>=◌
  get_files_dirs-Arrived writes dirs new dirname items s p i e some few small placed apart st =
      let n = length items in
      let (r, st') =
        read_fst kind 8 (size_bytes (pos n)) (arriving_bytes items ++ []) s
          (sym (length-size_bytes (pos n))) st in
      let s1 : List Recv = (read_bytes kind 8 s).1 in
      let h : History = call (exists dirname) ∷ [] in
      let m : Made kind s1 h (mkdirs dirname env (on kind s1 h)) =
        new_directory dirs dirname s1 h i in
      let a : Arrived env version dirname items
          (saving n version dirname env (on kind s1 m.history)) =
        saves-Arrived writes dirs new dirname items s1 m.history placed apart
          (λ path. m.unwritten path) st' in
      record {
        now = a.now;
        runs =
            counted n (size_bytes (pos n)) s s1 r (size_of_bytes-size_bytes (pos n) small)
              (within n some few)
            ∙ begun n dirname s1 h (fresh env.patience dirname s1 p i e)
            ∙ ap (λ r. continue r.0 (λ u. saving n version dirname) env r.1) m.runs
            ∙ a.runs;
        files = a.files;
      }
