-- ===== src/Methods/Save/Several.antt =====
-- `save_file` from version 2 on, and several files that arrive.
use clip_share_desktop.Prelude.{
  ℕ, ◌≤◌, ◌<◌, ◌^◌, ◌≡◌, ◌≢◌, refl, sym, ap, ◌∙◌, true, false, some, List, [], ◌∷◌, ◌++◌, Bytes,
  All, length, ltb, pos, arith, str_eq, str_eq→eq, str_eq_sym, append_assoc, Bool-cases, inl, inr,
}
use mathlib.Core.Path.{subst}
use clip_share_desktop.Net.{SockType, Recv, read_bytes, size_bytes}
use clip_share_desktop.Net.Size.{length-size_bytes, size_of_bytes-size_bytes}
use clip_share_desktop.World.{Env, World, History, call, create, exists}
use clip_share_desktop.World.Trace.{written}
use clip_share_desktop.Action.{
  Action, Result, ok, continue, ◌>>=◌, ◌>>◌, file_exists, fail_if, pure, ask,
}
use clip_share_desktop.Action.Healthy.{on, Stream, read_fst}
use clip_share_desktop.Text.{before_last_sep}
use clip_share_desktop.Files.Mkdirs.{make_directories}
use clip_share_desktop.Files.Name.{valid_characters, received_path}
use clip_share_desktop.Methods.Save.{above, save_at, save_file_common, save_file}
use clip_share_desktop.Methods.Save.Delivered.{WriteWorks, Wrote, save_file_common-Wrote}
use clip_share_desktop.Methods.Save.File.{validated, named}
use clip_share_desktop.Methods.Save.Made.{DirsWork, Made, make_directories-Made}
use clip_share_desktop.Methods.Receive.{save_files}
use clip_share_desktop.Methods.Send.File.{file_bytes}

-- A file that arrives: its name, the path that it gets, and its bytes.
pub record Arrival : Type 0 where
  pub name : Bytes
  pub path : Bytes
  pub content : Bytes

-- The place for it: a name that is accepted, a path behind `.` where no file is yet and one can be
-- created, and a size within the limit.
pub record Placed (env : Env) (version : ℕ) (dirname : Bytes) (a : Arrival) : Type 0 where
  pub some_name : 0 < length a.name
  pub short : length a.name ≤ 2048
  pub valid : env.u8_valid a.name ≡ true
  pub characters : valid_characters a.name ≡ true
  pub placed : received_path version dirname a.name ≡ some a.path
  pub some_path : 0 < length a.path
  pub parent : Bytes
  pub in_parent : before_last_sep a.path ≡ some (b'.' ∷ parent)
  pub short_parent : length (b'.' ∷ parent) ≤ 2048
  pub absent : (h : History) → env.answer h (exists a.path) ≡ false
  pub creates : (h : History) → env.answer h (create a.path) ≡ true
  pub allowed : above (pos (length a.content)) env.config.max_file_size ≡ false
  pub small : length a.content < 2 ^ 63

-- The bytes of the files, one behind the other.
abbrev pub arriving_bytes : List Arrival → Bytes
arriving_bytes [] = []
arriving_bytes (a ∷ items) = file_bytes a.name a.content ++ arriving_bytes items

-- No two files have the same path.
abbrev pub AreApart : List Arrival → Type 0
AreApart [] = Unit
AreApart (a ∷ items) = All (λ b. a.path ≢ b.path) items × AreApart items

differ : (a b : Bytes) → a ≢ b → str_eq a b ≡ false
differ a b n = elim (Bool-cases (str_eq a b)) [ inl t ↦ absurd (n (str_eq→eq a b t)) | inr f ↦ f ]

-- What the file before did not write.
rebase :
    (p : Bytes) (h h1 h2 : History) (items : List Arrival)
    → ((q : Bytes) → str_eq p q ≡ false → written q h1 ≡ written q h)
    → All (λ b. p ≢ b.path) items
    → All (λ b. written b.path h2 ≡ written b.path h1 ++ b.content) items
    → All (λ b. written b.path h2 ≡ written b.path h ++ b.content) items
rebase p h h1 h2 [] o n w = tt
rebase p h h1 h2 (b ∷ items) o (n, ns) (w, ws) =
    (w ∙ ap (λ x. x ++ b.content) (o b.path (differ p b.path n)), rebase p h h1 h2 items o ns ws)

each_differs :
    (p : Bytes) (items : List Arrival)
    → All (λ b. p ≢ b.path) items
    → All (λ b. str_eq b.path p ≡ false) items
each_differs p [] n = tt
each_differs p (b ∷ items) (n, ns) =
    (str_eq_sym b.path p ∙ differ p b.path n, each_differs p items ns)

small_name : (n : ℕ) → n ≤ 2048 → n < 2 ^ 63
small_name n l = omega arith

module _ (env : Env) (works : WriteWorks env) (dirs : DirsWork env) (kind : SockType) (version : ℕ)
    (new : 2 ≤ version) (dirname : Bytes) where
  unfound :
      (c : ℕ) (p : Bytes) (s : List Recv) (h : History)
      → env.answer h (exists (c ∷ p)) ≡ false
      → (do there ← file_exists (c ∷ p); fail_if there; save_file_common version (c ∷ p)) env
          (on kind s h)
        ≡ save_file_common version (c ∷ p) env (on kind s (call (exists (c ∷ p)) ∷ h))
  unfolding ◌>>=◌ file_exists fail_if pure ask
  unfound c p s h a = rw a refl

  in_place :
      (c : ℕ) (p parent : Bytes) (s : List Recv) (h : History)
      → (made : Made kind s h (make_directories (c ∷ p) env (on kind s h)))
      → env.answer made.history (exists (c ∷ p)) ≡ false
      → save_at version (some (c ∷ p)) env (on kind s h)
        ≡ save_file_common version (c ∷ p) env (on kind s (call (exists (c ∷ p)) ∷ made.history))
  unfolding save_at ◌>>=◌
  in_place c p parent s h made a =
      let two : ltb 1 version ≡ true = ground arith in
      rw (save_at, two)
        (ap
            (λ (r : Result (Unit {0}) × World).
              continue r.0
                (λ u. do
                  there ← file_exists (c ∷ p)
                  fail_if there
                  save_file_common version (c ∷ p))
                env r.1)
            made.runs
          ∙ unfound c p s made.history a)

  placed-Wrote :
      (c : ℕ) (p parent content more : Bytes) (s : List Recv) (h : History)
      → Stream kind s (size_bytes (pos (length content)) ++ (content ++ more))
      → before_last_sep (c ∷ p) ≡ some (b'.' ∷ parent)
      → length (b'.' ∷ parent) ≤ 2048
      → ((h : History) → env.answer h (exists (c ∷ p)) ≡ false)
      → ((h : History) → env.answer h (create (c ∷ p)) ≡ true)
      → length content < 2 ^ 63
      → above (pos (length content)) env.config.max_file_size ≡ false
      → Wrote (c ∷ p) kind h content more (save_at version (some (c ∷ p)) env (on kind s h))
  placed-Wrote c p parent content more s h st b l a cr small lim =
      let made : Made kind s h (make_directories (c ∷ p) env (on kind s h)) =
        make_directories-Made env dirs kind s (c ∷ p) b'.' parent h b refl l in
      let h' : History = call (exists (c ∷ p)) ∷ made.history in
      let w : Wrote (c ∷ p) kind h' content more _ =
        save_file_common-Wrote env works version (c ∷ p) kind content more s h' st small lim
          (cr h') in
      record {
        rest = w.rest;
        history = w.history;
        runs = in_place c p parent s h made (a made.history) ∙ w.runs;
        stream = w.stream;
        file = w.file ∙ ap (λ x. x ++ content) (made.unwritten (c ∷ p));
        others = λ q e. w.others q e ∙ made.unwritten q;
      }

  path-Wrote :
      (path parent content more : Bytes) (s : List Recv) (h : History)
      → 0 < length path
      → Stream kind s (size_bytes (pos (length content)) ++ (content ++ more))
      → before_last_sep path ≡ some (b'.' ∷ parent)
      → length (b'.' ∷ parent) ≤ 2048
      → ((h : History) → env.answer h (exists path) ≡ false)
      → ((h : History) → env.answer h (create path) ≡ true)
      → length content < 2 ^ 63
      → above (pos (length content)) env.config.max_file_size ≡ false
      → Wrote path kind h content more (save_at version (some path) env (on kind s h))
  path-Wrote [] parent content more s h z st b l a cr small lim = absurd (omega arith)
  path-Wrote (c ∷ p) parent content more s h z st b l a cr small lim =
      placed-Wrote c p parent content more s h st b l a cr small lim

  arrival-Wrote :
      (a : Arrival) (more : Bytes) (s : List Recv) (h : History)
      → Placed env version dirname a
      → Stream kind s (
          size_bytes (pos (length a.name))
          ++ (a.name ++ (size_bytes (pos (length a.content)) ++ (a.content ++ more))))
      → Wrote a.path kind h a.content more (save_file version dirname env (on kind s h))
  arrival-Wrote a more s h pl st =
      let rest = size_bytes (pos (length a.content)) ++ (a.content ++ more) in
      let s1 = (read_bytes kind 8 s).1 in
      let s2 = (read_bytes kind (length a.name) s1).1 in
      let (r, st1) =
        read_fst kind 8 (size_bytes (pos (length a.name))) (a.name ++ rest) s
          (sym (length-size_bytes (pos (length a.name)))) st in
      let (r', st2) = read_fst kind (length a.name) a.name rest s1 refl st1 in
      let w : Wrote a.path kind h a.content more
          (save_at version (some a.path) env (on kind s2 h)) =
        path-Wrote a.path pl.parent a.content more s2 h pl.some_path st2 pl.in_parent
          pl.short_parent pl.absent pl.creates pl.small pl.allowed in
      record {
        rest = w.rest;
        history = w.history;
        runs =
            named env kind version dirname a.name (size_bytes (pos (length a.name))) s s1 s2 h
              (length a.name) r
              (size_of_bytes-size_bytes (pos (length a.name)) (small_name (length a.name) pl.short))
              pl.some_name pl.short r'
            ∙ validated env kind version dirname a.name s2 h pl.valid pl.characters
            ∙ ap (λ o. save_at version o env (on kind s2 h)) pl.placed
            ∙ w.runs;
        stream = w.stream;
        file = w.file;
        others = w.others;
      }

  -- Each of the files has been written, and nothing else.
  pub record WroteAll (h : History) (items : List Arrival) (more : Bytes)
      (r : Result (Unit {0}) × World) : Type 0 where
    pub rest : List Recv
    pub history : History
    pub runs : r ≡ (ok tt, on kind rest history)
    pub stream : Stream kind rest more
    pub files : All (λ a. written a.path history ≡ written a.path h ++ a.content) items
    pub others :
        (q : Bytes) → All (λ a. str_eq a.path q ≡ false) items → written q history ≡ written q h

  onward-WroteAll :
      (a : Arrival) (items : List Arrival) (h : History) (more : Bytes) (m : Action (Unit {0}))
      (r : Result (Unit {0}) × World)
      → All (λ b. a.path ≢ b.path) items
      → Wrote a.path kind h a.content (arriving_bytes items ++ more) r
      → ((s : List Recv) (h' : History)
          → Stream kind s (arriving_bytes items ++ more)
          → WroteAll h' items more (m env (on kind s h')))
      → WroteAll h (a ∷ items) more (continue r.0 (λ u. m) env r.1)
  onward-WroteAll a items h more m r apart w k =
      let b : WroteAll w.history items more (m env (on kind w.rest w.history)) =
        k w.rest w.history w.stream in
      record {
        rest = b.rest;
        history = b.history;
        runs = ap (λ r. continue r.0 (λ u. m) env r.1) w.runs ∙ b.runs;
        stream = b.stream;
        files = (
          b.others a.path (each_differs a.path items apart) ∙ w.file,
          rebase a.path h w.history b.history items w.others apart b.files,
        );
        others = λ q e. b.others q e.1 ∙ w.others q e.0;
      }

  -- The files are saved one after the other, each to its path.
  pub save_files-WroteAll :
      (items : List Arrival) (more : Bytes) (s : List Recv) (h : History)
      → All (Placed env version dirname) items
      → AreApart items
      → Stream kind s (arriving_bytes items ++ more)
      → WroteAll h items more (save_files (length items) version dirname env (on kind s h))
  unfolding save_files ◌>>=◌
  save_files-WroteAll [] more s h p n st = record {
    rest = s;
    history = h;
    runs = refl;
    stream = st;
    files = tt;
    others = λ q e. refl;
  }
  save_files-WroteAll (a ∷ items) more s h (p, ps) (n, ns) st =
      onward-WroteAll a items h more (save_files (length items) version dirname)
        (save_file version dirname env (on kind s h)) n
        (arrival-Wrote a (arriving_bytes items ++ more) s h p
          (subst (Stream kind s) (simp append_assoc) st))
        (λ s' h' st'. save_files-WroteAll items more s' h' ps ns st')
