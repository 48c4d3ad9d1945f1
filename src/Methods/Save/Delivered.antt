-- ===== src/Methods/Save/Delivered.antt =====
-- The receive loop of `_save_file_common` on a connection that delivers the file.
use clip_share_desktop.Prelude.{
  ℕ, zero, suc, ◌-◌, ◌≤◌, ◌<◌, ◌^◌, ◌≡◌, refl, sym, ap, ◌∙◌, true, false, str_eq, pos, List, [],
  ◌∷◌, ◌++◌, Bytes, length, min, arith, append_assoc, append-nil, take, drop, take-append-drop,
  length-take, length-drop,
}
use mathlib.Core.Path.{subst}
use clip_share_desktop.Net.Size.{length-size_bytes, size_of_bytes-size_bytes}
use clip_share_desktop.Net.{size_bytes, size_of_bytes, SockType, Recv, read_bytes, done}
use clip_share_desktop.World.{Env, World, History, call, create, write_file}
use clip_share_desktop.Action.{Action, Result, ok, continue}
use clip_share_desktop.Action.Healthy.{on, Stream, read_fst}
use clip_share_desktop.Methods.Save.{
  above, save_contents, save_file_common, receive_block, receive_contents, file_buf_sz,
}
use clip_share_desktop.Methods.Save.Contents.{block-stored}
use clip_share_desktop.World.Trace.{written, written-write_file}

-- The disk takes what it is given.
abbrev pub WriteWorks : Env → Type 0
WriteWorks env = (h : History) (path bs : Bytes) → env.answer h (write_file path bs) ≡ true

-- A run that succeeds, has written these bytes to the path, and leaves the rest of the stream.
pub record Wrote (path : Bytes) (kind : SockType) (h : History) (bs more : Bytes)
    (r : Result (Unit {0}) × World) : Type 0 where
  pub rest : List Recv
  pub history : History
  pub runs : r ≡ (ok tt, on kind rest history)
  pub stream : Stream kind rest more
  pub file : written path history ≡ written path h ++ bs
  pub others : (q : Bytes) → str_eq path q ≡ false → written q history ≡ written q h

module _ (env : Env) (works : WriteWorks env) (path : Bytes) (kind : SockType) where
  block-Wrote :
      (s : List Recv) (h : History) (n : ℕ) (bs more : Bytes)
      → n ≡ length bs
      → Stream kind s (bs ++ more)
      → Wrote path kind h bs more (receive_block path n env (on kind s h))
  block-Wrote s h n bs more e st =
      let (r, st') = read_fst kind n bs more s e st in
      record {
        rest = (read_bytes kind n s).1;
        history = call (write_file path bs) ∷ h;
        runs = block-stored path n env (on kind s h) (read_bytes kind n s).1 bs r (works h path bs);
        stream = st';
        file = written-write_file path bs h;
        others = λ q e. rw e refl;
      }

  Wrote-then :
      (h : History) (bs1 bs2 more : Bytes) (r : Result (Unit {0}) × World) (k : Action (Unit {0}))
      → Wrote path kind h bs1 (bs2 ++ more) r
      → ((s : List Recv) (h' : History)
          → Stream kind s (bs2 ++ more)
          → Wrote path kind h' bs2 more (k env (on kind s h')))
      → Wrote path kind h (bs1 ++ bs2) more (continue r.0 (λ u. k) env r.1)
  Wrote-then h bs1 bs2 more r k a b =
      let c : Wrote path kind a.history bs2 more (k env (on kind a.rest a.history)) =
        b a.rest a.history a.stream in
      record {
        rest = c.rest;
        history = c.history;
        runs = ap (λ q. continue q.0 (λ u. k) env q.1) a.runs ∙ c.runs;
        stream = c.stream;
        file = c.file ∙ ap (λ x. x ++ bs2) a.file ∙ append_assoc (written path h) bs1 bs2;
        others = λ q e. c.others q e ∙ a.others q e;
      }

  receive_n-Wrote :
      (fuel n : ℕ) (bs more : Bytes) (s : List Recv) (h : History)
      → n ≡ length bs
      → n ≤ fuel
      → Stream kind s (bs ++ more)
      → Wrote path kind h bs more (receive_contents fuel path n env (on kind s h))
  unfolding receive_contents
  receive_n-Wrote fuel zero [] more s h e l st = record {
    rest = s;
    history = h;
    runs = refl;
    stream = st;
    file = sym (append-nil (written path h));
    others = λ q e. refl;
  }
  receive_n-Wrote fuel zero (b ∷ bs) more s h e l st = absurd (omega arith)
  receive_n-Wrote zero (suc left) bs more s h e l st = absurd (omega arith)
  receive_n-Wrote (suc fuel) (suc left) bs more s h e l st =
      let len = min (suc left) file_buf_sz in
      let parts : Stream kind s (take len bs ++ (drop len bs ++ more)) =
        subst (Stream kind s)
          (ap (λ x. x ++ more) (sym (take-append-drop len bs))
            ∙ append_assoc (take len bs) (drop len bs) more)
          st in
      subst
        (λ x.
          Wrote path kind h x more (receive_contents (suc fuel) path (suc left) env (on kind s h)))
        (take-append-drop len bs)
        (Wrote-then h (take len bs) (drop len bs) more (receive_block path len env (on kind s h))
          (receive_contents fuel path (suc left - len))
          (block-Wrote s h len (take len bs) (drop len bs ++ more)
            (omega (arith, length-take len bs)) parts)
          (λ s' h' st'.
            receive_n-Wrote fuel (suc left - len) (drop len bs) more s' h'
              (omega (arith, length-drop len bs)) (omega arith) st'))

  -- If the bytes of the file arrive, in segments of any kind, and the disk takes them, the loop
  -- succeeds, has written them in order and nothing else, and leaves the rest of the stream.
  pub receive_contents-Wrote :
      (fuel : ℕ) (bs more : Bytes) (s : List Recv) (h : History)
      → length bs ≤ fuel
      → Stream kind s (bs ++ more)
      → Wrote path kind h bs more (receive_contents fuel path (length bs) env (on kind s h))
  receive_contents-Wrote fuel bs more s h l st =
      receive_n-Wrote fuel (length bs) bs more s h refl l st

module _ (env : Env) (works : WriteWorks env) (version : ℕ) (path : Bytes) (kind : SockType) where
  common_to_contents :
      (buf : Bytes) (n : ℕ) (s s1 : List Recv) (h : History)
      → read_bytes kind 8 s ≡ (done buf, s1)
      → size_of_bytes buf ≡ pos n
      → above (pos n) env.config.max_file_size ≡ false
      → save_file_common version path env (on kind s h)
        ≡ save_contents (pos n) path env (on kind s1 h)
  unfolding save_file_common
  common_to_contents buf n s s1 h r v l = ground arith

  opened_contents :
      (n : ℕ) (s1 : List Recv) (h : History)
      → env.answer h (create path) ≡ true
      → save_contents (pos n) path env (on kind s1 h)
        ≡ receive_contents n path n env (on kind s1 (call (create path) ∷ h))
  unfolding save_contents
  opened_contents n s1 h c = rw c refl

  sized_contents :
      (content : Bytes) (s s1 : List Recv) (h : History)
      → read_bytes kind 8 s ≡ (done (size_bytes (pos (length content))), s1)
      → size_of_bytes (size_bytes (pos (length content))) ≡ pos (length content)
      → above (pos (length content)) env.config.max_file_size ≡ false
      → env.answer h (create path) ≡ true
      → save_file_common version path env (on kind s h)
        ≡ receive_contents
            (length content)
            path
            (length content)
            env
            (on kind s1 (call (create path) ∷ h))
  sized_contents content s s1 h r v l c =
      common_to_contents (size_bytes (pos (length content))) (length content) s s1 h r v l
      ∙ opened_contents (length content) s1 h c

  -- A file within the limit arrives behind its size, in segments of any kind. If the file can be created
  -- and the disk takes it, it is saved: the bytes that are written to the path are those of the file, in
  -- order, and the rest of the stream is left.
  pub save_file_common-Wrote :
      (content more : Bytes) (s : List Recv) (h : History)
      → Stream kind s (size_bytes (pos (length content)) ++ (content ++ more))
      → length content < 2 ^ 63
      → above (pos (length content)) env.config.max_file_size ≡ false
      → env.answer h (create path) ≡ true
      → Wrote path kind h content more (save_file_common version path env (on kind s h))
  save_file_common-Wrote content more s h st b l c =
      let size = size_bytes (pos (length content)) in
      let (r, st') =
        read_fst kind 8 size (content ++ more) s (sym (length-size_bytes (pos (length content))))
          st in
      let s1 = (read_bytes kind 8 s).1 in
      let w : Wrote path kind (call (create path) ∷ h) content more _ =
        receive_contents-Wrote env works path kind (length content) content more s1
          (call (create path) ∷ h) (omega arith) st' in
      record {
        rest = w.rest;
        history = w.history;
        runs =
            sized_contents content s s1 h r (size_of_bytes-size_bytes (pos (length content)) b) l c
            ∙ w.runs;
        stream = w.stream;
        file = w.file;
        others = w.others;
      }
