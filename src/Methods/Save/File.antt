-- ===== src/Methods/Save/File.antt =====
-- `save_file` of version 1 on a connection that delivers a name and a file.
use clip_share_desktop.Prelude.{
  ℕ, ◌≤◌, ◌<◌, ◌^◌, ◌≡◌, refl, sym, ap, ◌∙◌, true, false, pos, some, List, ◌∷◌, ◌++◌, Bytes, length,
  arith,
}
use clip_share_desktop.Net.{SockType, Recv, read_bytes, done, size_bytes, size_of_bytes}
use clip_share_desktop.Net.Size.{length-size_bytes, size_of_bytes-size_bytes}
use clip_share_desktop.World.{Env, History, call, create, exists}
use clip_share_desktop.Action.Healthy.{on, Stream, read_fst}
use clip_share_desktop.Files.Name.{valid_characters, received_path}
use clip_share_desktop.Methods.Save.{above, save_at, save_file_common, validate_and_save, save_file}
use clip_share_desktop.Methods.Save.Delivered.{WriteWorks, Wrote, save_file_common-Wrote}

module _ (env : Env) (kind : SockType) (version : ℕ) (dirname name : Bytes) where
  pub validated :
      (s : List Recv) (h : History)
      → env.u8_valid name ≡ true
      → valid_characters name ≡ true
      → validate_and_save version dirname name env (on kind s h)
        ≡ save_at version (received_path version dirname name) env (on kind s h)
  unfolding validate_and_save
  validated s h u v = ground arith

  pub named :
      (buf : Bytes) (s s1 s2 : List Recv) (h : History) (n : ℕ)
      → read_bytes kind 8 s ≡ (done buf, s1)
      → size_of_bytes buf ≡ pos n
      → 0 < n
      → n ≤ 2048
      → read_bytes kind n s1 ≡ (done name, s2)
      → save_file version dirname env (on kind s h)
        ≡ validate_and_save version dirname name env (on kind s2 h)
  unfolding save_file
  named buf s s1 s2 h n r v a b r' = ground arith

module _ (env : Env) (kind : SockType) (dirname name : Bytes) (c : ℕ) (p : Bytes) where
  placed :
      (s : List Recv) (h : History)
      → env.answer h (exists (c ∷ p)) ≡ false
      → save_at 1 (some (c ∷ p)) env (on kind s h)
        ≡ save_file_common 1 (c ∷ p) env (on kind s (call (exists (c ∷ p)) ∷ h))
  unfolding save_at
  placed s h a = ground arith

  -- A valid name of 1 to 2048 bytes and a file within the limit arrive, each behind its length and in
  -- segments of any kind. If there is no file yet at the path that the name is given, one can be created
  -- and the disk takes it, then `save_file` of version 1 succeeds, has written the bytes of the file to
  -- the path, and leaves the rest of the stream.
  pub save_file-Wrote :
      (content more : Bytes) (s : List Recv) (h : History)
      → WriteWorks env
      → Stream kind s (
          size_bytes (pos (length name))
          ++ (name ++ (size_bytes (pos (length content)) ++ (content ++ more))))
      → 0 < length name
      → length name ≤ 2048
      → env.u8_valid name ≡ true
      → valid_characters name ≡ true
      → received_path 1 dirname name ≡ some (c ∷ p)
      → env.answer h (exists (c ∷ p)) ≡ false
      → env.answer (call (exists (c ∷ p)) ∷ h) (create (c ∷ p)) ≡ true
      → length content < 2 ^ 63
      → above (pos (length content)) env.config.max_file_size ≡ false
      → Wrote (c ∷ p) kind h content more (save_file 1 dirname env (on kind s h))
  save_file-Wrote content more s h works st z b u v e a cr l lim =
      let rest = size_bytes (pos (length content)) ++ (content ++ more) in
      let h' : History = call (exists (c ∷ p)) ∷ h in
      let s1 = (read_bytes kind 8 s).1 in
      let s2 = (read_bytes kind (length name) s1).1 in
      let (r, st1) =
        read_fst kind 8 (size_bytes (pos (length name))) (name ++ rest) s
          (sym (length-size_bytes (pos (length name)))) st in
      let (r', st2) = read_fst kind (length name) name rest s1 refl st1 in
      let w : Wrote (c ∷ p) kind h' content more _ =
        save_file_common-Wrote env works 1 (c ∷ p) kind content more s2 h' st2 l lim cr in
      record {
        rest = w.rest;
        history = w.history;
        runs =
            named env kind 1 dirname name (size_bytes (pos (length name))) s s1 s2 h (length name) r
              (size_of_bytes-size_bytes (pos (length name)) (omega arith)) z b r'
            ∙ validated env kind 1 dirname name s2 h u v
            ∙ ap (λ o. save_at 1 o env (on kind s2 h)) e
            ∙ placed s2 h a
            ∙ w.runs;
        stream = w.stream;
        file = w.file;
        others = w.others;
      }
